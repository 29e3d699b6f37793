-- ===== src/Common/Sort.antt =====
-- `xs.sort(compare)`: a stable sort by a comparator. A comparator's number is read by its sign, as
-- an `Ordering`. Where the comparator is a consistent order the stable result is the only one.
use loop_proof.Common.Lists.{length, All, All-map, sum_by}
use Prim.Native.Nat.{ℕ, suc, ◌+◌, Ordering}
use mathlib.Core.Path.{◌≡◌, refl, ap, ◌∙◌}
use mathlib.Core.Logic.{◌≢◌, ◌⊎◌, inl, inr}
use mathlib.Core.List.{List, [], ◌∷◌, Perm}
use mathlib.Core.List.Perm
use native.Mathlib.Omega.{arith}

-- `first || second`: the second comparison counts where the first gives 0.
abbrev pub or_else : Ordering → Ordering → Ordering
or_else Ordering.eq second = second
or_else first second = first

abbrev pub flip : Ordering → Ordering
flip Ordering.lt = Ordering.gt
flip Ordering.eq = Ordering.eq
flip Ordering.gt = Ordering.lt

pub Ordering-cases : (o : Ordering) → (o ≡ Ordering.lt) ⊎ ((o ≡ Ordering.eq) ⊎ (o ≡ Ordering.gt))
Ordering-cases Ordering.lt = inl refl
Ordering-cases Ordering.eq = inr (inl refl)
Ordering-cases Ordering.gt = inr (inr refl)

-- What a comparator must meet for `sort` to have one meaning: swapping the arguments swaps the
-- answer, and "not after" is transitive.
pub record IsComparator {ℓ} {A : Type ℓ} (cmp : A → A → Ordering) : Type ℓ where
  pub flips : (x y : A) → cmp y x ≡ flip (cmp x y)
  pub chains : (x y z : A) → cmp x y ≢ Ordering.gt → cmp y z ≢ Ordering.gt → cmp x z ≢ Ordering.gt

module _ {ℓ} {A : Type ℓ} (cmp : A → A → Ordering) where
  unfoldable pub sort_insert : A → List A → List A
  sort_insert x [] = x ∷ []
  sort_insert x (y ∷ ys) =
      let later = y ∷ sort_insert x ys in elim (cmp x y) [ Ordering.gt ↦ later | _ ↦ x ∷ y ∷ ys ]

  unfoldable pub sort : List A → List A
  unfolding sort_insert
  sort [] = []
  sort (x ∷ xs) = sort_insert x (sort xs)

  -- Every element stands no later than the ones behind it.
  abbrev pub IsSorted : List A → Type ℓ
  IsSorted [] = Unit
  IsSorted (x ∷ xs) = All (λ y. cmp x y ≢ Ordering.gt) xs × IsSorted xs

module _ {ℓ} {A : Type ℓ} (cmp : A → A → Ordering) where
  sort_insert-perm : (x : A) (ys : List A) → Perm (sort_insert cmp x ys) (x ∷ ys)
  unfolding sort_insert
  sort_insert-perm x [] = Perm.rfl
  sort_insert-perm x (y ∷ ys) =
      let moved = Perm.trans (Perm.cons y (sort_insert-perm x ys)) (Perm.swap x y ys) in
      let kept : Perm (x ∷ y ∷ ys) (x ∷ y ∷ ys) = Perm.rfl in
      elim (cmp x y)
        as (λ o.
          Perm (elim o [ Ordering.gt ↦ y ∷ sort_insert cmp x ys | _ ↦ x ∷ y ∷ ys ]) (x ∷ y ∷ ys)) [
            | Ordering.gt ↦ moved
            | _ ↦ kept
          ]

  -- Sorting keeps every element, as often as it was there.
  pub sort-perm : (xs : List A) → Perm (sort cmp xs) xs
  unfolding sort
  sort-perm [] = Perm.rfl
  sort-perm (x ∷ xs) = Perm.trans (sort_insert-perm x (sort cmp xs)) (Perm.cons x (sort-perm xs))

  sum_by-sort_insert :
      (f : A → ℕ) (x : A) (ys : List A) → sum_by f (sort_insert cmp x ys) ≡ f x + sum_by f ys
  unfolding sort_insert
  sum_by-sort_insert f x [] = refl
  sum_by-sort_insert f x (y ∷ ys) = ground (arith, sum_by-sort_insert f x ys)

  pub sum_by-sort : (f : A → ℕ) (xs : List A) → sum_by f (sort cmp xs) ≡ sum_by f xs
  unfolding sort
  sum_by-sort f [] = refl
  sum_by-sort f (x ∷ xs) = sum_by-sort_insert f x (sort cmp xs) ∙ ap (◌+◌ (f x)) (sum_by-sort f xs)

  length-sort_insert : (x : A) (ys : List A) → length (sort_insert cmp x ys) ≡ suc (length ys)
  unfolding sort_insert
  length-sort_insert x [] = refl
  length-sort_insert x (y ∷ ys) = ground (arith, length-sort_insert x ys)

  pub length-sort : (xs : List A) → length (sort cmp xs) ≡ length xs
  unfolding sort
  length-sort [] = refl
  length-sort (x ∷ xs) = length-sort_insert x (sort cmp xs) ∙ ap suc (length-sort xs)

  pub All-sort_insert {κ} :
      (P : A → Type κ) (x : A) (ys : List A) → P x → All P ys → All P (sort_insert cmp x ys)
  unfolding sort_insert
  All-sort_insert P x [] px pys = (px, tt)
  All-sort_insert P x (y ∷ ys) px pys =
      let later = All-sort_insert P x ys px pys.1 in
      elim (cmp x y)
        as (λ o. All P (elim o [ Ordering.gt ↦ y ∷ sort_insert cmp x ys | _ ↦ x ∷ y ∷ ys ])) [
          | Ordering.gt ↦ (pys.0, later)
          | _ ↦ (px, pys)
        ]

  pub All-sort {κ} : (P : A → Type κ) (xs : List A) → All P xs → All P (sort cmp xs)
  unfolding sort
  All-sort P [] h = tt
  All-sort P (x ∷ xs) h = All-sort_insert P x (sort cmp xs) h.0 (All-sort P xs h.1)

  All-unsort_insert {κ} :
      (P : A → Type κ) (x : A) (ys : List A) → All P (sort_insert cmp x ys) → P x × All P ys
  unfolding sort_insert
  All-unsort_insert P x [] h = h
  All-unsort_insert P x (y ∷ ys) h = elim (Ordering-cases (cmp x y)) [
    | inl lt ↦ rw (lt, sort_insert) at h
    | inr (inl eq) ↦ rw (eq, sort_insert) at h
    | inr (inr gt) ↦
        let h' : All P (y ∷ sort_insert cmp x ys) = rw (gt, sort_insert) at h in
        let (px, pys) = All-unsort_insert P x ys h'.1 in (px, (h'.0, pys))
  ]

  pub All-unsort {κ} : (P : A → Type κ) (xs : List A) → All P (sort cmp xs) → All P xs
  unfolding sort
  All-unsort P [] h = tt
  All-unsort P (x ∷ xs) h =
      let (px, rest) = All-unsort_insert P x (sort cmp xs) h in (px, All-unsort P xs rest)

  -- A list in order is left as it is.
  pub sort_of_sorted : (xs : List A) → IsSorted cmp xs → sort cmp xs ≡ xs
  unfolding sort sort_insert
  sort_of_sorted [] h = refl
  sort_of_sorted (x ∷ []) h = refl
  sort_of_sorted (x ∷ y ∷ ys) h =
      rw (sort_of_sorted (y ∷ ys) h.1) (elim (Ordering-cases (cmp x y)) [
        | inl lt ↦ rw (lt, sort_insert)
        | inr (inl eq) ↦ rw (eq, sort_insert)
        | inr (inr gt) ↦ absurd (h.0.0 gt)
      ])

  module _ (order : IsComparator cmp) where
    open order use {flips, chains}

    All-after :
        (x y : A) (ys : List A)
        → cmp x y ≢ Ordering.gt
        → All (λ z. cmp y z ≢ Ordering.gt) ys
        → All (λ z. cmp x z ≢ Ordering.gt) ys
    All-after x y ys h hs = All-map (λ z later. chains x y z h later) ys hs

    sort_insert-IsSorted :
        (x : A) (ys : List A) → IsSorted cmp ys → IsSorted cmp (sort_insert cmp x ys)
    unfolding sort_insert
    sort_insert-IsSorted x [] h = (tt, tt)
    sort_insert-IsSorted x (y ∷ ys) h =
        let before : cmp x y ≢ Ordering.gt → IsSorted cmp (x ∷ y ∷ ys) =
          λ e. ((e, All-after x y ys e h.0), h) in
        elim (Ordering-cases (cmp x y)) [
          | inl lt ↦ rw (lt, sort_insert) (before (λ e. cc))
          | inr (inl eq) ↦ rw (eq, sort_insert) (before (λ e. cc))
          | inr (inr gt) ↦
              rw (gt, sort_insert)
                (
                  All-sort_insert (λ z. cmp y z ≢ Ordering.gt) x ys
                      (λ e. let back : cmp y x ≡ Ordering.lt = rw gt at (flips x y) in cc) h.0,
                  sort_insert-IsSorted x ys h.1,
                )
        ]

    -- By a consistent comparator the result is in order.
    pub sort-IsSorted : (xs : List A) → IsSorted cmp (sort cmp xs)
    unfolding sort
    sort-IsSorted [] = tt
    sort-IsSorted (x ∷ xs) = sort_insert-IsSorted x (sort cmp xs) (sort-IsSorted xs)
