-- ===== src/Common/Keys.antt =====
-- `Set`: a list without repetitions in insertion order, over keys with a Boolean equality.
use Prim.Native.Nat.{ℕ, suc, ◌+◌, ◌≤◌}
use mathlib.Core.Path.{◌≡◌, refl, sym, ap, ◌∙◌}
use mathlib.Core.Logic.{inl, inr, ◌↔◌}
use mathlib.Core.List.{List, [], ◌∷◌, ◌++◌, append_assoc, append-nil}
use mathlib.Core.Bool.{Bool, true, false, ◌||◌}
use native.Mathlib.Omega.{arith}
use loop_proof.Common.Tests.{if◌then◌else◌, Bool-cases, ◌==◌ as nat_beq, ==_iff}
use loop_proof.Common.Texts.{Text, text_eq, text_eq_iff}
use loop_proof.Common.Lists
use loop_proof.Common.Lists.{length, any}

-- A type of keys: `===` on them tells equal ones apart from others.
pub record Key {ℓ} (K : Type ℓ) : Type ℓ where
  pub same : K → K → Bool
  pub same_iff : (left right : K) → (same left right ≡ true) ↔ (left ≡ right)

instance abbrev pub keys_by_text : Key Text
keys_by_text = record { same_iff = text_eq_iff; same = text_eq }

instance abbrev pub nat_eq : Key ℕ
nat_eq = record { same_iff = ==_iff; same = nat_beq }

module _ {ℓ} {A : Type ℓ} ⦃e : Key A⦄ where
  -- `set.has(key)`, `list.includes(key)`
  unfoldable pub has : A → List A → Bool
  has k [] = false
  has k (x ∷ xs) = e.same k x || has k xs

  -- `set.add(key)`
  unfoldable pub add : A → List A → List A
  unfolding has
  add k xs = if has k xs then xs else xs ++ k ∷ []

  -- `keys.forEach((key) => set.add(key))`
  unfoldable pub add_all : List A → List A → List A
  unfolding add
  add_all [] xs = xs
  add_all (k ∷ ks) xs = add_all ks (add k xs)

  -- `new Set(keys)`
  unfoldable pub set_of : List A → List A
  unfolding add_all
  set_of ks = add_all ks []

  -- No key stands twice.
  abbrev pub IsDistinct : List A → Type 0
  IsDistinct [] = Unit
  IsDistinct (x ∷ xs) = (has x xs ≡ false) × IsDistinct xs

  -- No key of the first list is in the second.
  abbrev pub IsFresh : List A → List A → Type 0
  IsFresh [] xs = Unit
  IsFresh (k ∷ ks) xs = (has k xs ≡ false) × IsFresh ks xs

module _ {ℓ} {A : Type ℓ} ⦃e : Key A⦄ where
  pub beq_refl : (a : A) → e.same a a ≡ true
  beq_refl a = (e.same_iff a a).1 refl

  pub beq_swap : (a b : A) → e.same a b ≡ false → e.same b a ≡ false
  beq_swap a b h = elim (Bool-cases (e.same b a)) [
    | inl same ↦
        let swapped : e.same a b ≡ true = (e.same_iff a b).1 (sym ((e.same_iff b a).0 same)) in cc
    | inr other ↦ other
  ]

  pub has-append : (k : A) (xs ys : List A) → has k (xs ++ ys) ≡ (has k xs || has k ys)
  unfolding has
  has-append k [] ys = refl
  has-append k (x ∷ xs) ys = ground (arith, has-append k xs ys)

  pub has-snoc_self : (k : A) (xs : List A) → has k (xs ++ k ∷ []) ≡ true
  unfolding has
  has-snoc_self k [] = rw (beq_refl k)
  has-snoc_self k (x ∷ xs) = ground (arith, has-snoc_self k xs)

  pub IsDistinct-snoc :
      (k : A) (xs : List A) → has k xs ≡ false → IsDistinct xs → IsDistinct (xs ++ k ∷ [])
  unfolding has
  IsDistinct-snoc k [] h d = (refl, tt)
  IsDistinct-snoc k (x ∷ xs) h d = (
    ground (arith, has-append x xs (k ∷ []), beq_swap k x),
    IsDistinct-snoc k xs (ground arith) d.1,
  )

  pub add-IsDistinct : (k : A) (xs : List A) → IsDistinct xs → IsDistinct (add k xs)
  unfolding add
  add-IsDistinct k xs d = elim (Bool-cases (has k xs)) [
    | inl old ↦ rw old d
    | inr new ↦ rw new (IsDistinct-snoc k xs new d)
  ]

  pub add_all-IsDistinct : (ks xs : List A) → IsDistinct xs → IsDistinct (add_all ks xs)
  unfolding add_all
  add_all-IsDistinct [] xs d = d
  add_all-IsDistinct (k ∷ ks) xs d = add_all-IsDistinct ks (add k xs) (add-IsDistinct k xs d)

  pub set_of-IsDistinct : (ks : List A) → IsDistinct (set_of ks)
  unfolding set_of
  set_of-IsDistinct ks = add_all-IsDistinct ks [] tt

  IsFresh-snoc :
      (k : A) (ks xs : List A) → has k ks ≡ false → IsFresh ks xs → IsFresh ks (xs ++ k ∷ [])
  unfolding has
  IsFresh-snoc k [] xs h f = tt
  IsFresh-snoc k (x ∷ ks) xs h f = (
    ground (arith, has-append x xs (k ∷ []), beq_swap k x),
    IsFresh-snoc k ks xs (ground arith) f.1,
  )

  -- Distinct keys that are all new are added in their order.
  pub add_all_fresh : (ks xs : List A) → IsDistinct ks → IsFresh ks xs → add_all ks xs ≡ xs ++ ks
  unfolding add_all add
  add_all_fresh [] xs d f = sym (append-nil xs)
  add_all_fresh (k ∷ ks) xs d f = rw (f.0) (
      add_all_fresh ks (xs ++ k ∷ []) d.1 (IsFresh-snoc k ks xs d.0 f.1)
      ∙ append_assoc xs (k ∷ []) ks)

  length-add-le : (k : A) (xs : List A) → length (add k xs) ≤ suc (length xs)
  unfolding add
  length-add-le k xs = ground (arith, Lists.length-append xs (k ∷ []))

  length-add_all-le : (ks xs : List A) → length (add_all ks xs) ≤ length xs + length ks
  unfolding add_all
  length-add_all-le [] xs = omega arith
  length-add_all-le (k ∷ ks) xs = omega (arith, length-add-le k xs, length-add_all-le ks (add k xs))

  IsFresh-unsnoc :
      (k : A) (ks xs : List A) → IsFresh ks (xs ++ k ∷ []) → (has k ks ≡ false) × IsFresh ks xs
  unfolding has
  IsFresh-unsnoc k [] xs f = (refl, tt)
  IsFresh-unsnoc k (x ∷ ks) xs f =
      let (absent, fresh) = IsFresh-unsnoc k ks xs f.1 in
      let parts : (has x xs || has x (k ∷ [])) ≡ false = rw (has-append x xs (k ∷ [])) at f.0 in
      (ground (arith, beq_swap x k), (ground arith, fresh))

  IsDistinct-of_length :
      (ks xs : List A)
      → length (add_all ks xs) ≡ length xs + length ks
      → IsDistinct ks × IsFresh ks xs
  unfolding add_all
  IsDistinct-of_length [] xs h = (tt, tt)
  IsDistinct-of_length (k ∷ ks) xs h = elim (Bool-cases (has k xs)) [
    | inl old ↦
        let same : add k xs ≡ xs = unfold add in rw old in
        absurd (omega (arith, length-add_all-le ks xs, rw same at h))
    | inr new ↦
        let grown : add k xs ≡ xs ++ k ∷ [] = unfold add in rw new in
        let (distinct, fresh) =
          IsDistinct-of_length ks (xs ++ k ∷ [])
            (omega (arith, rw grown at h, Lists.length-append xs (k ∷ []))) in
        let (absent, old_fresh) = IsFresh-unsnoc k ks xs fresh in
        ((absent, distinct), (new, old_fresh))
  ]

  -- `new Set(keys).size === keys.length` says that the keys are distinct.
  pub IsDistinct-of_size : (ks : List A) → length (set_of ks) ≡ length ks → IsDistinct ks
  unfolding set_of
  IsDistinct-of_size ks h = (IsDistinct-of_length ks [] (omega arith)).0

  pub every_new_IsFresh : (ks xs : List A) → any (λ k. has k xs) ks ≡ false → IsFresh ks xs
  every_new_IsFresh [] xs h = tt
  every_new_IsFresh (k ∷ ks) xs h = (ground arith, every_new_IsFresh ks xs (ground arith))

  IsFresh-nil : (ks : List A) → IsFresh ks []
  unfolding has
  IsFresh-nil [] = tt
  IsFresh-nil (k ∷ ks) = (refl, IsFresh-nil ks)

  pub size_of_distinct : (ks : List A) → IsDistinct ks → length (set_of ks) ≡ length ks
  unfolding set_of
  size_of_distinct ks d = rw (add_all_fresh ks [] d (IsFresh-nil ks))

  has-add : (k j : A) (xs : List A) → has k (add j xs) ≡ (e.same k j || has k xs)
  unfolding add has
  has-add k j xs = elim (Bool-cases (has j xs)) [
    | inl old ↦ elim (Bool-cases (e.same k j)) [
      | inl same ↦
          let equal : k ≡ j = (e.same_iff k j).0 same in ground (arith, ap (λ x. has x xs) equal)
      | inr other ↦ ground arith
    ]
    | inr new ↦ ground (arith, has-append k xs (j ∷ []))
  ]

  has-add_all : (k : A) (ks xs : List A) → has k (add_all ks xs) ≡ (has k ks || has k xs)
  unfolding add_all has
  has-add_all k [] xs = refl
  has-add_all k (j ∷ ks) xs = ground (arith, has-add_all k ks (add j xs), has-add k j xs)

  pub has-set_of : (k : A) (ks : List A) → has k (set_of ks) ≡ has k ks
  unfolding set_of
  has-set_of k ks = ground (arith, has-add_all k ks [])
