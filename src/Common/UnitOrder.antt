-- ===== src/Common/UnitOrder.antt =====
-- The order of texts by code units is a total order, and sorting by a total order forgets in which
-- order the elements were given.
use mathlib.Core.Path.{◌≡◌, refl, ap₂, subst, ◌∙◌}
use mathlib.Core.Logic.{inl, inr, ◌≢◌, ∥∥₁_elim}
use mathlib.Core.List
use mathlib.Core.List.{List, [], ◌∷◌, Perm, Permᴰ}
use Prim.Native.Nat.{Ordering}
use native.Mathlib.Omega.{arith}
use native.Mathlib.Nat.{ℕ_set}
use loop_proof.Common.Texts.{Text, unit_order}
use loop_proof.Common.Sort.{sort_insert, sort, flip, IsComparator, Ordering-cases}

unit_order_flips : (s t : Text) → unit_order t s ≡ flip (unit_order s t)
unfolding unit_order
unit_order_flips [] [] = refl
unit_order_flips [] (b ∷ t) = refl
unit_order_flips (a ∷ s) [] = refl
unit_order_flips (a ∷ s) (b ∷ t) = ground (arith, unit_order_flips s t)

pub unit_order_eq : (s t : Text) → unit_order s t ≡ Ordering.eq → s ≡ t
unfolding unit_order
unit_order_eq [] [] h = refl
unit_order_eq [] (b ∷ t) h = cc
unit_order_eq (a ∷ s) [] h = cc
unit_order_eq (a ∷ s) (b ∷ t) h = ground (arith, unit_order_eq s t)

unit_order_chains :
    (s t u : Text)
    → unit_order s t ≢ Ordering.gt
    → unit_order t u ≢ Ordering.gt
    → unit_order s u ≢ Ordering.gt
unfolding unit_order
unit_order_chains [] t [] h k = λ e. cc
unit_order_chains [] t (c ∷ u) h k = λ e. cc
unit_order_chains (a ∷ s) [] u h k = absurd (h refl)
unit_order_chains (a ∷ s) (b ∷ t) [] h k = absurd (k refl)
unit_order_chains (a ∷ s) (b ∷ t) (c ∷ u) h k = ground (arith, unit_order_chains s t u)

pub unit_order-IsComparator : IsComparator unit_order
unit_order-IsComparator = record { flips = unit_order_flips; chains = unit_order_chains }

module _ {ℓ} {A : Type ℓ} (cmp : A → A → Ordering) (order : IsComparator cmp)
    (same : (x y : A) → cmp x y ≡ Ordering.eq → x ≡ y) where
  open order use {flips, chains}

  insert_swap :
      (x y : A) (zs : List A)
      → sort_insert cmp x (sort_insert cmp y zs) ≡ sort_insert cmp y (sort_insert cmp x zs)
  unfolding sort_insert
  insert_swap x y [] = elim (Ordering-cases (cmp x y)) [
    | inl lt ↦ ground (arith, flips x y)
    | inr (inl eq) ↦
        subst (λ w. sort_insert cmp x (w ∷ []) ≡ sort_insert cmp w (x ∷ [])) (same x y eq) refl
    | inr (inr gt) ↦ ground (arith, flips x y)
  ]
  insert_swap x y (z ∷ zs) = elim (Ordering-cases (cmp x y)) [
    | inl lt ↦ ground (arith, flips x y, chains x y z, insert_swap x y zs)
    | inr (inl eq) ↦
        subst
          (λ w.
            sort_insert cmp x (sort_insert cmp w (z ∷ zs))
            ≡ sort_insert cmp w (sort_insert cmp x (z ∷ zs)))
          (same x y eq) refl
    | inr (inr gt) ↦ ground (arith, flips x y, chains y x z, insert_swap x y zs)
  ]

  sort_of_permᴰ : {xs ys : List A} → Permᴰ xs ys → sort cmp xs ≡ sort cmp ys
  unfolding sort
  sort_of_permᴰ Permᴰ.nil = refl
  sort_of_permᴰ (Permᴰ.cons e p) = ap₂ (sort_insert cmp) e (sort_of_permᴰ p)
  sort_of_permᴰ (Permᴰ.swap {a = x} {b = y} {l = zs} e f) =
      insert_swap x y (sort cmp zs)
      ∙ ap₂ (λ u v. sort_insert cmp u (sort_insert cmp v (sort cmp zs))) f e
  sort_of_permᴰ (Permᴰ.trans p q) = sort_of_permᴰ p ∙ sort_of_permᴰ q

  -- By a total order two arrangements of the same elements are sorted into one list.
  pub sort_of_perm : IsSet A → {xs ys : List A} → Perm xs ys → sort cmp xs ≡ sort cmp ys
  sort_of_perm is_set {xs} {ys} p =
      ∥∥₁_elim p (List.is_set is_set (sort cmp xs) (sort cmp ys)) sort_of_permᴰ

pub sort-unit_order_of_perm :
    {xs ys : List Text} → Perm xs ys → sort unit_order xs ≡ sort unit_order ys
sort-unit_order_of_perm =
    sort_of_perm unit_order unit_order-IsComparator unit_order_eq (hlevel ℕ_set)
