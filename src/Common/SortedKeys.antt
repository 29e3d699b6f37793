-- ===== src/Common/SortedKeys.antt =====
-- Sorting a list of keys: the same keys, with no key twice where none was.
use mathlib.Core.Path.{◌≡◌, refl, ◌∙◌}
use mathlib.Core.Logic.{inl, inr}
use mathlib.Core.List.{List, [], ◌∷◌}
use mathlib.Core.Bool.{false, ◌||◌}
use Prim.Native.Nat.{Ordering}
use native.Mathlib.Omega.{arith}
use loop_proof.Common.Keys.{Key, has, IsDistinct, beq_swap}
use loop_proof.Common.Sort.{sort_insert, sort, Ordering-cases}

module _ {ℓ} {A : Type ℓ} ⦃e : Key A⦄ (cmp : A → A → Ordering) where
  has-sort_insert :
      (k x : A) (ys : List A) → has k (sort_insert cmp x ys) ≡ (e.same k x || has k ys)
  unfolding has sort_insert
  has-sort_insert k x [] = refl
  has-sort_insert k x (y ∷ ys) = ground (arith, has-sort_insert k x ys)

  pub has-sort : (k : A) (xs : List A) → has k (sort cmp xs) ≡ has k xs
  unfolding has sort
  has-sort k [] = refl
  has-sort k (x ∷ xs) = ground (arith, has-sort_insert k x (sort cmp xs), has-sort k xs)

  IsDistinct-sort_insert :
      (x : A) (ys : List A) → has x ys ≡ false → IsDistinct ys → IsDistinct (sort_insert cmp x ys)
  unfolding has sort_insert
  IsDistinct-sort_insert x [] h d = (refl, tt)
  IsDistinct-sort_insert x (y ∷ ys) h d = elim (Ordering-cases (cmp x y)) [
    | inl lt ↦ rw (lt, sort_insert) (h, d)
    | inr (inl eq) ↦ rw (eq, sort_insert) (h, d)
    | inr (inr gt) ↦
        rw (gt, sort_insert)
          (
            ground (arith, has-sort_insert y x ys, beq_swap x y),
            IsDistinct-sort_insert x ys (ground arith) d.1,
          )
  ]

  pub IsDistinct-sort : (xs : List A) → IsDistinct xs → IsDistinct (sort cmp xs)
  unfolding has sort
  IsDistinct-sort [] d = tt
  IsDistinct-sort (x ∷ xs) d =
      IsDistinct-sort_insert x (sort cmp xs) (has-sort x xs ∙ d.0) (IsDistinct-sort xs d.1)
