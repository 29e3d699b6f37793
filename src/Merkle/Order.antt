-- ===== src/Merkle/Order.antt =====
-- The root does not depend on the order in which the hashes are given.
use mathlib.Core.List.{Perm}
use loop_proof.Common.{
  ℕ, ◌≡◌, refl, sym, ap, ap₂, ◌∙◌, arith, List, [], ◌∷◌, length, length-sort, get_elem?, get_or,
  Text, unit_order, sort-unit_order_of_perm,
}
use loop_proof.Merkle.{top_level, merkle_root}

length_of_perm : {xs ys : List Text} → Perm xs ys → length xs ≡ length ys
length_of_perm {xs} {ys} p =
    sym (length-sort unit_order xs)
    ∙ ap length (sort-unit_order_of_perm p)
    ∙ length-sort unit_order ys

module _ (sha256 : List ℕ → Text) where
  -- Rearranging the hashes leaves the root as it is.
  pub merkle_root_of_perm :
      (xs ys : List Text) → Perm xs ys → merkle_root sha256 xs ≡ merkle_root sha256 ys
  unfolding merkle_root
  merkle_root_of_perm [] [] p = refl
  merkle_root_of_perm [] (y ∷ ys) p =
      let e : length {A = Text} [] ≡ length (y ∷ ys) = length_of_perm p in absurd (omega arith)
  merkle_root_of_perm (x ∷ xs) [] p =
      let e : length (x ∷ xs) ≡ length {A = Text} [] = length_of_perm p in absurd (omega arith)
  merkle_root_of_perm (x ∷ xs) (y ∷ ys) p =
      ap₂ (λ fuel level. get_or (get_elem? (top_level sha256 fuel level) 0) []) (length_of_perm p)
        (sort-unit_order_of_perm p)
