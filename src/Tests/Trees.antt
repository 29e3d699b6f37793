-- ===== src/Tests/Trees.antt =====
-- Merkle trees over a few hashes.
use mathlib.Core.List.Perm
use loop_proof.Common.{
  ℕ, ◌≡◌, refl, true, false, List, [], ◌∷◌, ◌++◌, Text, codes, text_eq, unit_order, sort, has,
  IsDistinct, keys_by_text, ok,
}
use loop_proof.Merkle.{
  Step, hex_bytes, sibling_index, step_at, without_last, steps_through, last_index, node,
  next_level, top_level, merkle_root, levels_from, merkle_membership, legacy_merkle_membership,
  climb,
}
use loop_proof.Merkle.Climbing.{merkle_membership_climbs, merkle_membership-legacy}
use loop_proof.Merkle.Order.{merkle_root_of_perm}

-- A stand-in for SHA-256.
abbrev digest : List ℕ → Text
digest bytes = codes "6" ++ codes "1"

abbrev hashes : List Text
hashes = codes "0xcc" ∷ codes "0xaa" ∷ codes "0xbb" ∷ []

program : Unit {0}
unfolding hex_bytes sibling_index step_at without_last steps_through last_index node next_level
    top_level merkle_root levels_from merkle_membership sort unit_order text_eq
program = tt

steps :
    merkle_membership digest hashes (codes "0xbb")
    ≡ ok (
        record { sibling = codes "0xaa"; sibling_on_left = true }
        ∷ record { sibling = codes "0x61"; sibling_on_left = false }
        ∷ [])
unfolding program
steps = refl

merkle_membership_climbs_example :
    (steps : List Step) × (merkle_membership digest hashes (codes "0xbb") ≡ ok steps)
    × (climb digest (codes "0xbb") steps ≡ merkle_root digest hashes)
unfolding has text_eq
merkle_membership_climbs_example = merkle_membership_climbs digest hashes (codes "0xbb") refl

IsDistinct-hashes : IsDistinct hashes
unfolding has text_eq
IsDistinct-hashes = (refl, (refl, (refl, tt)))

merkle_membership-legacy_example :
    merkle_membership digest hashes (codes "0xaa")
    ≡ legacy_merkle_membership digest hashes (codes "0xaa")
merkle_membership-legacy_example =
    merkle_membership-legacy digest hashes (codes "0xaa") IsDistinct-hashes

merkle_root_of_perm_example :
    merkle_root digest (codes "0xcc" ∷ codes "0xaa" ∷ [])
    ≡ merkle_root digest (codes "0xaa" ∷ codes "0xcc" ∷ [])
merkle_root_of_perm_example =
    merkle_root_of_perm digest (codes "0xcc" ∷ codes "0xaa" ∷ []) (codes "0xaa" ∷ codes "0xcc" ∷ [])
      (Perm.swap (codes "0xaa") (codes "0xcc") [])
