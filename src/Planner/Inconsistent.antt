-- ===== src/Planner/Inconsistent.antt =====
-- Where `compareRelayPath` and `compareEvidence` of the planner are no consistent orders.
use loop_proof.Common.{ℕ, ◌<◌, ◌≡◌, ◌≢◌, arith, Ordering, map, IsComparator}
use loop_proof.Evidence.{Atom, RelayPath, atom, relay_path, hop_list, number_of, Platform}
use loop_proof.Planner.{
  cost_of, compare_relay_path, compare_evidence, compare_atoms, compare_position, id_of,
}

module _ (platform : Platform) where
  abbrev windows_of : RelayPath → ℕ
  windows_of path = (cost_of platform (map atom (hop_list path.hops))).windows

  -- Two relay paths that need different numbers of windows, both positive, each compare as greater
  -- than the other, so the comparator is no order.
  pub compare_relay_path_both_ways :
      (left right : RelayPath)
      → windows_of left ≢ windows_of right
      → 0 < windows_of left
      → 0 < windows_of right
      → (compare_relay_path platform left right ≡ Ordering.gt)
        × (compare_relay_path platform right left ≡ Ordering.gt)
        × ¬ IsComparator (compare_relay_path platform)
  unfolding compare_relay_path
  compare_relay_path_both_ways left right differ l r =
      let there : compare_relay_path platform left right ≡ Ordering.gt = ground (arith, differ) in
      let back : compare_relay_path platform right left ≡ Ordering.gt = ground (arith, differ) in
      (there, back, λ c. cc (c.flips left right, there, back))

  -- A single log that comes before another one by its block, whose identifier comes before a relay
  -- path's, whose identifier comes before the first log's: the three compare in a circle, so the
  -- comparator is no order on logs and paths together.
  pub compare_evidence_circle :
      (first second : Atom) (path : RelayPath)
      → number_of first.block_number < number_of second.block_number
      → platform.collate (id_of second) path.dependency_id ≡ Ordering.lt
      → platform.collate path.dependency_id (id_of first) ≡ Ordering.lt
      → (compare_evidence platform (atom first) (atom second) ≡ Ordering.lt)
        × (compare_evidence platform (atom second) (relay_path path) ≡ Ordering.lt)
        × (compare_evidence platform (relay_path path) (atom first) ≡ Ordering.lt)
        × ¬ IsComparator (compare_evidence platform)
  unfolding compare_evidence compare_atoms compare_position
  compare_evidence_circle first second path earlier p q =
      let there : compare_evidence platform (atom first) (atom second) ≡ Ordering.lt =
        ground arith in
      (
        there,
        p,
        q,
        λ c.
            let turned = c.flips (relay_path path) (atom first) in
            c.chains (atom first) (atom second) (relay_path path) (cc there) (cc p)
              (cc (turned, q)),
      )
