-- ===== src/Tests/Plans.antt =====
-- The planner at concrete inputs.
use mathlib.Core.List.{Perm}
use loop_proof.Common.{
  ℕ, ◌+◌, ◌≤◌, ◌≡◌, refl, ◌↔◌, arith, true, List, [], ◌∷◌, ◌++◌, none, some, All, length, map, Text,
  codes, text_eq, decimal, join, unit_order, unit_order-IsComparator, sort, set_of, has, add_all,
  nat_eq, keys_by_text, lookup, Ordering, ok, IsComparator,
}
use loop_proof.Evidence.{Atom, atom, relay_path}
use loop_proof.Planner.{
  sum_raw, cost_of, compare_position, compare_atoms, compare_evidence, compare_relay_path,
  canonical_evidence,
}
use loop_proof.Planner.Capacity.{take_within, select_within_capacity}
use loop_proof.Planner.Capacity.Greedy.{IsDecided, select_within_capacity-IsGreedy}
use loop_proof.Planner.Ledger.{latest, available_raw, retain, refine, select_for_buyer}
use loop_proof.Planner.Ledger.Refining.{IsRefinement}
use loop_proof.Planner.Ledger.Buyers.{fundings_of, select_for_buyer-IsRefinement}
use loop_proof.Planner.Closure.{
  return_coverage_qualifies, return_settlement_capacity, valid_relay_hops,
}
use loop_proof.Planner.Closure.Paths.{IsRelay, valid_relay_hops_iff}
use loop_proof.Planner.Closure.Coverage.{return_settlement_capacity_iff}
use loop_proof.Planner.Inconsistent.{compare_relay_path_both_ways, compare_evidence_circle}
use loop_proof.Returns.{least, return_path_credit_raw}
use loop_proof.Tests.Samples.{
  buyer_one, settlement_at, funding_at, first_hop, second_hop, relay, relay_of, direct, plain,
}

program : Unit {0}
unfolding text_eq decimal join unit_order sort set_of has add_all lookup cost_of compare_position
    compare_atoms compare_evidence compare_relay_path canonical_evidence take_within
    select_within_capacity latest available_raw retain refine select_for_buyer
    return_settlement_capacity least return_path_credit_raw
program = tt

abbrev settlements : List Atom
settlements =
    settlement_at (codes "b") 44470010 60
    ∷ settlement_at (codes "a") 44470009 70
    ∷ settlement_at (codes "c") 44470011 30
    ∷ []

-- Of 70, 60 and 30, in the order of the chain, 70 and 30 fit into 100.
within :
    map (λ (entry : Atom). entry.amount_raw) (select_within_capacity plain settlements 100)
    ≡ 70 ∷ 30 ∷ []
unfolding program
within = refl

select_within_capacity-IsGreedy_example :
    (sum_raw (select_within_capacity plain settlements 100) ≤ 100)
    × ((dropped : List Atom) × Perm
          (select_within_capacity plain settlements 100 ++ dropped)
          settlements)
    × All (IsDecided 100 0 (select_within_capacity plain settlements 100)) settlements
select_within_capacity-IsGreedy_example = select_within_capacity-IsGreedy plain settlements 100

abbrev fundings : List (Text × List Atom)
fundings = (buyer_one, funding_at (codes "f") 44470000 100 ∷ []) ∷ []

abbrev balances : List (Text × ℕ)
balances = (buyer_one, 5) ∷ []

-- 100 and the tolerance, less the 5 that are left, leave 100.
chosen :
    select_for_buyer plain fundings balances (buyer_one, settlements)
    ≡ ok (settlement_at (codes "a") 44470009 70 ∷ settlement_at (codes "c") 44470011 30 ∷ [])
unfolding program
chosen = refl

known : lookup buyer_one balances ≡ some 5
unfolding program
known = refl

select_for_buyer-IsRefinement_example :
    (r : IsRefinement plain
      (fundings_of plain fundings buyer_one)
      5
      (sort (compare_atoms plain) settlements)
      (refine plain
        (length settlements + 2)
        (fundings_of plain fundings buyer_one)
        5
        (sort (compare_atoms plain) settlements)
        none))
    × (select_for_buyer plain fundings balances (buyer_one, settlements) ≡ ok r.chosen)
select_for_buyer-IsRefinement_example =
    select_for_buyer-IsRefinement plain unit_order-IsComparator fundings balances buyer_one
      settlements 5 known

capacity : return_settlement_capacity (atom direct ∷ []) 3000 ≡ some 1666
unfolding program
capacity = refl

return_settlement_capacity_iff_example :
    (1600 ≤ 1666) ↔ (return_coverage_qualifies (atom direct ∷ []) 1600 3000 ≡ true)
return_settlement_capacity_iff_example =
    return_settlement_capacity_iff (atom direct ∷ []) 1600 3000 1666 (omega arith) (omega arith)
      capacity

valid_relay_hops_iff_example :
    (valid_relay_hops plain none (first_hop ∷ second_hop ∷ []) ≡ ok true)
    ↔ IsRelay plain none first_hop (second_hop ∷ [])
valid_relay_hops_iff_example = valid_relay_hops_iff plain none first_hop (second_hop ∷ [])

compare_relay_path_both_ways_example :
    (compare_relay_path plain relay (relay_of (codes "d") (first_hop ∷ [])) ≡ Ordering.gt)
    × (compare_relay_path plain (relay_of (codes "d") (first_hop ∷ [])) relay ≡ Ordering.gt)
    × ¬ IsComparator (compare_relay_path plain)
unfolding program
compare_relay_path_both_ways_example =
    compare_relay_path_both_ways plain relay (relay_of (codes "d") (first_hop ∷ [])) (omega arith)
      (omega arith) (omega arith)

abbrev early : Atom
early = settlement_at (codes "z") 44470001 1

abbrev late : Atom
late = settlement_at (codes "a") 44470002 1

compare_evidence_circle_example :
    (compare_evidence plain (atom early) (atom late) ≡ Ordering.lt)
    × (compare_evidence plain (atom late) (relay_path relay) ≡ Ordering.lt)
    × (compare_evidence plain (relay_path relay) (atom early) ≡ Ordering.lt)
    × ¬ IsComparator (compare_evidence plain)
unfolding unit_order
compare_evidence_circle_example =
    compare_evidence_circle plain early late relay (omega arith) refl refl
