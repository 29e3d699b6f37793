-- ===== src/Tests/Cohorts.antt =====
-- A cohort from its evidence to its plan.
use loop_proof.Planner.Choosing.{
  required_return, path_credit, target_return, fixed_blocks_of, required_buyers_of, earliest_of,
  choose_returns, choose_settlements,
}
use loop_proof.Common.{
  ◌≡◌, refl, true, false, List, [], ◌∷◌, Option, none, some, Text, codes, text_eq, to_lower_case,
  decimal, join, unit_order, sort, set_of, has, add_all, nat_eq, keys_by_text, lookup, has_key,
  insert, push, group_by, map_outcome, Outcome, ok,
}
use loop_proof.Claims.{closed_loop, reciprocal, Claim}
use loop_proof.Evidence.{reciprocal_settlement, Atom, Evidence, atom}
use loop_proof.Returns.{
  least, return_path_credit_raw, required_return_raw, normalize_address, transfer_key, retains,
  if_both_safe, compare_transfer, valid_transfer, valid_step, valid_transfers, starts_after,
  within_path_time, distinct_transfers, valid_return_atoms, valid_return_evidence,
  return_evidence_identity, compare_return_evidence, consider, select_loop, valid_candidates,
  select_return_evidence,
}
use loop_proof.Planner.{
  Failure, authentication_group, cost_of, cost_tuple, compare_position, compare_atoms,
  compare_evidence, compare_cost, canonical_evidence, check_relay_costs, compare_relay_path,
}
use loop_proof.Planner.Capacity.{
  exact_approved_evidence, take_within, select_within_capacity, within_maximum, buyers_of, conclude,
  select_approved_settlements,
}
use loop_proof.Planner.Closure.{
  Closure, direct_seller_funder_only, same_normalized, same_text, non_self_transfer, in_period,
  is_direct_return, relay_candidates, divide_relays, class_of, select_closure_for_funder,
  return_coverage_qualifies, return_settlement_capacity, closure_occurs_after_settlements,
}
use loop_proof.Planner.Cohort.{
  Strategy, is_eligible, funding_before, funding_by_buyer_of, latest_by_buyer, diagnose,
  returns_fit, conclude_strategy, plan_selection, plan_returns, build_cohort_strategy,
}
use loop_proof.Planner.Cohort.Sound.{IsSound, build_cohort_strategy-IsSound}
use loop_proof.Planner.Plans.{
  atoms_that, includes, equal_texts, volume_between, address_pair, validate_analysis_volume, Plan,
  dedupe_onto, dedupe, blocks_of, finalize_plan_claim,
}
use loop_proof.Planner.Plans.Volumes.{IsPlan, finalize_plan_claim-IsPlan}
use loop_proof.Planner.Plans.Cohorts.{
  is_approved_funding, is_approved_settlement, planned_claim, planned_evidence, strategy_with,
  strategy_for, strategies_for, build_cohort_strategies, compare_strategies, plan_first,
  plan_cohort,
}
use loop_proof.Planner.Plans.Sound.{IsSoundHere, plan_cohort-IsSound}
use loop_proof.Planner.Plans.Planning.{
  reciprocal_volumes_qualify, is_internal_deposit, plan_reciprocal,
}
use loop_proof.Tests.Samples.{buyer_one, settlement_at, funding_at, direct, plain}

program : Unit {0}
unfolding text_eq to_lower_case decimal join unit_order sort set_of has add_all lookup has_key
    insert push group_by map_outcome least return_path_credit_raw required_return_raw
    normalize_address transfer_key retains if_both_safe compare_transfer valid_transfer valid_step
    valid_transfers starts_after within_path_time distinct_transfers valid_return_atoms
    valid_return_evidence return_evidence_identity compare_return_evidence consider select_loop
    valid_candidates select_return_evidence authentication_group cost_of cost_tuple compare_position
    compare_atoms compare_evidence compare_cost canonical_evidence check_relay_costs
    compare_relay_path take_within select_within_capacity within_maximum buyers_of conclude
    select_approved_settlements same_normalized same_text non_self_transfer in_period
    is_direct_return relay_candidates divide_relays class_of select_closure_for_funder
    return_coverage_qualifies return_settlement_capacity closure_occurs_after_settlements
    required_return path_credit target_return fixed_blocks_of required_buyers_of is_eligible
    funding_before funding_by_buyer_of earliest_of latest_by_buyer choose_returns choose_settlements
    diagnose returns_fit conclude_strategy plan_selection plan_returns build_cohort_strategy
    atoms_that includes equal_texts volume_between address_pair validate_analysis_volume dedupe_onto
    dedupe blocks_of finalize_plan_claim is_approved_funding is_approved_settlement planned_claim
    planned_evidence strategy_with strategy_for strategies_for build_cohort_strategies
    compare_strategies plan_first plan_cohort reciprocal_volumes_qualify is_internal_deposit
    plan_reciprocal
program = tt

abbrev funder : Text
funder = codes "0xf"

abbrev funding : Atom
funding = record (funding_at (codes "m") 44470000 200) { funder = some funder }

abbrev first_settlement : Atom
first_settlement = settlement_at (codes "a") 44470001 70

abbrev second_settlement : Atom
second_settlement = settlement_at (codes "b") 44470002 60

abbrev closure : Closure
closure = record {
  evidence = atom direct ∷ [];
  evidence_class = direct_seller_funder_only;
  rejected = [];
}

-- A settlement before the funding does not count.
abbrev early : Atom
early = settlement_at (codes "e") 44469999 10

abbrev built : Outcome Failure (Option Strategy)
built =
    build_cohort_strategy plain (funding ∷ []) (second_settlement ∷ early ∷ first_settlement ∷ [])
      closure (some 130) none 3000

abbrev strategy : Strategy
strategy = record {
  closure = closure;
  funding = funding ∷ [];
  settlements = first_settlement ∷ second_settlement ∷ [];
  buyers = buyer_one ∷ [];
  volume_raw = 130;
  funding_diagnostics =
      record {
        buyer = buyer_one;
        retained_records = 1;
        excluded_late_records = 0;
        total_records = 1;
        retained_amount_raw = 200;
        excluded_late_amount_raw = 0;
        total_amount_raw = 200;
      }
      ∷ [];
  optimization_mode = exact_approved_evidence;
  cost = record { windows = 4; atoms = 4; witness_bytes = 0; canonical = codes "a:b:d:m" };
}

built-strategy : built ≡ ok (some strategy)
unfolding program
built-strategy = refl

build_cohort_strategy-IsSound_example : IsSound plain (some 130) none 3000 strategy
build_cohort_strategy-IsSound_example =
    build_cohort_strategy-IsSound plain (funding ∷ [])
      (second_settlement ∷ early ∷ first_settlement ∷ []) closure (some 130) none 3000 strategy
      built-strategy

abbrev claim : Claim
claim = record {
  claim_id = codes "claim";
  claim_type = closed_loop;
  subjects = codes "0xs" ∷ [];
  approved_buyers = buyer_one ∷ [];
  approved_funders = funder ∷ [];
  wallet_a = none;
  wallet_b = none;
  metrics = some (record {
    qualified_volume_raw = some 130;
    qualified_buyer_count = some 1;
    volume_a_to_b_raw = none;
    volume_b_to_a_raw = none;
  });
  dependency_root = [];
  leaf_hash = codes "0xaa";
  dependencies = [];
}

abbrev dependencies : List Evidence
dependencies =
    atom direct ∷ atom funding ∷ atom second_settlement ∷ atom early ∷ atom first_settlement ∷ []

abbrev plan : Plan
plan = record {
  claim_id = codes "claim";
  claim_type = closed_loop;
  subjects = codes "0xs" ∷ [];
  dependency_root = [];
  selected_evidence =
      atom funding ∷ atom first_settlement ∷ atom second_settlement ∷ atom direct ∷ [];
  selected_blocks = 44470000 ∷ 44470001 ∷ 44470002 ∷ 44470005 ∷ [];
  cost = record { windows = 4; atoms = 4; witness_bytes = 0; canonical = codes "a:b:d:m" };
}

planned : plan_cohort plain claim dependencies none none false 3000 false ≡ ok (strategy, plan)
unfolding program
planned = refl

plan_cohort-IsSound_example :
    IsSoundHere plain claim dependencies none none false 3000 strategy
    × IsPlan (planned_claim false claim strategy) plan
plan_cohort-IsSound_example =
    plan_cohort-IsSound plain claim dependencies none none false 3000 false strategy plan planned

abbrev unsorted : List Evidence
unsorted = atom direct ∷ atom second_settlement ∷ atom funding ∷ atom first_settlement ∷ []

finalized : finalize_plan_claim plain claim unsorted ≡ ok plan
unfolding program
finalized = refl

finalize_plan_claim-IsPlan_example : IsPlan claim plan
finalize_plan_claim-IsPlan_example = finalize_plan_claim-IsPlan plain claim unsorted plan finalized

-- 80 of 100 is enough, 79 is not.
eighty : reciprocal_volumes_qualify 100 80 ≡ true
unfolding program
eighty = refl

seventy_nine : reciprocal_volumes_qualify 79 100 ≡ false
unfolding program
seventy_nine = refl

abbrev one_way : Atom
one_way = record (settlement_at (codes "x") 44470003 50) {
  evidence_type = reciprocal_settlement;
  buyer = some (codes "0x1");
  seller = some (codes "0x2");
}

abbrev other_way : Atom
other_way = record one_way {
  dependency_id = some (codes "y");
  log_index = some 1;
  amount_raw = 45;
  buyer = some (codes "0x2");
  seller = some (codes "0x1");
}

abbrev pair : Claim
pair = record claim {
  claim_type = reciprocal;
  subjects = codes "0x2" ∷ codes "0x1" ∷ [];
  wallet_a = some (codes "0x1");
  wallet_b = some (codes "0x2");
  metrics = none;
}

abbrev pair_plan : Plan
pair_plan = record {
  claim_id = codes "claim";
  claim_type = reciprocal;
  subjects = codes "0x2" ∷ codes "0x1" ∷ [];
  dependency_root = [];
  selected_evidence = atom one_way ∷ atom other_way ∷ [];
  selected_blocks = 44470003 ∷ [];
  cost = record { windows = 1; atoms = 2; witness_bytes = 0; canonical = codes "x:y" };
}
