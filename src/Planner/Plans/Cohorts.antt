-- ===== src/Planner/Plans/Cohorts.antt =====
-- scripts/proof-planner.mjs: `buildCohortStrategies` and `planCohort`.
use loop_proof.Common.{
  ℕ, ◌==◌, ltb, if◌then◌else◌, Bool, true, false, not, ◌&&◌, Ordering, Option, none, some, get_or,
  List, [], ◌∷◌, ◌++◌, map, filter, get_elem?, length, Text, text_eq, unit_order, sort,
  keys_by_text, set_of, Outcome, ok, throw, ◌>>=◌,
}
use loop_proof.Claims.{Period, Metrics, Claim}
use loop_proof.Evidence.{Atom, Evidence, atom, Platform}
use loop_proof.Planner.{Failure, no_cohort_strategy, compare_cost}
use loop_proof.Planner.Closure.{Closure, select_closure_for_funder}
use loop_proof.Planner.Cohort.{Strategy, build_cohort_strategy}
use loop_proof.Planner.Plans.{
  atoms_that, includes, is_settlement, is_total_settlement, is_usdc_funding, Plan,
  finalize_plan_claim,
}

unfoldable pub is_approved_funding : Claim → Atom → Bool
unfolding includes
is_approved_funding claim entry =
    is_usdc_funding entry
    && (includes claim.approved_buyers entry.buyer && includes claim.approved_funders entry.funder)

unfoldable pub is_approved_settlement : Claim → Atom → Bool
unfolding includes
is_approved_settlement claim entry =
    is_settlement entry && includes claim.approved_buyers entry.buyer

abbrev pub funder_of : Atom → Text
funder_of entry = get_or entry.funder []

-- The volume that a strategy has to match, unless the ledger chooses it.
abbrev pub approved_volume : Bool → Claim → Option ℕ
approved_volume true claim = none
approved_volume false claim = elim claim.metrics [
  | none ↦ none
  | some metrics ↦ metrics.qualified_volume_raw
]

-- The claim that is planned: the ledger's choice replaces the approved figures.
unfoldable pub planned_claim : Bool → Claim → Strategy → Claim
planned_claim false claim selected = claim
planned_claim true claim selected =
    let none_set : Metrics = record {
      qualified_volume_raw = none;
      qualified_buyer_count = none;
      volume_a_to_b_raw = none;
      volume_b_to_a_raw = none;
    } in
    record claim {
      metrics = some (record (get_or claim.metrics none_set) {
        qualified_volume_raw = some selected.volume_raw;
        qualified_buyer_count = some (length selected.buyers);
      });
    }

-- All the evidence of a strategy's plan, with the seller's total settlements.
unfoldable pub planned_evidence : List Evidence → Strategy → List Evidence
unfolding atoms_that
planned_evidence dependencies selected =
    selected.closure.evidence
    ++ (map atom selected.funding
        ++ (map atom selected.settlements
            ++ map atom (atoms_that is_total_settlement dependencies)))

module _ (platform : Platform) where
  -- The strategy of a funder with a closure, in a list of none or one.
  unfoldable pub strategy_with :
      Claim
      → List Evidence
      → Option (List (Text × ℕ))
      → Bool
      → ℕ
      → Text
      → Option Closure
      → Outcome Failure (List Strategy)
  unfolding atoms_that is_approved_funding is_approved_settlement build_cohort_strategy text_eq
  strategy_with claim dependencies balances allow_ledger target funder none = ok []
  strategy_with claim dependencies balances allow_ledger target funder (some closure) = do
    let fundings =
        filter (λ (entry : Atom). text_eq (funder_of entry) funder)
          (atoms_that (is_approved_funding claim) dependencies)
    candidate ←
        build_cohort_strategy platform fundings
          (atoms_that (is_approved_settlement claim) dependencies) closure
          (approved_volume allow_ledger claim) balances target
    ok (elim candidate [ none ↦ [] | some strategy ↦ strategy ∷ [] ])

  unfoldable pub strategy_for :
      Claim
      → List Evidence
      → Option Period
      → Option (List (Text × ℕ))
      → Bool
      → ℕ
      → Text
      → Outcome Failure (List Strategy)
  unfolding select_closure_for_funder strategy_with
  strategy_for claim dependencies period balances allow_ledger target funder = do
    found ←
        select_closure_for_funder platform dependencies funder (get_elem? claim.subjects 0) period
    strategy_with claim dependencies balances allow_ledger target funder found

  unfoldable pub strategies_for :
      Claim
      → List Evidence
      → Option Period
      → Option (List (Text × ℕ))
      → Bool
      → ℕ
      → List Text
      → Outcome Failure (List Strategy)
  unfolding strategy_for
  strategies_for claim dependencies period balances allow_ledger target [] = ok []
  strategies_for claim dependencies period balances allow_ledger target (funder ∷ rest) = do
    found ← strategy_for claim dependencies period balances allow_ledger target funder
    others ← strategies_for claim dependencies period balances allow_ledger target rest
    ok (found ++ others)

  -- `buildCohortStrategies`, one funder after the other. An approved funder is never null.
  unfoldable pub build_cohort_strategies :
      Claim
      → List Evidence
      → Option Period
      → Option (List (Text × ℕ))
      → Bool
      → ℕ
      → Outcome Failure (List Strategy)
  unfolding atoms_that is_approved_funding strategies_for set_of
  build_cohort_strategies claim dependencies period balances allow_ledger target =
      let fundings = atoms_that (is_approved_funding claim) dependencies in
      strategies_for claim dependencies period balances allow_ledger target
        (sort unit_order (set_of (map funder_of fundings)))

  -- The comparator of `planCohort`.
  unfoldable pub compare_strategies : Bool → Strategy → Strategy → Ordering
  unfolding compare_cost
  compare_strategies maximize left right =
      if maximize && not (left.volume_raw == right.volume_raw)
      then if ltb right.volume_raw left.volume_raw then Ordering.lt else Ordering.gt
      else compare_cost platform left.cost right.cost

  -- The first strategy in the order, and its plan.
  unfoldable pub plan_first :
      Claim → List Evidence → Bool → List Strategy → Outcome Failure (Strategy × Plan)
  unfolding planned_claim planned_evidence finalize_plan_claim
  plan_first claim dependencies allow_ledger [] = throw (no_cohort_strategy claim.claim_id)
  plan_first claim dependencies allow_ledger (selected ∷ others) = do
    plan ←
        finalize_plan_claim platform (planned_claim allow_ledger claim selected)
          (planned_evidence dependencies selected)
    ok (selected, plan)

  -- `planCohort`: the strategy is given beside the plan, for the details that the plan takes from it.
  unfoldable pub plan_cohort :
      Claim
      → List Evidence
      → Option Period
      → Option (List (Text × ℕ))
      → Bool
      → ℕ
      → Bool
      → Outcome Failure (Strategy × Plan)
  unfolding build_cohort_strategies compare_strategies plan_first
  plan_cohort claim dependencies period balances allow_ledger target maximize = do
    candidates ← build_cohort_strategies claim dependencies period balances allow_ledger target
    plan_first claim dependencies allow_ledger (sort (compare_strategies maximize) candidates)
