-- ===== src/Planner/Cohort.antt =====
-- scripts/proof-planner.mjs: `buildCohortStrategy`, the plan for the buyers of one funder.
mod Checks
mod Built
pub mod Sound
use loop_proof.Planner.Choosing.{
  required_return, target_return, options_for, fixed_blocks_of, required_buyers_of, earliest_of,
  choose_returns, choose_settlements,
}
use loop_proof.Common.{
  ℕ, ◌+◌, ◌*◌, ◌==◌, ltb, if◌then◌else◌, Bool, true, false, not, ◌&&◌, ◌||◌, Option, none, some,
  get_or, List, [], ◌∷◌, ◌++◌, map, filter, every, flat_map, length, sum_by, Text, text_eq, sort,
  keys_by_text, has, lookup, insert, group_by, Outcome, ok, throw, map_outcome, ◌>>=◌,
}
use loop_proof.Policy.{alpha_fund_bps, basis_points, max_return_paths}
use loop_proof.Evidence.{
  EvidenceType, direct_seller_buyer, Atom, Evidence, atom, relay_path, atomic_evidence, number_of,
  Platform,
}
use loop_proof.Returns
use loop_proof.Returns.{pos, required_return_raw, select_return_evidence, credit}
use loop_proof.Planner.{
  Failure, invalid_return_volume, sum_raw, buyer_of, compare_atoms, Cost, cost_tuple,
}
use loop_proof.Planner.Capacity.{OptimizationMode, SettlementSelection, select_approved_settlements}
use loop_proof.Planner.Ledger.{earlier, select_ledger_aware_settlements}
use loop_proof.Planner.Closure.{
  Closure, has_safe_block, return_coverage_qualifies, return_settlement_capacity,
  closure_occurs_after_settlements,
}

-- What is told of a buyer's funding.
pub record Diagnostics : Type 0 where
  pub buyer : Text
  pub retained_records : ℕ
  pub excluded_late_records : ℕ
  pub total_records : ℕ
  pub retained_amount_raw : ℕ
  pub excluded_late_amount_raw : ℕ
  pub total_amount_raw : ℕ

pub record Strategy : Type 0 where
  pub closure : Closure
  pub funding : List Atom
  pub settlements : List Atom
  pub buyers : List Text
  pub volume_raw : ℕ
  pub funding_diagnostics : List Diagnostics
  pub optimization_mode : OptimizationMode
  pub cost : Cost

abbrev pub is_earlier_block : Atom → Atom → Bool
is_earlier_block left right = ltb (number_of left.block_number) (number_of right.block_number)

-- A settlement counts where it comes, by its block, after the first funding of its buyer.
unfoldable pub is_eligible : List (Text × Atom) → Atom → Bool
unfolding lookup
is_eligible earliest entry = elim (lookup (buyer_of entry) earliest) [
  | none ↦ false
  | some funding ↦ is_earlier_block funding entry
]

-- The part of a buyer's funding before the buyer's latest settlement. Each selected buyer has one.
unfoldable pub funding_before : List (Text × Atom) → Text → List Atom → List Atom
unfolding lookup
funding_before latest buyer records = elim (lookup buyer latest) [
  | none ↦ []
  | some settlement ↦ filter (λ entry. is_earlier_block entry settlement) records
]

module _ (platform : Platform) where
  -- `fundingByBuyer`, each buyer's fundings in the order of the chain.
  unfoldable pub funding_by_buyer_of : List Atom → List (Text × List Atom)
  unfolding group_by
  funding_by_buyer_of fundings =
      map (λ (entry : Text × List Atom). (entry.0, sort (compare_atoms platform) entry.1))
        (group_by buyer_of fundings)

  -- The loop that keeps the latest settlement of each buyer.
  unfoldable pub latest_by_buyer : List (Text × Atom) → List Atom → List (Text × Atom)
  unfolding lookup insert
  latest_by_buyer found [] = found
  latest_by_buyer found (settlement ∷ rest) =
      let later : Bool = elim (lookup (buyer_of settlement) found) [
        | none ↦ true
        | some current ↦ earlier platform current settlement
      ] in
      latest_by_buyer (if later then insert (buyer_of settlement) settlement found else found) rest

  abbrev pub is_underfunded : Option (List (Text × ℕ)) → List Atom → ℕ → Bool
  is_underfunded none funding volume = false
  is_underfunded (some ledger) funding volume =
      ltb (sum_raw funding * basis_points) (volume * alpha_fund_bps)

  -- The records that are excluded are the buyer's other ones: those not before the latest settlement.
  unfoldable pub diagnose :
      List (Text × List Atom) → List (Text × Atom) → List Atom → Text → Diagnostics
  unfolding lookup text_eq
  diagnose funding_by_buyer latest funding buyer =
      let records : List Atom = get_or (lookup buyer funding_by_buyer) [] in
      let retained = filter (λ (entry : Atom). text_eq (buyer_of entry) buyer) funding in
      let excluded : List Atom = elim (lookup buyer latest) [
        | none ↦ records
        | some settlement ↦
            filter (λ (entry : Atom). not (is_earlier_block entry settlement)) records
      ] in
      record {
        buyer = buyer;
        retained_records = length retained;
        excluded_late_records = length excluded;
        total_records = length records;
        retained_amount_raw = sum_raw retained;
        excluded_late_amount_raw = sum_raw excluded;
        total_amount_raw = sum_raw records;
      }

  -- The tests of a selection against the returns.
  unfoldable pub returns_fit : List Evidence → SettlementSelection → ℕ → Bool
  unfolding closure_occurs_after_settlements return_coverage_qualifies
  returns_fit evidence selection target =
      elim evidence [
        | [] ↦ true
        | first ∷ rest ↦
            closure_occurs_after_settlements platform selection.settlements (first ∷ rest)
      ]
      && return_coverage_qualifies evidence selection.volume_raw target

  -- The rest of the strategy, for a selection.
  unfoldable pub conclude_strategy :
      Option (List (Text × ℕ))
      → List (Text × List Atom)
      → Closure
      → ℕ
      → SettlementSelection
      → Outcome Failure (Option Strategy)
  unfolding returns_fit latest_by_buyer funding_before diagnose cost_tuple
  conclude_strategy balances funding_by_buyer closure target selection =
      let latest = latest_by_buyer [] selection.settlements in
      let funding =
        flat_map (λ buyer. funding_before latest buyer (get_or (lookup buyer funding_by_buyer) []))
          selection.buyers in
      if not (returns_fit closure.evidence selection target)
      then ok none
      else if is_underfunded balances funding selection.volume_raw
      then ok none
      else do
        cost ←
            cost_tuple platform
              (closure.evidence ++ (map atom funding ++ map atom selection.settlements))
        ok (
            some (record {
              closure = closure;
              funding = funding;
              settlements = selection.settlements;
              buyers = selection.buyers;
              volume_raw = selection.volume_raw;
              funding_diagnostics = map (diagnose funding_by_buyer latest funding) selection.buyers;
              optimization_mode = selection.optimization_mode;
              cost = cost;
            }))

  -- Where there is no selection there is no strategy.
  unfoldable pub plan_selection :
      Option (List (Text × ℕ))
      → List (Text × List Atom)
      → Closure
      → ℕ
      → Option SettlementSelection
      → Outcome Failure (Option Strategy)
  unfolding conclude_strategy
  plan_selection balances funding_by_buyer kept target none = ok none
  plan_selection balances funding_by_buyer kept target (some selection) =
      conclude_strategy balances funding_by_buyer kept target selection

  -- Nor where the returns are not complete.
  unfoldable pub plan_returns :
      Option (List (Text × ℕ))
      → List (Text × List Atom)
      → List Atom
      → Option ℕ
      → ℕ
      → Option Closure
      → Outcome Failure (Option Strategy)
  unfolding choose_settlements plan_selection
  plan_returns balances funding_by_buyer eligible approved target none = ok none
  plan_returns balances funding_by_buyer eligible approved target (some kept) = do
    selected ←
        choose_settlements platform balances eligible funding_by_buyer kept.evidence approved target
    plan_selection balances funding_by_buyer kept target selected

  unfoldable pub build_cohort_strategy :
      List Atom
      → List Atom
      → Closure
      → Option ℕ
      → Option (List (Text × ℕ))
      → ℕ
      → Outcome Failure (Option Strategy)
  unfolding funding_by_buyer_of is_eligible choose_returns plan_returns
  build_cohort_strategy fundings settlements closure approved balances target =
      let funding_by_buyer = funding_by_buyer_of fundings in
      let eligible = filter (is_eligible (earliest_of platform funding_by_buyer)) settlements in
      if length funding_by_buyer == 0 || length eligible == 0 then ok none else do
        chosen ← choose_returns platform approved target closure
        plan_returns balances funding_by_buyer eligible approved target chosen
