-- ===== src/Planner/Plans/Planning.antt =====
-- scripts/proof-planner.mjs: `planReciprocal`, `planClaim` and the test of the reciprocal volumes.
use loop_proof.Common.{
  ℕ, ◌*◌, ◌==◌, ltb, leb, if◌then◌else◌, Bool, true, false, not, ◌&&◌, ◌||◌, Option, none, some,
  List, ◌++◌, map, Text, to_lower_case, keys_by_text, has, sort, Outcome, ok, throw, throw_if,
  ◌>>=◌, ◌>>◌,
}
use loop_proof.Policy.{basis_points}
use loop_proof.Claims.{Period, closed_loop, reciprocal, unsupported, Claim}
use loop_proof.Evidence.{Atom, Evidence, atom, Platform}
use loop_proof.Returns.{ℤ, pos, required_return_raw, magnitude}
use loop_proof.Planner.{
  Failure, invalid_return_volume, no_reciprocity, unsupported_claim_type,
  minimum_reciprocal_volume_bps, compare_atoms, cost_tuple,
}
use loop_proof.Planner.Plans.{
  atoms_that, equal_texts, is_reciprocal_settlement, is_total_settlement, is_usdc_funding,
  volume_between, Plan, finalize_plan_claim,
}
use loop_proof.Planner.Plans.Cohorts.{plan_cohort}

-- `reciprocalVolumesQualify`
unfoldable pub reciprocal_volumes_qualify : ℕ → ℕ → Bool
reciprocal_volumes_qualify a_to_b b_to_a =
    let minimum = if ltb a_to_b b_to_a then a_to_b else b_to_a in
    let maximum = if ltb b_to_a a_to_b then a_to_b else b_to_a in
    not (a_to_b == 0 || b_to_a == 0)
    && leb (maximum * minimum_reciprocal_volume_bps) (minimum * basis_points)

-- A deposit between the two subjects.
unfoldable pub is_internal_deposit : List Text → Atom → Bool
unfolding has to_lower_case
is_internal_deposit subjects entry =
    let is_subject = λ (party : Option Text). elim party as (λ p. Bool) [
      | none ↦ false
      | some address ↦ has (to_lower_case address) (map to_lower_case subjects)
    ] in
    is_usdc_funding entry
    && (elim entry.deposit_log_index [ none ↦ false | some index ↦ true ]
        && (is_subject entry.buyer && is_subject entry.funder))

module _ (platform : Platform) where
  unfoldable pub plan_reciprocal : Claim → List Evidence → Outcome Failure Plan
  unfolding atoms_that volume_between equal_texts reciprocal_volumes_qualify is_internal_deposit
      cost_tuple finalize_plan_claim
  plan_reciprocal claim dependencies = do
    let selected = sort (compare_atoms platform) (atoms_that is_reciprocal_settlement dependencies)
    let totals = sort (compare_atoms platform) (atoms_that is_total_settlement dependencies)
    let a_to_b = volume_between equal_texts selected claim.wallet_a claim.wallet_b
    let b_to_a = volume_between equal_texts selected claim.wallet_b claim.wallet_a
    throw_if (not (reciprocal_volumes_qualify a_to_b b_to_a)) no_reciprocity
    _ ← cost_tuple platform (map atom selected)
    finalize_plan_claim platform claim (
        map atom (atoms_that (is_internal_deposit claim.subjects) dependencies)
        ++ (map atom selected ++ map atom totals))

  -- `planClaim`, its first test included.
  unfoldable pub plan_claim :
      Claim
      → List Evidence
      → Option Period
      → Option (List (Text × ℕ))
      → Bool
      → ℤ
      → Bool
      → Outcome Failure Plan
  unfolding required_return_raw plan_reciprocal plan_cohort
  plan_claim claim dependencies period balances allow_ledger target maximize =
      elim (required_return_raw (pos 0) target) [
        | throw failure ↦ throw invalid_return_volume
        | ok none_required ↦ elim claim.claim_type [
          | reciprocal ↦ plan_reciprocal claim dependencies
          | unsupported name ↦ throw (unsupported_claim_type name)
          | closed_loop ↦ do
            (strategy, plan) ←
                plan_cohort platform claim dependencies period balances allow_ledger
                  (magnitude target) maximize
            ok plan
        ]
      ]
