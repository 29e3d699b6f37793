-- ===== src/Merging.antt =====
-- scripts/merge-proof-plans.mjs: `mergeProofPlans`, which joins the plans of an approved bundle. SHA-256
-- is an argument.
pub mod Merged
use loop_proof.Common.{
  ℕ, compare, Option, none, some, List, [], ◌∷◌, map, flat_map, Text, to_lower_case, lookup, insert,
  sort, nat_eq, set_of, Outcome, ok, throw, map_outcome, ◌>>=◌,
}
use loop_proof.Claims.{Claim}
use loop_proof.Evidence.{Evidence}
use loop_proof.Merkle.{Step, merkle_membership}
use loop_proof.Planner.Plans.{Plan}
use loop_proof.Planner.Memberships.{ProvedEvidence, ProvedPlan}

pub data Failure : Type 0 where
  missing_planned_claim : Text → Failure
  target_not_found : Failure

-- `compactEvidence`: the evidence without its leaf and its membership.
abbrev pub compact_evidence : ProvedEvidence → Evidence
compact_evidence proved = proved.evidence

pub record MergedClaim : Type 0 where
  pub plan : Plan
  pub report_root : Text
  pub claim_membership : List Step
  pub selected_evidence : List Evidence

pub record MergedPlan : Type 0 where
  pub claims : List MergedClaim
  pub materialization_block_numbers : List ℕ

-- `plannedById`: a later plan of a claim replaces an earlier one.
unfoldable pub planned_onto : List (Text × ProvedPlan) → List ProvedPlan → List (Text × ProvedPlan)
unfolding insert to_lower_case
planned_onto found [] = found
planned_onto found (planned ∷ rest) =
    planned_onto (insert (to_lower_case planned.plan.claim_id) planned found) rest

module _ (sha256 : List ℕ → Text) where
  unfoldable pub leaf_membership : List Text → Text → Outcome Failure (List Step)
  unfolding merkle_membership
  leaf_membership leaves target = elim (merkle_membership sha256 leaves target) [
    | ok steps ↦ ok steps
    | throw failure ↦ throw target_not_found
  ]

  -- The merged claim of an approved one, from the plan that was found.
  unfoldable pub merge_found :
      Text → List Text → Claim → Option ProvedPlan → Outcome Failure MergedClaim
  unfolding leaf_membership
  merge_found report_root leaves approved none = throw (missing_planned_claim approved.claim_id)
  merge_found report_root leaves approved (some planned) = do
    steps ← leaf_membership leaves approved.leaf_hash
    ok (record {
      plan = planned.plan;
      report_root = report_root;
      claim_membership = steps;
      selected_evidence = map compact_evidence planned.selected;
    })

  unfoldable pub merge_claims :
      Text → List Text → List (Text × ProvedPlan) → List Claim → Outcome Failure (List MergedClaim)
  unfolding merge_found lookup to_lower_case
  merge_claims report_root leaves planned [] = ok []
  merge_claims report_root leaves planned (approved ∷ rest) = do
    merged ←
        merge_found report_root leaves approved (lookup (to_lower_case approved.claim_id) planned)
    others ← merge_claims report_root leaves planned rest
    ok (merged ∷ others)

  -- `mergeProofPlans`
  unfoldable pub merge_proof_plans :
      Text → List Claim → List ProvedPlan → Outcome Failure MergedPlan
  unfolding planned_onto merge_claims set_of
  merge_proof_plans report_root claims plans = do
    merged ←
        merge_claims report_root (map (λ (claim : Claim). claim.leaf_hash) claims)
          (planned_onto [] plans) claims
    ok (record {
      claims = merged;
      materialization_block_numbers =
          sort compare
            (set_of (flat_map (λ (claim : MergedClaim). claim.plan.selected_blocks) merged));
    })
