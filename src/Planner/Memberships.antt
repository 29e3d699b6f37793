-- ===== src/Planner/Memberships.antt =====
-- scripts/proof-planner.mjs: `attachMemberships`. SHA-256 and the canonical text of a report leaf are
-- arguments.
pub mod Proved
use loop_proof.Common.{
  Option, none, some, List, [], ◌∷◌, map, Text, text_eq, Outcome, ok, throw, map_outcome, ◌>>=◌, ℕ,
  if◌then◌else◌,
}
use loop_proof.Claims.{Claim}
use loop_proof.Evidence.{Evidence}
use loop_proof.Merkle.{Step, merkle_membership}
use loop_proof.Planner.{Failure, merkle_target_not_found, missing_report_dependency, evidence_id}
use loop_proof.Planner.Plans.{Plan}

-- The selected evidence with what proves that it is in the report.
pub record ProvedEvidence : Type 0 where
  pub evidence : Evidence
  pub dependency_leaf : Text
  pub membership : List Step

pub record ProvedPlan : Type 0 where
  pub plan : Plan
  pub claim_leaf : Text
  pub claim_membership : List Step
  pub selected : List ProvedEvidence

-- `originalById.get(id)`: the map keeps the last dependency of an identifier.
unfoldable pub original_of : Text → List Evidence → Option Evidence
unfolding text_eq
original_of id [] = none
original_of id (entry ∷ rest) = elim (original_of id rest) [
  | some later ↦ some later
  | none ↦ if text_eq (evidence_id entry) id then some entry else none
]

module _ (sha256 : List ℕ → Text) where
  -- `merkleMembership`, with the planner's failures.
  unfoldable pub membership : List Text → Text → Outcome Failure (List Step)
  unfolding merkle_membership
  membership hashes target = elim (merkle_membership sha256 hashes target) [
    | ok steps ↦ ok steps
    | throw failure ↦ throw merkle_target_not_found
  ]

module _ (sha256 : List ℕ → Text) (leaf_text : Evidence → Text) where
  unfoldable pub prove_evidence : Claim → Evidence → Outcome Failure ProvedEvidence
  unfolding original_of membership
  prove_evidence claim entry = elim (original_of (evidence_id entry) claim.dependencies) [
    | none ↦ throw (missing_report_dependency claim.claim_id)
    | some original ↦ do
      steps ← membership sha256 (map evidence_id claim.dependencies) (evidence_id entry)
      ok (record { evidence = entry; dependency_leaf = leaf_text original; membership = steps })
  ]

module _ (sha256 : List ℕ → Text) (claim_text : Claim → Text) (leaf_text : Evidence → Text) where
  unfoldable pub attach_memberships : Plan → Claim → List Claim → Outcome Failure ProvedPlan
  unfolding membership map_outcome prove_evidence
  attach_memberships plan claim all_claims = do
    steps ← membership sha256 (map (λ (entry : Claim). entry.leaf_hash) all_claims) claim.leaf_hash
    selected ← map_outcome (prove_evidence sha256 leaf_text claim) plan.selected_evidence
    ok (record {
      plan = plan;
      claim_leaf = claim_text claim;
      claim_membership = steps;
      selected = selected;
    })
