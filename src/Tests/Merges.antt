-- ===== src/Tests/Merges.antt =====
-- The merge of the plans of a bundle at a concrete input.
use loop_proof.Common.{
  ◌≡◌, refl, List, [], ◌∷◌, codes, text_eq, has, keys_by_text, ok, compare, IsSorted, IsDistinct,
  nat_eq, to_lower_case,
}
use loop_proof.Claims.{Claim}
use loop_proof.Planner.Memberships.{ProvedPlan}
use loop_proof.Merging.{MergedPlan, merge_proof_plans}
use loop_proof.Merging.Merged.{AreMerged, merge_proof_plans-AreMerged}
use loop_proof.Tests.Proofs.{digest, claim, plan}

-- The approved claim spells its identifier in capitals.
abbrev approved : List Claim
approved = record claim { claim_id = codes "CLAIM" } ∷ []

abbrev planned : List ProvedPlan
planned =
    record { plan = plan; claim_leaf = codes "0xcc"; claim_membership = []; selected = [] } ∷ []

merge_proof_plans-AreMerged_example :
    (result : MergedPlan) × (merge_proof_plans digest (codes "0xroot") approved planned ≡ ok result)
    × AreMerged digest (codes "0xroot") (codes "0xcc" ∷ []) approved result.claims
    × IsSorted compare result.materialization_block_numbers
    × IsDistinct result.materialization_block_numbers
unfolding has text_eq to_lower_case
merge_proof_plans-AreMerged_example =
    merge_proof_plans-AreMerged digest (codes "0xroot") approved planned (refl, tt)
