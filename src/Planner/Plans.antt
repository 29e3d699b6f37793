-- ===== src/Planner/Plans.antt =====
-- scripts/proof-planner.mjs: `planClaim` with `planCohort`, `planReciprocal` and `finalizePlanClaim`.
-- Of the details of a plan, the texts that only describe it are left out.
pub mod Volumes
pub mod Reciprocity
pub mod Cohorts
pub mod Sound
pub mod Planning
use loop_proof.Planner.Choosing.{required_return}
use loop_proof.Common.{
  ℕ, ◌+◌, ◌*◌, ◌==◌, compare, min, ltb, leb, if◌then◌else◌, Bool, true, false, not, ◌&&◌, ◌||◌,
  Ordering, Option, none, some, get_or, List, [], ◌∷◌, ◌++◌, map, filter, flat_map, length,
  get_elem?, sum_by, Text, codes, text_eq, to_lower_case, unit_order, sort, keys_by_text, nat_eq,
  has, set_of, insert, Outcome, ok, throw, throw_if, map_outcome, ◌>>=◌, ◌>>◌,
}
use loop_proof.Policy.{basis_points}
use loop_proof.Claims.{Period, ClaimType, closed_loop, reciprocal, unsupported, Metrics, Claim}
use loop_proof.Evidence.{
  EvidenceType, settlement, reciprocal_settlement, total_settlement, usdc_funding, Atom, Evidence,
  atom, relay_path, atomic_evidence, number_of, Platform,
}
use loop_proof.Planner.{
  Failure, unsupported_claim_type, no_cohort_strategy, no_reciprocity, volume_mismatch,
  missing_metric, reciprocal_volume_mismatch, minimum_reciprocal_volume_bps, sum_raw, buyer_of,
  compare_evidence, canonical_name, compare_cost, Cost, cost_tuple,
}
use loop_proof.Planner.Closure.{Closure, same_normalized, same_text, select_closure_for_funder}
use loop_proof.Planner.Cohort.{Strategy, build_cohort_strategy}

-- The single logs among the evidence that pass a test.
unfoldable pub atoms_that : (Atom → Bool) → List Evidence → List Atom
atoms_that test [] = []
atoms_that test (relay_path path ∷ rest) = atoms_that test rest
atoms_that test (atom entry ∷ rest) =
    if test entry then entry ∷ atoms_that test rest else atoms_that test rest

abbrev pub is_settlement : Atom → Bool
is_settlement entry = elim entry.evidence_type [ settlement ↦ true | _ ↦ false ]

abbrev pub is_reciprocal_settlement : Atom → Bool
is_reciprocal_settlement entry = elim entry.evidence_type [
  | reciprocal_settlement ↦ true
  | _ ↦ false
]

abbrev pub is_total_settlement : Atom → Bool
is_total_settlement entry = elim entry.evidence_type [ total_settlement ↦ true | _ ↦ false ]

abbrev pub is_usdc_funding : Atom → Bool
is_usdc_funding entry = elim entry.evidence_type [ usdc_funding ↦ true | _ ↦ false ]

-- `list.includes(value)`, for a value that may be null.
unfoldable pub includes : List Text → Option Text → Bool
unfolding has
includes list none = false
includes list (some value) = has value list

-- `left === right`, where both may be null.
unfoldable pub equal_texts : Option Text → Option Text → Bool
unfolding same_text
equal_texts none none = true
equal_texts none (some right) = false
equal_texts (some left) right = same_text right left

-- The volume of the settlements from a buyer to a seller, as texts or as addresses.
unfoldable pub volume_between :
    (Option Text → Option Text → Bool) → List Atom → Option Text → Option Text → ℕ
volume_between same entries buyer seller =
    sum_raw (filter (λ (entry : Atom). same entry.buyer buyer && same entry.seller seller) entries)

-- `claim.subjects.map(normalize).sort()`, of which the first two are read.
unfoldable pub address_pair : List Text → Option Text × Option Text
unfolding to_lower_case
address_pair subjects =
    let sorted = sort unit_order (map to_lower_case subjects) in
    (get_elem? sorted 0, get_elem? sorted 1)

abbrev pub figure : Option ℕ → Outcome Failure ℕ
figure none = throw missing_metric
figure (some n) = ok n

-- `validateAnalysisVolume`
unfoldable pub validate_analysis_volume : Claim → List Evidence → Outcome Failure (Unit {0})
unfolding atoms_that volume_between address_pair same_normalized
validate_analysis_volume claim selected = elim claim.metrics [
  | none ↦ ok tt
  | some metrics ↦
      let settlements =
        atoms_that (λ entry. is_settlement entry || is_reciprocal_settlement entry) selected in
      elim claim.claim_type [
        | closed_loop ↦ do
          expected ← figure metrics.qualified_volume_raw
          throw_if (not (sum_raw settlements == expected)) (volume_mismatch claim.claim_id)
        | _ ↦
            let pair = address_pair claim.subjects in
            do
              expected_a_to_b ← figure metrics.volume_a_to_b_raw
              expected_b_to_a ← figure metrics.volume_b_to_a_raw
              throw_if
                  (not (volume_between same_normalized settlements pair.0 pair.1 == expected_a_to_b)
                    || not (
                        volume_between same_normalized settlements pair.1 pair.0
                        == expected_b_to_a))
                  (reciprocal_volume_mismatch claim.claim_id)
      ]
]

-- A plan of a claim.
pub record Plan : Type 0 where
  pub claim_id : Text
  pub claim_type : ClaimType
  pub subjects : List Text
  pub dependency_root : Text
  pub selected_evidence : List Evidence
  pub selected_blocks : List ℕ
  pub cost : Cost

module _ (platform : Platform) where
  -- The map of `dedupe`: the last value of an identifier, at the place of the first.
  unfoldable pub dedupe_onto : List (Text × Evidence) → List Evidence → List (Text × Evidence)
  unfolding insert canonical_name
  dedupe_onto found [] = found
  dedupe_onto found (value ∷ rest) =
      dedupe_onto (insert (canonical_name platform value) value found) rest

  unfoldable pub dedupe : List Evidence → List Evidence
  unfolding dedupe_onto
  dedupe values = map (λ (entry : Text × Evidence). entry.1) (dedupe_onto [] values)

  -- `[...new Set(blocks)].sort(numberAscending)`
  unfoldable pub blocks_of : List Evidence → List ℕ
  unfolding set_of
  blocks_of selected = sort compare (
      set_of
        (map (λ (entry : Atom). number_of entry.block_number) (flat_map atomic_evidence selected)))

  unfoldable pub finalize_plan_claim : Claim → List Evidence → Outcome Failure Plan
  unfolding dedupe validate_analysis_volume blocks_of cost_tuple
  finalize_plan_claim claim evidence = do
    let selected = sort (compare_evidence platform) (dedupe evidence)
    _ ← validate_analysis_volume claim selected
    cost ← cost_tuple platform selected
    ok (record {
      claim_id = claim.claim_id;
      claim_type = claim.claim_type;
      subjects = claim.subjects;
      dependency_root = claim.dependency_root;
      selected_evidence = selected;
      selected_blocks = blocks_of selected;
      cost = cost;
    })
