-- ===== src/Planner/Plans/Volumes.antt =====
-- What a plan of `finalizePlanClaim` holds.
use loop_proof.Common.{
  ℕ, ◌==◌, ◌≡◌, subst, sym, ap, ◌∙◌, inl, inr, arith, Bool-cases, compare, compare-IsComparator,
  ◌||◌, some, List, map, flat_map, sort, sort-IsSorted, IsSorted, has, has-sort, set_of, has-set_of,
  IsDistinct, IsDistinct-sort, set_of-IsDistinct, nat_eq, ok, >>=-eq-ok, ==_iff,
}
use loop_proof.Claims.{closed_loop, Metrics, Claim}
use loop_proof.Evidence.{Atom, Evidence, atomic_evidence, number_of, Platform}
use loop_proof.Planner.{sum_raw, compare_evidence, cost_tuple}
use loop_proof.Planner.Plans.{
  atoms_that, is_settlement, is_reciprocal_settlement, validate_analysis_volume, Plan, dedupe,
  blocks_of, finalize_plan_claim,
}

-- The settlements that a plan selects, of both kinds.
abbrev pub planned_volume : List Evidence → ℕ
planned_volume selected =
    sum_raw (atoms_that (λ entry. is_settlement entry || is_reciprocal_settlement entry) selected)

-- The blocks of the evidence.
abbrev pub block_numbers : List Evidence → List ℕ
block_numbers selected =
    map (λ (entry : Atom). number_of entry.block_number) (flat_map atomic_evidence selected)

-- A plan proves the volume that a closed-loop claim was approved for, and its blocks are those of its
-- evidence, each once and in ascending order.
pub record IsPlan (claim : Claim) (plan : Plan) : Type 0 where
  pub approved :
      (metrics : Metrics) (volume : ℕ)
      → claim.claim_type ≡ closed_loop
      → claim.metrics ≡ some metrics
      → metrics.qualified_volume_raw ≡ some volume
      → planned_volume plan.selected_evidence ≡ volume
  pub ascending : IsSorted compare plan.selected_blocks
  pub once : IsDistinct plan.selected_blocks
  pub blocks :
      (block : ℕ)
      → has block plan.selected_blocks ≡ has block (block_numbers plan.selected_evidence)

validated :
    (claim : Claim) (selected : List Evidence) (metrics : Metrics) (volume : ℕ) {u : Unit {0}}
    → validate_analysis_volume claim selected ≡ ok u
    → claim.claim_type ≡ closed_loop
    → claim.metrics ≡ some metrics
    → metrics.qualified_volume_raw ≡ some volume
    → planned_volume selected ≡ volume
unfolding validate_analysis_volume
validated claim selected metrics volume h c m v =
    elim (Bool-cases (planned_volume selected == volume)) [
      | inl same ↦ (==_iff _ _).0 same
      | inr other ↦ absurd (ground (arith, c, m, v, other, h))
    ]

has-blocks_of :
    (platform : Platform) (selected : List Evidence) (block : ℕ)
    → has block (blocks_of platform selected) ≡ has block (block_numbers selected)
unfolding blocks_of
has-blocks_of platform selected block =
    has-sort compare block (set_of (block_numbers selected))
    ∙ has-set_of block (block_numbers selected)

blocks_of-IsSorted :
    (platform : Platform) (selected : List Evidence)
    → IsSorted compare (blocks_of platform selected)
unfolding blocks_of
blocks_of-IsSorted platform selected =
    sort-IsSorted compare compare-IsComparator (set_of (block_numbers selected))

blocks_of-IsDistinct :
    (platform : Platform) (selected : List Evidence) → IsDistinct (blocks_of platform selected)
unfolding blocks_of
blocks_of-IsDistinct platform selected =
    IsDistinct-sort compare (set_of (block_numbers selected))
      (set_of-IsDistinct (block_numbers selected))

-- Where `finalizePlanClaim` gives a plan, the plan proves the volume that a closed-loop claim was approved
-- for, and its blocks are those of its evidence, each once and in ascending order.
pub finalize_plan_claim-IsPlan :
    (platform : Platform) (claim : Claim) (evidence : List Evidence) (plan : Plan)
    → finalize_plan_claim platform claim evidence ≡ ok plan
    → IsPlan claim plan
unfolding finalize_plan_claim
finalize_plan_claim-IsPlan platform claim evidence plan h =
    let selected = sort (compare_evidence platform) (dedupe platform evidence) in
    let (u, e, f) = >>=-eq-ok (validate_analysis_volume claim selected) _ h in
    let (cost, g, k) = >>=-eq-ok (cost_tuple platform selected) _ f in
    let same_evidence : plan.selected_evidence ≡ selected = cc in
    let same_blocks : plan.selected_blocks ≡ blocks_of platform selected = cc in
    record {
      approved = λ metrics volume c m v.
          ap planned_volume same_evidence ∙ validated claim selected metrics volume e c m v;
      ascending =
          subst (λ (xs : List ℕ). IsSorted compare xs) (sym same_blocks)
            (blocks_of-IsSorted platform selected);
      once =
          subst (λ (xs : List ℕ). IsDistinct xs) (sym same_blocks)
            (blocks_of-IsDistinct platform selected);
      blocks = λ block.
          ap (λ xs. has block xs) same_blocks
          ∙ has-blocks_of platform selected block
          ∙ sym (ap (λ xs. has block (block_numbers xs)) same_evidence);
    }
