-- ===== src/Merging/Merged.antt =====
-- What `mergeProofPlans` gives for each approved claim.
use loop_proof.Common.{
  ℕ, ◌⊎◌, All, All-map, text_eq_iff, ◌≡◌, refl, sym, ap, subst, ◌∙◌, inl, inr, arith, Bool-cases,
  true, false, compare, compare-IsComparator, some, List, [], ◌∷◌, map, flat_map, Text, text_eq,
  text_eq_sound, text_eq_refl, to_lower_case, keys_by_text, has, lookup, insert, sort,
  sort-IsSorted, IsSorted, IsDistinct, IsDistinct-sort, set_of, set_of-IsDistinct, nat_eq, ok,
  if◌then◌else◌,
}
use loop_proof.Claims.{Claim}
use loop_proof.Merkle.{merkle_root, climb}
use loop_proof.Merkle.Climbing.{merkle_membership_climbs}
use loop_proof.Planner.Memberships.{ProvedPlan}
use loop_proof.Merging.{
  MergedClaim, MergedPlan, compact_evidence, planned_onto, leaf_membership, merge_found,
  merge_claims, merge_proof_plans,
}

-- A map whose plans stand under their claims' identifiers.
abbrev AreFiled : List (Text × ProvedPlan) → Type 0
AreFiled planned =
    (id : Text) (p : ProvedPlan) → lookup id planned ≡ some p → to_lower_case p.plan.claim_id ≡ id

abbrev pub filed_under : ProvedPlan → Text
filed_under proved = to_lower_case proved.plan.claim_id

abbrev pub leaf_of : Claim → Text
leaf_of claim = claim.leaf_hash

text_eq_unique :
    (j key id : Text) → text_eq j key ≡ false → text_eq j id ≡ true → text_eq key id ≡ false
text_eq_unique j key id other here = elim (Bool-cases (text_eq key id)) [
  | inr apart ↦ apart
  | inl same ↦
      let e : j ≡ key = text_eq_sound j id here ∙ sym (text_eq_sound key id same) in
      let equal : text_eq j key ≡ true = subst (λ x. text_eq j x ≡ true) e (text_eq_refl j) in
      absurd (ground (arith, other, equal))
]

lookup-insert :
    (id key : Text) (value : ProvedPlan) (planned : List (Text × ProvedPlan))
    → lookup id (insert key value planned)
      ≡ (if text_eq key id then some value else lookup id planned)
unfolding lookup insert
lookup-insert id key value [] = refl
lookup-insert id key value ((j, w) ∷ planned) = elim (Bool-cases (text_eq j key)) [
  | inr other ↦ elim (Bool-cases (text_eq j id)) [
    | inl here ↦
        let clash = text_eq_unique j key id other here in ground (arith, here, other, clash)
    | inr there ↦ ground (arith, lookup-insert id key value planned, other, there)
  ]
  | inl same ↦
      let e : j ≡ key = text_eq_sound j key same in ground (arith, same, ap (λ x. text_eq x id) e)
]

AreFiled-insert :
    (planned : List (Text × ProvedPlan)) (p : ProvedPlan)
    → AreFiled planned
    → AreFiled (insert (to_lower_case p.plan.claim_id) p planned)
AreFiled-insert planned p filed id q h =
    let key = to_lower_case p.plan.claim_id in
    let found = sym (lookup-insert id key p planned) ∙ h in
    elim (Bool-cases (text_eq key id)) [
      | inl same ↦
          let e : p ≡ q = ground (arith, same, found) in
          subst (λ (x : ProvedPlan). to_lower_case x.plan.claim_id ≡ id) e
            (text_eq_sound key id same)
      | inr other ↦ filed id q (ground (arith, other, found))
    ]

planned_onto-AreFiled :
    (found : List (Text × ProvedPlan)) (plans : List ProvedPlan)
    → AreFiled found
    → AreFiled (planned_onto found plans)
unfolding planned_onto
planned_onto-AreFiled found [] filed = filed
planned_onto-AreFiled found (p ∷ rest) filed =
    planned_onto-AreFiled (insert (to_lower_case p.plan.claim_id) p found) rest
      (AreFiled-insert found p filed)

-- A plan is found for each identifier that a plan was filed under.
planned_onto_found :
    (id : Text) (found : List (Text × ProvedPlan)) (plans : List ProvedPlan)
    → ((p : ProvedPlan) × (lookup id found ≡ some p)) ⊎ (has id (map filed_under plans) ≡ true)
    → (p : ProvedPlan) × (lookup id (planned_onto found plans) ≡ some p)
unfolding planned_onto has
planned_onto_found id found [] (inl there) = there
planned_onto_found id found [] (inr h) = absurd (cc)
planned_onto_found id found (p ∷ rest) h =
    let key = to_lower_case p.plan.claim_id in
    let inserted = lookup-insert id key p found in
    planned_onto_found id (insert key p found) rest (elim (Bool-cases (text_eq key id)) [
      | inl same ↦ inl (p, ground (arith, same, inserted))
      | inr other ↦ elim h [
        | inl (q, e) ↦ inl (q, ground (arith, other, inserted, e))
        | inr later ↦ inr (ground (arith, later, other, text_eq_iff id key, text_eq_iff key id))
      ]
    ])

has_each :
    (claims : List Claim)
    → All (λ (claim : Claim). has claim.leaf_hash (map leaf_of claims) ≡ true) claims
unfolding has
has_each [] = tt
has_each (claim ∷ claims) = (
  ground (arith, text_eq_refl claim.leaf_hash),
  All-map (λ (other : Claim) h. ground (arith, h)) claims (has_each claims),
)

module _ (sha256 : List ℕ → Text) (report_root : Text) (leaves : List Text) where
  -- A merged claim is planned for the approved one, and its membership leads to the root.
  pub record IsMerged (approved : Claim) (merged : MergedClaim) : Type 0 where
    pub same_claim : to_lower_case merged.plan.claim_id ≡ to_lower_case approved.claim_id
    pub root : merged.report_root ≡ report_root
    pub proved : climb sha256 approved.leaf_hash merged.claim_membership ≡ merkle_root sha256 leaves

  -- Claim by claim, in the same order.
  abbrev pub AreMerged : List Claim → List MergedClaim → Type 0
  AreMerged [] [] = Unit
  AreMerged (approved ∷ claims) (merged ∷ others) =
      IsMerged approved merged × AreMerged claims others
  AreMerged _ _ = ⊥

  merge_claims-AreMerged :
      (planned : List (Text × ProvedPlan)) (claims : List Claim)
      → AreFiled planned
      → All (λ (claim : Claim). has claim.leaf_hash leaves ≡ true) claims
      → All
          (λ (claim : Claim).
            (p : ProvedPlan) × (lookup (to_lower_case claim.claim_id) planned ≡ some p))
          claims
      → (merged : List MergedClaim) × (merge_claims sha256 report_root leaves planned claims
          ≡ ok merged)
        × AreMerged claims merged
  unfolding merge_claims merge_found leaf_membership
  merge_claims-AreMerged planned [] filed here found = ([], refl, tt)
  merge_claims-AreMerged planned (claim ∷ claims) filed (listed, here) ((p, e), found) =
      let (steps, proved, climbs) = merkle_membership_climbs sha256 leaves claim.leaf_hash listed in
      let (others, rest, each) = merge_claims-AreMerged planned claims filed here found in
      (
        record {
          plan = p.plan;
          report_root = report_root;
          claim_membership = steps;
          selected_evidence = map compact_evidence p.selected;
        }
            ∷ others,
        rw (e, merge_found, leaf_membership, proved, rest),
        (
          record {
            same_claim = filed (to_lower_case claim.claim_id) p e;
            root = refl;
            proved = climbs;
          },
          each,
        ),
      )

-- Where every approved claim has a plan, letter case apart, the merge gives one merged claim for each,
-- in order: it is planned for that claim, carries the bundle's root, and its membership leads from
-- the claim's leaf to the root of all the leaves. The blocks to read are sorted and distinct.
pub merge_proof_plans-AreMerged :
    (sha256 : List ℕ → Text) (report_root : Text) (claims : List Claim) (plans : List ProvedPlan)
    → All
        (λ (claim : Claim). has (to_lower_case claim.claim_id) (map filed_under plans) ≡ true)
        claims
    → (result : MergedPlan) × (merge_proof_plans sha256 report_root claims plans ≡ ok result)
      × AreMerged sha256 report_root (map leaf_of claims) claims result.claims
      × IsSorted compare result.materialization_block_numbers
      × IsDistinct result.materialization_block_numbers
unfolding merge_proof_plans lookup
merge_proof_plans-AreMerged sha256 report_root claims plans planned =
    let leaves = map leaf_of claims in
    let filed = planned_onto-AreFiled [] plans (λ id p h. absurd (cc)) in
    let (merged, e, each) =
      merge_claims-AreMerged sha256 report_root leaves (planned_onto [] plans) claims filed
        (has_each claims)
        (All-map
          (λ (claim : Claim) h. planned_onto_found (to_lower_case claim.claim_id) [] plans (inr h))
          claims planned) in
    let blocks = set_of (flat_map (λ (claim : MergedClaim). claim.plan.selected_blocks) merged) in
    (
      record { claims = merged; materialization_block_numbers = sort compare blocks },
      rw (e),
      each,
      sort-IsSorted compare compare-IsComparator blocks,
      IsDistinct-sort compare blocks (
          set_of-IsDistinct
            (flat_map (λ (claim : MergedClaim). claim.plan.selected_blocks) merged)),
    )
