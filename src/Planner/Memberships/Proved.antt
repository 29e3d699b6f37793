-- ===== src/Planner/Memberships/Proved.antt =====
-- A plan with its memberships: each leads from the leaf to the root.
use loop_proof.Common.{
  ℕ, ◌≡◌, refl, sym, ap, ap₂, subst, inl, inr, arith, Bool-cases, Option-cases, true, some, List,
  [], ◌∷◌, map, All, Text, text_eq, text_eq_iff, has, keys_by_text, ok, map_outcome, >>=-eq-ok,
  ok_injective,
}
use loop_proof.Claims.{Claim}
use loop_proof.Evidence.{Evidence}
use loop_proof.Merkle.{Step, merkle_root, climb}
use loop_proof.Merkle.Climbing.{merkle_membership_climbs, merkle_membership_throws}
use loop_proof.Planner.{evidence_id}
use loop_proof.Planner.Plans.{Plan}
use loop_proof.Planner.Memberships.{
  ProvedEvidence, ProvedPlan, original_of, membership, prove_evidence, attach_memberships,
}

-- An original is found exactly where the identifier is among the dependencies.
original_of_listed :
    (id : Text) (dependencies : List Evidence)
    → has id (map evidence_id dependencies) ≡ true
    → (original : Evidence) × (original_of id dependencies ≡ some original)
unfolding original_of has
original_of_listed id [] h = absurd (cc)
original_of_listed id (entry ∷ rest) h = elim (Option-cases (original_of id rest)) [
  | inr (later, e) ↦ (later, rw (e, original_of))
  | inl absent ↦ elim (Bool-cases (text_eq (evidence_id entry) id)) [
    | inl same ↦ (entry, ground (arith, absent, same))
    | inr other ↦
        let listed : has id (map evidence_id rest) ≡ true =
          ground
            (arith, h, text_eq_iff id (evidence_id entry), text_eq_iff (evidence_id entry) id) in
        let (later, e) = original_of_listed id rest listed in absurd (cc (absent, e))
  ]
]

module _ (sha256 : List ℕ → Text) where
  -- A membership that is given leads to the root.
  membership_climbs :
      (hashes : List Text) (target : Text) (steps : List Step)
      → membership sha256 hashes target ≡ ok steps
      → climb sha256 target steps ≡ merkle_root sha256 hashes
  unfolding membership
  membership_climbs hashes target steps h = elim (Bool-cases (has target hashes)) [
    | inl listed ↦
        let (found, e, f) = merkle_membership_climbs sha256 hashes target listed in
        let same : found ≡ steps = ground (arith, e, h) in rw (← same) f
    | inr absent ↦ absurd (ground (arith, merkle_membership_throws sha256 hashes target absent, h))
  ]

  membership_listed :
      (hashes : List Text) (target : Text)
      → has target hashes ≡ true
      → (steps : List Step) × (membership sha256 hashes target ≡ ok steps)
  unfolding membership
  membership_listed hashes target listed =
      let (found, e, f) = merkle_membership_climbs sha256 hashes target listed in
      (found, rw (e, membership))

module _ (sha256 : List ℕ → Text) (leaf_text : Evidence → Text) (claim : Claim) where
  -- The evidence's membership leads from its identifier to the root of the dependencies.
  abbrev pub IsProved : ProvedEvidence → Type 0
  IsProved proved =
      climb sha256 (evidence_id proved.evidence) proved.membership
      ≡ merkle_root sha256 (map evidence_id claim.dependencies)

  prove_evidence-IsProved :
      (entry : Evidence) (proved : ProvedEvidence)
      → prove_evidence sha256 leaf_text claim entry ≡ ok proved
      → (proved.evidence ≡ entry) × IsProved proved
  unfolding prove_evidence
  prove_evidence-IsProved entry proved h =
      elim (Option-cases (original_of (evidence_id entry) claim.dependencies)) [
        | inl absent ↦ absurd (ground (arith, absent, h))
        | inr (original, e) ↦
            let ids = map evidence_id claim.dependencies in
            let (steps, f, g) =
              >>=-eq-ok (membership sha256 ids (evidence_id entry))
                (λ (steps : List Step). ok (record {
                  evidence = entry;
                  dependency_leaf = leaf_text original;
                  membership = steps;
                }))
                (rw (e, prove_evidence) at h) in
            let same = ok_injective g in
            (
              sym (ap (λ (p : ProvedEvidence). p.evidence) same),
              subst IsProved same (membership_climbs sha256 ids (evidence_id entry) steps f),
            )
      ]

  prove_evidence_listed :
      (entry : Evidence)
      → has (evidence_id entry) (map evidence_id claim.dependencies) ≡ true
      → (proved : ProvedEvidence) × (prove_evidence sha256 leaf_text claim entry ≡ ok proved)
  unfolding prove_evidence
  prove_evidence_listed entry listed =
      let (original, e) = original_of_listed (evidence_id entry) claim.dependencies listed in
      let (steps, f) =
        membership_listed sha256 (map evidence_id claim.dependencies) (evidence_id entry) listed in
      (
        record { evidence = entry; dependency_leaf = leaf_text original; membership = steps },
        rw (e, prove_evidence) (rw f),
      )

  all-IsProved :
      (entries : List Evidence) (found : List ProvedEvidence)
      → map_outcome (prove_evidence sha256 leaf_text claim) entries ≡ ok found
      → (map (λ (p : ProvedEvidence). p.evidence) found ≡ entries) × All IsProved found
  unfolding map_outcome
  all-IsProved [] found h = rw (← ok_injective h) (refl, tt)
  all-IsProved (entry ∷ rest) found h =
      let (first, e, f) = >>=-eq-ok (prove_evidence sha256 leaf_text claim entry) _ h in
      let (others, g, k) =
        >>=-eq-ok (map_outcome (prove_evidence sha256 leaf_text claim) rest) _ f in
      let p = prove_evidence-IsProved entry first e in
      let q = all-IsProved rest others g in
      rw (← ok_injective k) (ap₂ (λ x xs. x ∷ xs) p.0 q.0, (p.1, q.1))

  all_listed :
      (entries : List Evidence)
      → All (λ entry. has (evidence_id entry) (map evidence_id claim.dependencies) ≡ true) entries
      → (found : List ProvedEvidence) × (map_outcome (prove_evidence sha256 leaf_text claim) entries
          ≡ ok found)
  unfolding map_outcome
  all_listed [] h = ([], refl)
  all_listed (entry ∷ rest) h =
      let (first, e) = prove_evidence_listed entry h.0 in
      let (others, f) = all_listed rest h.1 in (first ∷ others, rw (e, map_outcome) (rw f))

module _ (sha256 : List ℕ → Text) (claim_text : Claim → Text) (leaf_text : Evidence → Text)
    (plan : Plan) (claim : Claim) (all_claims : List Claim) where
  -- The memberships of the claim and of the evidence lead to the roots: that of the leaves of all
  -- claims, and that of the claim's dependencies. The evidence is that of the plan, in its order.
  pub record AreProved (proved : ProvedPlan) : Type 0 where
    pub claim_proved :
        climb sha256 claim.leaf_hash proved.claim_membership
        ≡ merkle_root sha256 (map (λ (entry : Claim). entry.leaf_hash) all_claims)
    pub same_evidence :
        map (λ (p : ProvedEvidence). p.evidence) proved.selected ≡ plan.selected_evidence
    pub evidence_proved : All (IsProved sha256 leaf_text claim) proved.selected

  -- Where `attachMemberships` gives a plan, its memberships are proved.
  pub attach_memberships-AreProved :
      (proved : ProvedPlan)
      → attach_memberships sha256 claim_text leaf_text plan claim all_claims ≡ ok proved
      → AreProved proved
  unfolding attach_memberships
  attach_memberships-AreProved proved h =
      let leaves = map (λ (entry : Claim). entry.leaf_hash) all_claims in
      let (steps, e, f) = >>=-eq-ok (membership sha256 leaves claim.leaf_hash) _ h in
      let (selected, g, k) =
        >>=-eq-ok (map_outcome (prove_evidence sha256 leaf_text claim) plan.selected_evidence) _
          f in
      let q = all-IsProved sha256 leaf_text claim plan.selected_evidence selected g in
      rw (← ok_injective k) (record {
        claim_proved = membership_climbs sha256 leaves claim.leaf_hash steps e;
        same_evidence = q.0;
        evidence_proved = q.1;
      })

  -- Where the claim's leaf is among the leaves and every selected identifier is among those of the claim's
  -- dependencies, attachMemberships gives a proved plan, whose membership proofs lead from the claim's leaf
  -- to the report's root and from each selected leaf to the root of the dependencies.
  pub attach_memberships_listed :
      has claim.leaf_hash (map (λ (entry : Claim). entry.leaf_hash) all_claims) ≡ true
      → All
          (λ entry. has (evidence_id entry) (map evidence_id claim.dependencies) ≡ true)
          plan.selected_evidence
      → (proved : ProvedPlan) × (attach_memberships sha256 claim_text leaf_text plan claim
            all_claims
          ≡ ok proved)
        × AreProved proved
  unfolding attach_memberships
  attach_memberships_listed leaf_listed evidence_listed =
      let leaves = map (λ (entry : Claim). entry.leaf_hash) all_claims in
      let (steps, e) = membership_listed sha256 leaves claim.leaf_hash leaf_listed in
      let (selected, f) =
        all_listed sha256 leaf_text claim plan.selected_evidence evidence_listed in
      let proved : ProvedPlan = record {
        plan = plan;
        claim_leaf = claim_text claim;
        claim_membership = steps;
        selected = selected;
      } in
      let given : attach_memberships sha256 claim_text leaf_text plan claim all_claims ≡ ok proved =
        rw (e, attach_memberships) (rw f) in
      (proved, given, attach_memberships-AreProved proved given)
