-- ===== src/Reconcile/Changes.antt =====
-- Which candidates `reconcileDevelopmentProofResults` changes, and by which proofs.
use mathlib.Core.List.{Mem, mem-cons_self, mem-cons_of_mem}
use loop_proof.Common.{
  some_injective, Ordering, ◌≡◌, refl, subst, inl, inr, Bool-cases, List, [], ◌∷◌, map, All,
  All-map, Text, codes, text_eq, text_eq_iff, to_lower_case, keys_by_text, IsDistinct, lookup, ok,
  >>=-eq-ok, ok_injective, map_outcome, map_outcome-cons-eq-ok, Option, none, some,
}
use loop_proof.Reconcile.{
  SellerProof, Candidate, Reconciled, ReconcileRequest, candidates_of, claims_by_id, summary,
  no_proofs, reconciled, with_proof, normalize_address, reconcile_development_proof_results,
}
use loop_proof.Reconcile.Parts.{parts_of}
use loop_proof.Reconcile.Verified.{IsDevelopmentProof}
use loop_proof.Reconcile.Gathering.{
  normalize_address_lem, seller_of, HasKey, IsFiled, gather_all-Grown,
}

-- What becomes of a candidate: it stays, or a verified proof of its seller validates it.
pub data Change (proofs : List SellerProof) : Candidate → Candidate → Type 0 where
  stays : {candidate : Candidate} → Change proofs candidate candidate
  validated :
      {candidate : Candidate} {proof : SellerProof}
      → candidate.state ≡ codes "proof_candidate"
      → Mem proof proofs
      → IsDevelopmentProof proof
      → to_lower_case proof.seller ≡ to_lower_case candidate.seller
      → Change proofs candidate
          (record candidate { state = codes "proof_validated"; proof = some (summary proof) })

-- The candidates change one by one.
abbrev pub AreChanged : List SellerProof → List Candidate → List Candidate → Type 0
AreChanged proofs [] [] = Unit
AreChanged proofs (before ∷ entries) (after ∷ candidates) =
    Change proofs before after × AreChanged proofs entries candidates
AreChanged proofs _ _ = ⊥

lookup-IsFiled :
    (proofs : List SellerProof) (seller : Text) (found : List (Text × SellerProof))
    (proof : SellerProof)
    → All (IsFiled proofs) found
    → lookup seller found ≡ some proof
    → IsFiled proofs (seller, proof)
unfolding lookup
lookup-IsFiled proofs seller [] proof filed hit = cc
lookup-IsFiled proofs seller ((key, value) ∷ found) proof (first, filed) hit =
    elim (Bool-cases (text_eq key seller)) [
      | inl same ↦
          let equal : key ≡ seller = (text_eq_iff key seller).0 same in
          let value_same : value ≡ proof = some_injective (rw same at hit) in
          subst (λ (k : Text). IsFiled proofs (k, proof)) equal
            (subst (λ (p : SellerProof). IsFiled proofs (key, p)) value_same first)
      | inr other ↦ lookup-IsFiled proofs seller found proof filed (rw other at hit)
    ]

with_proof-Change :
    (proofs : List SellerProof) (candidate : Candidate) (found : Option SellerProof)
    → ((proof : SellerProof)
        → found ≡ some proof
        → IsFiled proofs (to_lower_case candidate.seller, proof))
    → Change proofs candidate (with_proof candidate found)
unfolding with_proof
with_proof-Change proofs candidate none filed = stays
with_proof-Change proofs candidate (some proof) filed =
    elim (Bool-cases (text_eq candidate.state (codes "proof_candidate"))) [
      | inl waiting ↦
          let (member, valid, seller) = filed proof refl in
          rw (waiting, with_proof)
            (validated ((text_eq_iff candidate.state (codes "proof_candidate")).0 waiting) member
              valid seller)
      | inr other ↦ rw (other, with_proof) stays
    ]

map_outcome-AreChanged :
    (proofs : List SellerProof) (found : List (Text × SellerProof))
    (entries candidates : List Candidate)
    → All (IsFiled proofs) found
    → map_outcome (reconciled found) entries ≡ ok candidates
    → AreChanged proofs entries candidates
unfolding map_outcome reconciled
map_outcome-AreChanged proofs found [] candidates filed done =
    subst (λ (cs : List Candidate). AreChanged proofs [] cs) (ok_injective done) tt
map_outcome-AreChanged proofs found (entry ∷ entries) candidates filed done =
    let (first, others, made, later, same) =
      map_outcome-cons-eq-ok (reconciled found) entry entries done in
    let (seller, addressed, changed) = >>=-eq-ok (normalize_address entry.seller) _ made in
    let address = normalize_address_lem entry.seller seller addressed in
    let change =
      with_proof-Change proofs entry (lookup seller found)
        (λ proof hit. rw address (lookup-IsFiled proofs seller found proof filed hit)) in
    rw same (
      subst (λ (c : Candidate). Change proofs entry c) (ok_injective changed) change,
      map_outcome-AreChanged proofs found entries others filed later,
    )

among_itself : (proofs : List SellerProof) → All (λ proof. Mem proof proofs) proofs
among_itself [] = tt
among_itself (proof ∷ proofs) =
    (mem-cons_self, All-map (λ other m. mem-cons_of_mem proof m) proofs (among_itself proofs))

abbrev pub IsReconciled : ReconcileRequest → Reconciled → Type 0
IsReconciled request result =
    ((entries : List Candidate) × (candidates_of request.discovery ≡ ok entries)
      × AreChanged request.seller_proofs entries result.candidates)
    × IsDistinct (map seller_of request.seller_proofs)
    × All (HasKey result.report.report_vkey) request.seller_proofs

-- Where reconcileDevelopmentProofResults returns, every proof it was given is a verified development proof
-- of one claim and of a positive volume, with the version, kind, architecture, mode and format asked for and
-- for the program key of the report, no two are of one seller, and each candidate of the discovery either
-- stays as it was, or was a proof candidate and is now validated, with one of these proofs of its seller.
pub reconcile_development_proof_results-IsReconciled :
    (locale_compare : Text → Text → Ordering) (request : ReconcileRequest) (result : Reconciled)
    → reconcile_development_proof_results locale_compare request ≡ ok result
    → IsReconciled request result
reconcile_development_proof_results-IsReconciled locale_compare request result done =
    let parts = parts_of locale_compare request result done in
    let proofs = request.seller_proofs in
    let grown =
      gather_all-Grown (claims_by_id parts.claims []) proofs proofs no_proofs parts.gathered
        parts.proofs_gathered (among_itself proofs) tt tt in
    subst (λ (r : Reconciled). IsReconciled request r) parts.result_made
      (
        (
          parts.entries,
          parts.entries_read,
          map_outcome-AreChanged proofs parts.gathered.proofs_by_seller parts.entries
              parts.candidates grown.filed parts.entries_changed,
        ),
        subst (λ (keys : List Text). IsDistinct keys) grown.keys grown.distinct,
        grown.keyed,
      )
