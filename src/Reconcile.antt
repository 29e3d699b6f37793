-- ===== src/Reconcile.antt =====
-- scripts/reconcile-development-proof-results.mjs: `reconcileDevelopmentProofResults` and `sellerResult`.
-- `localeCompare` follows the locale's collation, which is an argument. A field that the script
-- reads with `??` is optional, and the fields that it only passes on with the discovery are left out. The
-- volumes are numbers but for the one that the script tests as a text.
mod Records
mod Proofs
pub mod Parts
pub mod Verified
pub mod Gathering
pub mod Totals
pub mod Changes
pub use Records.*
unfoldable pub use Proofs.*
use loop_proof.Common.{
  ℕ, ◌+◌, ◌*◌, ◌/◌, Ordering, leb, ◌==◌, if◌then◌else◌, Bool, true, false, not, ◌&&◌, ◌||◌, Option,
  none, some, get_or, List, [], ◌∷◌, ◌++◌, map, every, filter, length, sum_by, Text, codes, text_eq,
  to_lower_case, keys_by_text, has, set_of, lookup, has_key, insert, sort, unit_order, Outcome, ok,
  throw, throw_if, ◌>>=◌, ◌>>◌, map_outcome,
}
use loop_proof.Hex.{is_hex, normalize_hash}
use loop_proof.Money.{is_digit, read_from}

-- `left ?? right`
abbrev pub or_other {ℓ} : {A : Type ℓ} → Option A → Option A → Option A
or_other none right = right
or_other (some left) right = some left

unfoldable pub diagnostics_by_seller :
    List SellerDiagnostics
    → List (Text × SellerDiagnostics)
    → Outcome Failure (List (Text × SellerDiagnostics))
unfolding normalize_address insert
diagnostics_by_seller [] found = ok found
diagnostics_by_seller (entry ∷ rest) found = do
  seller ← normalize_address entry.seller
  diagnostics_by_seller rest (insert seller entry found)

unfoldable pub summary : SellerProof → ProofSummary
summary proof = record {
  proof_architecture = proof.proof_architecture;
  security_mode = proof.security_mode;
  source_claim_ids = get_or proof.source_claim_ids [];
  seller_program_vkey = proof.seller_program_vkey;
  public_values = proof.public_values;
  proof_bytes = proof.proof_bytes;
  proof_path = proof.proof_path;
  proven_wash_volume_raw = proof.proven_wash_volume_raw;
  total_seller_volume_raw = get_or proof.total_seller_volume_raw [];
  evidence_digest = proof.evidence_digest;
  block_authentication_root = proof.block_authentication_root;
}

-- The callback over the candidates, given the proof of the seller.
unfoldable pub with_proof : Candidate → Option SellerProof → Candidate
unfolding summary
with_proof candidate none = candidate
with_proof candidate (some proof) =
    if text_eq candidate.state (codes "proof_candidate")
    then record candidate { state = codes "proof_validated"; proof = some (summary proof) }
    else candidate

unfoldable pub reconciled : List (Text × SellerProof) → Candidate → Outcome Failure Candidate
unfolding normalize_address lookup with_proof
reconciled proofs candidate = do
  seller ← normalize_address candidate.seller
  ok (with_proof candidate (lookup seller proofs))

abbrev pub states : List Text
states =
    codes "not_eligible"
    ∷ codes "incomplete"
    ∷ codes "complete_no_loop"
    ∷ codes "proof_candidate"
    ∷ codes "predicate_rejected"
    ∷ codes "proof_validated"
    ∷ []

-- How many candidates are in the state.
unfoldable pub count_of : List Candidate → Text → ℕ
unfolding text_eq
count_of candidates state =
    length (filter (λ (candidate : Candidate). text_eq candidate.state state) candidates)

unfoldable pub counts_of : List Candidate → List (Text × ℕ)
unfolding count_of
counts_of candidates = map (λ state. (state, count_of candidates state)) states

unfoldable pub is_investigated : Candidate → Bool
unfolding has
is_investigated candidate =
    has candidate.state
      (codes "complete_no_loop" ∷ codes "predicate_rejected" ∷ codes "proof_validated" ∷ [])

abbrev pub figure {ℓ} :
    {A : Type ℓ} → (SellerDiagnostics → Option A) → Option SellerDiagnostics → Option A
figure field none = none
figure field (some diagnostics) = field diagnostics

abbrev pub proven_of : Option ProofSummary → Option ℕ
proven_of none = none
proven_of (some proof) = some proof.proven_wash_volume_raw

unfoldable pub share_bps : ℕ → ℕ → ℕ
share_bps selected volume = if volume == 0 then 0 else selected * 10000 / volume

abbrev pub reason_of : Option (List (Text × ℕ)) → Rejection
reason_of none = predicate_rejected
reason_of (some deficits) = rejected_for deficits

-- `sellerResult`
unfoldable pub seller_result : Candidate → Option SellerDiagnostics → SellerResult
unfolding share_bps set_of sort unit_order text_eq
seller_result candidate diagnostics =
    let selected =
      get_or
        (or_other (figure (λ (d : SellerDiagnostics). d.selected_settlement_raw) diagnostics)
          (proven_of candidate.proof))
        0 in
    let volume =
      get_or
        (or_other (figure (λ (d : SellerDiagnostics). d.seller_volume_raw) diagnostics)
          candidate.eligible_volume_raw)
        0 in
    record {
      seller = candidate.seller;
      display_name = candidate.display_name;
      state = candidate.state;
      traces_requested = candidate.traces_requested;
      traces_completed = candidate.traces_completed;
      relay_path_count = candidate.path_count;
      destinations = sort unit_order (set_of (get_or candidate.destinations []));
      retained_funding_raw = figure (λ (d : SellerDiagnostics). d.retained_funding_raw) diagnostics;
      selected_settlement_raw = selected;
      bottleneck_return_raw =
          get_or (figure (λ (d : SellerDiagnostics). d.bottleneck_return_raw) diagnostics)
            candidate.bottleneck_return_raw;
      maximum_share_bps =
          get_or (figure (λ (d : SellerDiagnostics). d.selected_share_bps) diagnostics)
            (share_bps selected volume);
      proof = candidate.proof;
      rejection_reason =
          if text_eq candidate.state (codes "complete_no_loop")
          then some no_fragmented_relay_convergence
          else if text_eq candidate.state (codes "predicate_rejected")
          then some (reason_of (figure (λ (d : SellerDiagnostics). d.deficits) diagnostics))
          else none;
    }

unfoldable pub result_of :
    List (Text × SellerDiagnostics) → Candidate → Outcome Failure SellerResult
unfolding normalize_address lookup seller_result
result_of diagnostics candidate = do
  seller ← normalize_address candidate.seller
  ok (seller_result candidate (lookup seller diagnostics))

-- The guards, and what the lists are where they hold.
unfoldable pub candidates_of : Discovery → Outcome Failure (List Candidate)
unfolding text_eq
candidates_of discovery =
    if discovery.version == 1 && text_eq discovery.kind (codes "antseed-p0-loop-discovery")
    then elim discovery.candidates [ none ↦ throw invalid_discovery | some entries ↦ ok entries ]
    else throw invalid_discovery

unfoldable pub claims_of : ApprovedBundle → Outcome Failure (List BundleClaim)
unfolding text_eq
claims_of bundle =
    if bundle.version == 1 && text_eq bundle.kind (codes "antseed-wash-trading-proof-bundle")
    then elim bundle.claims [ none ↦ throw invalid_bundle | some entries ↦ ok entries ]
    else throw invalid_bundle

abbrev pub no_proofs : Gathered
no_proofs = record { proofs_by_seller = []; vkey = none }

abbrev pub volume_of : SellerProof → ℕ
volume_of proof = read_from 0 (get_or proof.total_seller_volume_raw [])

module _ (locale_compare : Text → Text → Ordering) where
  unfoldable pub result_order : SellerResult → SellerResult → Ordering
  result_order left right = locale_compare left.seller right.seller

  -- What is returned in the end.
  abbrev pub assembled :
      ReconcileRequest → Gathered → List Candidate → List SellerResult → Reconciled
  assembled request gathered candidates results = record {
    counts = counts_of candidates;
    candidates = candidates;
    report = record {
      report_root = request.bundle.report_root;
      report_vkey = gathered.vkey;
      direct_seller_proof_count = length request.seller_proofs;
      total_volume_raw = sum_by volume_of request.seller_proofs;
      total_proven_raw =
          sum_by (λ (proof : SellerProof). proof.proven_wash_volume_raw) request.seller_proofs;
      investigated_seller_count = length results;
      sellers = sort result_order results;
    };
  }

  -- `reconcileDevelopmentProofResults`
  unfoldable pub reconcile_development_proof_results : ReconcileRequest → Outcome Failure Reconciled
  unfolding candidates_of claims_of claims_by_id gather_all diagnostics_by_seller map_outcome
      reconciled counts_of is_investigated result_of result_order sort read_from
  reconcile_development_proof_results request = do
    entries ← candidates_of request.discovery
    claims ← claims_of request.bundle
    gathered ← gather_all (claims_by_id claims []) no_proofs request.seller_proofs
    diagnostics ← diagnostics_by_seller request.diagnostics []
    candidates ← map_outcome (reconciled gathered.proofs_by_seller) entries
    results ← map_outcome (result_of diagnostics) (filter is_investigated candidates)
    ok (assembled request gathered candidates results)
