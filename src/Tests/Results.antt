-- ===== src/Tests/Results.antt =====
-- A discovery of two sellers, of which one has a proof.
use loop_proof.Common.{
  ◌≡◌, refl, unit_order, true, none, some, [], ◌∷◌, ◌++◌, replicate, Text, codes, ok,
}
use loop_proof.Reconcile.{
  SellerProof, Candidate, Reconciled, ReconcileRequest, summary, seller_result,
  reconcile_development_proof_results,
}
use loop_proof.Reconcile.Changes.{IsReconciled, reconcile_development_proof_results-IsReconciled}
use loop_proof.Reconcile.Totals.{Adds, reconcile_development_proof_results-totals}

abbrev first_seller : Text
first_seller = codes "0x" ++ replicate 40 97

abbrev second_seller : Text
second_seller = codes "0x" ++ replicate 40 98

abbrev vkey : Text
vkey = codes "0x" ++ replicate 64 99

abbrev proof : SellerProof
proof = record {
  version = 3;
  kind = codes "antseed-wash-trading-seller-proof";
  proof_architecture = codes "direct-seller-v1";
  security_mode = codes "development";
  evidence_format = codes "single-bundle-v1";
  claim_count = 1;
  total_seller_volume_raw = some (codes "200");
  proved = true;
  verified = true;
  source_claim_ids = some (codes "c" ∷ []);
  seller = first_seller;
  seller_program_vkey = vkey;
  public_values = codes "0x";
  proof_bytes = codes "0x";
  proof_path = none;
  proven_wash_volume_raw = 150;
  evidence_digest = codes "0x";
  block_authentication_root = codes "0x";
}

abbrev waiting : Candidate
waiting = record {
  seller = first_seller;
  state = codes "proof_candidate";
  display_name = none;
  eligible_volume_raw = some 200;
  traces_requested = 1;
  traces_completed = 1;
  path_count = 1;
  destinations = none;
  bottleneck_return_raw = 60;
  proof = none;
}

abbrev rejected : Candidate
rejected = record waiting { seller = second_seller; state = codes "predicate_rejected" }

abbrev proven : Candidate
proven = record waiting { state = codes "proof_validated"; proof = some (summary proof) }

abbrev request : ReconcileRequest
request = record {
  discovery = record {
    version = 1;
    kind = codes "antseed-p0-loop-discovery";
    candidates = some (waiting ∷ rejected ∷ []);
  };
  bundle = record {
    version = 1;
    kind = codes "antseed-wash-trading-proof-bundle";
    claims = some (record { claim_id = codes "C"; subjects = first_seller ∷ [] } ∷ []);
    report_root = codes "0x";
  };
  seller_proofs = proof ∷ [];
  diagnostics = [];
}

abbrev outcome : Reconciled
outcome = record {
  counts =
      (codes "not_eligible", 0)
      ∷ (codes "incomplete", 0)
      ∷ (codes "complete_no_loop", 0)
      ∷ (codes "proof_candidate", 0)
      ∷ (codes "predicate_rejected", 1)
      ∷ (codes "proof_validated", 1)
      ∷ [];
  candidates = proven ∷ rejected ∷ [];
  report = record {
    report_root = codes "0x";
    report_vkey = some vkey;
    direct_seller_proof_count = 1;
    total_volume_raw = 200;
    total_proven_raw = 150;
    investigated_seller_count = 2;
    sellers = seller_result proven none ∷ seller_result rejected none ∷ [];
  };
}

reconciled_to : reconcile_development_proof_results unit_order request ≡ ok outcome
unfolding reconcile_development_proof_results
reconciled_to = refl

-- Three quarters of the seller's volume are proven.
three_quarters : (seller_result proven none).maximum_share_bps ≡ 7500
unfolding seller_result summary
three_quarters = refl

reconcile_development_proof_results-IsReconciled_example : IsReconciled request outcome
reconcile_development_proof_results-IsReconciled_example =
    reconcile_development_proof_results-IsReconciled unit_order request outcome reconciled_to

reconcile_development_proof_results-totals_example : Adds (waiting ∷ rejected ∷ []) outcome
unfolding reconcile_development_proof_results
reconcile_development_proof_results-totals_example =
    reconcile_development_proof_results-totals unit_order request (waiting ∷ rejected ∷ []) outcome
      refl (refl, (refl, tt)) reconciled_to
