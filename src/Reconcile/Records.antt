-- ===== src/Reconcile/Records.antt =====
-- The records of scripts/reconcile-development-proof-results.mjs: what it reads and what it reports.
use loop_proof.Common.{ℕ, Bool, Option, List, Text, keys_by_text}

pub data Failure : Type 0 where
  invalid_discovery invalid_bundle invalid_proof different_vkeys : Failure
  invalid_seller_address invalid_bytes32 multiple_proofs : Text → Failure
  unapproved_claim : Text → Text → Failure

pub record SellerProof : Type 0 where
  pub version : ℕ
  pub kind : Text
  pub proof_architecture : Text
  pub security_mode : Text
  pub evidence_format : Text
  pub claim_count : ℕ
  pub total_seller_volume_raw : Option Text
  pub proved : Bool
  pub verified : Bool
  pub source_claim_ids : Option (List Text)
  pub seller : Text
  pub seller_program_vkey : Text
  pub public_values : Text
  pub proof_bytes : Text
  pub proof_path : Option Text
  pub proven_wash_volume_raw : ℕ
  pub evidence_digest : Text
  pub block_authentication_root : Text

-- The proof as a candidate carries it.
pub record ProofSummary : Type 0 where
  pub proof_architecture : Text
  pub security_mode : Text
  pub source_claim_ids : List Text
  pub seller_program_vkey : Text
  pub public_values : Text
  pub proof_bytes : Text
  pub proof_path : Option Text
  pub proven_wash_volume_raw : ℕ
  pub total_seller_volume_raw : Text
  pub evidence_digest : Text
  pub block_authentication_root : Text

pub record Candidate : Type 0 where
  pub seller : Text
  pub state : Text
  pub display_name : Option Text
  pub eligible_volume_raw : Option ℕ
  pub traces_requested : ℕ
  pub traces_completed : ℕ
  pub path_count : ℕ
  pub destinations : Option (List Text)
  pub bottleneck_return_raw : ℕ
  pub proof : Option ProofSummary

pub record Discovery : Type 0 where
  pub version : ℕ
  pub kind : Text
  pub candidates : Option (List Candidate)

pub record BundleClaim : Type 0 where
  pub claim_id : Text
  pub subjects : List Text

pub record ApprovedBundle : Type 0 where
  pub version : ℕ
  pub kind : Text
  pub claims : Option (List BundleClaim)
  pub report_root : Text

pub record SellerDiagnostics : Type 0 where
  pub seller : Text
  pub selected_settlement_raw : Option ℕ
  pub seller_volume_raw : Option ℕ
  pub selected_share_bps : Option ℕ
  pub retained_funding_raw : Option ℕ
  pub bottleneck_return_raw : Option ℕ
  pub deficits : Option (List (Text × ℕ))

pub data Rejection : Type 0 where
  no_fragmented_relay_convergence predicate_rejected : Rejection
  rejected_for : List (Text × ℕ) → Rejection

pub record SellerResult : Type 0 where
  pub seller : Text
  pub display_name : Option Text
  pub state : Text
  pub traces_requested : ℕ
  pub traces_completed : ℕ
  pub relay_path_count : ℕ
  pub destinations : List Text
  pub retained_funding_raw : Option ℕ
  pub selected_settlement_raw : ℕ
  pub bottleneck_return_raw : ℕ
  pub maximum_share_bps : ℕ
  pub proof : Option ProofSummary
  pub rejection_reason : Option Rejection

-- The report, without its constant fields.
pub record Report : Type 0 where
  pub report_root : Text
  pub report_vkey : Option Text
  pub direct_seller_proof_count : ℕ
  pub total_volume_raw : ℕ
  pub total_proven_raw : ℕ
  pub investigated_seller_count : ℕ
  pub sellers : List SellerResult

pub record Reconciled : Type 0 where
  pub counts : List (Text × ℕ)
  pub candidates : List Candidate
  pub report : Report

pub record ReconcileRequest : Type 0 where
  pub discovery : Discovery
  pub bundle : ApprovedBundle
  pub seller_proofs : List SellerProof
  pub diagnostics : List SellerDiagnostics
