-- ===== src/Claims.antt =====
-- The claims, periods and plans that the planner and the bundle scripts pass around.
use loop_proof.Common.{ℕ, Option, List, Text}
use loop_proof.Evidence.{Evidence}

-- Blocks from `start_block` up to, and without, `end_block_exclusive`.
pub record Period : Type 0 where
  pub start_block : ℕ
  pub end_block_exclusive : ℕ

pub data ClaimType : Type 0 where
  closed_loop reciprocal : ClaimType
  unsupported : Text → ClaimType

-- The approved figures; a claim has those of its type.
pub record Metrics : Type 0 where
  pub qualified_volume_raw : Option ℕ
  pub qualified_buyer_count : Option ℕ
  pub volume_a_to_b_raw : Option ℕ
  pub volume_b_to_a_raw : Option ℕ

pub record Claim : Type 0 where
  pub claim_id : Text
  pub claim_type : ClaimType
  pub subjects : List Text
  pub approved_buyers : List Text
  pub approved_funders : List Text
  pub wallet_a : Option Text
  pub wallet_b : Option Text
  pub metrics : Option Metrics
  pub dependency_root : Text
  pub leaf_hash : Text
  pub dependencies : List Evidence
