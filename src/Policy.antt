-- ===== src/Policy.antt =====
-- scripts/predicate-policy.mjs: the constants of the predicate, which the script reads from
-- predicate/src/lib.rs, and the test for a checkpoint of the current policy.
use loop_proof.Common.{ℕ, ◌==◌, Bool, ◌&&◌, false, Option, none, some, Text, text_eq}

abbrev pub alpha_fund_bps : ℕ
alpha_fund_bps = 9000

abbrev pub alpha_return_bps : ℕ
alpha_return_bps = 3000

abbrev pub epsilon_ledger_bps : ℕ
epsilon_ledger_bps = 500

abbrev pub rho_hop_bps : ℕ
rho_hop_bps = 2800

abbrev pub t_path_seconds : ℕ
t_path_seconds = 259200

abbrev pub max_return_paths : ℕ
max_return_paths = 512

abbrev pub basis_points : ℕ
basis_points = 10000

-- What a checkpoint file holds of its policy.
pub record Checkpoint : Type 0 where
  pub version : ℕ
  pub predicate_policy_hash : Text

-- The hash of the current policy is an argument: the script computes it by SHA-256.
unfoldable pub is_current_policy_checkpoint : Text → Option Checkpoint → Bool
unfolding text_eq
is_current_policy_checkpoint policy_hash none = false
is_current_policy_checkpoint policy_hash (some checkpoint) =
    checkpoint.version == 3 && text_eq checkpoint.predicate_policy_hash policy_hash
