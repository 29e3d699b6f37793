-- ===== src/Tests/Amounts.antt =====
-- The amounts of return-path-selection.mjs at concrete inputs.
use loop_proof.Common.{ℕ, ◌*◌, ◌≤◌, ◌≡◌, refl, arith, nat_eq, ok, throw, some}
use loop_proof.Policy.{basis_points}
use loop_proof.Evidence.{relay_path}
use loop_proof.Returns.{
  pos, invalid_return_volume, least, return_path_credit_raw, required_return_raw,
}
use loop_proof.Returns.Amounts.{required_return_raw_least}
use loop_proof.Tests.Samples.{relay}

program : Unit {0}
unfolding least return_path_credit_raw required_return_raw
program = tt

-- test/return-path-selection.test.mjs: the required return is rounded up.
rounded_up : required_return_raw (pos 10612500621) (pos 3000) ≡ ok 3183750187
unfolding program
rounded_up = refl

no_target : required_return_raw (pos 5) (pos 0) ≡ throw invalid_return_volume
unfolding program
no_target = refl

relay_credit : return_path_credit_raw (relay_path relay) ≡ some 900
unfolding program
relay_credit = refl

required_return_raw_least_example :
    (r : ℕ) × (required_return_raw (pos 10001) (pos 3000) ≡ ok r)
    × (10001 * 3000 ≤ r * basis_points)
    × ((s : ℕ) → 10001 * 3000 ≤ s * basis_points → r ≤ s)
required_return_raw_least_example = required_return_raw_least 10001 3000 (omega arith) (omega arith)
