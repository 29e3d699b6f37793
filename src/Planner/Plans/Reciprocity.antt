-- ===== src/Planner/Plans/Reciprocity.antt =====
-- `reciprocalVolumesQualify` and what it gives for a plan of `planReciprocal`.
use loop_proof.Common.{ℕ, ◌*◌, ◌≤◌, ◌<◌, ◌≡◌, ◌↔◌, arith, true, List, sort}
use loop_proof.Policy.{basis_points}
use loop_proof.Claims.{Claim}
use loop_proof.Evidence.{Evidence, Platform}
use loop_proof.Planner.{minimum_reciprocal_volume_bps, compare_atoms}
use loop_proof.Planner.Plans.{atoms_that, equal_texts, is_reciprocal_settlement, volume_between}
use loop_proof.Planner.Plans.Planning.{reciprocal_volumes_qualify}

-- The two volumes are positive, and each is at least the required share of the other.
pub record AreReciprocal (a b : ℕ) : Type 0 where
  pub first : 0 < a
  pub second : 0 < b
  pub enough_back : a * minimum_reciprocal_volume_bps ≤ b * basis_points
  pub enough_there : b * minimum_reciprocal_volume_bps ≤ a * basis_points

-- The test accepts exactly the volumes that are reciprocal.
pub reciprocal_volumes_qualify_iff :
    (a b : ℕ) → (reciprocal_volumes_qualify a b ≡ true) ↔ AreReciprocal a b
unfolding reciprocal_volumes_qualify
reciprocal_volumes_qualify_iff a b = (
  λ h. record {
    first = ground arith;
    second = ground arith;
    enough_back = ground arith;
    enough_there = ground arith;
  },
  λ r. ground (arith, r.first, r.second, r.enough_back, r.enough_there),
)

-- The volume of the claim's reciprocal settlements in one direction.
abbrev pub volume_from : Platform → Claim → List Evidence → ℕ
volume_from platform claim dependencies =
    volume_between equal_texts
      (sort (compare_atoms platform) (atoms_that is_reciprocal_settlement dependencies))
      claim.wallet_a claim.wallet_b

abbrev pub volume_back : Platform → Claim → List Evidence → ℕ
volume_back platform claim dependencies =
    volume_between equal_texts
      (sort (compare_atoms platform) (atoms_that is_reciprocal_settlement dependencies))
      claim.wallet_b claim.wallet_a
