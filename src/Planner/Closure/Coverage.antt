-- ===== src/Planner/Closure/Coverage.antt =====
-- How much volume the returns cover: `returnSettlementCapacity` against `returnCoverageQualifies`.
use loop_proof.Common.{
  ℕ, ◌*◌, ◌/◌, ◌≤◌, ◌<◌, ◌≡◌, ◌↔◌, inl, inr, arith, ltb, Bool-cases, true, some, List, [], ◌∷◌,
  length, sum_by,
}
use loop_proof.Policy.{max_return_paths, basis_points}
use loop_proof.Evidence.{Evidence}
use loop_proof.Returns.{credit}
use loop_proof.Planner.Closure.{return_coverage_qualifies, return_settlement_capacity}

-- Division by a positive number rounds down.
le-div : (v r t : ℕ) → 0 < t → (v ≤ r / t) ↔ (v * t ≤ r)
le-div v r t h = (λ p. grind arith, λ p. grind arith)

-- Where there are returns, a positive volume is within the capacity that they give exactly if the
-- returns cover it, so the bound that the planner selects by is the test that it makes afterwards.
pub return_settlement_capacity_iff :
    (closure : List Evidence) (volume target capacity : ℕ)
    → 0 < target
    → 0 < volume
    → return_settlement_capacity closure target ≡ some capacity
    → (volume ≤ capacity) ↔ (return_coverage_qualifies closure volume target ≡ true)
unfolding return_settlement_capacity return_coverage_qualifies
return_settlement_capacity_iff [] volume target capacity t v e = cc
return_settlement_capacity_iff (first ∷ rest) volume target capacity t v e =
    elim (Bool-cases (ltb max_return_paths (length (first ∷ rest)))) [
      | inl many ↦ ground arith
      | inr few ↦
          let d = le-div volume (sum_by credit (first ∷ rest) * basis_points) target t in
          (λ p. ground (arith, few, d, p), λ p. ground (arith, few, d, p))
    ]
