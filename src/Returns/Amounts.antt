-- ===== src/Returns/Amounts.antt =====
-- The amounts of return-path-selection.mjs: `returnPathCreditRaw` and `requiredReturnRaw`.
use loop_proof.Common.{
  ℕ, ◌+◌, ◌-◌, ◌*◌, ◌/◌, ◌≤◌, ◌<◌, ◌≡◌, refl, ◌⊎◌, inl, inr, ◌↔◌, arith, ltb, if◌then◌else◌,
  Bool-cases, true, some, List, [], ◌∷◌, map, All, has, nat_eq, ok, throw,
}
use loop_proof.Policy.{basis_points}
use loop_proof.Evidence.{Atom, Evidence, atomic_evidence}
use loop_proof.Returns.{
  ℤ, pos, negsuc, negative, magnitude, at_most_zero, invalid_return_volume, least,
  return_path_credit_raw, required_return_raw,
}

least-le : (a : ℕ) (xs : List ℕ) (m : ℕ) → least (a ∷ xs) ≡ some m → All (λ x. m ≤ x) (a ∷ xs)
unfolding least
least-le a [] m h = (ground arith, tt)
least-le a (b ∷ xs) m h = elim (Bool-cases (ltb b a)) [
  | inl less ↦ let rec = least-le b xs m (rw less at h) in (ground arith, (rec.0, rec.1))
  | inr not_less ↦ let rec = least-le a xs m (rw not_less at h) in (rec.0, (ground arith, rec.1))
]

has-least : (a : ℕ) (xs : List ℕ) (m : ℕ) → least (a ∷ xs) ≡ some m → has m (a ∷ xs) ≡ true
unfolding least has
has-least a [] m h = ground arith
has-least a (b ∷ xs) m h = elim (Bool-cases (ltb b a)) [
  | inl less ↦ ground (arith, has-least b xs m (rw less at h))
  | inr not_less ↦ ground (arith, has-least a xs m (rw not_less at h))
]

least_total : (a : ℕ) (xs : List ℕ) → (m : ℕ) × (least (a ∷ xs) ≡ some m)
unfolding least
least_total a [] = (a, refl)
least_total a (b ∷ xs) = least_total (if ltb b a then b else a) xs

-- The credit of a path with a hop is defined: it is the amount of one of its hops, and no hop's
-- amount is smaller.
pub return_path_credit_raw_least :
    (evidence : Evidence) (first : Atom) (rest : List Atom)
    → atomic_evidence evidence ≡ first ∷ rest
    → (m : ℕ) × (return_path_credit_raw evidence ≡ some m)
      × (has m (map (λ (entry : Atom). entry.amount_raw) (first ∷ rest)) ≡ true)
      × All (λ x. m ≤ x) (map (λ (entry : Atom). entry.amount_raw) (first ∷ rest))
unfolding return_path_credit_raw
return_path_credit_raw_least evidence first rest e =
    let amounts : List ℕ = map (λ (entry : Atom). entry.amount_raw) rest in
    let (m, found) = least_total first.amount_raw amounts in
    (
      m,
      rw e found,
      has-least first.amount_raw amounts m found,
      least-le first.amount_raw amounts m found,
    )

ceiling : (n r : ℕ) → r ≡ (n + 10000 - 1) / 10000 → (n ≤ r * 10000) × (r * 10000 < n + 10000)
ceiling n r e = omega arith

-- For a volume and a target of 1 to 10,000 basis points the required return is the least amount
-- whose share of the volume reaches the target.
pub required_return_raw_least :
    (volume target : ℕ)
    → 0 < target
    → target ≤ basis_points
    → (r : ℕ) × (required_return_raw (pos volume) (pos target) ≡ ok r)
      × (volume * target ≤ r * basis_points)
      × ((s : ℕ) → volume * target ≤ s * basis_points → r ≤ s)
unfolding required_return_raw
required_return_raw_least volume target p q =
    let r : ℕ = (volume * target + 10000 - 1) / 10000 in
    (
      r,
      ground arith,
      (ceiling (volume * target) r refl).0,
      λ s enough. omega (arith, ceiling (volume * target) r refl),
    )

-- It throws exactly when the volume is negative, or the target is zero, negative or above 10,000.
pub required_return_raw_throws :
    (volume target : ℤ)
    → (required_return_raw volume target ≡ throw invalid_return_volume) ↔ (
        (negative volume ≡ true)
        ⊎ ((at_most_zero target ≡ true) ⊎ (basis_points < magnitude target)))
unfolding required_return_raw
required_return_raw_throws (pos volume) (pos target) = ground arith
required_return_raw_throws (pos volume) (negsuc target) = ground arith
required_return_raw_throws (negsuc volume) (pos target) = ground arith
required_return_raw_throws (negsuc volume) (negsuc target) = ground arith
