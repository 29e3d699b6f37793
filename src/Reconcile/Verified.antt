-- ===== src/Reconcile/Verified.antt =====
-- scripts/reconcile-development-proof-results.mjs: what the test of a proof's own fields asks, field by
-- field.
use loop_proof.Common.{
  ℕ, ◌≤◌, ◌≡◌, refl, ==_iff, arith, List, [], ◌∷◌, All, All_of_every, Option, some, none, Text,
  codes, text_eq_iff, and_true, true, get_or, every, leb, ◌&&◌,
}
use loop_proof.Money.{is_digit}
use loop_proof.Reconcile.{SellerProof, is_development_proof, is_positive_text, is_single}

-- A code between those of 0 and 9.
abbrev pub IsDigitCode : ℕ → Type 0
IsDigitCode c = (48 ≤ c) × (c ≤ 57)

-- A decimal numeral without a leading zero, so of a positive number.
abbrev pub IsPositiveNumeral : Option Text → Type 0
IsPositiveNumeral text =
    (c : ℕ) × ((rest : Text) × (text ≡ some (c ∷ rest))
      × (49 ≤ c)
      × (c ≤ 57)
      × All IsDigitCode rest)

-- A verified development proof of one claim.
pub record IsDevelopmentProof (proof : SellerProof) : Type 0 where
  version : proof.version ≡ 3
  kind : proof.kind ≡ codes "antseed-wash-trading-seller-proof"
  architecture : proof.proof_architecture ≡ codes "direct-seller-v1"
  security : proof.security_mode ≡ codes "development"
  format : proof.evidence_format ≡ codes "single-bundle-v1"
  one_claim : proof.claim_count ≡ 1
  volume : IsPositiveNumeral proof.total_seller_volume_raw
  is_proved : proof.proved ≡ true
  is_verified : proof.verified ≡ true
  one_source : (id : Text) × (proof.source_claim_ids ≡ some (id ∷ []))

is_positive_text_lem :
    (text : Option Text) → is_positive_text (get_or text []) ≡ true → IsPositiveNumeral text
is_positive_text_lem none h = absurd (cc)
is_positive_text_lem (some []) h = absurd (cc)
is_positive_text_lem (some (c ∷ rest)) h =
    let (first, others) = and_true (leb 49 c && leb c 57) (every is_digit rest) h in
    (
      c,
      (
        rest,
        refl,
        ground (arith, first),
        ground (arith, first),
        All_of_every IsDigitCode is_digit (λ d g. (ground (arith, g), ground (arith, g))) rest
            others,
      ),
    )

is_single_lem :
    (ids : Option (List Text)) → is_single ids ≡ true → (id : Text) × (ids ≡ some (id ∷ []))
is_single_lem none h = absurd (cc)
is_single_lem (some []) h = absurd (ground (arith, h))
is_single_lem (some (id ∷ [])) h = (id, refl)
is_single_lem (some (id ∷ other ∷ rest)) h = absurd (ground (arith, h))

pub is_development_proof_lem :
    (proof : SellerProof) → is_development_proof proof ≡ true → IsDevelopmentProof proof
unfolding is_development_proof
is_development_proof_lem proof h =
    let (version, t1) = and_true _ _ h in
    let (kind, t2) = and_true _ _ t1 in
    let (architecture, t3) = and_true _ _ t2 in
    let (security, t4) = and_true _ _ t3 in
    let (format, t5) = and_true _ _ t4 in
    let (one_claim, t6) = and_true _ _ t5 in
    let (volume, t7) = and_true _ _ t6 in
    let (is_proved, t8) = and_true _ _ t7 in
    let (is_verified, one_source) = and_true _ _ t8 in
    record {
      version = (==_iff proof.version 3).0 version;
      kind = (text_eq_iff proof.kind _).0 kind;
      architecture = (text_eq_iff proof.proof_architecture _).0 architecture;
      security = (text_eq_iff proof.security_mode _).0 security;
      format = (text_eq_iff proof.evidence_format _).0 format;
      one_claim = (==_iff proof.claim_count 1).0 one_claim;
      volume = is_positive_text_lem proof.total_seller_volume_raw volume;
      is_proved = is_proved;
      is_verified = is_verified;
      one_source = is_single_lem proof.source_claim_ids one_source;
    }
