-- ===== src/Reconcile/Proofs.antt =====
-- scripts/reconcile-development-proof-results.mjs: the loop of `reconcileDevelopmentProofResults` over the seller
-- proofs.
use loop_proof.Common.{
  leb, ◌==◌, if◌then◌else◌, Bool, false, not, ◌&&◌, Option, none, some, get_or, List, [], ◌∷◌,
  every, length, Text, codes, text_eq, to_lower_case, keys_by_text, has, lookup, has_key, insert,
  Outcome, ok, throw, throw_if, ◌>>=◌, ◌>>◌, map_outcome,
}
use loop_proof.Hex.{is_hex, normalize_hash}
use loop_proof.Money.{is_digit}
use loop_proof.Reconcile.Records.{
  Failure, SellerProof, BundleClaim, invalid_proof, different_vkeys, invalid_seller_address,
  invalid_bytes32, multiple_proofs, unapproved_claim,
}

-- `normalizeAddress`
unfoldable pub normalize_address : Text → Outcome Failure Text
unfolding is_hex to_lower_case
normalize_address value =
    if is_hex 40 value then ok (to_lower_case value) else throw (invalid_seller_address value)

-- `/^[1-9][0-9]*$/`
abbrev pub is_positive_text : Text → Bool
is_positive_text [] = false
is_positive_text (c ∷ rest) = (leb 49 c && leb c 57) && every is_digit rest

abbrev pub is_single : Option (List Text) → Bool
is_single none = false
is_single (some ids) = length ids == 1

-- The test of a proof's own fields.
unfoldable pub is_development_proof : SellerProof → Bool
unfolding text_eq
is_development_proof proof =
    proof.version == 3
    && (text_eq proof.kind (codes "antseed-wash-trading-seller-proof")
        && (text_eq proof.proof_architecture (codes "direct-seller-v1")
            && (text_eq proof.security_mode (codes "development")
                && (text_eq proof.evidence_format (codes "single-bundle-v1")
                    && (proof.claim_count == 1
                        && (is_positive_text (get_or proof.total_seller_volume_raw [])
                            && (proof.proved
                                && (proof.verified && is_single proof.source_claim_ids))))))))

-- What the loop over the proofs has gathered.
pub record Gathered : Type 0 where
  pub proofs_by_seller : List (Text × SellerProof)
  pub vkey : Option Text

-- The claim must be approved, and the seller one of its subjects.
unfoldable pub check_claim : List (Text × BundleClaim) → Text → Text → Outcome Failure (Unit {0})
unfolding lookup to_lower_case map_outcome normalize_address has
check_claim claims seller claim_id = elim (lookup (to_lower_case claim_id) claims) [
  | none ↦ throw (unapproved_claim seller claim_id)
  | some claim ↦ do
    subjects ← map_outcome normalize_address claim.subjects
    throw_if (not (has seller subjects)) (unapproved_claim seller claim_id)
]

unfoldable pub check_claims :
    List (Text × BundleClaim) → Text → List Text → Outcome Failure (Unit {0})
unfolding check_claim
check_claims claims seller [] = ok tt
check_claims claims seller (id ∷ rest) = do
  check_claim claims seller id
  check_claims claims seller rest

abbrev pub is_other : Option Text → Text → Bool
is_other none vkey = false
is_other (some known) vkey = not (text_eq known vkey)

-- One turn of the loop over the proofs.
unfoldable pub gather :
    List (Text × BundleClaim) → Gathered → SellerProof → Outcome Failure Gathered
unfolding is_development_proof normalize_address has_key check_claims normalize_hash text_eq insert
gather claims gathered proof = do
  throw_if (not (is_development_proof proof)) invalid_proof
  seller ← normalize_address proof.seller
  throw_if (has_key seller gathered.proofs_by_seller) (multiple_proofs seller)
  check_claims claims seller (get_or proof.source_claim_ids [])
  vkey ← normalize_hash invalid_bytes32 proof.seller_program_vkey
  throw_if (is_other gathered.vkey vkey) different_vkeys
  ok (record { proofs_by_seller = insert seller proof gathered.proofs_by_seller; vkey = some vkey })

unfoldable pub gather_all :
    List (Text × BundleClaim) → Gathered → List SellerProof → Outcome Failure Gathered
unfolding gather
gather_all claims gathered [] = ok gathered
gather_all claims gathered (proof ∷ rest) = do
  next ← gather claims gathered proof
  gather_all claims next rest

-- `new Map(bundle.claims.map(...))`: a later claim of the same identifier takes the place.
unfoldable pub claims_by_id :
    List BundleClaim → List (Text × BundleClaim) → List (Text × BundleClaim)
unfolding to_lower_case insert
claims_by_id [] found = found
claims_by_id (claim ∷ rest) found =
    claims_by_id rest (insert (to_lower_case claim.claim_id) claim found)
