-- ===== src/Calldata.antt =====
-- scripts/generate-aggregate-calldata.mjs: `buildSellerCalldataArtifact` and `encodeStageSellerProof`, the
-- ABI encoding of a call with two byte strings.
pub mod Words
pub mod Decoding
use loop_proof.Common.{
  ℕ, zero, suc, ◌+◌, ◌*◌, ◌/◌, ◌%◌, ltb, ◌==◌, if◌then◌else◌, Bool, true, false, not, ◌&&◌, ◌||◌,
  List, [], ◌∷◌, ◌++◌, every, length, drop, Text, codes, text_eq, to_lower_case, Outcome, ok, throw,
  throw_if, ◌>>=◌, ◌>>◌,
}
use loop_proof.Hex.{is_hex_digit}
use loop_proof.Money.{pad_start, pad_end}

pub data Failure : Type 0 where
  invalid_artifact : Failure
  invalid : Text → Failure
  empty_proof : Failure

-- A digit of `toString(16)`.
abbrev pub hex_sign : ℕ → ℕ
hex_sign n = if ltb n 10 then 48 + n else 87 + n

-- `n.toString(16)`: the fuel is the number itself, which has fewer digits.
unfoldable pub hex_from : ℕ → ℕ → Text → Text
hex_from zero n rest = rest
hex_from (suc fuel) n rest =
    let more = hex_from fuel (n / 16) (hex_sign (n % 16) ∷ rest) in
    if ltb n 16 then hex_sign n ∷ rest else more

-- `word`: 64 digits.
unfoldable pub hex_word : ℕ → Text
unfolding hex_from pad_start
hex_word value = pad_start 64 (hex_from (suc value) value [])

-- `/^0x(?:[0-9a-fA-F]{2})*$/`
unfoldable pub is_dynamic_hex : Text → Bool
is_dynamic_hex [] = false
is_dynamic_hex (a ∷ []) = false
is_dynamic_hex (a ∷ b ∷ digits) =
    (a == 48) && ((b == 120) && ((length digits % 2 == 0) && every is_hex_digit digits))

unfoldable pub dynamic_hex : Text → Text → Outcome Failure Text
unfolding is_dynamic_hex to_lower_case
dynamic_hex label value =
    if is_dynamic_hex value then ok (to_lower_case value) else throw (invalid label)

-- `fixedHex`: the prefix is `0x` in small letters.
unfoldable pub fixed_hex : ℕ → Text → Text → Outcome Failure Text
unfolding is_dynamic_hex to_lower_case
fixed_hex size label value =
    if is_dynamic_hex value && (length value == 2 + size * 2)
    then ok (to_lower_case value)
    else throw (invalid label)

-- `encodeDynamicBytes`: the count of the bytes, and the digits filled up to whole words.
unfoldable pub encode_dynamic_bytes : Text → Text
unfolding hex_word pad_end
encode_dynamic_bytes value =
    let digits = drop 2 value in
    hex_word (length digits / 2) ++ pad_end ((length digits / 2 + 31) / 32 * 64) digits

abbrev pub selector : Text
selector = codes "2be631a3"

-- `encodeStageSellerProof`
unfoldable pub encode_stage_seller_proof : Text → Text → Outcome Failure Text
unfolding dynamic_hex encode_dynamic_bytes hex_word
encode_stage_seller_proof public_values proof_bytes = do
  values ← dynamic_hex (codes "public values") public_values
  proof ← dynamic_hex (codes "proof bytes") proof_bytes
  let values_body = encode_dynamic_bytes values
  ok (
      codes "0x"
      ++ (selector
          ++ (hex_word 64
              ++ (hex_word (64 + length values_body / 2)
                  ++ (values_body ++ encode_dynamic_bytes proof)))))

pub record SellerProof : Type 0 where
  pub version : ℕ
  pub kind : Text
  pub proof_architecture : Text
  pub security_mode : Text
  pub chain_id : ℕ
  pub proved : Bool
  pub verified : Bool
  pub seller : Text
  pub seller_program_vkey : Text
  pub public_values : Text
  pub proof_bytes : Text

pub record Artifact : Type 0 where
  pub security_mode : Text
  pub chain_id : ℕ
  pub seller : Text
  pub seller_program_vkey : Text
  pub public_values : Text
  pub proof_bytes : Text
  pub calldata : Text

unfoldable pub is_verified_proof : SellerProof → Bool
unfolding text_eq
is_verified_proof proof =
    (proof.version == 3)
    && (text_eq proof.kind (codes "antseed-wash-trading-seller-proof")
        && (text_eq proof.proof_architecture (codes "direct-seller-v1")
            && (proof.proved && proof.verified)))

-- `buildSellerCalldataArtifact`
unfoldable pub build_seller_calldata_artifact : SellerProof → Outcome Failure Artifact
unfolding is_verified_proof fixed_hex dynamic_hex encode_stage_seller_proof text_eq to_lower_case
build_seller_calldata_artifact proof = do
  throw_if (not (is_verified_proof proof)) invalid_artifact
  vkey ← fixed_hex 32 (codes "seller program vkey") proof.seller_program_vkey
  values ← dynamic_hex (codes "public values") proof.public_values
  bytes ← dynamic_hex (codes "proof bytes") proof.proof_bytes
  throw_if (text_eq bytes (codes "0x")) empty_proof
  calldata ← encode_stage_seller_proof values bytes
  ok (record {
    security_mode = proof.security_mode;
    chain_id = proof.chain_id;
    seller = to_lower_case proof.seller;
    seller_program_vkey = vkey;
    public_values = values;
    proof_bytes = bytes;
    calldata = calldata;
  })
