-- ===== src/Hex.antt =====
-- Hexadecimal texts: the patterns `/^0x[0-9a-f]{size}$/i` of the scripts, and `normalizeHash` of
-- scripts/generate-block-authentication-chunks.mjs and scripts/reconcile-development-proof-results.mjs.
use loop_proof.Common.{
  ℕ, ◌+◌, ◌-◌, ◌*◌, ◌==◌, leb, if◌then◌else◌, Bool, false, ◌&&◌, ◌||◌, [], ◌∷◌, every, length, Text,
  to_lower_case, Outcome, ok, throw,
}

abbrev pub is_hex_digit : ℕ → Bool
is_hex_digit c = (leb 48 c && leb c 57) || ((leb 97 c && leb c 102) || (leb 65 c && leb c 70))

-- `/^0x[0-9a-f]{size}$/i`
unfoldable pub is_hex : ℕ → Text → Bool
is_hex size [] = false
is_hex size (a ∷ []) = false
is_hex size (a ∷ b ∷ digits) =
    a == 48 && ((b == 120 || b == 88) && (length digits == size && every is_hex_digit digits))

-- `normalizeHash`, which throws on anything but 32 bytes.
unfoldable pub normalize_hash : {E : Type 0} → (Text → E) → Text → Outcome E Text
unfolding is_hex to_lower_case
normalize_hash failure value =
    if is_hex 64 value then ok (to_lower_case value) else throw (failure value)

-- The value of a digit, and `BigInt` of a text of digits after its `0x`.
abbrev pub digit_value : ℕ → ℕ
digit_value c = if leb c 57 then c - 48 else if leb c 70 then c - 55 else c - 87

unfoldable pub hex_value_from : ℕ → Text → ℕ
hex_value_from value [] = value
hex_value_from value (c ∷ rest) = hex_value_from (16 * value + digit_value c) rest
