-- ===== src/Calldata/Decoding.antt =====
-- Decoding the calldata by the rules of the ABI gives back the two byte strings.
use mathlib.Core.List.{append_assoc, append-nil}
use loop_proof.Common.{
  ℕ, ◌+◌, ◌-◌, ◌*◌, ◌/◌, ◌%◌, ◌≤◌, ◌==◌, ==_iff, ◌≡◌, refl, sym, ap, ◌∙◌, arith, true, [], ◌∷◌,
  ◌++◌, length, length-append, take, drop, take_prefix, drop_prefix, drop_past, length-map, Text,
  codes, to_lower_case, ok,
}
use loop_proof.Hex.{hex_value_from}
use loop_proof.Money.{zeros, pad_end}
use loop_proof.Calldata.{
  hex_word, is_dynamic_hex, dynamic_hex, encode_dynamic_bytes, selector, encode_stage_seller_proof,
}
use loop_proof.Calldata.Words.{length-zeros, read-hex_word, length-hex_word}

-- The number in the word at a place of the digits behind the selector.
abbrev pub word_at : Text → ℕ → ℕ
word_at digits place = hex_value_from 0 (take 64 (drop place digits))

-- A byte string at a place: the count of its bytes, then the bytes, two digits each.
abbrev pub bytes_at : Text → ℕ → Text
bytes_at digits place = take (2 * word_at digits place) (drop (place + 64) digits)

-- The argument of a call at an index: its word in the head is the place of its tail, in bytes.
abbrev pub argument : Text → ℕ → Text
argument call index = bytes_at (drop 10 call) (2 * word_at (drop 10 call) (64 * index))

-- A count of digits that is safe: that of a text, whose length is a safe integer.
abbrev pub safe_length : ℕ
safe_length = 9007199254740991

-- The digits of a byte string, which stand in pairs.
record IsBytes (digits : Text) : Type 0 where
  even : length digits % 2 ≡ 0
  short : length digits ≤ safe_length

-- The encoding of a byte string, found behind what stands before it.
bytes_at-encoded :
    (before value rest : Text) (place : ℕ)
    → place ≡ length before
    → IsBytes (drop 2 value)
    → bytes_at (before ++ (encode_dynamic_bytes value ++ rest)) place ≡ drop 2 value
unfolding encode_dynamic_bytes pad_end
bytes_at-encoded before value rest place e bytes =
    let digits = drop 2 value in
    let head = hex_word (length digits / 2) in
    let fill = zeros ((length digits / 2 + 31) / 32 * 64 - length digits) in
    let tail : (head ++ (digits ++ fill)) ++ rest ≡ head ++ (digits ++ (fill ++ rest)) =
      append_assoc head (digits ++ fill) rest
      ∙ ap (λ (t : Text). head ++ t) (append_assoc digits fill rest) in
    let sized : 64 ≡ length head =
      sym (length-hex_word (length digits / 2) (omega (arith, bytes.short))) in
    let whole = before ++ ((head ++ (digits ++ fill)) ++ rest) in
    let at_word : drop place whole ≡ head ++ (digits ++ (fill ++ rest)) =
      drop_prefix place before _ e ∙ tail in
    let behind : drop (place + 64) whole ≡ digits ++ (fill ++ rest) =
      ap (λ n. drop (n + 64) whole) e
      ∙ drop_past 64 before _
      ∙ ap (drop 64) tail
      ∙ drop_prefix 64 head _ sized in
    let count : word_at whole place ≡ length digits / 2 =
      ap (λ (t : Text). hex_value_from 0 (take 64 t)) at_word
      ∙ ap (hex_value_from 0) (take_prefix 64 head _ sized)
      ∙ read-hex_word (length digits / 2) in
    ap (λ (t : Text). take (2 * word_at whole place) t) behind
    ∙ take_prefix (2 * word_at whole place) digits (fill ++ rest) (omega (arith, count, bytes.even))

length-encode_dynamic_bytes :
    (value : Text)
    → IsBytes (drop 2 value)
    → length (encode_dynamic_bytes value) ≡ 64 + (length (drop 2 value) / 2 + 31) / 32 * 64
unfolding encode_dynamic_bytes pad_end
length-encode_dynamic_bytes value bytes =
    let digits = drop 2 value in
    let size = length digits in
    let fill = zeros ((size / 2 + 31) / 32 * 64 - size) in
    omega (
      arith,
      length-append (hex_word (size / 2)) (digits ++ fill),
      length-hex_word (size / 2) (omega (arith, bytes.short)),
      length-append digits fill,
      length-zeros ((size / 2 + 31) / 32 * 64 - size),
      bytes.even,
    )

drop-to_lower_case : (value : Text) → length (drop 2 (to_lower_case value)) ≡ length (drop 2 value)
unfolding to_lower_case
drop-to_lower_case [] = refl
drop-to_lower_case (a ∷ []) = refl
drop-to_lower_case (a ∷ b ∷ digits) = length-map digits _

-- A value of the pattern has its digits in pairs.
is_dynamic_hex-IsBytes :
    (value : Text)
    → is_dynamic_hex value ≡ true
    → length value ≤ safe_length
    → IsBytes (drop 2 (to_lower_case value))
unfolding is_dynamic_hex
is_dynamic_hex-IsBytes [] h short = absurd (cc)
is_dynamic_hex-IsBytes (a ∷ []) h short = absurd (cc)
is_dynamic_hex-IsBytes (a ∷ b ∷ digits) h short =
    let counted = drop-to_lower_case (a ∷ b ∷ digits) in
    let pairs : (length digits % 2 == 0) ≡ true = ground (arith, h) in
    let even : length digits % 2 ≡ 0 = (==_iff (length digits % 2) 0).0 pairs in
    record { even = ap (λ n. n % 2) counted ∙ even; short = omega (arith, counted) }

-- The two arguments of a call whose head and tails are laid out by the rules.
arguments_laid_out :
    (values proof : Text)
    → IsBytes (drop 2 values)
    → IsBytes (drop 2 proof)
    → let tail = encode_dynamic_bytes values in
      let call =
        codes "0x"
        ++ (selector
            ++ (hex_word 64
                ++ (hex_word (64 + length tail / 2) ++ (tail ++ encode_dynamic_bytes proof)))) in
      (argument call 0 ≡ drop 2 values) × (argument call 1 ≡ drop 2 proof)
arguments_laid_out values proof v p =
    let tail = encode_dynamic_bytes values in
    let last = encode_dynamic_bytes proof in
    let first_word = hex_word 64 in
    let second_word = hex_word (64 + length tail / 2) in
    let digits = first_word ++ (second_word ++ (tail ++ last)) in
    let sized = length-encode_dynamic_bytes values v in
    let one : 64 ≡ length first_word = sym (length-hex_word 64 (omega arith)) in
    let two : 64 ≡ length second_word =
      sym (length-hex_word (64 + length tail / 2) (omega (arith, sized, v.short))) in
    let first_place : word_at digits 0 ≡ 64 =
      ap (hex_value_from 0) (take_prefix 64 first_word _ one) ∙ read-hex_word 64 in
    let second_place : word_at digits 64 ≡ 64 + length tail / 2 =
      ap (λ (t : Text). hex_value_from 0 (take 64 t)) (drop_prefix 64 first_word _ one)
      ∙ ap (hex_value_from 0) (take_prefix 64 second_word _ two)
      ∙ read-hex_word (64 + length tail / 2) in
    let head = first_word ++ second_word in
    let heads : length head ≡ 128 = omega (arith, length-append first_word second_word, one, two) in
    let as_first : digits ≡ head ++ (tail ++ last) = sym (append_assoc first_word second_word _) in
    let as_second : digits ≡ (head ++ tail) ++ (last ++ []) =
      as_first
      ∙ sym (append_assoc head tail last)
      ∙ ap (λ (t : Text). (head ++ tail) ++ t) (sym (append-nil last)) in
    (
      ap (λ (t : Text). bytes_at t (2 * word_at digits 0)) as_first
          ∙ bytes_at-encoded head values last _ (omega (arith, first_place, heads)) v,
      ap (λ (t : Text). bytes_at t (2 * word_at digits 64)) as_second
          ∙ bytes_at-encoded (head ++ tail) proof [] _
              (omega (arith, second_place, heads, sized, length-append head tail)) p,
    )

-- For two texts of the pattern that are no longer than a safe integer, encodeStageSellerProof gives a
-- call that starts with the selector, and decoding its two arguments by the rules of the ABI gives
-- the digits of the public values and of the proof, in small letters.
pub encode_stage_seller_proof_decodes :
    (public_values proof_bytes : Text)
    → is_dynamic_hex public_values ≡ true
    → is_dynamic_hex proof_bytes ≡ true
    → length public_values ≤ safe_length
    → length proof_bytes ≤ safe_length
    → (call : Text) × (encode_stage_seller_proof public_values proof_bytes ≡ ok call)
      × (take 10 call ≡ codes "0x" ++ selector)
      × (argument call 0 ≡ drop 2 (to_lower_case public_values))
      × (argument call 1 ≡ drop 2 (to_lower_case proof_bytes))
unfolding encode_stage_seller_proof dynamic_hex
encode_stage_seller_proof_decodes public_values proof_bytes a b short_values short_proof =
    let values = to_lower_case public_values in
    let proof = to_lower_case proof_bytes in
    let tail = encode_dynamic_bytes values in
    let (first, second) =
      arguments_laid_out values proof (is_dynamic_hex-IsBytes public_values a short_values)
        (is_dynamic_hex-IsBytes proof_bytes b short_proof) in
    (
      codes "0x"
          ++ (selector
              ++ (hex_word 64
                  ++ (hex_word (64 + length tail / 2) ++ (tail ++ encode_dynamic_bytes proof)))),
      rw (a, b),
      refl,
      first,
      second,
    )
