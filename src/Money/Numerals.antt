-- ===== src/Money/Numerals.antt =====
-- What `parseU64` accepts: the numerals of the numbers of 64 bits.
use loop_proof.Common.{
  ℕ, suc, ◌+◌, ◌-◌, ◌*◌, ◌^◌, ◌≤◌, ◌<◌, ◌≡◌, ◌∙◌, ◌↔◌, refl, sym, ap, subst, inl, inr, arith,
  Bool-cases, true, false, ltb, [], ◌∷◌, every, length, All, Text, ok, throw, ok_injective,
}
use loop_proof.Money.{
  no_unsigned_integer, exceeds_u64, max_u64, is_digit, are_digits, read_from, parse_u64,
}

-- The value of a numeral by the places of its digits.
abbrev pub value_of : Text → ℕ
value_of [] = 0
value_of (c ∷ rest) = (c - 48) * 10 ^ length rest + value_of rest

-- A code between those of 0 and 9.
abbrev pub IsDigit : ℕ → Type 0
IsDigit c = (48 ≤ c) × (c ≤ 57)

-- A text of at least one digit that stands for the number.
abbrev pub IsNumeral : Text → ℕ → Type 0
IsNumeral text n = (1 ≤ length text) × All IsDigit text × (value_of text ≡ n)

shift_ten : (k : ℕ) → 10 ^ suc k ≡ 10 * 10 ^ k
shift_ten k = omega arith

read_from-value_of :
    (acc : ℕ) (text : Text) → read_from acc text ≡ acc * 10 ^ length text + value_of text
unfolding read_from
read_from-value_of acc [] = omega arith
read_from-value_of acc (c ∷ rest) = omega (
  arith,
  read_from-value_of (acc * 10 + (c - 48)) rest,
  ap (λ power. acc * power) (shift_ten (length rest)),
)

read-value_of : (text : Text) → read_from 0 text ≡ value_of text
read-value_of text = omega (arith, read_from-value_of 0 text)

every-IsDigit : (text : Text) → every is_digit text ≡ true → All IsDigit text
every-IsDigit [] h = tt
every-IsDigit (c ∷ rest) h = ((ground arith, ground arith), every-IsDigit rest (ground arith))

every-is_digit : (text : Text) → All IsDigit text → every is_digit text ≡ true
every-is_digit [] h = refl
every-is_digit (c ∷ rest) (digit, digits) = ground (arith, every-is_digit rest digits)

are_digits-IsNumeral : (text : Text) → are_digits text ≡ true → IsNumeral text (read_from 0 text)
are_digits-IsNumeral text h =
    (ground arith, every-IsDigit text (ground arith), sym (read-value_of text))

IsNumeral-digits : (text : Text) (n : ℕ) → IsNumeral text n → are_digits text ≡ true
IsNumeral-digits text n (some_digit, digits, value) = ground (arith, every-is_digit text digits)

IsNumeral-read : (text : Text) (n : ℕ) → IsNumeral text n → read_from 0 text ≡ n
IsNumeral-read text n (some_digit, digits, value) = read-value_of text ∙ value

-- The three ways in which it ends.
parse_u64-ok :
    (text : Text)
    → are_digits text ≡ true
    → ltb max_u64 (read_from 0 text) ≡ false
    → parse_u64 text ≡ ok (read_from 0 text)
unfolding parse_u64
parse_u64-ok text digits fits = rw (digits, fits)

parse_u64_large :
    (text : Text)
    → are_digits text ≡ true
    → ltb max_u64 (read_from 0 text) ≡ true
    → parse_u64 text ≡ throw exceeds_u64
unfolding parse_u64
parse_u64_large text digits large = rw (digits, large)

parse_u64_refused :
    (text : Text) → are_digits text ≡ false → parse_u64 text ≡ throw no_unsigned_integer
unfolding parse_u64
parse_u64_refused text other = rw other

-- parseU64 gives a number exactly where the text is a numeral of it and it is below 2^64; it refuses a
-- number as too large exactly where the text is a numeral of one from 2^64 on; and it refuses the text
-- exactly where it is the numeral of no number.
pub parse_u64_iff :
    (text : Text) (n : ℕ)
    → ((parse_u64 text ≡ ok n) ↔ (IsNumeral text n × (n < 2 ^ 64)))
      × ((parse_u64 text ≡ throw exceeds_u64) ↔ ((m : ℕ) × IsNumeral text m × (2 ^ 64 ≤ m)))
      × ((parse_u64 text ≡ throw no_unsigned_integer) ↔ ¬ ((m : ℕ) × IsNumeral text m))
parse_u64_iff text n = elim (Bool-cases (are_digits text)) [
  | inr other ↦
      let ends = parse_u64_refused text other in
      let none_here : ¬ ((m : ℕ) × IsNumeral text m) =
        λ (m, numeral). let digits = IsNumeral-digits text m numeral in cc in
      (
        (λ done. cc, λ (numeral, fits). absurd (none_here (n, numeral))),
        (λ done. cc, λ (m, numeral, large). absurd (none_here (m, numeral))),
        (λ done. none_here, λ none_else. ends),
      )
  | inl digits ↦
      let value = read_from 0 text in
      let numeral = are_digits-IsNumeral text digits in
      elim (Bool-cases (ltb max_u64 value)) [
        | inl large ↦
            let ends = parse_u64_large text digits large in
            let big : 2 ^ 64 ≤ value = ground arith in
            (
              (
                λ done. cc,
                λ (other, fits). absurd (omega (arith, IsNumeral-read text n other, big)),
              ),
              (λ done. (value, numeral, big), λ found. ends),
              (λ done. cc, λ none_else. absurd (none_else (value, numeral))),
            )
        | inr fits ↦
            let ends = parse_u64-ok text digits fits in
            let small : value < 2 ^ 64 = ground arith in
            (
              (
                λ done.
                    subst (λ m. IsNumeral text m × (m < 2 ^ 64)) (ok_injective (sym ends ∙ done))
                      (numeral, small),
                λ (other, below). ends ∙ ap ok (IsNumeral-read text n other),
              ),
              (
                λ done. cc,
                λ (m, other, large). absurd (omega (arith, IsNumeral-read text m other, small)),
              ),
              (λ done. cc, λ none_else. absurd (none_else (value, numeral))),
            )
      ]
]
