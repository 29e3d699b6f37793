-- ===== src/Money/Printing.antt =====
-- What is printed is read back.
use loop_proof.Common.{
  if◌then◌else◌, ltb, ℕ, zero, suc, ◌-◌, ◌/◌, ◌%◌, ◌≤◌, ◌≡◌, refl, ap, ◌∙◌, arith, true, some, [],
  ◌∷◌, ◌++◌, every, length, length-append, Text, decimal, ok, throw,
}
use loop_proof.Money.{
  exceeds_u64, usd_scale, max_u64, is_digit, are_digits, read_from, zeros, pad_start, pad_end,
  before_point, behind_point, parse_usd, format_usd, parse_u64,
}
use loop_proof.Money.Digits.{
  read-decimal, every-decimal, length-decimal-le, decimal_nonempty, read-zeros,
}

before_point-append :
    (whole fraction : Text)
    → every is_digit whole ≡ true
    → before_point (whole ++ 46 ∷ fraction) ≡ whole
unfolding before_point
before_point-append [] fraction h = refl
before_point-append (c ∷ whole) fraction h = ground (arith, before_point-append whole fraction)

behind_point-append :
    (whole fraction : Text)
    → every is_digit whole ≡ true
    → behind_point (whole ++ 46 ∷ fraction) ≡ some fraction
unfolding behind_point
behind_point-append [] fraction h = refl
behind_point-append (c ∷ whole) fraction h = ground (arith, behind_point-append whole fraction)

length-zeros : (n : ℕ) → length (zeros n) ≡ n
unfolding zeros
length-zeros zero = refl
length-zeros (suc n) = omega (arith, length-zeros n)

every-zeros :
    (n : ℕ) (text : Text) → every is_digit text ≡ true → every is_digit (zeros n ++ text) ≡ true
unfolding zeros
every-zeros zero text h = h
every-zeros (suc n) text h = every-zeros n text h

-- A number padded in front has the width, still reads as the number, and needs no padding behind.
length-pad_start : (text : Text) → length text ≤ 6 → length (pad_start 6 text) ≡ 6
unfolding pad_start
length-pad_start text h =
    omega (arith, length-append (zeros (6 - length text)) text, length-zeros (6 - length text))

append_nothing : (text : Text) → text ++ [] ≡ text
append_nothing [] = refl
append_nothing (c ∷ text) = ap (λ rest. c ∷ rest) (append_nothing text)

pad_end_full : (text : Text) → length text ≡ 6 → pad_end 6 text ≡ text
unfolding pad_end zeros
pad_end_full text h = rw h (append_nothing text)

are_digits-decimal : (n : ℕ) → are_digits (decimal n) ≡ true
are_digits-decimal n = ground (arith, every-decimal n, decimal_nonempty n)

-- The printed fraction.
abbrev fraction_of : ℕ → Text
fraction_of micros = pad_start 6 (decimal (micros % usd_scale))

length-fraction_of : (micros : ℕ) → length (fraction_of micros) ≡ 6
length-fraction_of micros =
    length-pad_start (decimal (micros % usd_scale))
      (length-decimal-le (micros % usd_scale) (omega arith))

every-fraction_of : (micros : ℕ) → every is_digit (fraction_of micros) ≡ true
unfolding pad_start
every-fraction_of micros =
    every-zeros (6 - length (decimal (micros % usd_scale))) (decimal (micros % usd_scale))
      (every-decimal (micros % usd_scale))

read-fraction_of : (micros : ℕ) → read_from 0 (fraction_of micros) ≡ micros % usd_scale
unfolding pad_start
read-fraction_of micros =
    read-zeros (6 - length (decimal (micros % usd_scale))) (decimal (micros % usd_scale))
    ∙ read-decimal (micros % usd_scale)

-- Every amount that `formatUsd` prints is read back by `parseUsd` as the same amount.
pub parse_usd-format_usd : (micros : ℕ) → parse_usd (format_usd micros) ≡ ok micros
unfolding parse_usd format_usd
parse_usd-format_usd micros =
    let whole = decimal (micros / usd_scale) in
    let fraction = fraction_of micros in
    rw
      (
        before_point-append whole fraction (every-decimal (micros / usd_scale)),
        behind_point-append whole fraction (every-decimal (micros / usd_scale)),
        pad_end_full fraction (length-fraction_of micros),
      )
      (ground (
        arith,
        are_digits-decimal (micros / usd_scale),
        every-fraction_of micros,
        length-fraction_of micros,
        read-decimal (micros / usd_scale),
        read-fraction_of micros,
      ))

-- `parseU64` reads a printed number back where it fits into 64 bits, and refuses a larger one.
pub parse_u64-decimal :
    (n : ℕ) → parse_u64 (decimal n) ≡ (if ltb max_u64 n then throw exceeds_u64 else ok n)
unfolding parse_u64
parse_u64-decimal n = ground (arith, are_digits-decimal n, read-decimal n)
