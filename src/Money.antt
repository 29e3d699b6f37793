-- ===== src/Money.antt =====
-- scripts/proving-cost-quote.mjs: amounts of money as texts, `parseUsd`, `formatUsd` and `parseU64`.
pub mod Digits
pub mod Printing
pub mod Numerals
use loop_proof.Common.{
  ℕ, zero, suc, ◌+◌, ◌-◌, ◌*◌, ◌/◌, ◌%◌, ◌==◌, ltb, leb, if◌then◌else◌, Bool, true, false, not,
  ◌&&◌, Option, none, some, List, [], ◌∷◌, ◌++◌, every, length, Text, decimal, Outcome, ok, throw,
}

pub data Failure : Type 0 where
  no_usd_amount no_unsigned_integer exceeds_u64 : Failure

abbrev pub usd_scale : ℕ
usd_scale = 1000000

abbrev pub max_u64 : ℕ
max_u64 = 18446744073709551615

-- `\d`
abbrev pub is_digit : ℕ → Bool
is_digit c = leb 48 c && leb c 57

-- `BigInt(text)` of a text of digits.
unfoldable pub read_from : ℕ → Text → ℕ
read_from acc [] = acc
read_from acc (c ∷ rest) = read_from (acc * 10 + (c - 48)) rest

unfoldable pub zeros : ℕ → Text
zeros zero = []
zeros (suc n) = 48 ∷ zeros n

-- `text.padStart(width, "0")`
unfoldable pub pad_start : ℕ → Text → Text
unfolding zeros
pad_start width text = zeros (width - length text) ++ text

-- `text.padEnd(width, "0")`
unfoldable pub pad_end : ℕ → Text → Text
unfolding zeros
pad_end width text = text ++ zeros (width - length text)

-- The text before the first point, and the text behind it.
unfoldable pub before_point : Text → Text
before_point [] = []
before_point (c ∷ rest) = let more = c ∷ before_point rest in if c == 46 then [] else more

unfoldable pub behind_point : Text → Option Text
behind_point [] = none
behind_point (c ∷ rest) = let more = behind_point rest in if c == 46 then some rest else more

abbrev pub are_digits : Text → Bool
are_digits text = not (length text == 0) && every is_digit text

-- The fraction in the form that the pattern takes: one to six digits, or no point at all.
abbrev pub is_fraction : Option Text → Bool
is_fraction none = true
is_fraction (some fraction) = are_digits fraction && leb (length fraction) 6

abbrev pub fraction_text : Option Text → Text
fraction_text none = []
fraction_text (some fraction) = fraction

-- `parseUsd`: the amount in millionths.
unfoldable pub parse_usd : Text → Outcome Failure ℕ
unfolding before_point behind_point read_from pad_end
parse_usd value =
    if are_digits (before_point value) && is_fraction (behind_point value)
    then ok (
        read_from 0 (before_point value) * usd_scale
        + read_from 0 (pad_end 6 (fraction_text (behind_point value))))
    else throw no_usd_amount

-- `formatUsd`
unfoldable pub format_usd : ℕ → Text
unfolding decimal pad_start
format_usd micros = decimal (micros / usd_scale) ++ 46 ∷ pad_start 6 (decimal (micros % usd_scale))

-- `parseU64`
unfoldable pub parse_u64 : Text → Outcome Failure ℕ
unfolding read_from
parse_u64 value =
    if are_digits value
    then if ltb max_u64 (read_from 0 value) then throw exceeds_u64 else ok (read_from 0 value)
    else throw no_unsigned_integer
