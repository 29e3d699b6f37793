-- ===== src/Tests/Costs.antt =====
-- Amounts of money as texts.
use loop_proof.Common.{ℕ, ◌<◌, ◌≤◌, ◌^◌, ◌↔◌, ◌≡◌, refl, codes, decimal, decimal_from, ok, throw}
use loop_proof.Money.{
  no_usd_amount, no_unsigned_integer, exceeds_u64, read_from, zeros, pad_start, pad_end,
  before_point, behind_point, parse_usd, format_usd, parse_u64,
}
use loop_proof.Money.Printing.{parse_usd-format_usd}
use loop_proof.Money.Numerals.{IsNumeral, parse_u64_iff}

program : Unit {0}
unfolding decimal decimal_from read_from zeros pad_start pad_end before_point behind_point parse_usd
    format_usd parse_u64
program = tt

printed : format_usd 12050000 ≡ codes "12.050000"
unfolding program
printed = refl

short_fraction : parse_usd (codes "3.5") ≡ ok 3500000
unfolding program
short_fraction = refl

no_fraction : parse_usd (codes "3.") ≡ throw no_usd_amount
unfolding program
no_fraction = refl

long_fraction : parse_usd (codes "0.1234567") ≡ throw no_usd_amount
unfolding program
long_fraction = refl

parse_usd-format_usd_example : parse_usd (format_usd 12050000) ≡ ok 12050000
parse_usd-format_usd_example = parse_usd-format_usd 12050000

-- The largest number of 64 bits, and the one after it.
largest : parse_u64 (codes "18446744073709551615") ≡ ok 18446744073709551615
unfolding program
largest = refl

one_more : parse_u64 (codes "18446744073709551616") ≡ throw exceeds_u64
unfolding program
one_more = refl

parse_u64_iff_example :
    ((parse_u64 (codes "25") ≡ ok 25) ↔ (IsNumeral (codes "25") 25 × (25 < 2 ^ 64)))
    × ((parse_u64 (codes "25") ≡ throw exceeds_u64)
        ↔ ((m : ℕ) × IsNumeral (codes "25") m × (2 ^ 64 ≤ m)))
    × ((parse_u64 (codes "25") ≡ throw no_unsigned_integer)
        ↔ ¬ ((m : ℕ) × IsNumeral (codes "25") m))
parse_u64_iff_example = parse_u64_iff (codes "25") 25
