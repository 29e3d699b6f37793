-- ===== src/Calldata/Words.antt =====
-- The words of the calldata: 64 digits that read back as the number.
use loop_proof.Common.{
  ℕ, zero, suc, ◌+◌, ◌-◌, ◌*◌, ◌/◌, ◌%◌, ◌≤◌, ◌<◌, ◌≡◌, refl, ◌∙◌, arith, [], ◌∷◌, ◌++◌, length,
  length-append, Text,
}
use loop_proof.Hex.{digit_value, hex_value_from}
use loop_proof.Money.{zeros, pad_start}
use loop_proof.Calldata.{hex_sign, hex_from, hex_word}

digit_value-hex_sign : (n : ℕ) → n < 16 → digit_value (hex_sign n) ≡ n
digit_value-hex_sign n h = ground arith

read-hex_from :
    (fuel n : ℕ) (rest : Text)
    → n < fuel
    → hex_value_from 0 (hex_from fuel n rest) ≡ hex_value_from n rest
unfolding hex_from hex_value_from
read-hex_from zero n rest h = absurd (omega arith)
read-hex_from (suc fuel) n rest h = ground (
  arith,
  read-hex_from fuel (n / 16) (hex_sign (n % 16) ∷ rest),
  digit_value-hex_sign n,
  digit_value-hex_sign (n % 16),
)

read-zeros : (k : ℕ) (text : Text) → hex_value_from 0 (zeros k ++ text) ≡ hex_value_from 0 text
unfolding zeros hex_value_from
read-zeros zero text = refl
read-zeros (suc k) text = read-zeros k text

pub length-zeros : (k : ℕ) → length (zeros k) ≡ k
unfolding zeros
length-zeros zero = refl
length-zeros (suc k) = omega (arith, length-zeros k)

-- A power of sixteen.
sixteens : ℕ → ℕ
sixteens zero = 1
sixteens (suc k) = 16 * sixteens k

length-hex_from-le :
    (fuel n k : ℕ) (rest : Text)
    → n < sixteens (suc k)
    → length (hex_from fuel n rest) ≤ suc k + length rest
unfolding hex_from sixteens
length-hex_from-le zero n k rest h = omega arith
length-hex_from-le (suc fuel) n zero rest h = ground arith
length-hex_from-le (suc fuel) n (suc k) rest h =
    ground (arith, length-hex_from-le fuel (n / 16) k (hex_sign (n % 16) ∷ rest))

-- Reading a word gives its number.
pub read-hex_word : (n : ℕ) → hex_value_from 0 (hex_word n) ≡ n
unfolding hex_word pad_start hex_value_from
read-hex_word n =
    read-zeros (64 - length (hex_from (suc n) n [])) (hex_from (suc n) n [])
    ∙ read-hex_from (suc n) n [] (omega arith)

-- A number below 2^60 fills a word: no more than 64 digits are there.
pub length-hex_word : (n : ℕ) → n < 1152921504606846976 → length (hex_word n) ≡ 64
unfolding hex_word pad_start sixteens
length-hex_word n h =
    let digits = hex_from (suc n) n [] in
    omega (
      arith,
      length-append (zeros (64 - length digits)) digits,
      length-zeros (64 - length digits),
      length-hex_from-le (suc n) n 14 [] (omega arith),
    )
