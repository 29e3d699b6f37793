-- ===== src/Money/Digits.antt =====
-- The decimal digits of a number, as the parsers read them.
use loop_proof.Common.{
  ℕ, zero, suc, ◌+◌, ◌*◌, ◌/◌, ◌%◌, ◌≤◌, ◌<◌, ◌≡◌, refl, arith, true, [], ◌∷◌, ◌++◌, every, length,
  Text, decimal, decimal_from,
}
use loop_proof.Money.{is_digit, read_from, zeros}

read-decimal_from :
    (fuel n : ℕ) (rest : Text)
    → n < fuel
    → read_from 0 (decimal_from fuel n rest) ≡ read_from n rest
unfolding decimal_from read_from
read-decimal_from zero n rest h = absurd (omega arith)
read-decimal_from (suc fuel) n rest h =
    ground (arith, read-decimal_from fuel (n / 10) ((48 + n % 10) ∷ rest))

every-decimal_from :
    (fuel n : ℕ) (rest : Text)
    → every is_digit rest ≡ true
    → every is_digit (decimal_from fuel n rest) ≡ true
unfolding decimal_from
every-decimal_from zero n rest h = h
every-decimal_from (suc fuel) n rest h =
    ground (arith, every-decimal_from fuel (n / 10) ((48 + n % 10) ∷ rest))

-- A power of ten.
tens : ℕ → ℕ
tens zero = 1
tens (suc k) = 10 * tens k

length-decimal_from-le :
    (fuel n k : ℕ) (rest : Text)
    → n < tens (suc k)
    → length (decimal_from fuel n rest) ≤ suc k + length rest
unfolding decimal_from tens
length-decimal_from-le zero n k rest h = omega arith
length-decimal_from-le (suc fuel) n zero rest h = ground arith
length-decimal_from-le (suc fuel) n (suc k) rest h =
    ground (arith, length-decimal_from-le fuel (n / 10) k ((48 + n % 10) ∷ rest))

le-length-decimal_from :
    (fuel n : ℕ) (rest : Text) → length rest ≤ length (decimal_from fuel n rest)
unfolding decimal_from
le-length-decimal_from zero n rest = omega arith
le-length-decimal_from (suc fuel) n rest =
    ground (arith, le-length-decimal_from fuel (n / 10) ((48 + n % 10) ∷ rest))

pub decimal_nonempty : (n : ℕ) → 1 ≤ length (decimal n)
unfolding decimal decimal_from
decimal_nonempty n = ground (arith, le-length-decimal_from n (n / 10) ((48 + n % 10) ∷ []))

-- Reading the printed digits gives the number.
pub read-decimal : (n : ℕ) → read_from 0 (decimal n) ≡ n
unfolding decimal read_from
read-decimal n = read-decimal_from (suc n) n [] (omega arith)

pub every-decimal : (n : ℕ) → every is_digit (decimal n) ≡ true
unfolding decimal
every-decimal n = every-decimal_from (suc n) n [] refl

-- A number below a million has at most six digits.
pub length-decimal-le : (n : ℕ) → n < 1000000 → length (decimal n) ≤ 6
unfolding decimal tens
length-decimal-le n h = length-decimal_from-le (suc n) n 5 [] h

pub read-zeros : (n : ℕ) (text : Text) → read_from 0 (zeros n ++ text) ≡ read_from 0 text
unfolding zeros read_from
read-zeros zero text = refl
read-zeros (suc n) text = read-zeros n text
