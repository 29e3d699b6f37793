-- ===== src/Canary.antt =====
-- The quote of the single paid proof: `validateQuote`, `checkBaseFee` and `repriceQuote` of
-- scripts/submit-frozen-seller-canary.mjs, and `calculateBudget` of scripts/prepare-seller-proving.mjs. The digest of a
-- body is an argument. A time is a number of milliseconds, and `none` where `Date.parse` gives no
-- number; a buffer is a natural number.
pub mod Repricing
use loop_proof.Common.{
  ℕ, ◌+◌, ◌-◌, ◌*◌, ◌/◌, leb, ltb, ◌==◌, if◌then◌else◌, Bool, true, false, not, ◌&&◌, ◌||◌, Option,
  none, some, get_or, List, [], ◌∷◌, every, length, sum_by, Text, codes, text_eq, decimal, Outcome,
  ok, throw, throw_if, ◌>>=◌, ◌>>◌, map_outcome,
}
use loop_proof.Money.{is_digit, read_from}
use loop_proof.Published.{is_lower_address}

pub data Failure : Type 0 where
  no_positive_amount no_nonnegative_amount empty_batch : Failure
  digest_mismatch quote_expired invalid_scope : Failure
  invalid_buffer allowance_mismatch budget_mismatch base_fee_increased : Failure
  no_integer : Text → Failure

-- The fields of a quote that the checks read or that a new price changes.
pub record CanaryBody : Type 0 where
  pub version : ℕ
  pub kind : Text
  pub proof_count : ℕ
  pub aip4_compliant : Bool
  pub rpc : Text
  pub requester : Text
  pub generated_at : Option ℕ
  pub expires_at : Option ℕ
  pub prover_gas_units : Text
  pub max_price_per_pgu_wei : Text
  pub quoted_base_fee_wei : Text
  pub estimated_cost_wei : Text
  pub base_fee_buffer_bps : Option ℕ
  pub max_base_fee_wei : Option Text
  pub max_estimated_cost_wei : Option Text
  pub previous_quote_digest : Option Text

pub record CanaryQuote : Type 0 where
  pub body : CanaryBody
  pub digest : Text

pub record Budget : Type 0 where
  pub budget_proof_count : ℕ
  pub total_prover_gas_units : Text
  pub base_fees_wei : Text
  pub computation_at_price_cap_wei : Text
  pub total_at_price_cap_wei : Text
  pub balance_wei : Text
  pub sufficient_at_price_cap : Bool
  pub shortfall_wei : Text

-- `/^[1-9][0-9]*$/`
abbrev pub starts_positive : Text → Bool
starts_positive [] = false
starts_positive (c ∷ rest) = (leb 49 c && leb c 57) && every is_digit rest

-- `positive` and `nonnegative`
unfoldable pub positive_amount : Text → Outcome Failure ℕ
unfolding read_from
positive_amount value =
    if starts_positive value then ok (read_from 0 value) else throw no_positive_amount

unfoldable pub nonnegative_amount : Text → Outcome Failure ℕ
unfolding read_from text_eq
nonnegative_amount value =
    if text_eq value (codes "0") || starts_positive value
    then ok (read_from 0 value)
    else throw no_nonnegative_amount

-- The figures of a budget, from the amounts that are read.
unfoldable pub budget_of : List ℕ → ℕ → ℕ → ℕ → Text → Budget
unfolding decimal
budget_of amounts price base_fee balance balance_text =
    let pgu = sum_by (λ (amount : ℕ). amount) amounts in
    let total = pgu * price + length amounts * base_fee in
    record {
      budget_proof_count = length amounts;
      total_prover_gas_units = decimal pgu;
      base_fees_wei = decimal (length amounts * base_fee);
      computation_at_price_cap_wei = decimal (pgu * price);
      total_at_price_cap_wei = decimal total;
      balance_wei = balance_text;
      sufficient_at_price_cap = leb total balance;
      shortfall_wei = decimal (total - balance);
    }

-- `calculateBudget`
unfoldable pub calculate_budget : List Text → Text → Text → Text → Outcome Failure Budget
unfolding map_outcome positive_amount nonnegative_amount budget_of
calculate_budget gas_units price base_fee balance = do
  throw_if (length gas_units == 0) empty_batch
  amounts ← map_outcome positive_amount gas_units
  price_wei ← positive_amount price
  base_fee_wei ← nonnegative_amount base_fee
  balance_wei ← nonnegative_amount balance
  ok (budget_of amounts price_wei base_fee_wei balance_wei balance)

abbrev pub canary_rpc : Text
canary_rpc = codes "https://rpc.mainnet.succinct.xyz"

abbrev pub is_valid_buffer : ℕ → Bool
is_valid_buffer buffer = leb buffer 10000

-- Where `BigInt(text)` throws nothing: at decimal digits, or no character at all. The signs, spaces and
-- other bases that it also reads are in no amount of a quote.
unfoldable pub check_integer : Text → Outcome Failure (Unit {0})
check_integer text = throw_if (not (every is_digit text)) (no_integer text)

-- The base fee with its buffer, rounded up.
unfoldable pub fee_ceiling : Text → ℕ → ℕ
unfolding read_from
fee_ceiling base_fee buffer = (read_from 0 base_fee * (10000 + buffer) + 9999) / 10000

-- The budget of the one proof of a body, at a base fee.
unfoldable pub budget_at : CanaryBody → Text → Outcome Failure Budget
unfolding calculate_budget
budget_at body base_fee =
    calculate_budget (body.prover_gas_units ∷ []) body.max_price_per_pgu_wei base_fee (codes "0")

unfoldable pub is_fresh : Option ℕ → ℕ → Bool
is_fresh none now = false
is_fresh (some expires) now = ltb now expires

abbrev pub is_text : Option Text → Text → Bool
is_text none expected = false
is_text (some text) expected = text_eq text expected

abbrev pub buffer_of : Option ℕ → Outcome Failure ℕ
buffer_of none = throw invalid_buffer
buffer_of (some buffer) = if is_valid_buffer buffer then ok buffer else throw invalid_buffer

-- The part of `validateQuote` for a quote with an allowance.
unfoldable pub check_allowance : CanaryBody → Option Text → Outcome Failure (Unit {0})
unfolding check_integer fee_ceiling text_eq decimal budget_at
check_allowance body none = ok tt
check_allowance body (some ceiling) = do
  buffer ← buffer_of body.base_fee_buffer_bps
  check_integer body.quoted_base_fee_wei
  throw_if (not (text_eq (decimal (fee_ceiling body.quoted_base_fee_wei buffer)) ceiling))
      allowance_mismatch
  budget ← budget_at body ceiling
  throw_if (not (is_text body.max_estimated_cost_wei budget.total_at_price_cap_wei)) budget_mismatch

unfoldable pub is_in_scope : CanaryBody → Bool
unfolding text_eq is_lower_address
is_in_scope body =
    body.proof_count == 1
    && (not body.aip4_compliant && (text_eq body.rpc canary_rpc && is_lower_address body.requester))

unfoldable pub is_approval : CanaryBody → Bool
unfolding text_eq
is_approval body = text_eq body.kind (codes "frozen-seller-canary-approval") && body.version == 1

-- `checkBaseFee`
unfoldable pub check_base_fee : CanaryBody → ℕ → Bool → Outcome Failure (Unit {0})
unfolding read_from check_integer
check_base_fee body live true = ok tt
check_base_fee body live false = do
  let ceiling = get_or body.max_base_fee_wei body.quoted_base_fee_wei
  check_integer ceiling
  throw_if (ltb (read_from 0 ceiling) live) base_fee_increased

module _ (quote_digest : CanaryBody → Text) where
  -- `validateQuote`
  unfoldable pub validate_quote : CanaryQuote → Text → Bool → ℕ → Outcome Failure (Unit {0})
  unfolding is_approval text_eq is_fresh is_in_scope check_allowance
  validate_quote quote approval resuming now = do
    throw_if
        (not (
          is_approval quote.body
          && (text_eq quote.digest (quote_digest quote.body) && text_eq approval quote.digest)))
        digest_mismatch
    throw_if (not (resuming || is_fresh quote.body.expires_at now)) quote_expired
    throw_if (not (is_in_scope quote.body)) invalid_scope
    check_allowance quote.body quote.body.max_base_fee_wei

  -- The body at a new base fee.
  unfoldable pub repriced : CanaryQuote → Text → ℕ → ℕ → Budget → Budget → CanaryBody
  unfolding decimal fee_ceiling
  repriced quote base_fee now buffer budget buffered = record (quote.body) {
    generated_at = some now;
    expires_at = some (now + 86400000);
    quoted_base_fee_wei = base_fee;
    estimated_cost_wei = budget.total_at_price_cap_wei;
    base_fee_buffer_bps = some buffer;
    max_base_fee_wei = some (decimal (fee_ceiling base_fee buffer));
    max_estimated_cost_wei = some buffered.total_at_price_cap_wei;
    previous_quote_digest = some quote.digest;
  }

  -- `repriceQuote`
  unfoldable pub reprice_quote : CanaryQuote → Text → ℕ → ℕ → Outcome Failure CanaryQuote
  unfolding validate_quote budget_at check_integer decimal fee_ceiling repriced
  reprice_quote quote base_fee now buffer = do
    validate_quote quote quote.digest true now
    throw_if (not (is_valid_buffer buffer)) invalid_buffer
    budget ← budget_at quote.body base_fee
    check_integer base_fee
    buffered ← budget_at quote.body (decimal (fee_ceiling base_fee buffer))
    ok (record {
      body = repriced quote base_fee now buffer budget buffered;
      digest = quote_digest (repriced quote base_fee now buffer budget buffered);
    })
