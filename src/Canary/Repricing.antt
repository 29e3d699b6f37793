-- ===== src/Canary/Repricing.antt =====
-- What `repriceQuote` gives: a quote that can be submitted, and what it allows.
use loop_proof.Common.{
  ℕ, ◌+◌, ◌*◌, ◌≤◌, ◌<◌, ◌≡◌, ◌∙◌, refl, sym, ap, ap₂, subst, arith, true, false, ◌&&◌, ltb, some,
  get_or, List, [], ◌∷◌, Text, codes, text_eq, text_eq_refl, decimal, ok, ok_injective, >>=-eq-ok,
  >>-eq-ok, passed, throw_if-eq-ok, lt→ltb, map_outcome-cons-eq-ok, map_outcome,
}
use loop_proof.Money.{read_from}
use loop_proof.Money.Digits.{read-decimal, every-decimal}
use loop_proof.Canary.{
  CanaryBody, CanaryQuote, Budget, positive_amount, nonnegative_amount, budget_of, calculate_budget,
  budget_at, check_integer, fee_ceiling, is_valid_buffer, is_approval, is_in_scope, is_fresh,
  check_allowance, check_base_fee, validate_quote, repriced, reprice_quote, digest_mismatch,
  invalid_scope, base_fee_increased, invalid_buffer,
}

fee_ceiling-ge : (base_fee : Text) (buffer : ℕ) → read_from 0 base_fee ≤ fee_ceiling base_fee buffer
unfolding fee_ceiling
fee_ceiling-ge base_fee buffer = omega arith

positive_amount_read : (text : Text) (n : ℕ) → positive_amount text ≡ ok n → read_from 0 text ≡ n
unfolding positive_amount
positive_amount_read text n done = ground (arith, done)

nonnegative_amount_read :
    (text : Text) (n : ℕ) → nonnegative_amount text ≡ ok n → read_from 0 text ≡ n
unfolding nonnegative_amount
nonnegative_amount_read text n done = ground (arith, done)

single_total :
    (amount price fee balance : ℕ) (text : Text)
    → read_from 0 (budget_of (amount ∷ []) price fee balance text).total_at_price_cap_wei
      ≡ amount * price + fee
unfolding budget_of
single_total amount price fee balance text =
    read-decimal ((amount + 0) * price + 1 * fee) ∙ omega arith

-- What a budget of one proof is made of.
budget_at_total :
    (body : CanaryBody) (base_fee : Text) (budget : Budget)
    → budget_at body base_fee ≡ ok budget
    → read_from 0 budget.total_at_price_cap_wei
      ≡ read_from 0 body.prover_gas_units * read_from 0 body.max_price_per_pgu_wei
        + read_from 0 base_fee
unfolding budget_at calculate_budget
budget_at_total body base_fee budget done =
    let (amounts, read, after_amounts) =
      >>=-eq-ok (map_outcome positive_amount (body.prover_gas_units ∷ [])) _ done in
    let (price, priced, after_price) =
      >>=-eq-ok (positive_amount body.max_price_per_pgu_wei) _ after_amounts in
    let (fee, charged, after_fee) = >>=-eq-ok (nonnegative_amount base_fee) _ after_price in
    let (balance, _, made) =
      >>=-eq-ok (nonnegative_amount (codes "0"))
        (λ (wei : ℕ). ok (budget_of amounts price fee wei (codes "0"))) after_fee in
    let (amount, others, first, rest, same) =
      map_outcome-cons-eq-ok positive_amount body.prover_gas_units [] read in
    let single : amounts ≡ amount ∷ [] =
      same ∙ ap (λ more. amount ∷ more) (sym (ok_injective rest)) in
    subst
      (λ (b : Budget).
        read_from 0 b.total_at_price_cap_wei
        ≡ read_from 0 body.prover_gas_units * read_from 0 body.max_price_per_pgu_wei
          + read_from 0 base_fee)
      (ok_injective made)
      (subst
        (λ (list : List ℕ).
          read_from 0 (budget_of list price fee balance (codes "0")).total_at_price_cap_wei
          ≡ read_from 0 body.prover_gas_units * read_from 0 body.max_price_per_pgu_wei
            + read_from 0 base_fee)
        (sym single)
        (single_total amount price fee balance (codes "0")
          ∙ ap₂ (λ cost wei. cost + wei)
              (ap₂ (λ gas unit. gas * unit)
                (sym (positive_amount_read body.prover_gas_units amount first))
                (sym (positive_amount_read body.max_price_per_pgu_wei price priced)))
              (sym (nonnegative_amount_read base_fee fee charged))))

-- The allowance of a new price is what it is checked for.
check_allowance-repriced :
    (body : CanaryBody) (base_fee : Text) (buffer : ℕ) (buffered : Budget)
    → is_valid_buffer buffer ≡ true
    → body.base_fee_buffer_bps ≡ some buffer
    → body.quoted_base_fee_wei ≡ base_fee
    → body.max_estimated_cost_wei ≡ some buffered.total_at_price_cap_wei
    → check_integer base_fee ≡ ok tt
    → budget_at body (decimal (fee_ceiling base_fee buffer)) ≡ ok buffered
    → check_allowance body (some (decimal (fee_ceiling base_fee buffer))) ≡ ok tt
unfolding check_allowance
check_allowance-repriced body base_fee buffer buffered valid noted quoted limit whole budget = rw (
  noted,
  valid,
  quoted,
  whole,
  budget,
  limit,
  text_eq_refl (decimal (fee_ceiling base_fee buffer)),
  text_eq_refl buffered.total_at_price_cap_wei,
)

module _ (quote_digest : CanaryBody → Text) where
  -- What a quote that was validated for resuming meets.
  validate_quote_resumed :
      (quote : CanaryQuote) (approval : Text) (now : ℕ)
      → validate_quote quote_digest quote approval true now ≡ ok tt
      → (is_approval quote.body ≡ true) × (is_in_scope quote.body ≡ true)
  unfolding validate_quote
  validate_quote_resumed quote approval now done =
      let (approved, after_digest) =
        passed
          (is_approval quote.body
            && (text_eq quote.digest (quote_digest quote.body) && text_eq approval quote.digest))
          digest_mismatch _ done in
      let (in_scope, _) = passed (is_in_scope quote.body) invalid_scope _ after_digest in
      (ground arith, in_scope)

  -- A body that is approved, in scope, fresh and within its allowance is validated by its digest.
  validate_quote-fresh :
      (body : CanaryBody) (now : ℕ)
      → is_approval body ≡ true
      → is_in_scope body ≡ true
      → is_fresh body.expires_at now ≡ true
      → check_allowance body body.max_base_fee_wei ≡ ok tt
      → validate_quote quote_digest
          (record { body = body; digest = quote_digest body })
          (quote_digest body)
          false
          now
        ≡ ok tt
  unfolding validate_quote
  validate_quote-fresh body now approved in_scope fresh allowed =
      rw (approved, text_eq_refl (quote_digest body), fresh, in_scope, allowed)

  -- What a new price is made from.
  record Pricing (quote : CanaryQuote) (base_fee : Text) (now buffer : ℕ) (next : CanaryQuote)
      : Type 0 where
    budget : Budget
    buffered : Budget
    approved : is_approval quote.body ≡ true
    in_scope : is_in_scope quote.body ≡ true
    valid_buffer : is_valid_buffer buffer ≡ true
    whole : check_integer base_fee ≡ ok tt
    buffered_budget : budget_at quote.body (decimal (fee_ceiling base_fee buffer)) ≡ ok buffered
    made :
        record {
          body = repriced quote_digest quote base_fee now buffer budget buffered;
          digest = quote_digest (repriced quote_digest quote base_fee now buffer budget buffered);
        }
        ≡ next

  reprice_quote-Pricing :
      (quote : CanaryQuote) (base_fee : Text) (now buffer : ℕ) (next : CanaryQuote)
      → reprice_quote quote_digest quote base_fee now buffer ≡ ok next
      → Pricing quote base_fee now buffer next
  unfolding reprice_quote
  reprice_quote-Pricing quote base_fee now buffer next done =
      let (validated, after_quote) =
        >>-eq-ok (validate_quote quote_digest quote quote.digest true now) _ done in
      let (approved, in_scope) = validate_quote_resumed quote quote.digest now validated in
      let (valid, after_buffer) = passed (is_valid_buffer buffer) invalid_buffer _ after_quote in
      let (budget, _, after_budget) = >>=-eq-ok (budget_at quote.body base_fee) _ after_buffer in
      let (whole, after_integer) = >>-eq-ok (check_integer base_fee) _ after_budget in
      let (buffered, limited, made) =
        >>=-eq-ok (budget_at quote.body (decimal (fee_ceiling base_fee buffer))) _ after_integer in
      record {
        budget = budget;
        buffered = buffered;
        approved = approved;
        in_scope = in_scope;
        valid_buffer = valid;
        whole = whole;
        buffered_budget = limited;
        made = ok_injective made;
      }

  module _ (quote : CanaryQuote) (base_fee : Text) (now buffer : ℕ) (budget buffered : Budget) where
    abbrev body : CanaryBody
    body = repriced quote_digest quote base_fee now buffer budget buffered

    repriced-IsValid :
        (later : ℕ)
        → is_approval quote.body ≡ true
        → is_in_scope quote.body ≡ true
        → is_valid_buffer buffer ≡ true
        → check_integer base_fee ≡ ok tt
        → budget_at quote.body (decimal (fee_ceiling base_fee buffer)) ≡ ok buffered
        → later < now + 86400000
        → validate_quote quote_digest
            (record { body = body; digest = quote_digest body })
            (quote_digest body)
            false
            later
          ≡ ok tt
    unfolding repriced is_approval is_in_scope is_fresh budget_at
    repriced-IsValid later approved in_scope valid whole limited in_time =
        validate_quote-fresh body later approved in_scope (lt→ltb later (now + 86400000) in_time) (
          check_allowance-repriced body base_fee buffer buffered valid refl refl refl whole limited)

    check_base_fee-repriced : check_base_fee body (read_from 0 base_fee) false ≡ ok tt
    unfolding repriced check_base_fee check_integer
    check_base_fee-repriced =
        rw (every-decimal (fee_ceiling base_fee buffer)) (
          ground
            (arith, read-decimal (fee_ceiling base_fee buffer), fee_ceiling-ge base_fee buffer))

    cost_covered :
        (live : ℕ)
        → budget_at quote.body (decimal (fee_ceiling base_fee buffer)) ≡ ok buffered
        → check_base_fee body live false ≡ ok tt
        → read_from 0 body.prover_gas_units * read_from 0 body.max_price_per_pgu_wei + live
          ≤ read_from 0 (get_or body.max_estimated_cost_wei [])
    unfolding repriced check_base_fee
    cost_covered live limited accepted =
        let ceiling = decimal (fee_ceiling base_fee buffer) in
        let (_, after_integer) = >>-eq-ok (check_integer ceiling) _ accepted in
        let below =
          throw_if-eq-ok (ltb (read_from 0 ceiling) live) base_fee_increased after_integer in
        let total = budget_at_total quote.body ceiling buffered limited in
        let live_below : live ≤ read_from 0 ceiling = ground arith in
        omega (arith, total, live_below)

  -- A quote that may be submitted, and whose limit covers the cost at a base fee.
  abbrev pub IsSubmittable : CanaryQuote → Text → ℕ → ℕ → Type 0
  IsSubmittable next base_fee later live =
      (validate_quote quote_digest next next.digest false later ≡ ok tt)
      × (check_base_fee next.body (read_from 0 base_fee) false ≡ ok tt)
      × (read_from 0 next.body.prover_gas_units * read_from 0 next.body.max_price_per_pgu_wei + live
          ≤ read_from 0 (get_or next.body.max_estimated_cost_wei []))

  -- Where repriceQuote returns: for a day from then its quote is validated when its own digest is
  -- approved; the base fee it was made for is accepted; and whatever base fee checkBaseFee accepts, the cost
  -- of the proof at the highest price and that base fee is within the quote's maximum.
  pub reprice_quote-IsSubmittable :
      (quote : CanaryQuote) (base_fee : Text) (now buffer : ℕ) (next : CanaryQuote) (later live : ℕ)
      → reprice_quote quote_digest quote base_fee now buffer ≡ ok next
      → later < now + 86400000
      → check_base_fee next.body live false ≡ ok tt
      → IsSubmittable next base_fee later live
  reprice_quote-IsSubmittable quote base_fee now buffer next later live done in_time accepted =
      let pricing = reprice_quote-Pricing quote base_fee now buffer next done in
      subst
        (λ (q : CanaryQuote).
          check_base_fee q.body live false ≡ ok tt → IsSubmittable q base_fee later live)
        pricing.made
        (λ live_accepted. (
          repriced-IsValid quote base_fee now buffer pricing.budget pricing.buffered later
              pricing.approved pricing.in_scope pricing.valid_buffer pricing.whole
              pricing.buffered_budget in_time,
          check_base_fee-repriced quote base_fee now buffer pricing.budget pricing.buffered,
          cost_covered quote base_fee now buffer pricing.budget pricing.buffered live
              pricing.buffered_budget live_accepted,
        ))
        accepted
