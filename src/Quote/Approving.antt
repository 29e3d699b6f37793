-- ===== src/Quote/Approving.antt =====
-- A quote that `buildCostQuote` makes is approved by its digest until it expires.
use loop_proof.Common.{
  ℕ, ◌*◌, ◌==◌, ◌<◌, ◌≡◌, refl, subst, arith, ltb, leb, true, false, Option, none, some, Text,
  codes, decimal, text_eq_refl, to_lower_case, ok, throw_if, >>=-eq-ok, ok_injective,
}
use loop_proof.Money.{parse_usd, format_usd, parse_u64, max_u64}
use loop_proof.Money.Printing.{parse_usd-format_usd, parse_u64-decimal}
use loop_proof.Quote.{
  Body, Quote, QuoteRequest, amount, normalize_optional, positive_integer, approval_terms,
  ApprovalTerms, seller_count, check_scope, make_body, body_of, check_terms, equal_sellers,
  check_limits, build_cost_quote, approve_cost_quote, zero_price,
}

-- The terms that are made pass their check.
check_terms-approval_terms :
    (unit : Option Text) (sellers : ℕ) (terms : ApprovalTerms)
    → approval_terms unit sellers ≡ ok terms
    → check_terms terms sellers ≡ ok tt
unfolding approval_terms check_terms
check_terms-approval_terms none sellers terms h =
    subst (λ (t : ApprovalTerms). check_terms t sellers ≡ ok tt) (ok_injective h) refl
check_terms-approval_terms (some unit) sellers terms h =
    let (micros, e, f) = >>=-eq-ok (amount (parse_usd unit)) _ h in
    subst (λ (t : ApprovalTerms). check_terms t sellers ≡ ok tt) (ok_injective f)
      (rw (parse_usd-format_usd micros, text_eq_refl (format_usd (micros * sellers))) refl)

-- A price that was read fits into 64 bits.
read_bounded :
    (text : Text) (price : ℕ) → amount (parse_u64 text) ≡ ok price → ltb max_u64 price ≡ false
unfolding parse_u64
read_bounded text price h = ground arith

read_again :
    (text : Text) (price : ℕ)
    → amount (parse_u64 text) ≡ ok price
    → amount (parse_u64 (decimal price)) ≡ ok price
read_again text price h = rw (parse_u64-decimal price, read_bounded text price h) refl

positive_again :
    (value kept : ℕ) (label label' : Text)
    → positive_integer value label ≡ ok kept
    → positive_integer kept label' ≡ ok kept
unfolding positive_integer
positive_again value kept label label' h = ground arith

equal_sellers_refl : (seller : Option Text) → equal_sellers seller seller ≡ true
unfolding equal_sellers
equal_sellers_refl none = refl
equal_sellers_refl (some seller) = text_eq_refl seller

limits_hold :
    (body : Body) (price proof_timeout auction_timeout : ℕ)
    → check_terms body.terms body.seller_proofs ≡ ok tt
    → amount (parse_u64 body.max_price_per_pgu_wei) ≡ ok price
    → positive_integer body.proof_timeout_seconds (codes "proof timeout") ≡ ok proof_timeout
    → positive_integer body.auction_timeout_seconds (codes "auction timeout") ≡ ok auction_timeout
    → check_limits body ≡ ok tt
unfolding check_limits
limits_hold body price proof_timeout auction_timeout a b c d = rw (a, b, c, d) refl

make_body-limits :
    (r : QuoteRequest) (expiration : ℕ) (seller : Option Text) (sellers : ℕ) (body : Body)
    → make_body r expiration seller sellers ≡ ok body
    → check_limits body ≡ ok tt
unfolding make_body check_limits
make_body-limits r expiration seller sellers body h =
    let (terms, a, h1) = >>=-eq-ok (approval_terms r.seller_proof_unit_usd sellers) _ h in
    let (price, b, h2) = >>=-eq-ok (amount (parse_u64 r.max_price_per_pgu_wei)) _ h1 in
    let (u, c, h3) = >>=-eq-ok (throw_if (price == 0) zero_price) _ h2 in
    let (proof_timeout, d, h4) =
      >>=-eq-ok (positive_integer r.proof_timeout_seconds (codes "proof timeout")) _ h3 in
    let (auction_timeout, e, h5) =
      >>=-eq-ok (positive_integer r.auction_timeout_seconds (codes "auction timeout")) _ h4 in
    subst (λ (b : Body). check_limits b ≡ ok tt) (ok_injective h5)
      (limits_hold (body_of r expiration seller sellers terms price proof_timeout auction_timeout)
        price proof_timeout auction_timeout
        (check_terms-approval_terms r.seller_proof_unit_usd sellers terms a)
        (read_again r.max_price_per_pgu_wei price b)
        (positive_again r.proof_timeout_seconds proof_timeout (codes "proof timeout")
          (codes "proof timeout") d)
        (positive_again r.auction_timeout_seconds auction_timeout (codes "auction timeout")
          (codes "auction timeout") e))

approved :
    (quote_digest : Body → Text) (body : Body) (later : ℕ) (expected_seller : Option Text)
    → check_limits body ≡ ok tt
    → later < body.expires_at
    → normalize_optional expected_seller ≡ ok body.seller
    → approve_cost_quote quote_digest
        (record { body = body; digest = quote_digest body })
        (quote_digest body)
        body.seller_proofs
        expected_seller
        later
      ≡ ok (record { body = body; digest = quote_digest body })
unfolding approve_cost_quote
approved quote_digest body later expected_seller limits in_time scope =
    let not_expired : leb body.expires_at later ≡ false = ground arith in
    let same_count : (body.seller_proofs == body.seller_proofs) ≡ true = ground arith in
    rw
      (
        text_eq_refl (to_lower_case (quote_digest body)),
        not_expired,
        same_count,
        scope,
        equal_sellers_refl body.seller,
        limits,
      )
      refl

-- A quote that was built, with the digest of its body, is approved before it expires, for the number of seller
-- proofs and the seller that it was made for.
pub approve_cost_quote-build_cost_quote :
    (quote_digest : Body → Text) (r : QuoteRequest) (now later : ℕ) (quote : Quote)
    (expected_seller : Option Text)
    → build_cost_quote quote_digest r now ≡ ok quote
    → later < quote.body.expires_at
    → normalize_optional expected_seller ≡ ok quote.body.seller
    → approve_cost_quote quote_digest quote quote.digest quote.body.seller_proofs expected_seller
        later
      ≡ ok quote
unfolding build_cost_quote approve_cost_quote
approve_cost_quote-build_cost_quote quote_digest r now later quote expected_seller h in_time scope =
    let (checked, e, f) = >>=-eq-ok (check_scope r now) _ h in
    let (body, g, k) =
      >>=-eq-ok (make_body r checked.0 checked.1 (seller_count checked.1 checked.2)) _ f in
    let same : record { body = body; digest = quote_digest body } ≡ quote = ok_injective k in
    subst
      (λ (q : Quote).
        later < q.body.expires_at
        → normalize_optional expected_seller ≡ ok q.body.seller
        → approve_cost_quote quote_digest q q.digest q.body.seller_proofs expected_seller later
          ≡ ok q)
      same
      (approved quote_digest body later expected_seller
        (make_body-limits r checked.0 checked.1 (seller_count checked.1 checked.2) body g))
      in_time scope
