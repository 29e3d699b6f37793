-- ===== src/Quote.antt =====
-- scripts/proving-cost-quote.mjs: `buildCostQuote` and `approveCostQuote`. The digest of a quote's body
-- (SHA-256 of its canonical text) is an argument. Times are milliseconds; a time that does not parse is
-- `none`. The text of the time when a quote was made plays no part and is left out.
pub mod Approving
use loop_proof.Common.{
  ℕ, ◌*◌, ◌==◌, ltb, leb, if◌then◌else◌, Bool, true, false, not, ◌&&◌, ◌||◌, Option, none, some,
  List, [], ◌∷◌, ◌++◌, flat_map, length, map, every, Text, codes, decimal, get_or, text_eq,
  to_lower_case, keys_by_text, has, set_of, Outcome, ok, throw, throw_if, map_outcome, ◌>>=◌, ◌>>◌,
}
use loop_proof.Claims.{Claim}
use loop_proof.Hex.{is_hex}
use loop_proof.Returns.{is_safe_integer}
use loop_proof.Money
use loop_proof.Money.{parse_usd, format_usd, parse_u64}

pub data Failure : Type 0 where
  empty_bundle no_plan_hash no_provider not_in_future no_sellers zero_price : Failure
  invalid_seller not_approved : Text → Failure
  invalid_amount : Money.Failure → Failure
  not_positive : Text → Failure
  digest_mismatch approval_required expired count_mismatch scope_mismatch bad_aggregate : Failure
  invalid_currency must_not_claim_usd unsupported_mode : Failure

-- A failure of the amounts, as one of the quote's.
abbrev pub amount : {A : Type 0} → Outcome Money.Failure A → Outcome Failure A
amount (ok a) = ok a
amount (throw failure) = throw (invalid_amount failure)

-- `normalizeSeller`
unfoldable pub normalize_seller : Text → Outcome Failure Text
unfolding is_hex to_lower_case
normalize_seller value =
    if is_hex 40 value then ok (to_lower_case value) else throw (invalid_seller value)

unfoldable pub normalize_optional : Option Text → Outcome Failure (Option Text)
unfolding normalize_seller
normalize_optional none = ok none
normalize_optional (some seller) = do value ← normalize_seller seller; ok (some value)

-- `positiveInteger`, of a number.
unfoldable pub positive_integer : ℕ → Text → Outcome Failure ℕ
positive_integer value label =
    if is_safe_integer value && leb 1 value then ok value else throw (not_positive label)

-- How a quote is approved: its mode, and the limits in dollars for one seller proof and for all. A field
-- that is null is `none`; so is a mode that is not there.
pub record ApprovalTerms : Type 0 where
  pub approval_mode : Option Text
  pub currency : Option Text
  pub unit_max_cost_usd : Option Text
  pub aggregate_max_cost_usd : Option Text

abbrev pub usd_mode : Text
usd_mode = codes "usd-and-network-limits"

abbrev pub network_mode : Text
network_mode = codes "network-price-cap-only"

pub record Body : Type 0 where
  pub provider : Text
  pub expires_at : ℕ
  pub seller : Option Text
  pub seller_proofs : ℕ
  pub terms : ApprovalTerms
  pub max_price_per_pgu_wei : Text
  pub proof_timeout_seconds : ℕ
  pub auction_timeout_seconds : ℕ
  pub proof_bundle_sha256 : Text
  pub proof_plan_sha256 : Text

pub record Quote : Type 0 where
  pub body : Body
  pub digest : Text

-- The arguments of `buildCostQuote`. `proof_bundle_sha256` is the hash of the bundle's text.
pub record QuoteRequest : Type 0 where
  pub claims : List Claim
  pub proof_bundle_sha256 : Text
  pub proof_plan_sha256 : Text
  pub seller_proof_unit_usd : Option Text
  pub max_price_per_pgu_wei : Text
  pub proof_timeout_seconds : ℕ
  pub auction_timeout_seconds : ℕ
  pub provider : Text
  pub expires_at : Option ℕ
  pub seller : Option Text

-- The terms of a quote for a number of sellers.
unfoldable pub approval_terms : Option Text → ℕ → Outcome Failure ApprovalTerms
unfolding parse_usd format_usd
approval_terms none sellers = ok (record {
  approval_mode = some network_mode;
  currency = none;
  unit_max_cost_usd = none;
  aggregate_max_cost_usd = none;
})
approval_terms (some unit) sellers = do
  micros ← amount (parse_usd unit)
  ok (record {
    approval_mode = some usd_mode;
    currency = some (codes "USD");
    unit_max_cost_usd = some (format_usd micros);
    aggregate_max_cost_usd = some (format_usd (micros * sellers));
  })

abbrev pub seller_count : Option Text → List Text → ℕ
seller_count none sellers = length sellers
seller_count (some seller) sellers = 1

abbrev pub is_unapproved : Option Text → List Text → Bool
is_unapproved none sellers = false
is_unapproved (some seller) sellers = not (has seller sellers)

-- The expiration, if it is in the future.
abbrev pub future : Option ℕ → ℕ → Outcome Failure ℕ
future none now = throw not_in_future
future (some time) now = if leb time now then throw not_in_future else ok time

-- The checks of the bundle, of the scope and of the times, up to the count of the sellers.
unfoldable pub check_scope : QuoteRequest → ℕ → Outcome Failure (ℕ × Option Text × List Text)
unfolding is_hex normalize_optional normalize_seller map_outcome set_of has
check_scope r now = do
  throw_if (length r.claims == 0) empty_bundle
  throw_if (not (is_hex 64 r.proof_plan_sha256)) no_plan_hash
  throw_if (length r.provider == 0) no_provider
  expiration ← future r.expires_at now
  seller ← normalize_optional r.seller
  subjects ← map_outcome normalize_seller (flat_map (λ (claim : Claim). claim.subjects) r.claims)
  let sellers = set_of subjects
  throw_if (length sellers == 0) no_sellers
  throw_if (is_unapproved seller sellers) (not_approved (get_or seller []))
  ok (expiration, seller, sellers)

abbrev pub body_of : QuoteRequest → ℕ → Option Text → ℕ → ApprovalTerms → ℕ → ℕ → ℕ → Body
body_of r expiration seller sellers terms price proof_timeout auction_timeout = record {
  provider = r.provider;
  expires_at = expiration;
  seller = seller;
  seller_proofs = sellers;
  terms = terms;
  max_price_per_pgu_wei = decimal price;
  proof_timeout_seconds = proof_timeout;
  auction_timeout_seconds = auction_timeout;
  proof_bundle_sha256 = r.proof_bundle_sha256;
  proof_plan_sha256 = r.proof_plan_sha256;
}

-- The body of a quote, with the checks of its limits.
unfoldable pub make_body : QuoteRequest → ℕ → Option Text → ℕ → Outcome Failure Body
unfolding approval_terms parse_u64 positive_integer decimal
make_body r expiration seller sellers = do
  terms ← approval_terms r.seller_proof_unit_usd sellers
  price ← amount (parse_u64 r.max_price_per_pgu_wei)
  _ ← throw_if (price == 0) zero_price
  proof_timeout ← positive_integer r.proof_timeout_seconds (codes "proof timeout")
  auction_timeout ← positive_integer r.auction_timeout_seconds (codes "auction timeout")
  ok (body_of r expiration seller sellers terms price proof_timeout auction_timeout)

abbrev pub is_text : Option Text → Text → Bool
is_text none expected = false
is_text (some text) expected = text_eq text expected

abbrev pub is_there : Option Text → Bool
is_there none = false
is_there (some text) = true

-- `parseUsd` of a field that may be null.
unfoldable pub parse_usd_field : Option Text → Outcome Failure ℕ
unfolding parse_usd
parse_usd_field none = throw (invalid_amount Money.no_usd_amount)
parse_usd_field (some text) = amount (parse_usd text)

-- The check of the mode that is approved with dollar limits.
unfoldable pub check_usd : ApprovalTerms → ℕ → Outcome Failure (Unit {0})
unfolding parse_usd_field format_usd text_eq
check_usd terms sellers = do
  throw_if (not (is_text terms.currency (codes "USD"))) invalid_currency
  unit ← parse_usd_field terms.unit_max_cost_usd
  throw_if (not (is_text terms.aggregate_max_cost_usd (format_usd (unit * sellers)))) bad_aggregate

abbrev pub claims_usd : ApprovalTerms → Bool
claims_usd terms =
    is_there terms.currency
    || (is_there terms.unit_max_cost_usd || is_there terms.aggregate_max_cost_usd)

-- The check of the terms, by their mode.
unfoldable pub check_terms : ApprovalTerms → ℕ → Outcome Failure (Unit {0})
unfolding check_usd text_eq
check_terms terms sellers =
    let mode = get_or terms.approval_mode usd_mode in
    if text_eq mode usd_mode
    then check_usd terms sellers
    else if text_eq mode network_mode
    then throw_if (claims_usd terms) must_not_claim_usd
    else throw unsupported_mode

unfoldable pub equal_sellers : Option Text → Option Text → Bool
unfolding text_eq
equal_sellers none none = true
equal_sellers (some left) (some right) = text_eq left right
equal_sellers _ _ = false

-- The checks of the limits with which an approval ends.
unfoldable pub check_limits : Body → Outcome Failure (Unit {0})
unfolding check_terms parse_u64 positive_integer
check_limits body = do
  _ ← check_terms body.terms body.seller_proofs
  _ ← amount (parse_u64 body.max_price_per_pgu_wei)
  _ ← positive_integer body.proof_timeout_seconds (codes "proof timeout")
  _ ← positive_integer body.auction_timeout_seconds (codes "auction timeout")
  ok tt

module _ (quote_digest : Body → Text) where
  unfoldable pub build_cost_quote : QuoteRequest → ℕ → Outcome Failure Quote
  unfolding check_scope make_body
  build_cost_quote r now = do
    (expiration, seller, sellers) ← check_scope r now
    body ← make_body r expiration seller (seller_count seller sellers)
    ok (record { body = body; digest = quote_digest body })

  -- `approveCostQuote`, for the number of seller proofs and the seller that are expected.
  unfoldable pub approve_cost_quote : Quote → Text → ℕ → Option Text → ℕ → Outcome Failure Quote
  unfolding text_eq to_lower_case normalize_optional equal_sellers check_limits
  approve_cost_quote quote approved_digest expected_count expected_seller now = do
    let digest = to_lower_case (quote_digest quote.body)
    throw_if (not (text_eq (to_lower_case quote.digest) digest)) digest_mismatch
    throw_if (not (text_eq (to_lower_case approved_digest) digest)) approval_required
    throw_if (leb quote.body.expires_at now) expired
    throw_if (not (quote.body.seller_proofs == expected_count)) count_mismatch
    seller ← normalize_optional expected_seller
    throw_if (not (equal_sellers quote.body.seller seller)) scope_mismatch
    _ ← check_limits quote.body
    ok quote
