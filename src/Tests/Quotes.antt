-- ===== src/Tests/Quotes.antt =====
-- A quote from its request to its approval.
use loop_proof.Common.{
  ◌≡◌, refl, arith, [], ◌∷◌, none, some, Text, codes, text_eq, to_lower_case, decimal, decimal_from,
  keys_by_text, has, add_all, set_of, map_outcome, ok, throw,
}
use loop_proof.Claims.{closed_loop, Claim}
use loop_proof.Money.{
  read_from, zeros, pad_start, pad_end, before_point, behind_point, parse_usd, format_usd,
  parse_u64,
}
use loop_proof.Hex.{is_hex}
use loop_proof.Quote.{
  Body, Quote, QuoteRequest, expired, normalize_seller, normalize_optional, positive_integer,
  approval_terms, check_scope, make_body, check_usd, check_terms, parse_usd_field, usd_mode,
  network_mode, must_not_claim_usd, equal_sellers, check_limits, build_cost_quote,
  approve_cost_quote,
}
use loop_proof.Quote.Approving.{approve_cost_quote-build_cost_quote}

program : Unit {0}
unfolding text_eq to_lower_case decimal decimal_from has add_all set_of map_outcome read_from zeros
    pad_start pad_end before_point behind_point parse_usd format_usd parse_u64 is_hex
    normalize_seller normalize_optional positive_integer approval_terms check_scope make_body
    check_usd check_terms parse_usd_field equal_sellers check_limits build_cost_quote
    approve_cost_quote
program = tt

abbrev seller : Text
seller = codes "0xABCDEFABCDabcdefabcdABCDEFABCDabcdefabcd"

abbrev plan_hash : Text
plan_hash = codes "0x0123456789abcdef0123456789abcdef0123456789abcdef0123456789abcdef"

abbrev claim : Claim
claim = record {
  claim_id = [];
  claim_type = closed_loop;
  subjects = seller ∷ [];
  approved_buyers = [];
  approved_funders = [];
  wallet_a = none;
  wallet_b = none;
  metrics = none;
  dependency_root = [];
  leaf_hash = [];
  dependencies = [];
}

abbrev request : QuoteRequest
request = record {
  claims = claim ∷ [];
  proof_bundle_sha256 = [];
  proof_plan_sha256 = plan_hash;
  seller_proof_unit_usd = some (codes "1.5");
  max_price_per_pgu_wei = codes "070";
  proof_timeout_seconds = 60;
  auction_timeout_seconds = 5;
  provider = codes "p";
  expires_at = some 1000;
  seller = none;
}

abbrev digest : Body → Text
digest body = codes "0xD1"

abbrev quote : Quote
quote = record {
  body = record {
    provider = codes "p";
    expires_at = 1000;
    seller = none;
    seller_proofs = 1;
    terms = record {
      approval_mode = some usd_mode;
      currency = some (codes "USD");
      unit_max_cost_usd = some (codes "1.500000");
      aggregate_max_cost_usd = some (codes "1.500000");
    };
    max_price_per_pgu_wei = codes "70";
    proof_timeout_seconds = 60;
    auction_timeout_seconds = 5;
    proof_bundle_sha256 = [];
    proof_plan_sha256 = plan_hash;
  };
  digest = codes "0xD1";
}

built : build_cost_quote digest request 10 ≡ ok quote
unfolding program
built = refl

too_late : approve_cost_quote digest quote (codes "0xd1") 1 none 1000 ≡ throw expired
unfolding program
too_late = refl

-- A quote in the mode without dollars that claims them is refused.
mixed_terms :
    check_terms (record (quote.body.terms) { approval_mode = some network_mode }) 1
    ≡ throw must_not_claim_usd
unfolding program
mixed_terms = refl

approve_cost_quote-build_cost_quote_example :
    approve_cost_quote digest quote (codes "0xD1") 1 none 999 ≡ ok quote
unfolding normalize_optional
approve_cost_quote-build_cost_quote_example =
    approve_cost_quote-build_cost_quote digest request 10 999 quote none built (omega arith) refl
