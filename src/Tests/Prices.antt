-- ===== src/Tests/Prices.antt =====
-- A quote that gets a new price.
use loop_proof.Common.{◌≡◌, refl, arith, false, none, some, ◌++◌, replicate, Text, codes, ok}
use loop_proof.Canary.{CanaryBody, CanaryQuote, canary_rpc, reprice_quote, check_base_fee}
use loop_proof.Canary.Repricing.{IsSubmittable, reprice_quote-IsSubmittable}

-- A digest that only shows the gas.
abbrev gas_of : CanaryBody → Text
gas_of body = body.prover_gas_units

abbrev approved : CanaryBody
approved = record {
  version = 1;
  kind = codes "frozen-seller-canary-approval";
  proof_count = 1;
  aip4_compliant = false;
  rpc = canary_rpc;
  requester = codes "0x" ++ replicate 40 97;
  generated_at = some 0;
  expires_at = some 10;
  prover_gas_units = codes "1000";
  max_price_per_pgu_wei = codes "5";
  quoted_base_fee_wei = codes "100";
  estimated_cost_wei = codes "5100";
  base_fee_buffer_bps = none;
  max_base_fee_wei = none;
  max_estimated_cost_wei = none;
  previous_quote_digest = none;
}

abbrev quote : CanaryQuote
quote = record { body = approved; digest = codes "1000" }

-- The base fee 201 with a buffer of 5% is 211.05, rounded up.
abbrev next : CanaryQuote
next = record {
  body = record approved {
    generated_at = some 20;
    expires_at = some 86400020;
    quoted_base_fee_wei = codes "201";
    estimated_cost_wei = codes "5201";
    base_fee_buffer_bps = some 500;
    max_base_fee_wei = some (codes "212");
    max_estimated_cost_wei = some (codes "5212");
    previous_quote_digest = some (codes "1000");
  };
  digest = codes "1000";
}

repriced_to : reprice_quote gas_of quote (codes "201") 20 500 ≡ ok next
unfolding reprice_quote
repriced_to = refl

accepted : check_base_fee next.body 212 false ≡ ok tt
unfolding check_base_fee
accepted = refl

reprice_quote-IsSubmittable_example : IsSubmittable gas_of next (codes "201") 500 212
reprice_quote-IsSubmittable_example =
    reprice_quote-IsSubmittable gas_of quote (codes "201") 20 500 next 500 212 repriced_to
      (omega arith) accepted
