-- ===== src/Tests/Samples.antt =====
-- Logs, paths and a platform for the tests.
use loop_proof.Common.{ℕ, List, [], ◌∷◌, none, some, Text, codes, unit_order}
use loop_proof.Evidence.{
  settlement, usdc_funding, direct_seller_funder, relay_seller_payment, Atom, RelayPath, listed,
  Platform,
}

abbrev pub log_at : ℕ → ℕ → Atom
log_at block amount = record {
  evidence_type = settlement;
  dependency_id = none;
  transaction_hash = none;
  block_number = some block;
  transaction_index = some 0;
  log_index = some 0;
  timestamp = some block;
  amount_raw = amount;
  from = none;
  to = none;
  buyer = none;
  seller = none;
  funder = none;
  deposit_log_index = none;
}

abbrev pub buyer_one : Text
buyer_one = codes "0xb1"

abbrev pub settlement_at : Text → ℕ → ℕ → Atom
settlement_at id block amount = record (log_at block amount) {
  dependency_id = some id;
  buyer = some buyer_one;
}

abbrev pub funding_at : Text → ℕ → ℕ → Atom
funding_at id block amount = record (settlement_at id block amount) { evidence_type = usdc_funding }

abbrev pub hop_at : ℕ → ℕ → Text → Text → Atom
hop_at block amount from to = record (log_at block amount) {
  evidence_type = relay_seller_payment;
  transaction_hash = some (codes "0xt");
  log_index = some block;
  from = some from;
  to = some to;
}

abbrev pub first_hop : Atom
first_hop = hop_at 44470000 1000 (codes "0xs") (codes "0xr")

abbrev pub second_hop : Atom
second_hop = hop_at 44470001 900 (codes "0xR") (codes "0xf")

abbrev pub relay_of : Text → List Atom → RelayPath
relay_of id hops = record {
  dependency_id = id;
  seller = some (codes "0xs");
  funder = some (codes "0xf");
  hops = listed hops;
}

abbrev pub relay : RelayPath
relay = relay_of (codes "c") (first_hop ∷ second_hop ∷ [])

abbrev pub direct : Atom
direct = record (log_at 44470005 500) {
  evidence_type = direct_seller_funder;
  dependency_id = some (codes "d");
  transaction_hash = some (codes "0xd");
  from = some (codes "0xs");
  to = some (codes "0xf");
  funder = some (codes "0xf");
}

-- A platform whose collation is the order of the code units.
abbrev pub plain : Platform
plain = record { collate = unit_order; stringify = λ evidence. [] }
