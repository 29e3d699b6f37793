-- ===== src/Tests/Chains.antt =====
-- The authentication of dependencies at a concrete node.
use loop_proof.Common.{
  ℕ, ◌+◌, ◌≡◌, refl, true, false, Option, none, some, [], ◌∷◌, ◌++◌, flat_map, length, Text, codes,
  text_eq, Outcome, ok,
}
use loop_proof.Claims.{Period, closed_loop, Claim}
use loop_proof.Evidence.{settlement, Atom, atom}
use loop_proof.Authentication.{
  Failure, Log, Receipt, Node, Contracts, Resolved, channel_settled_topic, receipt_not_found,
}
use loop_proof.Authentication.Resolving.{resolve_atom, resolved_atom}
use loop_proof.Authentication.Authentic.{IsAuthentic, resolve_atom-IsAuthentic}
use loop_proof.Authentication.Splitting.{
  Authenticated, confirmed, refused, HasBalances, authenticate_claim, authenticate_claim_splits,
}

abbrev zeros : Text
zeros = codes "000000000000000000000000000000000000000000000000000000000000"

abbrev address_of : Text → Text
address_of last = codes "0x000000000000000000000000000000000000" ++ last

abbrev log : Log
log = record {
  address = address_of (codes "cCcC");
  topics =
      channel_settled_topic
      ∷ codes "0x01"
      ∷ (codes "0x" ++ zeros ++ codes "00aA")
      ∷ (codes "0x" ++ zeros ++ codes "00bb")
      ∷ [];
  log_data = codes "0x" ++ zeros ++ codes "0001" ++ zeros ++ codes "0046";
  log_index = 5;
}

abbrev receipt : Receipt
receipt = record {
  status = some 1;
  block_number = 44470001;
  block_hash = [];
  transaction_index = 3;
  logs = record log { log_index = 4; topics = [] } ∷ log ∷ [];
}

abbrev receipts : Text → Outcome Failure (Option Receipt)
receipts hash = elim (text_eq hash (codes "0x01")) [ true ↦ ok (some receipt) | false ↦ ok none ]

abbrev node : Node
node = record {
  receipt_of = receipts;
  block_at = λ number. ok none;
  transaction_of = λ hash. ok none;
}

abbrev contracts : Contracts
contracts = record {
  channels = address_of (codes "CCCC");
  usdc = address_of (codes "dddd");
  deposits = address_of (codes "eeee");
}

abbrev period : Period
period = record { start_block = 44469557; end_block_exclusive = 44480000 }

abbrev dependency : Atom
dependency = record {
  evidence_type = settlement;
  dependency_id = some (codes "0x0d");
  transaction_hash = some (codes "0x01");
  block_number = none;
  transaction_index = none;
  log_index = none;
  timestamp = none;
  amount_raw = 70;
  from = none;
  to = none;
  buyer = some (address_of (codes "00aa"));
  seller = some (address_of (codes "00bb"));
  funder = none;
  deposit_log_index = none;
}

abbrev resolved : Resolved
resolved = record {
  dependency = record dependency {
    block_number = some 44470001;
    transaction_index = some 3;
    log_index = some 5;
  };
  receipt_log_index = some 1;
  deposit_receipt_log_index = none;
  transaction_type = none;
  value_wei = none;
}

resolve_atom-IsAuthentic_example : IsAuthentic node contracts period dependency resolved
unfolding resolve_atom
resolve_atom-IsAuthentic_example =
    resolve_atom-IsAuthentic node contracts period dependency resolved refl refl

-- A claim with a dependency on the chain and one that no receipt is found for.
abbrev missing : Atom
missing = record dependency { transaction_hash = some (codes "0x02") }

abbrev claim : Claim
claim = record {
  claim_id = codes "claim";
  claim_type = closed_loop;
  subjects = [];
  approved_buyers = address_of (codes "00aa") ∷ [];
  approved_funders = [];
  wallet_a = none;
  wallet_b = none;
  metrics = none;
  dependency_root = [];
  leaf_hash = [];
  dependencies = atom dependency ∷ atom missing ∷ [];
}

abbrev eth_call : Text → Text → ℕ → Outcome Failure (Option Text)
eth_call to input block = ok (some (codes "0x" ++ zeros ++ codes "0009"))

abbrev authenticated : Authenticated
authenticated = record {
  resolved = resolved_atom resolved ∷ [];
  rejected = (atom missing, receipt_not_found) ∷ [];
  ledger_balances = some ((address_of (codes "00aa"), 9) ∷ []);
}

authenticate_claim_splits_example :
    (authenticated.resolved
      ≡ flat_map (confirmed node contracts period eth_call) claim.dependencies)
    × (authenticated.rejected
        ≡ flat_map (refused node contracts period eth_call) claim.dependencies)
    × (length authenticated.resolved + length authenticated.rejected ≡ length claim.dependencies)
    × HasBalances node contracts period eth_call closed_loop claim.approved_buyers
        authenticated.ledger_balances
unfolding authenticate_claim
authenticate_claim_splits_example =
    authenticate_claim_splits node contracts period eth_call claim authenticated refl
