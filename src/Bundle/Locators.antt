-- ===== src/Bundle/Locators.antt =====
-- scripts/proof-bundle.mjs: `locator`, `relayDependency` and `returnPathDependency`, as JSON values.
use loop_proof.Common.{
  ℕ, suc, ◌-◌, ◌==◌, if◌then◌else◌, Option, none, some, List, [], ◌∷◌, length, Text, codes,
  to_lower_case,
}
use loop_proof.Hex.{is_hex}
use loop_proof.Json.{
  Json, Fields, null, number, string, array, object, Items, no_items, item, no_fields, field,
}
use loop_proof.Returns.{is_safe_integer}

-- What a locator is made from. A hash may stand in `txHash` or in `transactionHash`.
pub record Source : Type 0 where
  pub tx_hash : Option Text
  pub transaction_hash : Option Text
  pub block_number : Option ℕ
  pub transaction_index : Option ℕ
  pub log_index : Option ℕ
  pub timestamp : Option ℕ

-- `numericOrNull`, of a number
unfoldable pub numeric_or_null : Option ℕ → Json
numeric_or_null none = null
numeric_or_null (some value) = if is_safe_integer value then number value else null

abbrev pub text_or_null : Option Text → Json
text_or_null none = null
text_or_null (some text) = string text

-- `normalizeAddress`
unfoldable pub address_or_null : Option Text → Json
unfolding is_hex to_lower_case
address_or_null none = null
address_or_null (some text) = if is_hex 40 text then string (to_lower_case text) else null

-- `source.txHash ?? source.transactionHash ?? null`
abbrev pub hash_of : Source → Json
hash_of source = elim source.tx_hash [
  | some hash ↦ string hash
  | none ↦ text_or_null source.transaction_hash
]

-- The parties of a transfer, which a locator ends with.
abbrev pub parties : Json → Json → Text → Fields
parties from to amount =
    field (codes "from") from
      (field (codes "to") to (field (codes "amountRaw") (string amount) no_fields))

-- `locator`: none of the further fields is one of the first six.
unfoldable pub locator : Text → Source → Fields → Json
unfolding numeric_or_null
locator kind source extra = object (
    field (codes "evidenceType") (string kind) (
      field (codes "blockNumber") (numeric_or_null source.block_number) (
        field (codes "transactionHash") (hash_of source) (
          field (codes "transactionIndex") (numeric_or_null source.transaction_index) (
            field (codes "logIndex") (numeric_or_null source.log_index)
              (field (codes "timestamp") (numeric_or_null source.timestamp) extra))))))

pub record ReturnHop : Type 0 where
  pub tx : Option Text
  pub block_number : Option ℕ
  pub transaction_index : Option ℕ
  pub log_index : Option ℕ
  pub timestamp : Option ℕ
  pub from : Text
  pub to : Text
  pub amount_raw : Text

-- The evidence type of the hop at an index, of so many.
unfoldable pub hop_type : ℕ → ℕ → Text
hop_type size index =
    if index == 0
    then codes "RELAY_SELLER_PAYMENT"
    else if index == size - 1
    then codes "RELAY_FUNDER_RECEIPT"
    else codes "RELAY_FORWARD"

unfoldable pub hop_locators : ℕ → ℕ → List ReturnHop → Items
unfolding hop_type locator
hop_locators size index [] = no_items
hop_locators size index (hop ∷ rest) =
    item
      (locator (hop_type size index)
        (record {
          tx_hash = none;
          transaction_hash = hop.tx;
          block_number = hop.block_number;
          transaction_index = hop.transaction_index;
          log_index = hop.log_index;
          timestamp = hop.timestamp;
        })
        (parties (string hop.from) (string hop.to) hop.amount_raw))
      (hop_locators size (suc index) rest)

-- `returnPathDependency`
unfoldable pub return_path_dependency : List ReturnHop → Text → Text → Fields
unfolding hop_locators
return_path_dependency hops seller funder =
    field (codes "evidenceType") (string (codes "RELAY_PATH")) (
      field (codes "seller") (string seller) (
        field (codes "funder") (string funder)
          (field (codes "hops") (array (hop_locators (length hops) 0 hops)) no_fields)))

-- One transfer of a relay path, of those that the path names.
pub record Leg : Type 0 where
  pub tx : Text
  pub log_index : Option ℕ
  pub timestamp : Option ℕ
  pub amount_raw : Text

pub record NamedPath : Type 0 where
  pub relay : Option Text
  pub intermediary : Option Text
  pub seller_payment : Leg
  pub relay_forward : Leg
  pub funder_receipt : Option Leg

unfoldable pub leg_locator : Text → Leg → Json → Json → Json
unfolding locator
leg_locator kind leg from to =
    locator kind
      (record {
        tx_hash = some leg.tx;
        transaction_hash = none;
        block_number = none;
        transaction_index = none;
        log_index = leg.log_index;
        timestamp = leg.timestamp;
      })
      (parties from to leg.amount_raw)

-- `if (path.funderReceiptTx != null) dependency.funderReceipt = ...`
unfoldable pub receipt_field : Option Leg → Json → Json → Fields
unfolding leg_locator
receipt_field none from to = no_fields
receipt_field (some leg) from to =
    field (codes "funderReceipt") (leg_locator (codes "RELAY_FUNDER_RECEIPT") leg from to) no_fields

-- `relayDependency`
unfoldable pub relay_dependency : NamedPath → Text → Text → Fields
unfolding address_or_null leg_locator receipt_field
relay_dependency path seller funder =
    let relay = address_or_null path.relay in
    let intermediary = address_or_null path.intermediary in
    field (codes "evidenceType") (string (codes "RELAY_PATH")) (
      field (codes "seller") (string seller) (
        field (codes "funder") (string funder) (
          field (codes "relay") relay (
            field (codes "intermediary") intermediary (
              field (codes "sellerPayment")
                (leg_locator (codes "RELAY_SELLER_PAYMENT") path.seller_payment (string seller)
                  relay)
                (field (codes "relayForward")
                  (leg_locator (codes "RELAY_FORWARD") path.relay_forward relay intermediary)
                  (receipt_field path.funder_receipt intermediary (string funder))))))))
