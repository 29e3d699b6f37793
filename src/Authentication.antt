-- ===== src/Authentication.antt =====
-- scripts/proof-planner.mjs: `resolveDependency`, which checks a dependency against the chain, with
-- `locateLog`, `validateLog` and `logMatches`; and `authenticateClaim`. The node behind the RPC is an
-- argument; the numbers of its answers are those that `BigInt` reads. An address that a dependency
-- does not give is undefined, and no address of a log equals it. The amount of a native funding is
-- `amount_raw`, in wei.
pub mod Resolving
pub mod Matching
pub mod Locating
pub mod Authentic
pub mod Splitting
use loop_proof.Common.{
  ℕ, zero, suc, ◌+◌, ◌-◌, ◌*◌, ltb, leb, ◌==◌, if◌then◌else◌, Bool, true, false, not, ◌&&◌, ◌||◌,
  Option, none, some, get_or, List, [], ◌∷◌, ◌++◌, map, every, length, take, drop, Text, codes,
  text_eq, to_lower_case, Outcome, ok, throw, throw_if, map_outcome, ◌>>=◌, ◌>>◌,
}
use loop_proof.Hex.{is_hex, is_hex_digit, hex_value_from}
use loop_proof.Returns.{is_safe_integer}
use loop_proof.Evidence.{
  EvidenceType, settlement, reciprocal_settlement, total_settlement, usdc_funding, native_funding,
  Atom, Hops, listed, named, Evidence, atom, relay_path,
}
use loop_proof.Planner
use loop_proof.Planner.{authentication_group}

pub data Failure : Type 0 where
  transport : Failure
  missing_transaction_hash receipt_not_found receipt_reverted outside_period : Failure
  predates_coverage : Planner.Failure → Failure
  unsafe_number : ℕ → Failure
  block_identity_mismatch : Failure
  transaction_not_found native_funding_mismatch : Failure
  unsupported_transaction_type : ℕ → Failure
  invalid_data : Text → Failure
  matching_logs : ℕ → Failure
  log_mismatch funding_not_positive signer_mismatch : Failure
  deposited_logs : ℕ → Failure
  deposited_before_transfer : Failure
  invalid_ledger_response : Text → Failure

pub record Log : Type 0 where
  pub address : Text
  pub topics : List Text
  pub log_data : Text
  pub log_index : ℕ

pub record Receipt : Type 0 where
  pub status : Option ℕ
  pub block_number : ℕ
  pub block_hash : Text
  pub transaction_index : ℕ
  pub logs : List Log

pub record Block : Type 0 where
  pub number : ℕ
  pub hash : Text
  pub timestamp : ℕ

pub record Transaction : Type 0 where
  pub type : Option ℕ
  pub from : Option Text
  pub to : Option Text
  pub value : ℕ

-- The calls of the node. `none` is the answer null.
pub record Node : Type 0 where
  pub receipt_of : Text → Outcome Failure (Option Receipt)
  pub block_at : ℕ → Outcome Failure (Option Block)
  pub transaction_of : Text → Outcome Failure (Option Transaction)

pub record Contracts : Type 0 where
  pub channels : Text
  pub usdc : Text
  pub deposits : Text

-- What `resolveDependency` adds to the dependency's own fields.
pub record Resolved : Type 0 where
  pub dependency : Atom
  pub receipt_log_index : Option ℕ
  pub deposit_receipt_log_index : Option ℕ
  pub transaction_type : Option ℕ
  pub value_wei : Option ℕ

abbrev pub transfer_topic : Text
transfer_topic = codes "0xddf252ad1be2c89b69c2b068fc378daa952ba7f163c4a11628f55a4df523b3ef"

abbrev pub channel_settled_topic : Text
channel_settled_topic = codes "0x0b287f37d8bd14ef37f2966734ab387c243cc1a1663616a25a4cc259877736b1"

abbrev pub deposited_topic : Text
deposited_topic = codes "0x2da466a7b24304f47e87fa2e1e5a81b9831ce54fec19055ce277ca2f39ba42c4"

-- `hexNumber`
unfoldable pub hex_number : ℕ → Outcome Failure ℕ
hex_number n = if is_safe_integer n then ok n else throw (unsafe_number n)

-- `topics[index]`, in small letters.
unfoldable pub topic : Log → ℕ → Option Text
unfolding to_lower_case
topic log index = elim (drop index log.topics) [
  | [] ↦ none
  | found ∷ rest ↦ some (to_lower_case found)
]

-- `topicAddress`: the last 40 digits.
unfoldable pub topic_address : Option Text → Option Text
unfolding to_lower_case
topic_address none = none
topic_address (some []) = none
topic_address (some (c ∷ rest)) =
    let text = c ∷ rest in some (codes "0x" ++ to_lower_case (drop (length text - 40) text))

-- An address of a log is the one that a dependency gives.
unfoldable pub is_the : Option Text → Option Text → Bool
unfolding text_eq
is_the (some found) (some wanted) = text_eq found wanted
is_the _ _ = false

-- `!wanted || found === wanted`: an empty text is no address.
unfoldable pub agrees : Option Text → Option Text → Bool
unfolding is_the
agrees found none = true
agrees found (some []) = true
agrees found (some (c ∷ rest)) = is_the found (some (c ∷ rest))

abbrev pub is_given : Option Text → Bool
is_given none = false
is_given (some []) = false
is_given (some (c ∷ rest)) = true

-- `normalize(left) === normalize(right)`, of two texts.
unfoldable pub same_address : Text → Text → Bool
unfolding text_eq to_lower_case
same_address left right = text_eq (to_lower_case left) (to_lower_case right)

-- `dataWord`: `BigInt` throws on a text that is no number.
unfoldable pub data_word : Text → ℕ → Outcome Failure ℕ
unfolding hex_value_from
data_word text index =
    let digits = take 64 (drop (2 + index * 64) text) in
    if (length digits == 0) || not (every is_hex_digit digits)
    then throw (invalid_data text)
    else ok (hex_value_from 0 digits)

abbrev pub is_settlement_type : EvidenceType → Bool
is_settlement_type settlement = true
is_settlement_type reciprocal_settlement = true
is_settlement_type total_settlement = true
is_settlement_type _ = false

abbrev pub is_usdc_funding : EvidenceType → Bool
is_usdc_funding usdc_funding = true
is_usdc_funding _ = false

abbrev pub is_native_funding : EvidenceType → Bool
is_native_funding native_funding = true
is_native_funding _ = false

-- The tests of `logMatches` before the amount, of a settlement and of a transfer.
unfoldable pub is_settled_between : Log → Atom → Contracts → Bool
unfolding same_address is_the topic topic_address
is_settled_between log dependency contracts =
    same_address log.address contracts.channels
    && (is_the (topic log 0) (some channel_settled_topic)
        && (is_the (topic_address (topic log 2)) dependency.buyer
            && is_the (topic_address (topic log 3)) dependency.seller))

unfoldable pub is_transfer_between : Log → Atom → Contracts → Bool
unfolding same_address is_the agrees topic topic_address to_lower_case
is_transfer_between log dependency contracts =
    let from = topic_address (topic log 1) in
    let to = topic_address (topic log 2) in
    same_address log.address contracts.usdc
    && (is_the (topic log 0) (some transfer_topic)
        && (agrees from dependency.from
            && (agrees to dependency.to
                && (not (is_given dependency.funder && is_given dependency.buyer)
                    || (is_the from dependency.funder
                        && (is_the to dependency.buyer
                            || is_the to (some (to_lower_case contracts.deposits))))))))

-- The amount is read only where the other tests hold.
unfoldable pub has_amount : Bool → Text → ℕ → ℕ → Outcome Failure Bool
unfolding data_word
has_amount false text index amount = ok false
has_amount true text index amount = do word ← data_word text index; ok (word == amount)

-- `logMatches`. A dependency always has an amount here, so the case of no amount, which matches any
-- transfer, does not arise.
unfoldable pub log_matches : Contracts → Atom → Log → Outcome Failure Bool
unfolding is_settled_between is_transfer_between has_amount
log_matches contracts dependency log =
    if is_settlement_type dependency.evidence_type
    then has_amount (is_settled_between log dependency contracts) log.log_data 1
        dependency.amount_raw
    else (if is_native_funding dependency.evidence_type
        then ok false
        else has_amount (is_transfer_between log dependency contracts) log.log_data 0
            dependency.amount_raw)

-- The first log with an index, with its place in the receipt.
unfoldable pub find_index : ℕ → ℕ → List Log → Outcome Failure (Option (ℕ × Log))
unfolding hex_number
find_index wanted place [] = ok none
find_index wanted place (log ∷ rest) = do
  number ← hex_number log.log_index
  elim (number == wanted) [
    | true ↦ ok (some (place, log))
    | false ↦ find_index wanted (suc place) rest
  ]

-- `logs.filter(test)` for a test that may throw, with the places.
unfoldable pub filter_logs :
    (Log → Outcome Failure Bool) → ℕ → List Log → Outcome Failure (List (ℕ × Log))
filter_logs test place [] = ok []
filter_logs test place (log ∷ rest) = do
  keep ← test log
  others ← filter_logs test (suc place) rest
  ok (if keep then (place, log) ∷ others else others)

-- The only log of a list.
unfoldable pub only_log : (ℕ → Failure) → List (ℕ × Log) → Outcome Failure (ℕ × Log)
only_log failure (found ∷ []) = ok found
only_log failure logs = throw (failure (length logs))

unfoldable pub only_match : Contracts → Atom → List Log → Outcome Failure (ℕ × Log)
unfolding filter_logs log_matches only_log
only_match contracts dependency logs = do
  matches ← filter_logs (log_matches contracts dependency) 0 logs
  only_log matching_logs matches

-- `locateLog`
unfoldable pub locate_log : Contracts → Atom → List Log → Outcome Failure (ℕ × Log)
unfolding find_index only_match
locate_log contracts dependency logs = elim dependency.log_index [
  | none ↦ only_match contracts dependency logs
  | some index ↦ do
    found ← find_index index 0 logs
    elim found [ some located ↦ ok located | none ↦ only_match contracts dependency logs ]
]

-- `locateLog` and `validateLog`
unfoldable pub matching_log : Contracts → Atom → List Log → Outcome Failure (ℕ × Log)
unfolding locate_log log_matches
matching_log contracts dependency logs = do
  located ← locate_log contracts dependency logs
  matches ← log_matches contracts dependency located.1
  throw_if (not matches) log_mismatch
  ok located
