-- ===== src/Authentication/Resolving.antt =====
-- `resolveDependency`, in the steps of its body.
use loop_proof.Common.{
  ℕ, ltb, leb, ◌==◌, if◌then◌else◌, Bool, true, false, not, ◌&&◌, ◌||◌, Option, none, some, List,
  [], ◌∷◌, Text, text_eq, to_lower_case, Outcome, ok, throw, throw_if, map_outcome, ◌>>=◌, ◌>>◌,
  get_or,
}
use loop_proof.Claims.{Period}
use loop_proof.Hex.{is_hex}
use loop_proof.Evidence.{EvidenceType, Atom, Evidence, atom, relay_path, RelayPath, hop_list}
use loop_proof.Planner.{authentication_group}
use loop_proof.Authentication.{
  Failure, missing_transaction_hash, receipt_not_found, receipt_reverted, outside_period,
  predates_coverage, block_identity_mismatch, transaction_not_found, native_funding_mismatch,
  unsupported_transaction_type, funding_not_positive, signer_mismatch, deposited_logs,
  deposited_before_transfer, Log, Receipt, Node, Contracts, Resolved, deposited_topic, hex_number,
  topic, topic_address, is_the, same_address, is_settlement_type, is_usdc_funding,
  is_native_funding, has_amount, filter_logs, only_log, matching_log,
}

-- `normalizeHash` of the planner: null for anything but 32 bytes.
unfoldable pub optional_hash : Text → Option Text
unfolding is_hex to_lower_case
optional_hash value = if is_hex 64 value then some (to_lower_case value) else none

unfoldable pub same_hash : Text → Text → Bool
unfolding optional_hash text_eq
same_hash left right = elim (optional_hash left) [
  | none ↦ elim (optional_hash right) [ none ↦ true | some r ↦ false ]
  | some l ↦ elim (optional_hash right) [ none ↦ false | some r ↦ text_eq l r ]
]

-- `normalize(found) === wanted`
unfoldable pub is_party : Option Text → Option Text → Bool
unfolding is_the to_lower_case
is_party none wanted = false
is_party (some found) wanted = is_the (some (to_lower_case found)) wanted

-- A resolved log or transaction, or a path with its resolved hops.
pub data ResolvedEvidence : Type 0 where
  resolved_atom : Resolved → ResolvedEvidence
  resolved_path : RelayPath → List Resolved → ResolvedEvidence

module _ (node : Node) (contracts : Contracts) (period : Period) where
  -- The receipt of a transaction that did not revert.
  unfoldable pub receipt_for : Option Text → Outcome Failure Receipt
  receipt_for none = throw missing_transaction_hash
  receipt_for (some []) = throw missing_transaction_hash
  receipt_for (some (c ∷ rest)) = do
    answer ← node.receipt_of (c ∷ rest)
    elim answer [
      | none ↦ throw receipt_not_found
      | some receipt ↦ elim receipt.status [
        | none ↦ throw receipt_reverted
        | some status ↦ do throw_if (not (status == 1)) receipt_reverted; ok receipt
      ]
    ]

  abbrev pub is_outside : EvidenceType → ℕ → Bool
  is_outside type block =
      is_settlement_type type
      && (ltb block period.start_block || leb period.end_block_exclusive block)

  abbrev pub group_of : ℕ → Outcome Failure (Unit {0})
  group_of block = elim (authentication_group (some block)) [
    | ok group ↦ ok tt
    | throw failure ↦ throw (predates_coverage failure)
  ]

  -- The time of the receipt's block, where the dependency has one.
  unfoldable pub block_time : Option ℕ → Receipt → Outcome Failure (Option ℕ)
  unfolding hex_number is_hex text_eq to_lower_case
  block_time none receipt = ok none
  block_time (some claimed) receipt = do
    answer ← node.block_at receipt.block_number
    elim answer [
      | none ↦ throw block_identity_mismatch
      | some block ↦ do
        number ← hex_number block.number
        throw_if
            (not (number == receipt.block_number) || not (same_hash block.hash receipt.block_hash))
            block_identity_mismatch
        time ← hex_number block.timestamp
        ok (some time)
    ]

  -- A native funding is checked against its transaction.
  unfoldable pub resolve_native : Atom → Outcome Failure Resolved
  unfolding hex_number is_party
  resolve_native resolved = do
    answer ← node.transaction_of (get_or resolved.transaction_hash [])
    elim answer [
      | none ↦ throw transaction_not_found
      | some transaction ↦ do
        type ← hex_number (get_or transaction.type 0)
        throw_if (ltb 2 type) (unsupported_transaction_type type)
        throw_if
            (not (is_party transaction.from resolved.funder)
              || (not (is_party transaction.to resolved.buyer)
                  || ((transaction.value == 0) || not (transaction.value == resolved.amount_raw))))
            native_funding_mismatch
        ok (record {
          dependency = resolved;
          receipt_log_index = none;
          deposit_receipt_log_index = none;
          transaction_type = some type;
          value_wei = some transaction.value;
        })
    ]

  -- The tests of a funding in USDC: its amount and, with a deposit, its signer.
  unfoldable pub check_funding : Atom → Outcome Failure (Unit {0})
  unfolding is_party
  check_funding dependency = elim (is_usdc_funding dependency.evidence_type) [
    | false ↦ ok tt
    | true ↦ do
      throw_if (dependency.amount_raw == 0) funding_not_positive
      elim dependency.deposit_log_index [
        | none ↦ ok tt
        | some index ↦ do
          answer ← node.transaction_of (get_or dependency.transaction_hash [])
          elim answer [
            | none ↦ throw signer_mismatch
            | some transaction ↦
                throw_if (not (is_party transaction.from dependency.funder)) signer_mismatch
          ]
      ]
  ]

  -- The log by which the deposits contract books the transfer.
  unfoldable pub is_deposit : Atom → Log → Outcome Failure Bool
  unfolding has_amount same_address is_the topic topic_address
  is_deposit dependency log =
      has_amount
        (same_address log.address contracts.deposits
          && (is_the (topic log 0) (some deposited_topic)
              && is_the (topic_address (topic log 1)) dependency.buyer))
        log.log_data 0 dependency.amount_raw

  -- A transfer to the deposits contract has one such log, behind it.
  unfoldable pub resolve_deposit : Atom → List Log → Resolved → ℕ → Outcome Failure Resolved
  unfolding filter_logs is_deposit only_log hex_number
  resolve_deposit dependency logs resolved log_index = do
    matches ← filter_logs (is_deposit dependency) 0 logs
    deposited ← only_log deposited_logs matches
    number ← hex_number deposited.1.log_index
    throw_if (leb number log_index) deposited_before_transfer
    ok (record resolved {
      dependency = record resolved.dependency { deposit_log_index = some number };
      deposit_receipt_log_index = some deposited.0;
    })

  abbrev pub is_deposited : Atom → Log → Bool
  is_deposited dependency log =
      is_usdc_funding dependency.evidence_type
      && is_the (topic_address (topic log 2)) (some (to_lower_case contracts.deposits))

  -- A dependency that is a log.
  unfoldable pub resolve_log : Atom → Atom → Receipt → Outcome Failure Resolved
  unfolding matching_log hex_number check_funding resolve_deposit is_the topic topic_address
      to_lower_case
  resolve_log dependency resolved receipt = do
    located ← matching_log contracts dependency receipt.logs
    number ← hex_number located.1.log_index
    let found : Resolved = record {
      dependency = record resolved { log_index = some number };
      receipt_log_index = some located.0;
      deposit_receipt_log_index = none;
      transaction_type = none;
      value_wei = none;
    }
    check_funding dependency
    (if is_deposited dependency located.1
        then resolve_deposit dependency receipt.logs found number
        else ok found)

  -- `resolveDependency` of a single log or transaction.
  unfoldable pub resolve_atom : Atom → Outcome Failure Resolved
  unfolding receipt_for hex_number authentication_group block_time resolve_native resolve_log
  resolve_atom dependency = do
    receipt ← receipt_for dependency.transaction_hash
    block ← hex_number receipt.block_number
    throw_if (is_outside dependency.evidence_type block) outside_period
    group_of block
    index ← hex_number receipt.transaction_index
    time ← block_time dependency.timestamp receipt
    let resolved : Atom = record dependency {
      block_number = some block;
      transaction_index = some index;
      timestamp = time;
    }
    (if is_native_funding dependency.evidence_type
        then resolve_native resolved
        else resolve_log dependency resolved receipt)

  -- `resolveDependency`: the hops of a path one by one.
  unfoldable pub resolve_dependency : Evidence → Outcome Failure ResolvedEvidence
  unfolding resolve_atom map_outcome
  resolve_dependency (atom dependency) = do
    resolved ← resolve_atom dependency
    ok (resolved_atom resolved)
  resolve_dependency (relay_path path) = do
    hops ← map_outcome resolve_atom (hop_list path.hops)
    ok (resolved_path path hops)
