-- ===== src/Authentication/Authentic.antt =====
-- A dependency that `resolveDependency` accepts is on the chain.
use loop_proof.Common.{
  ℕ, if_true, if_false, ◌≤◌, ◌<◌, ◌==◌, ◌≡◌, refl, sym, ap, subst, ◌∙◌, ◌⊎◌, inl, inr, arith, leb,
  Bool-cases, Option-cases, true, false, Option, none, some, get_or, List, [], ◌∷◌, Text, ok,
  >>=-eq-ok, >>-eq-ok, passed, not_thrown, ok_injective, ==_iff,
}
use loop_proof.Claims.{Period}
use loop_proof.Evidence.{EvidenceType, Atom}
use loop_proof.Authentication.{
  deposited_logs, deposited_before_transfer, outside_period, receipt_reverted, Log, Receipt, Node,
  Contracts, Resolved, hex_number, is_settlement_type, is_native_funding, log_matches, filter_logs,
  only_log, matching_log,
}
use loop_proof.Authentication.Resolving.{
  group_of, check_funding, is_deposit, is_deposited, resolve_deposit, receipt_for, is_outside,
  block_time, resolve_log, resolve_atom,
}
use loop_proof.Authentication.Locating.{IsAt, matching_log-IsAt, hex_number-eq-ok}
use loop_proof.Authentication.Matching.{IsMatching, log_matches-IsMatching}

-- What an accepted log has to show: its receipt, its block, and the log in it that matches.
pub record IsAuthentic (node : Node) (contracts : Contracts) (period : Period) (dependency : Atom)
    (resolved : Resolved) : Type 0 where
  pub receipt : Receipt
  pub answered : node.receipt_of (get_or dependency.transaction_hash []) ≡ ok (some receipt)
  pub succeeded : receipt.status ≡ some 1
  pub at_block : resolved.dependency.block_number ≡ some receipt.block_number
  pub within_period :
      (is_settlement_type dependency.evidence_type ≡ false)
      ⊎ ((period.start_block ≤ receipt.block_number)
          × (receipt.block_number < period.end_block_exclusive))
  pub located : ℕ × Log
  pub at_place : resolved.receipt_log_index ≡ some located.0
  pub in_receipt : IsAt receipt.logs located
  pub matches : log_matches contracts dependency located.1 ≡ ok true
  pub shows : IsMatching contracts dependency located.1
  pub at_index : resolved.dependency.log_index ≡ some located.1.log_index
  pub same_amount : resolved.dependency.amount_raw ≡ dependency.amount_raw

module _ (node : Node) (contracts : Contracts) (period : Period) where
  receipt_for-eq-ok :
      (hash : Option Text) (receipt : Receipt)
      → receipt_for node contracts period hash ≡ ok receipt
      → (node.receipt_of (get_or hash []) ≡ ok (some receipt)) × (receipt.status ≡ some 1)
  unfolding receipt_for
  receipt_for-eq-ok none receipt h = absurd (cc)
  receipt_for-eq-ok (some []) receipt h = absurd (cc)
  receipt_for-eq-ok (some (c ∷ rest)) receipt h =
      let (answer, e, h1) = >>=-eq-ok (node.receipt_of (c ∷ rest)) _ h in
      elim (Option-cases answer) [
        | inl f ↦ let none_there = rw f at h1 in absurd (cc)
        | inr (found, f) ↦
            let h2 = rw f at h1 in
            elim (Option-cases found.status) [
              | inl g ↦ let reverted = rw g at h2 in absurd (cc)
              | inr (status, g) ↦
                  let (one, h3) = passed (status == 1) receipt_reverted _ (rw g at h2) in
                  let same : found ≡ receipt = ok_injective h3 in
                  (
                    e ∙ ap ok (f ∙ ap some same),
                    ap (λ (r : Receipt). r.status) (sym same)
                        ∙ g
                        ∙ ap some ((==_iff status 1).0 one),
                  )
            ]
      ]

  -- The deposit adds its own index and place only.
  resolve_deposit-keeps :
      (dependency : Atom) (logs : List Log) (found resolved : Resolved) (index : ℕ)
      → resolve_deposit node contracts period dependency logs found index ≡ ok resolved
      → (resolved.receipt_log_index ≡ found.receipt_log_index)
        × (resolved.dependency.log_index ≡ found.dependency.log_index)
        × (resolved.dependency.block_number ≡ found.dependency.block_number)
        × (resolved.dependency.amount_raw ≡ found.dependency.amount_raw)
  unfolding resolve_deposit
  resolve_deposit-keeps dependency logs found resolved index h =
      let (matches, e, h1) =
        >>=-eq-ok (filter_logs (is_deposit node contracts period dependency) 0 logs) _ h in
      let (deposited, f, h2) = >>=-eq-ok (only_log deposited_logs matches) _ h1 in
      let (number, g, h3) = >>=-eq-ok (hex_number deposited.1.log_index) _ h2 in
      let (late, h4) = not_thrown (leb number index) deposited_before_transfer _ h3 in
      let same = sym (ok_injective h4) in
      (
        ap (λ (r : Resolved). r.receipt_log_index) same,
        ap (λ (r : Resolved). r.dependency.log_index) same,
        ap (λ (r : Resolved). r.dependency.block_number) same,
        ap (λ (r : Resolved). r.dependency.amount_raw) same,
      )

  record IsLog (dependency base : Atom) (receipt : Receipt) (resolved : Resolved) : Type 0 where
    located : ℕ × Log
    at_place : resolved.receipt_log_index ≡ some located.0
    in_receipt : IsAt receipt.logs located
    matches : log_matches contracts dependency located.1 ≡ ok true
    at_index : resolved.dependency.log_index ≡ some located.1.log_index
    same_block : resolved.dependency.block_number ≡ base.block_number
    same_amount : resolved.dependency.amount_raw ≡ base.amount_raw

  resolve_log-IsLog :
      (dependency base : Atom) (receipt : Receipt) (resolved : Resolved)
      → resolve_log node contracts period dependency base receipt ≡ ok resolved
      → IsLog dependency base receipt resolved
  unfolding resolve_log
  resolve_log-IsLog dependency base receipt resolved h =
      let (located, e, h1) = >>=-eq-ok (matching_log contracts dependency receipt.logs) _ h in
      let (number, f, h2) = >>=-eq-ok (hex_number located.1.log_index) _ h1 in
      let (checked, h3) = >>-eq-ok (check_funding node contracts period dependency) _ h2 in
      let found : Resolved = record {
        dependency = record base { log_index = some number };
        receipt_log_index = some located.0;
        deposit_receipt_log_index = none;
        transaction_type = none;
        value_wei = none;
      } in
      let (in_receipt, matches) = matching_log-IsAt contracts dependency receipt.logs located e in
      let same_index : some number ≡ some located.1.log_index =
        ap some (sym (hex_number-eq-ok located.1.log_index f)) in
      elim (Bool-cases (is_deposited node contracts period dependency located.1)) [
        | inl deposit ↦
            let (place, index, block, amount) =
              resolve_deposit-keeps dependency receipt.logs found resolved number (
                sym (if_true (is_deposited node contracts period dependency located.1) _ _ deposit)
                ∙ h3) in
            record {
              located = located;
              at_place = place;
              in_receipt = in_receipt;
              matches = matches;
              at_index = index ∙ same_index;
              same_block = block;
              same_amount = amount;
            }
        | inr plain ↦
            let same : found ≡ resolved = ok_injective (
              sym (if_false (is_deposited node contracts period dependency located.1) _ _ plain)
              ∙ h3) in
            subst (IsLog dependency base receipt) same (record {
              located = located;
              at_place = refl;
              in_receipt = in_receipt;
              matches = matches;
              at_index = same_index;
              same_block = refl;
              same_amount = refl;
            })
      ]

  is_outside-false :
      (type : EvidenceType) (block : ℕ)
      → is_outside node contracts period type block ≡ false
      → (is_settlement_type type ≡ false)
        ⊎ ((period.start_block ≤ block) × (block < period.end_block_exclusive))
  is_outside-false type block h = elim (Bool-cases (is_settlement_type type)) [
    | inr other ↦ inl other
    | inl inside ↦ inr (ground (arith, inside, h))
  ]

  -- Where resolveDependency accepts a dependency that is not a native funding, the node has a receipt of
  -- its transaction that did not revert; the resolved dependency has the receipt's block, which is in
  -- the period for a settlement; and the log at its place in the receipt matches the dependency's
  -- type and shows its addresses and amount: for a settlement, a ChannelSettled event of the channels
  -- contract with the buyer, the seller and the amount; for a transfer, a Transfer event of the USDC
  -- contract with the amount, with the sender and the receiver where they are given, and with the funder
  -- and the buyer or the deposits contract where both are given. It has the index that the resolved dependency has.
  pub resolve_atom-IsAuthentic :
      (dependency : Atom) (resolved : Resolved)
      → is_native_funding dependency.evidence_type ≡ false
      → resolve_atom node contracts period dependency ≡ ok resolved
      → IsAuthentic node contracts period dependency resolved
  unfolding resolve_atom
  resolve_atom-IsAuthentic dependency resolved is_log h =
      let (receipt, e, h1) =
        >>=-eq-ok (receipt_for node contracts period dependency.transaction_hash) _ h in
      let (block, f, h2) = >>=-eq-ok (hex_number receipt.block_number) _ h1 in
      let (inside, h3) =
        not_thrown (is_outside node contracts period dependency.evidence_type block) outside_period
          _ h2 in
      let (covered, h4) = >>-eq-ok (group_of node contracts period block) _ h3 in
      let (index, g, h5) = >>=-eq-ok (hex_number receipt.transaction_index) _ h4 in
      let (time, i, h6) =
        >>=-eq-ok (block_time node contracts period dependency.timestamp receipt) _ h5 in
      let base : Atom = record dependency {
        block_number = some block;
        transaction_index = some index;
        timestamp = time;
      } in
      let (answered, succeeded) = receipt_for-eq-ok dependency.transaction_hash receipt e in
      let same_block = hex_number-eq-ok receipt.block_number f in
      let log =
        resolve_log-IsLog dependency base receipt resolved
          (sym (if_false (is_native_funding dependency.evidence_type) _ _ is_log) ∙ h6) in
      record {
        receipt = receipt;
        answered = answered;
        succeeded = succeeded;
        at_block = log.same_block ∙ ap some (sym same_block);
        within_period =
            is_outside-false dependency.evidence_type receipt.block_number
              (ap (is_outside node contracts period dependency.evidence_type) same_block ∙ inside);
        located = log.located;
        at_place = log.at_place;
        in_receipt = log.in_receipt;
        matches = log.matches;
        shows = log_matches-IsMatching contracts dependency log.located.1 log.matches;
        at_index = log.at_index;
        same_amount = log.same_amount;
      }
