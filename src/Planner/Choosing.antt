-- ===== src/Planner/Choosing.antt =====
-- scripts/proof-planner.mjs: the returns and the settlements that `buildCohortStrategy` chooses.
use loop_proof.Common.{
  ℕ, if◌then◌else◌, Bool, false, not, Option, none, some, List, [], ◌∷◌, map, filter, flat_map,
  sum_by, Text, keys_by_text, Outcome, ok, throw, map_outcome, ◌>>=◌,
}
use loop_proof.Policy.{max_return_paths}
use loop_proof.Evidence.{
  direct_seller_buyer, Atom, Evidence, atom, relay_path, atomic_evidence, Platform,
}
use loop_proof.Returns
use loop_proof.Returns.{pos, return_path_credit_raw, required_return_raw, select_return_evidence}
use loop_proof.Planner.{Failure, invalid_return_volume, empty_path, buyer_of}
use loop_proof.Planner.Capacity.{SettlementSelection, select_approved_settlements}
use loop_proof.Planner.Ledger.{select_ledger_aware_settlements}
use loop_proof.Planner.Closure.{Closure, has_safe_block, return_settlement_capacity}

-- `requiredReturnRaw` of an amount, with the planner's failures.
unfoldable pub required_return : ℕ → ℕ → Outcome Failure ℕ
unfolding required_return_raw
required_return volume target = elim (required_return_raw (pos volume) (pos target)) [
  | ok r ↦ ok r
  | throw failure ↦ throw invalid_return_volume
]

-- `returnPathCreditRaw`, where the `reduce` of a path without hops throws.
unfoldable pub path_credit : Evidence → Outcome Failure ℕ
unfolding return_path_credit_raw
path_credit evidence = elim (return_path_credit_raw evidence) [
  | some amount ↦ ok amount
  | none ↦ throw empty_path
]

-- The amount that the returns are selected for.
unfoldable pub target_return : Option ℕ → List Evidence → ℕ → Outcome Failure ℕ
unfolding required_return path_credit
target_return none evidence target = do
  credits ← map_outcome path_credit evidence
  ok (sum_by (λ (amount : ℕ). amount) credits)
target_return (some approved) evidence target = required_return approved target

-- The options of the call of `selectReturnEvidence`: the others are the defaults.
abbrev pub options_for : ℕ → Returns.Options
options_for required = record {
  required_raw = required;
  earliest_settlement_timestamp = none;
  max_paths = max_return_paths;
  reserved_keys = [];
}

-- The blocks of the returns that are safe integers.
unfoldable pub fixed_blocks_of : List Evidence → List (Option ℕ)
fixed_blocks_of evidence =
    map (λ (entry : Atom). entry.block_number)
      (filter has_safe_block (flat_map atomic_evidence evidence))

-- The buyers that the seller paid directly.
unfoldable pub required_buyers_of : List Evidence → List Text
required_buyers_of [] = []
required_buyers_of (relay_path path ∷ rest) = required_buyers_of rest
required_buyers_of (atom entry ∷ rest) = elim entry.evidence_type [
  | direct_seller_buyer ↦ buyer_of entry ∷ required_buyers_of rest
  | _ ↦ required_buyers_of rest
]

module _ (platform : Platform) where
  -- `records[0]` of each buyer; a group is never empty.
  unfoldable pub earliest_of : List (Text × List Atom) → List (Text × Atom)
  earliest_of [] = []
  earliest_of ((buyer, []) ∷ rest) = earliest_of rest
  earliest_of ((buyer, first ∷ records) ∷ rest) = (buyer, first) ∷ earliest_of rest

  -- What is kept of the closure; null is `none`.
  unfoldable pub choose_returns : Option ℕ → ℕ → Closure → Outcome Failure (Option Closure)
  unfolding target_return select_return_evidence
  choose_returns approved target closure = elim closure.evidence [
    | [] ↦ ok (some closure)
    | first ∷ rest ↦ do
      required ← target_return approved (first ∷ rest) target
      let selected = select_return_evidence platform.collate (first ∷ rest) (options_for required)
      let incomplete : Bool = elim approved [
        | none ↦ false
        | some volume ↦ not (Returns.is_complete required selected)
      ]
      ok (if incomplete then none else some (record closure { evidence = selected.evidence }))
  ]

  unfoldable pub choose_settlements :
      Option (List (Text × ℕ))
      → List Atom
      → List (Text × List Atom)
      → List Evidence
      → Option ℕ
      → ℕ
      → Outcome Failure (Option SettlementSelection)
  unfolding select_ledger_aware_settlements select_approved_settlements
  choose_settlements balances eligible funding_by_buyer evidence approved target =
      let fixed_blocks = fixed_blocks_of evidence in
      let required_buyers = required_buyers_of evidence in
      let maximum = return_settlement_capacity evidence target in
      elim balances [
        | some ledger ↦
            select_ledger_aware_settlements platform eligible funding_by_buyer ledger fixed_blocks
              required_buyers approved maximum
        | none ↦
            select_approved_settlements platform eligible (earliest_of funding_by_buyer)
              fixed_blocks required_buyers approved maximum
      ]
