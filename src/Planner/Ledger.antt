-- ===== src/Planner/Ledger.antt =====
-- scripts/proof-planner.mjs: `selectLedgerAwareSettlements`.
pub mod Refining
mod Rounds
pub mod Buyers
use loop_proof.Common.{
  ℕ, zero, suc, ◌+◌, ◌-◌, ◌*◌, ◌/◌, ◌==◌, ltb, if◌then◌else◌, Bool, true, false, Ordering, Option,
  none, some, get_or, List, [], ◌∷◌, ◌++◌, map, filter, Text, codes, text_eq, join, sort, lookup,
  has_key, group_by, Outcome, ok, throw, map_outcome, ◌>>=◌, length,
}
use loop_proof.Policy.{epsilon_ledger_bps, basis_points}
use loop_proof.Evidence.{Atom, Platform}
use loop_proof.Planner.{
  Failure, missing_ledger_balance, authentication_group, sum_raw, id_of, buyer_of, compare_atoms,
}
use loop_proof.Planner.Capacity.{
  SettlementSelection, authenticated_ledger_capacity, select_within_capacity, within_maximum,
  conclude,
}

module _ (platform : Platform) where
  -- `compareEvidence(left, right) < 0`
  abbrev pub earlier : Atom → Atom → Bool
  earlier left right = elim (compare_atoms platform left right) [ Ordering.lt ↦ true | _ ↦ false ]

  -- The reduction to the latest settlement, from the first one.
  unfoldable pub latest : Atom → List Atom → Atom
  latest maximum [] = maximum
  latest maximum (entry ∷ rest) = latest (if earlier maximum entry then entry else maximum) rest

  -- What the buyer's balance at the end of the period leaves of the funding before a settlement.
  unfoldable pub available_raw : List Atom → ℕ → Atom → ℕ
  available_raw fundings balance_end last =
      let funded = sum_raw (filter (λ entry. earlier entry last) fundings) in
      let capacity = funded * (basis_points + epsilon_ledger_bps) / basis_points in
      if ltb balance_end capacity then capacity - balance_end else 0

  abbrev pub fingerprint : List Atom → Text
  fingerprint retained = join (codes ":") (map id_of retained)

  -- One round: what is retained of the settlements that are still eligible.
  unfoldable pub retain : List Atom → ℕ → Atom → List Atom → List Atom
  unfolding latest available_raw select_within_capacity
  retain fundings balance_end first rest =
      select_within_capacity platform (first ∷ rest)
        (available_raw fundings balance_end (latest first rest))

  abbrev pub is_previous : Text → Option Text → Bool
  is_previous print none = false
  is_previous print (some previous) = text_eq print previous

  -- `while (eligible.length > 0)`, with fuel; `none` means that the fuel ran out.
  unfoldable pub refine : ℕ → List Atom → ℕ → List Atom → Option Text → Option (List Atom)
  unfolding retain join text_eq
  refine fuel fundings balance_end [] previous = some []
  refine zero fundings balance_end (first ∷ rest) previous = none
  refine (suc fuel) fundings balance_end (first ∷ rest) previous =
      let retained = retain fundings balance_end first rest in
      let print = fingerprint retained in
      let again = refine fuel fundings balance_end retained (some print) in
      if is_previous print previous then some retained else again

  -- The settlements of one buyer. A round drops a settlement or is the last but one, so two more
  -- rounds than settlements are enough.
  unfoldable pub select_for_buyer :
      List (Text × List Atom) → List (Text × ℕ) → Text × List Atom → Outcome Failure (List Atom)
  unfolding refine lookup
  select_for_buyer funding_by_buyer balances (buyer, values) = elim (lookup buyer balances) [
    | none ↦ throw (missing_ledger_balance buyer)
    | some balance_end ↦
        let fundings = sort (compare_atoms platform) (get_or (lookup buyer funding_by_buyer) []) in
        let eligible = sort (compare_atoms platform) values in
        ok (get_or (refine (length values + 2) fundings balance_end eligible none) [])
  ]

  abbrev concat : List (List Atom) → List Atom
  concat [] = []
  concat (xs ∷ rest) = xs ++ concat rest

  unfoldable pub select_ledger_aware_settlements :
      List Atom
      → List (Text × List Atom)
      → List (Text × ℕ)
      → List (Option ℕ)
      → List Text
      → Option ℕ
      → Option ℕ
      → Outcome Failure (Option SettlementSelection)
  unfolding select_for_buyer map_outcome authentication_group has_key group_by within_maximum
      conclude
  select_ledger_aware_settlements settlements funding_by_buyer balances fixed_blocks required_buyers
        approved maximum =
      do
        _ ← map_outcome authentication_group fixed_blocks
        let groups =
            group_by buyer_of
              (filter (λ entry. has_key (buyer_of entry) funding_by_buyer) settlements)
        selected ← map_outcome (select_for_buyer funding_by_buyer balances) groups
        ok (
            conclude authenticated_ledger_capacity required_buyers approved
              (within_maximum platform maximum (sort (compare_atoms platform) (concat selected))))
