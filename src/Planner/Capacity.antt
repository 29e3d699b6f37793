-- ===== src/Planner/Capacity.antt =====
-- scripts/proof-planner.mjs: `selectWithinCapacity` and `selectApprovedSettlements`.
pub mod Greedy
use loop_proof.Common.{
  ℕ, ◌+◌, ltb, ◌==◌, if◌then◌else◌, Bool, true, false, not, Option, none, some, List, [], ◌∷◌, map,
  filter, any, Text, sort, unit_order, keys_by_text, has, set_of, has_key, Outcome, ok, throw,
  map_outcome, ◌>>=◌,
}
use loop_proof.Evidence.{Atom, Platform}
use loop_proof.Planner.{Failure, authentication_group, sum_raw, buyer_of, compare_atoms}

-- The loop: a settlement that does not fit any more is passed over.
unfoldable pub take_within : ℕ → ℕ → List Atom → List Atom
take_within capacity selected [] = []
take_within capacity selected (settlement ∷ rest) =
    elim (ltb capacity (selected + settlement.amount_raw)) [
      | true ↦ take_within capacity selected rest
      | false ↦ settlement ∷ take_within capacity (selected + settlement.amount_raw) rest
    ]

pub data OptimizationMode : Type 0 where
  exact_approved_evidence authenticated_ledger_capacity : OptimizationMode

-- The result of a selection of settlements; null is `none`.
pub record SettlementSelection : Type 0 where
  pub settlements : List Atom
  pub buyers : List Text
  pub volume_raw : ℕ
  pub optimization_mode : OptimizationMode

module _ (platform : Platform) where
  unfoldable pub select_within_capacity : List Atom → ℕ → List Atom
  unfolding take_within
  select_within_capacity settlements capacity =
      sort (compare_atoms platform)
        (take_within capacity 0 (sort (compare_atoms platform) settlements))

  -- The bound, where there is one.
  unfoldable pub within_maximum : Option ℕ → List Atom → List Atom
  unfolding select_within_capacity
  within_maximum none eligible = eligible
  within_maximum (some maximum) eligible = select_within_capacity eligible maximum

-- `[...new Set(selected.map((entry) => entry.buyer))].sort()`
unfoldable pub buyers_of : List Atom → List Text
unfolding set_of
buyers_of selected = sort unit_order (set_of (map buyer_of selected))

abbrev pub matches_approved : Option ℕ → ℕ → Bool
matches_approved none volume = true
matches_approved (some approved) volume = volume == approved

-- The checks with which both selections end: nothing selected, a required buyer that is missing, or
-- a volume that is not the approved one gives null.
unfoldable pub conclude :
    OptimizationMode → List Text → Option ℕ → List Atom → Option SettlementSelection
unfolding buyers_of has
conclude mode required_buyers approved [] = none
conclude mode required_buyers approved (first ∷ rest) =
    let selected = first ∷ rest in
    let buyers = buyers_of selected in
    let volume = sum_raw selected in
    if any (λ buyer. not (has buyer buyers)) required_buyers
    then none
    else if matches_approved approved volume
    then some (record {
      settlements = selected;
      buyers = buyers;
      volume_raw = volume;
      optimization_mode = mode;
    })
    else none

module _ (platform : Platform) where
  -- The funding of each buyer is a map from buyers.
  unfoldable pub select_approved_settlements :
      {V : Type 0}
      → List Atom
      → List (Text × V)
      → List (Option ℕ)
      → List Text
      → Option ℕ
      → Option ℕ
      → Outcome Failure (Option SettlementSelection)
  unfolding map_outcome authentication_group has_key within_maximum conclude
  select_approved_settlements settlements funding_by_buyer fixed_blocks required_buyers approved
        maximum =
      do
        _ ← map_outcome authentication_group fixed_blocks
        let eligible =
            sort (compare_atoms platform)
              (filter (λ entry. has_key (buyer_of entry) funding_by_buyer) settlements)
        ok (
            conclude exact_approved_evidence required_buyers approved
              (within_maximum platform maximum eligible))
