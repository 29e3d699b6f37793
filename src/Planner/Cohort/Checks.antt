-- ===== src/Planner/Cohort/Checks.antt =====
-- What the checks of `buildCohortStrategy` mean for a selection and its returns.
use loop_proof.Planner.Choosing.{
  choose_settlements, earliest_of, fixed_blocks_of, required_buyers_of,
}
use loop_proof.Common.{
  ℕ, ◌*◌, ◌≤◌, ◌≡◌, ◌≢◌, refl, arith, Bool, true, false, Ordering, Ordering-cases, Option, none,
  some, List, [], ◌∷◌, filter, flat_map, length, sum_by, All, All_of_every, Text, sort,
  keys_by_text, ok, >>=-eq-ok, map_outcome, ok_injective, group_by, has_key,
}
use loop_proof.Policy.{basis_points, max_return_paths}
use loop_proof.Evidence.{Atom, Evidence, atomic_evidence, Platform}
use loop_proof.Returns.{credit}
use loop_proof.Planner.{authentication_group, buyer_of, sum_raw, compare_atoms}
use loop_proof.Planner.Capacity.{
  OptimizationMode, exact_approved_evidence, authenticated_ledger_capacity, SettlementSelection,
  conclude, select_approved_settlements,
}
use loop_proof.Planner.Ledger.{select_for_buyer, select_ledger_aware_settlements}
use loop_proof.Planner.Closure.{
  return_settlement_capacity, return_coverage_qualifies, closure_occurs_after_settlements,
}
use loop_proof.Planner.Cohort.{returns_fit}

-- A selection that the checks at the end let through.
pub record IsCounted (approved : Option ℕ) (selection : SettlementSelection) : Type 0 where
  pub counted : selection.volume_raw ≡ sum_raw selection.settlements
  pub agrees : (volume : ℕ) → approved ≡ some volume → selection.volume_raw ≡ volume
  pub filled : selection.settlements ≢ []

conclude-IsCounted :
    (mode : OptimizationMode) (required : List Text) (approved : Option ℕ) (selected : List Atom)
    (selection : SettlementSelection)
    → conclude mode required approved selected ≡ some selection
    → IsCounted approved selection
unfolding conclude
conclude-IsCounted mode required approved [] selection h = cc
conclude-IsCounted mode required approved (first ∷ rest) selection h = record {
  counted = ground arith;
  agrees = λ volume e. ground arith;
  filled = λ e. ground arith;
}

approved-IsCounted :
    (platform : Platform) {V : Type 0} (settlements : List Atom)
    (funding_by_buyer : List (Text × V)) (fixed : List (Option ℕ)) (required : List Text)
    (approved maximum : Option ℕ) (selection : SettlementSelection)
    → select_approved_settlements platform settlements funding_by_buyer fixed required approved
        maximum
      ≡ ok (some selection)
    → IsCounted approved selection
unfolding select_approved_settlements
approved-IsCounted platform settlements funding_by_buyer fixed required approved maximum selection
      h =
    let (u, e, f) = >>=-eq-ok (map_outcome authentication_group fixed) _ h in
    conclude-IsCounted exact_approved_evidence required approved _ selection (ok_injective f)

ledger_aware-IsCounted :
    (platform : Platform) (settlements : List Atom) (funding_by_buyer : List (Text × List Atom))
    (balances : List (Text × ℕ)) (fixed : List (Option ℕ)) (required : List Text)
    (approved maximum : Option ℕ) (selection : SettlementSelection)
    → select_ledger_aware_settlements platform settlements funding_by_buyer balances fixed required
        approved maximum
      ≡ ok (some selection)
    → IsCounted approved selection
unfolding select_ledger_aware_settlements
ledger_aware-IsCounted platform settlements funding_by_buyer balances fixed required approved
      maximum selection h =
    let (u, e, f) = >>=-eq-ok (map_outcome authentication_group fixed) _ h in
    let groups =
      group_by buyer_of (filter (λ entry. has_key (buyer_of entry) funding_by_buyer) settlements) in
    let (chosen, g, k) =
      >>=-eq-ok (map_outcome (select_for_buyer platform funding_by_buyer balances) groups) _ f in
    conclude-IsCounted authenticated_ledger_capacity required approved _ selection (ok_injective k)

-- What the tests of `buildCohortStrategy` mean for the settlements and the returns.
pub record AreCovered (platform : Platform) (settlements : List Atom) (evidence : List Evidence)
    (volume target : ℕ) : Type 0 where
  pub bounded : length evidence ≤ max_return_paths
  pub enough : volume * target ≤ sum_by credit evidence * basis_points
  pub earliest : Atom
  pub others : List Atom
  pub in_order : sort (compare_atoms platform) settlements ≡ earliest ∷ others
  pub after :
      All
        (λ entry. compare_atoms platform entry earliest ≡ Ordering.gt)
        (flat_map atomic_evidence evidence)

later_of_test :
    (platform : Platform) (entry earliest : Atom)
    → ◌≡◌ {A = Bool}
        (elim (compare_atoms platform entry earliest) [ Ordering.gt ↦ true | _ ↦ false ])
        true
    → compare_atoms platform entry earliest ≡ Ordering.gt
later_of_test platform entry earliest h =
    ground (arith, Ordering-cases (compare_atoms platform entry earliest))

earliest_settlement :
    (platform : Platform) (settlements : List Atom) (evidence : List Evidence)
    → closure_occurs_after_settlements platform settlements evidence ≡ true
    → (earliest : Atom) × (others : List Atom) × (sort (compare_atoms platform) settlements
        ≡ earliest ∷ others)
      × All
          (λ entry. compare_atoms platform entry earliest ≡ Ordering.gt)
          (flat_map atomic_evidence evidence)
unfolding closure_occurs_after_settlements
earliest_settlement platform settlements evidence h =
    by_order (sort (compare_atoms platform) settlements) refl
  where
    by_order :
        (sorted : List Atom)
        → sort (compare_atoms platform) settlements ≡ sorted
        → (earliest : Atom) × (others : List Atom) × (sort (compare_atoms platform) settlements
            ≡ earliest ∷ others)
          × All
              (λ entry. compare_atoms platform entry earliest ≡ Ordering.gt)
              (flat_map atomic_evidence evidence)
    by_order [] e = cc (rw (e, closure_occurs_after_settlements) at h)
    by_order (earliest ∷ others) e = (
      earliest,
      others,
      e,
      All_of_every _ _ (λ entry. later_of_test platform entry earliest) _
          (rw (e, closure_occurs_after_settlements) at h),
    )

pub returns_fit-AreCovered :
    (platform : Platform) (first : Evidence) (rest : List Evidence)
    (selection : SettlementSelection) (target : ℕ)
    → returns_fit platform (first ∷ rest) selection target ≡ true
    → AreCovered platform selection.settlements (first ∷ rest) selection.volume_raw target
unfolding returns_fit return_coverage_qualifies
returns_fit-AreCovered platform first rest selection target h =
    let (earliest, others, e, f) =
      earliest_settlement platform selection.settlements (first ∷ rest) (ground arith) in
    record {
      bounded = ground arith;
      enough = ground arith;
      earliest = earliest;
      others = others;
      in_order = e;
      after = f;
    }

pub choose_settlements-IsCounted :
    (platform : Platform) (balances : Option (List (Text × ℕ))) (eligible : List Atom)
    (funding_by_buyer : List (Text × List Atom)) (evidence : List Evidence) (approved : Option ℕ)
    (target : ℕ) (selection : SettlementSelection)
    → choose_settlements platform balances eligible funding_by_buyer evidence approved target
      ≡ ok (some selection)
    → IsCounted approved selection
unfolding choose_settlements
choose_settlements-IsCounted platform none eligible funding_by_buyer evidence approved target
      selection h =
    approved-IsCounted platform eligible (earliest_of platform funding_by_buyer)
      (fixed_blocks_of evidence) (required_buyers_of evidence) approved
      (return_settlement_capacity evidence target) selection h
choose_settlements-IsCounted platform (some ledger) eligible funding_by_buyer evidence approved
      target selection h =
    ledger_aware-IsCounted platform eligible funding_by_buyer ledger (fixed_blocks_of evidence)
      (required_buyers_of evidence) approved (return_settlement_capacity evidence target) selection
      h
