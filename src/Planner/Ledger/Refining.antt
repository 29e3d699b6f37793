-- ===== src/Planner/Ledger/Refining.antt =====
-- The loop of `selectLedgerAwareSettlements` for one buyer ends, and what it leaves fits the ledger.
use mathlib.Core.List.{Perm, append_assoc}
use mathlib.Core.List.Perm
use loop_proof.Common.{
  ℕ, zero, suc, ◌+◌, ◌*◌, ◌/◌, ◌≤◌, ◌≡◌, ◌≢◌, refl, sym, subst, ◌∙◌, inl, inr, arith, leb, leb→le,
  Bool-cases, List, [], ◌∷◌, ◌++◌, filter, length, IsSorted, IsComparator, Text, text_eq,
  text_eq_sound, text_eq_refl, true, false, Option, none, some,
}
use loop_proof.Policy.{epsilon_ledger_bps, basis_points}
use loop_proof.Evidence.{Atom, Platform}
use loop_proof.Planner.{sum_raw, compare_atoms}
use loop_proof.Planner.Capacity.Greedy.{select_within_capacity-le, select_within_capacity-perm}
use loop_proof.Planner.Ledger.{
  earlier, latest, available_raw, retain, fingerprint, is_previous, refine,
}
use loop_proof.Planner.Ledger.Rounds.{
  retain-IsSorted, length-retain-le, retain_full, retain_of_fingerprint,
}

module _ (platform : Platform) (fundings : List Atom) (balance_end : ℕ) where
  -- What is selected and what is left of the deposits at the end of the period are covered by the
  -- funding before the last selected settlement, with the tolerance of the ledger.
  abbrev pub IsWithinLedger : List Atom → Type 0
  IsWithinLedger [] = Unit
  IsWithinLedger (x ∷ xs) =
      sum_raw (x ∷ xs) ≢ 0
      → sum_raw (x ∷ xs) + balance_end
        ≤ sum_raw (filter (λ entry. earlier platform entry (latest platform x xs)) fundings)
          * (basis_points + epsilon_ledger_bps)
          / basis_points

  -- The result of the loop over some eligible settlements.
  pub record IsRefinement (eligible : List Atom) (result : Option (List Atom)) : Type 0 where
    pub chosen : List Atom
    pub found : result ≡ some chosen
    pub within : IsWithinLedger chosen
    pub dropped : List Atom
    pub same : Perm (chosen ++ dropped) eligible

  available_raw-le :
      (last : Atom) (total : ℕ)
      → total ≤ available_raw platform fundings balance_end last
      → total ≢ 0
      → total + balance_end
        ≤ sum_raw (filter (λ entry. earlier platform entry last) fundings)
          * (basis_points + epsilon_ledger_bps)
          / basis_points
  unfolding available_raw
  available_raw-le last total h positive = ground arith

  retain-le :
      (first : Atom) (rest : List Atom)
      → sum_raw (retain platform fundings balance_end first rest)
        ≤ available_raw platform fundings balance_end (latest platform first rest)
  unfolding retain
  retain-le first rest = select_within_capacity-le platform (first ∷ rest) _

  retain-perm :
      (first : Atom) (rest : List Atom)
      → (dropped : List Atom) × Perm
          (retain platform fundings balance_end first rest ++ dropped)
          (first ∷ rest)
  unfolding retain
  retain-perm first rest = select_within_capacity-perm platform (first ∷ rest) _

  refine_stop :
      (fuel : ℕ) (first : Atom) (rest : List Atom) (previous : Option Text)
      → is_previous platform
          (fingerprint platform (retain platform fundings balance_end first rest))
          previous
        ≡ true
      → refine platform (suc fuel) fundings balance_end (first ∷ rest) previous
        ≡ some (retain platform fundings balance_end first rest)
  unfolding refine
  refine_stop fuel first rest previous h = rw (h, refine)

  refine_go :
      (fuel : ℕ) (first : Atom) (rest : List Atom) (previous : Option Text)
      → is_previous platform
          (fingerprint platform (retain platform fundings balance_end first rest))
          previous
        ≡ false
      → refine platform (suc fuel) fundings balance_end (first ∷ rest) previous ≡ (
          let retained = retain platform fundings balance_end first rest in
          refine platform fuel fundings balance_end retained (some (fingerprint platform retained)))
  unfolding refine
  refine_go fuel first rest previous h = rw (h, refine)

  -- A later round's result, seen from the round before it.
  after_round :
      (first : Atom) (rest : List Atom) {result : Option (List Atom)}
      → IsRefinement (retain platform fundings balance_end first rest) result
      → IsRefinement (first ∷ rest) result
  after_round first rest r =
      let (dropped, p) = retain-perm first rest in
      record {
        chosen = r.chosen;
        found = r.found;
        within = r.within;
        dropped = r.dropped ++ dropped;
        same = rw (← append_assoc) (Perm.trans (Perm.append_right dropped r.same) p);
      }

  module _ (collation : IsComparator platform.collate) where
    -- A round that gives the fingerprint of its own settlements back has dropped none.
    stopped-IsWithinLedger :
        (first : Atom) (rest : List Atom) (retained : List Atom)
        → IsSorted (compare_atoms platform) (first ∷ rest)
        → retain platform fundings balance_end first rest ≡ retained
        → fingerprint platform retained ≡ fingerprint platform (first ∷ rest)
        → IsWithinLedger retained
    stopped-IsWithinLedger first rest [] sorted e same = tt
    stopped-IsWithinLedger first rest (x ∷ xs) sorted e same =
        let unchanged =
          retain_of_fingerprint platform collation fundings balance_end first rest sorted x xs e
            same in
        let total : sum_raw (first ∷ rest)
            ≤ available_raw platform fundings balance_end (latest platform first rest) =
          subst
            (λ l.
              sum_raw l ≤ available_raw platform fundings balance_end (latest platform first rest))
            (e ∙ unchanged) (retain-le first rest) in
        subst IsWithinLedger (sym unchanged)
          (available_raw-le (latest platform first rest) (sum_raw (first ∷ rest)) total)

    -- A round with another fingerprint has dropped a settlement.
    shorter :
        (first : Atom) (rest : List Atom)
        → IsSorted (compare_atoms platform) (first ∷ rest)
        → text_eq
            (fingerprint platform (retain platform fundings balance_end first rest))
            (fingerprint platform (first ∷ rest))
          ≡ false
        → length (retain platform fundings balance_end first rest) ≤ length rest
    shorter first rest sorted other =
        elim (Bool-cases
          (leb (length (retain platform fundings balance_end first rest)) (length rest))) [
            | inl less ↦ leb→le _ _ less
            | inr not_less ↦
                let same =
                  retain_full platform collation fundings balance_end first rest sorted
                    (ground arith) in
                let equal : text_eq
                      (fingerprint platform (retain platform fundings balance_end first rest))
                      (fingerprint platform (first ∷ rest))
                    ≡ true =
                  subst
                    (λ l.
                      text_eq (fingerprint platform l) (fingerprint platform (first ∷ rest)) ≡ true)
                    (sym same) (text_eq_refl (fingerprint platform (first ∷ rest))) in
                let clash : true ≡ false = sym equal ∙ other in cc
          ]

    refine_nil :
        (fuel : ℕ) (previous : Option Text)
        → refine platform fuel fundings balance_end [] previous ≡ some []
    unfolding refine
    refine_nil fuel previous = refl

    refine-IsRefinement :
        (fuel : ℕ) (eligible : List Atom)
        → IsSorted (compare_atoms platform) eligible
        → length eligible ≤ fuel
        → IsRefinement eligible (
            refine platform fuel fundings balance_end eligible
              (some (fingerprint platform eligible)))
    refine-IsRefinement fuel [] sorted enough = record {
      chosen = [];
      found = refine_nil fuel (some (fingerprint platform []));
      within = tt;
      dropped = [];
      same = Perm.rfl;
    }
    refine-IsRefinement zero (first ∷ rest) sorted enough = absurd (omega arith)
    refine-IsRefinement (suc fuel) (first ∷ rest) sorted enough =
        let retained = retain platform fundings balance_end first rest in
        let previous : Option Text = some (fingerprint platform (first ∷ rest)) in
        elim (Bool-cases (is_previous platform (fingerprint platform retained) previous)) [
          | inl stop ↦
              let (dropped, p) = retain-perm first rest in
              record {
                chosen = retained;
                found = refine_stop fuel first rest previous stop;
                within =
                    stopped-IsWithinLedger first rest retained sorted refl (text_eq_sound _ _ stop);
                dropped = dropped;
                same = p;
              }
          | inr go ↦
              subst (IsRefinement (first ∷ rest)) (sym (refine_go fuel first rest previous go)) (
                after_round first rest (
                  refine-IsRefinement fuel retained
                    (retain-IsSorted platform collation fundings balance_end first rest)
                    (omega (arith, shorter first rest sorted go))))
        ]

    -- From the start, two more rounds than settlements are enough.
    pub refine_start-IsRefinement :
        (eligible : List Atom)
        → IsSorted (compare_atoms platform) eligible
        → IsRefinement eligible
            (refine platform (length eligible + 2) fundings balance_end eligible none)
    refine_start-IsRefinement [] sorted = record {
      chosen = [];
      found = refine_nil _ none;
      within = tt;
      dropped = [];
      same = Perm.rfl;
    }
    refine_start-IsRefinement (first ∷ rest) sorted =
        let retained = retain platform fundings balance_end first rest in
        let fuel = length (first ∷ rest) + 1 in
        let fuel_eq : length (first ∷ rest) + 2 ≡ suc fuel = omega arith in
        subst
          (λ n.
            IsRefinement (first ∷ rest)
              (refine platform n fundings balance_end (first ∷ rest) none))
          (sym fuel_eq)
          (subst (IsRefinement (first ∷ rest)) (sym (refine_go fuel first rest none refl)) (
            after_round first rest (
              refine-IsRefinement fuel retained
                (retain-IsSorted platform collation fundings balance_end first rest)
                (omega (
                  arith,
                  length-retain-le platform collation fundings balance_end first rest sorted,
                )))))
