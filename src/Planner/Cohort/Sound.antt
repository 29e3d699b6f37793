-- ===== src/Planner/Cohort/Sound.antt =====
-- What a strategy of `buildCohortStrategy` meets.
use loop_proof.Planner.Choosing.{options_for, target_return, choose_returns}
use loop_proof.Common.{
  ℕ, ◌*◌, ◌≤◌, ◌≡◌, ◌≢◌, refl, sym, subst, ◌∙◌, ap, inl, inr, arith, Outcome-cases, true, false,
  Option, some, get_or, List, [], ◌∷◌, ◌++◌, map, flat_map, Text, IsDistinct, set_of, add_all,
  Ordering, keys_by_text, ok, lookup,
}
use loop_proof.Policy.{alpha_fund_bps, basis_points}
use loop_proof.Evidence.{Atom, Evidence, Platform, atom}
use loop_proof.Returns.{path_keys, select_return_evidence}
use loop_proof.Returns.Selecting.{select_return_evidence-IsSelection}
use loop_proof.Planner.{sum_raw, cost_tuple}
use loop_proof.Planner.Capacity.{SettlementSelection}
use loop_proof.Planner.Closure.{Closure}
use loop_proof.Planner.Cohort.{
  Strategy, is_underfunded, returns_fit, conclude_strategy, build_cohort_strategy, latest_by_buyer,
  funding_before,
}
use loop_proof.Planner.Cohort.Built.{build_cohort_strategy-IsBuilt}
use loop_proof.Planner.Cohort.Checks.{
  choose_settlements-IsCounted, AreCovered, returns_fit-AreCovered,
}

-- A strategy that may be proved. Its volume is the sum of its settlements, of which there is at least
-- one, and the approved volume where there is one. No transfer is in two of its returns. Where it has
-- returns they are at most `MAX_RETURN_PATHS`, give the target share of the volume back, and all come
-- after the earliest settlement. Where the ledger is given the funding is the required share of the
-- volume.
pub record IsSound (platform : Platform) (approved : Option ℕ) (balances : Option (List (Text × ℕ)))
    (target : ℕ) (s : Strategy) : Type 0 where
  pub counted : s.volume_raw ≡ sum_raw s.settlements
  pub agrees : (volume : ℕ) → approved ≡ some volume → s.volume_raw ≡ volume
  pub filled : s.settlements ≢ []
  pub distinct : IsDistinct (flat_map path_keys s.closure.evidence)
  pub covered :
      s.closure.evidence ≢ []
      → AreCovered platform s.settlements s.closure.evidence s.volume_raw target
  pub funded :
      (ledger : List (Text × ℕ))
      → balances ≡ some ledger
      → s.volume_raw * alpha_fund_bps ≤ sum_raw s.funding * basis_points

selected-IsDistinct :
    (collate : Text → Text → Ordering) (candidates : List Evidence) (required : ℕ)
    → IsDistinct (
        flat_map path_keys
          (select_return_evidence collate candidates (options_for required)).evidence)
unfolding set_of add_all
selected-IsDistinct collate candidates required =
    let s = select_return_evidence-IsSelection collate candidates (options_for required) in
    subst (λ (keys : List Text). IsDistinct keys) s.used s.distinct

choose_returns-IsDistinct :
    (platform : Platform) (approved : Option ℕ) (target : ℕ) (closure kept : Closure)
    → choose_returns platform approved target closure ≡ ok (some kept)
    → IsDistinct (flat_map path_keys kept.evidence)
unfolding choose_returns
choose_returns-IsDistinct platform approved target closure kept h =
    by_evidence closure.evidence refl
  where
    by_evidence :
        (evidence : List Evidence)
        → closure.evidence ≡ evidence
        → IsDistinct (flat_map path_keys kept.evidence)
    by_evidence [] e =
        let same : kept.evidence ≡ [] = ground arith in
        subst (λ (xs : List Evidence). IsDistinct (flat_map path_keys xs)) (sym same) tt
    by_evidence (first ∷ rest) e =
        elim (Outcome-cases (target_return approved (first ∷ rest) target)) [
          | inl (required, f) ↦
              let same : kept.evidence
                  ≡ (select_return_evidence platform.collate (first ∷ rest)
                      (options_for required)).evidence =
                ground (arith, e, f) in
              subst (λ (xs : List Evidence). IsDistinct (flat_map path_keys xs)) (sym same)
                (selected-IsDistinct platform.collate (first ∷ rest) required)
          | inr (failure, f) ↦ absurd (ground (arith, e, f))
        ]

record IsConcluded (platform : Platform) (balances : Option (List (Text × ℕ))) (closure : Closure)
    (target : ℕ) (selection : SettlementSelection) (s : Strategy) : Type 0 where
  pub fits : returns_fit platform closure.evidence selection target ≡ true
  pub funded : is_underfunded platform balances s.funding s.volume_raw ≡ false
  pub closure_same : s.closure ≡ closure
  pub settlements_same : s.settlements ≡ selection.settlements
  pub volume_same : s.volume_raw ≡ selection.volume_raw

conclude_strategy-IsConcluded :
    (platform : Platform) (balances : Option (List (Text × ℕ)))
    (funding_by_buyer : List (Text × List Atom)) (closure : Closure) (target : ℕ)
    (selection : SettlementSelection) (s : Strategy)
    → conclude_strategy platform balances funding_by_buyer closure target selection ≡ ok (some s)
    → IsConcluded platform balances closure target selection s
unfolding conclude_strategy
conclude_strategy-IsConcluded platform balances funding_by_buyer closure target selection s h =
    elim (Outcome-cases (
      cost_tuple platform
        (closure.evidence ++ (map atom (funding) ++ map atom selection.settlements)))) [
          | inl (cost, e) ↦ record {
            fits = ground arith;
            funded = ground arith;
            closure_same = ground arith;
            settlements_same = ground arith;
            volume_same = ground arith;
          }
          | inr (failure, e) ↦ ground arith
        ]
  where
    funding : List Atom
    funding =
        flat_map
          (λ buyer.
            funding_before (latest_by_buyer platform [] selection.settlements) buyer
              (get_or (lookup buyer funding_by_buyer) []))
          selection.buyers

covered_by_fit :
    (platform : Platform) (target : ℕ) (s : Strategy) (selection : SettlementSelection)
    → s.settlements ≡ selection.settlements
    → s.volume_raw ≡ selection.volume_raw
    → returns_fit platform s.closure.evidence selection target ≡ true
    → s.closure.evidence ≢ []
    → AreCovered platform s.settlements s.closure.evidence s.volume_raw target
covered_by_fit platform target s selection same_settlements same_volume fits some_returns =
    by_evidence s.closure.evidence some_returns fits
  where
    by_evidence :
        (evidence : List Evidence)
        → evidence ≢ []
        → returns_fit platform evidence selection target ≡ true
        → AreCovered platform s.settlements evidence s.volume_raw target
    by_evidence [] n f = absurd (n refl)
    by_evidence (first ∷ rest) n f =
        subst (λ (volume : ℕ). AreCovered platform s.settlements (first ∷ rest) volume target)
          (sym same_volume)
          (subst
            (λ (xs : List Atom). AreCovered platform xs (first ∷ rest) selection.volume_raw target)
            (sym same_settlements) (returns_fit-AreCovered platform first rest selection target f))

-- Every strategy that `buildCohortStrategy` gives is sound, in the sense of `IsSound`, for the approved
-- volume, the ledger balances and the return target that it was given: its volume is the sum of its
-- settlements, of which there is one, and the approved volume where one is given; its returns share no
-- transfer and, where there are any, reach the target share of the volume and come after the earliest settlement; and with a ledger
-- the funding is the required share of the volume.
pub build_cohort_strategy-IsSound :
    (platform : Platform) (fundings settlements : List Atom) (closure : Closure)
    (approved : Option ℕ) (balances : Option (List (Text × ℕ))) (target : ℕ) (s : Strategy)
    → build_cohort_strategy platform fundings settlements closure approved balances target
      ≡ ok (some s)
    → IsSound platform approved balances target s
build_cohort_strategy-IsSound platform fundings settlements closure approved balances target s h =
    let b =
      build_cohort_strategy-IsBuilt platform fundings settlements closure approved balances target s
        h in
    let c =
      choose_settlements-IsCounted platform balances b.eligible b.funding_by_buyer b.kept.evidence
        approved target b.selection b.selected in
    let k =
      conclude_strategy-IsConcluded platform balances b.funding_by_buyer b.kept target b.selection s
        b.concluded in
    record {
      counted = k.volume_same ∙ c.counted ∙ ap sum_raw (sym k.settlements_same);
      agrees = λ volume e. k.volume_same ∙ c.agrees volume e;
      filled = λ e. c.filled (sym k.settlements_same ∙ e);
      distinct =
          subst (λ (x : Closure). IsDistinct (flat_map path_keys x.evidence)) (sym k.closure_same)
            (choose_returns-IsDistinct platform approved target b.closure b.kept b.returns);
      covered = λ some_returns.
          covered_by_fit platform target s b.selection k.settlements_same k.volume_same
            (subst (λ (x : Closure). returns_fit platform x.evidence b.selection target ≡ true)
              (sym k.closure_same) k.fits)
            some_returns;
      funded = λ ledger e. ground (arith, k.funded, e);
    }
