-- ===== src/Planner/Cohort/Built.antt =====
-- The steps that `buildCohortStrategy` has made where it gives a strategy.
use loop_proof.Planner.Choosing.{choose_returns, choose_settlements, earliest_of}
use loop_proof.Common.{
  ℕ, ◌≡◌, inl, inr, arith, ◌==◌, ◌||◌, Bool-cases, Option, none, some, List, filter, length, Text,
  keys_by_text, ok, >>=-eq-ok,
}
use loop_proof.Evidence.{Atom, Platform}
use loop_proof.Planner.Capacity.{SettlementSelection}
use loop_proof.Planner.Closure.{Closure}
use loop_proof.Planner.Cohort.{
  Strategy, conclude_strategy, plan_selection, plan_returns, build_cohort_strategy,
  funding_by_buyer_of, is_eligible,
}

-- What `buildCohortStrategy` has done where it gives a strategy.
pub record IsBuilt (platform : Platform) (approved : Option ℕ) (balances : Option (List (Text × ℕ)))
    (target : ℕ) (s : Strategy) : Type 0 where
  pub eligible : List Atom
  pub funding_by_buyer : List (Text × List Atom)
  pub closure : Closure
  pub kept : Closure
  pub selection : SettlementSelection
  pub returns : choose_returns platform approved target closure ≡ ok (some kept)
  pub selected :
      choose_settlements platform balances eligible funding_by_buyer kept.evidence approved target
      ≡ ok (some selection)
  pub concluded :
      conclude_strategy platform balances funding_by_buyer kept target selection ≡ ok (some s)

IsBuilt-of_selection :
    (platform : Platform) (closure kept : Closure) (eligible : List Atom)
    (funding_by_buyer : List (Text × List Atom)) (approved : Option ℕ)
    (balances : Option (List (Text × ℕ))) (target : ℕ) (s : Strategy)
    (selected : Option SettlementSelection)
    → choose_returns platform approved target closure ≡ ok (some kept)
    → choose_settlements platform balances eligible funding_by_buyer kept.evidence approved target
      ≡ ok selected
    → plan_selection platform balances funding_by_buyer kept target selected ≡ ok (some s)
    → IsBuilt platform approved balances target s
unfolding plan_selection
IsBuilt-of_selection platform closure kept eligible funding_by_buyer approved balances target s none
      e f g =
    cc
IsBuilt-of_selection platform closure kept eligible funding_by_buyer approved balances target s
      (some selection) e f g =
    record {
      eligible = eligible;
      funding_by_buyer = funding_by_buyer;
      closure = closure;
      kept = kept;
      selection = selection;
      returns = e;
      selected = f;
      concluded = g;
    }

IsBuilt-of_returns :
    (platform : Platform) (closure : Closure) (eligible : List Atom)
    (funding_by_buyer : List (Text × List Atom)) (approved : Option ℕ)
    (balances : Option (List (Text × ℕ))) (target : ℕ) (s : Strategy) (chosen : Option Closure)
    → choose_returns platform approved target closure ≡ ok chosen
    → plan_returns platform balances funding_by_buyer eligible approved target chosen ≡ ok (some s)
    → IsBuilt platform approved balances target s
unfolding plan_returns
IsBuilt-of_returns platform closure eligible funding_by_buyer approved balances target s none e f =
    cc
IsBuilt-of_returns platform closure eligible funding_by_buyer approved balances target s (some kept)
      e f =
    let (selected, g, h) =
      >>=-eq-ok
        (choose_settlements platform balances eligible funding_by_buyer kept.evidence approved
          target)
        (plan_selection platform balances funding_by_buyer kept target) f in
    IsBuilt-of_selection platform closure kept eligible funding_by_buyer approved balances target s
      selected e g h

pub build_cohort_strategy-IsBuilt :
    (platform : Platform) (fundings settlements : List Atom) (closure : Closure)
    (approved : Option ℕ) (balances : Option (List (Text × ℕ))) (target : ℕ) (s : Strategy)
    → build_cohort_strategy platform fundings settlements closure approved balances target
      ≡ ok (some s)
    → IsBuilt platform approved balances target s
unfolding build_cohort_strategy
build_cohort_strategy-IsBuilt platform fundings settlements closure approved balances target s h =
    let funding_by_buyer = funding_by_buyer_of platform fundings in
    let eligible = filter (is_eligible (earliest_of platform funding_by_buyer)) settlements in
    elim (Bool-cases (length funding_by_buyer == 0 || length eligible == 0)) [
      | inl empty ↦ absurd (ground (arith, empty))
      | inr found ↦
          let (chosen, e, f) =
            >>=-eq-ok (choose_returns platform approved target closure)
              (plan_returns platform balances funding_by_buyer eligible approved target)
              (rw (found, build_cohort_strategy) at h) in
          IsBuilt-of_returns platform closure eligible funding_by_buyer approved balances target s
            chosen e f
    ]
