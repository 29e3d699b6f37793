-- ===== src/Planner/Plans/Sound.antt =====
-- `planCohort`: the strategy that it chooses and the plan that it makes of it.
use loop_proof.Common.{
  ℕ, ◌≡◌, ap, subst, text_eq, get_elem?, keys_by_text, Bool, Option, none, some, List, [], ◌∷◌, All,
  All-append, All-sort, filter, Text, sort, ok, >>=-eq-ok, ok_injective,
}
use loop_proof.Claims.{Period, Claim}
use loop_proof.Evidence.{Atom, Evidence, Platform}
use loop_proof.Planner.Closure.{Closure, select_closure_for_funder}
use loop_proof.Planner.Cohort.{Strategy, build_cohort_strategy}
use loop_proof.Planner.Cohort.Sound.{IsSound, build_cohort_strategy-IsSound}
use loop_proof.Planner.Plans.{atoms_that, Plan, finalize_plan_claim}
use loop_proof.Planner.Plans.Volumes.{IsPlan, finalize_plan_claim-IsPlan}
use loop_proof.Planner.Plans.Cohorts.{
  is_approved_funding, is_approved_settlement, funder_of, strategy_with, approved_volume,
  planned_claim, planned_evidence, strategy_for, strategies_for, build_cohort_strategies,
  compare_strategies, plan_first, plan_cohort,
}

module _ (platform : Platform) (claim : Claim) (dependencies : List Evidence)
    (period : Option Period) (balances : Option (List (Text × ℕ))) (allow_ledger : Bool)
    (target : ℕ) where
  abbrev pub IsSoundHere : Strategy → Type 0
  IsSoundHere = IsSound platform (approved_volume allow_ledger claim) balances target

  strategy_with-IsSound :
      (funder : Text) (closure : Option Closure) (found : List Strategy)
      → strategy_with platform claim dependencies balances allow_ledger target funder closure
        ≡ ok found
      → All IsSoundHere found
  unfolding strategy_with
  strategy_with-IsSound funder none found h = rw (← ok_injective h) tt
  strategy_with-IsSound funder (some closure) found h =
      let fundings =
        filter (λ (entry : Atom). text_eq (funder_of entry) funder)
          (atoms_that (is_approved_funding claim) dependencies) in
      let settlements = atoms_that (is_approved_settlement claim) dependencies in
      let approved = approved_volume allow_ledger claim in
      let (candidate, e, f) =
        >>=-eq-ok
          (build_cohort_strategy platform fundings settlements closure approved balances target) _
          h in
      by_candidate fundings settlements approved candidate e (ok_injective f)
    where
      by_candidate :
          (fundings settlements : List Atom) (approved : Option ℕ) (candidate : Option Strategy)
          → build_cohort_strategy platform fundings settlements closure approved balances target
            ≡ ok candidate
          → ◌≡◌ {A = List Strategy}
              (elim candidate [ none ↦ [] | some strategy ↦ strategy ∷ [] ])
              found
          → All (IsSound platform approved balances target) found
      by_candidate fundings settlements approved none e f = rw (← f) tt
      by_candidate fundings settlements approved (some strategy) e f = rw (← f) (
        build_cohort_strategy-IsSound platform fundings settlements closure approved balances target
            strategy e,
        tt,
      )

  strategy_for-IsSound :
      (funder : Text) (found : List Strategy)
      → strategy_for platform claim dependencies period balances allow_ledger target funder
        ≡ ok found
      → All IsSoundHere found
  unfolding strategy_for
  strategy_for-IsSound funder found h =
      let (closure, e, f) =
        >>=-eq-ok
          (select_closure_for_funder platform dependencies funder (get_elem? claim.subjects 0)
            period)
          _ h in
      strategy_with-IsSound funder closure found f

  strategies_for-IsSound :
      (funders : List Text) (found : List Strategy)
      → strategies_for platform claim dependencies period balances allow_ledger target funders
        ≡ ok found
      → All IsSoundHere found
  unfolding strategies_for
  strategies_for-IsSound [] found h = rw (← ok_injective h) tt
  strategies_for-IsSound (funder ∷ rest) found h =
      let (first, e, f) =
        >>=-eq-ok
          (strategy_for platform claim dependencies period balances allow_ledger target funder) _
          h in
      let (others, g, k) =
        >>=-eq-ok
          (strategies_for platform claim dependencies period balances allow_ledger target rest) _
          f in
      rw (← ok_injective k) (
        All-append IsSoundHere first others (strategy_for-IsSound funder first e)
          (strategies_for-IsSound rest others g))

  -- The first of the sorted strategies, and the plan that is made of it.
  plan_first-IsPlan :
      (sorted : List Strategy) (s : Strategy) (plan : Plan)
      → All IsSoundHere sorted
      → plan_first platform claim dependencies allow_ledger sorted ≡ ok (s, plan)
      → IsSoundHere s × IsPlan (planned_claim allow_ledger claim s) plan
  unfolding plan_first
  plan_first-IsPlan [] s plan sound h = cc
  plan_first-IsPlan (first ∷ others) s plan sound h =
      let (made, e, f) =
        >>=-eq-ok
          (finalize_plan_claim platform (planned_claim allow_ledger claim first)
            (planned_evidence dependencies first))
          (λ plan. ok (first, plan)) h in
      let pair : (first, made) ≡ (s, plan) = ok_injective f in
      let same : first ≡ s = ap (λ (p : Strategy × Plan). p.0) pair in
      (
        subst IsSoundHere same sound.0,
        subst (λ (p : Strategy × Plan). IsPlan (planned_claim allow_ledger claim p.0) p.1) pair
            (finalize_plan_claim-IsPlan platform (planned_claim allow_ledger claim first)
              (planned_evidence dependencies first) made e),
      )

  -- Where `planCohort` gives a plan, the strategy that it chose is sound for the claim's approved
  -- volume, the ledger balances and the return target, and the plan is one of the claim, with the
  -- figures of the strategy where the ledger chooses the volume.
  pub plan_cohort-IsSound :
      (maximize : Bool) (s : Strategy) (plan : Plan)
      → plan_cohort platform claim dependencies period balances allow_ledger target maximize
        ≡ ok (s, plan)
      → IsSoundHere s × IsPlan (planned_claim allow_ledger claim s) plan
  unfolding plan_cohort build_cohort_strategies
  plan_cohort-IsSound maximize s plan h =
      let (candidates, e, f) =
        >>=-eq-ok
          (build_cohort_strategies platform claim dependencies period balances allow_ledger target)
          _ h in
      plan_first-IsPlan (sort (compare_strategies platform maximize) candidates) s plan
        (All-sort (compare_strategies platform maximize) IsSoundHere candidates
          (strategies_for-IsSound _ candidates e))
        f
