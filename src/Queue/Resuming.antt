-- ===== src/Queue/Resuming.antt =====
-- A queue that stops can be run again: nothing that is completed is lost or submitted again.
use loop_proof.Common.{
  ◌≡◌, refl, ◌⊎◌, inl, inr, arith, true, false, none, List, [], ◌∷◌, ◌++◌, All, All-append, All-map,
  Text, text_eq, text_eq_refl, text_eq_sound, keys_by_text, has, IsDistinct, IsDistinct-snoc,
  Outcome, ok, Bool-cases,
}
use loop_proof.Queue.{
  Entry, Submitted, Result, State, Ending, started, working_on, with_result, run_verified,
  run_queue,
}
use loop_proof.Queue.Progress.{
  has_completed, completed_result-none, completed_result-some, has_completed-with_result,
  run_verified-complete, Runs, done, resumed, changed, proved, stopped, queue_loop-Runs,
}

-- The state has a completed result of the seller, as a predicate of the one or of the other.
abbrev pub Has : Text → State → Type 0
Has seller state = has_completed seller state ≡ true

abbrev pub HasNo : State → Text → Type 0
HasNo state seller = has_completed seller state ≡ false

has_of_none :
    (state : State) (x : Text) (xs : List Text)
    → HasNo state x
    → All (λ y. Has y state) xs
    → has x xs ≡ false
unfolding has
has_of_none state x [] h all = refl
has_of_none state x (y ∷ ys) h all = elim (Bool-cases (text_eq x y)) [
  | inr other ↦ ground (arith, other, has_of_none state x ys h all.1)
  | inl same ↦
      let e : x ≡ y = text_eq_sound x y same in
      let clash : has_completed x state ≡ true = rw e all.0 in absurd (cc)
]

module _ (run : Entry → Outcome Text Submitted)
    (verify_completed : Result → Outcome Text (Unit {0})) (now : Text) where
  next_keeps :
      (seller : Text) (entry : Entry) (result : Submitted) (state : State)
      → run_verified run entry ≡ ok result
      → Has seller state
      → Has seller (with_result entry result (working_on entry.seller state))
  next_keeps seller entry result state f h = ground (
    arith,
    has_completed-with_result seller entry result (working_on entry.seller state)
        (run_verified-complete run entry result f),
    h,
  )

  next_has :
      (entry : Entry) (result : Submitted) (state : State)
      → run_verified run entry ≡ ok result
      → Has entry.seller (with_result entry result (working_on entry.seller state))
  next_has entry result state f = ground (
    arith,
    has_completed-with_result entry.seller entry result (working_on entry.seller state)
        (run_verified-complete run entry result f),
    text_eq_refl entry.seller,
  )

  persisted_keep :
      (seller : Text) {entries : List Entry} {state : State} {persisted : List State}
      {submitted : List Text} {ending : Ending}
      → Runs run verify_completed now entries state persisted submitted ending
      → Has seller state
      → All (Has seller) persisted
      → Has seller ending.state × All (Has seller) ending.persisted
  persisted_keep seller (done state persisted submitted) h kept =
      (h, All-append (Has seller) persisted _ kept (h, tt))
  persisted_keep seller (resumed entry rest state persisted submitted completed ending e f r) h
        kept =
      persisted_keep seller r h kept
  persisted_keep seller (changed entry rest state persisted submitted completed message e f) h
        kept =
      (h, kept)
  persisted_keep seller (proved entry rest state persisted submitted result ending e f r) h kept =
      let still = next_keeps seller entry result state f h in
      persisted_keep seller r still (All-append (Has seller) persisted _ kept (h, (still, tt)))
  persisted_keep seller (stopped entry rest state persisted submitted message e f) h kept =
      (h, All-append (Has seller) persisted _ kept (h, (h, tt)))

  final_keeps :
      (seller : Text) {entries : List Entry} {state : State} {persisted : List State}
      {submitted : List Text} {ending : Ending}
      → Runs run verify_completed now entries state persisted submitted ending
      → Has seller state
      → Has seller ending.state
  final_keeps seller (done state persisted submitted) h = h
  final_keeps seller (resumed entry rest state persisted submitted completed ending e f r) h =
      final_keeps seller r h
  final_keeps seller (changed entry rest state persisted submitted completed message e f) h = h
  final_keeps seller (proved entry rest state persisted submitted result ending e f r) h =
      final_keeps seller r (next_keeps seller entry result state f h)
  final_keeps seller (stopped entry rest state persisted submitted message e f) h = h

  -- All sellers are completed, or the state says that the run is not complete.
  final_is_complete :
      {entries : List Entry} {state : State} {persisted : List State} {submitted : List Text}
      {ending : Ending}
      → Runs run verify_completed now entries state persisted submitted ending
      → state.is_complete ≡ false
      → All (λ (entry : Entry). Has entry.seller ending.state) entries
        ⊎ (ending.state.is_complete ≡ false)
  unfolding with_result
  final_is_complete (done state persisted submitted) h = inl tt
  final_is_complete (resumed entry rest state persisted submitted completed ending e f r) h =
      elim (final_is_complete r h) [
        | inl all ↦
            inl (
              final_keeps entry.seller r (completed_result-some entry.seller state completed e),
              all,
            )
        | inr open_still ↦ inr open_still
      ]
  final_is_complete (changed entry rest state persisted submitted completed message e f) h = inr h
  final_is_complete (proved entry rest state persisted submitted result ending e f r) h =
      elim (final_is_complete r h) [
        | inl all ↦ inl (final_keeps entry.seller r (next_has entry result state f), all)
        | inr open_still ↦ inr open_still
      ]
  final_is_complete (stopped entry rest state persisted submitted message e f) h = inr h

  -- The loop's invariant on what was submitted since a state.
  record IsOnce (before state : State) (submitted : List Text) : Type 0 where
    distinct : IsDistinct submitted
    is_new : All (HasNo before) submitted
    completed : All (λ seller. Has seller state) submitted
    kept : (seller : Text) → Has seller before → Has seller state

  HasNo-of_before :
      (before state : State) (submitted : List Text) (seller : Text)
      → IsOnce before state submitted
      → HasNo state seller
      → HasNo before seller
  HasNo-of_before before state submitted seller once h =
      elim (Bool-cases (has_completed seller before)) [
        | inr other ↦ other
        | inl old ↦ let clash = once.kept seller old in absurd (cc)
      ]

  submitted_next :
      (before state : State) (submitted : List Text) (seller : Text)
      → IsOnce before state submitted
      → HasNo state seller
      → IsDistinct (submitted ++ seller ∷ []) × All (HasNo before) (submitted ++ seller ∷ [])
  submitted_next before state submitted seller once h = (
    IsDistinct-snoc seller submitted (has_of_none state seller submitted h once.completed)
        once.distinct,
    All-append (HasNo before) submitted (seller ∷ []) once.is_new
        (HasNo-of_before before state submitted seller once h, tt),
  )

  final_once :
      (before : State) {entries : List Entry} {state : State} {persisted : List State}
      {submitted : List Text} {ending : Ending}
      → Runs run verify_completed now entries state persisted submitted ending
      → IsOnce before state submitted
      → IsDistinct ending.submitted × All (HasNo before) ending.submitted
  final_once before (done state persisted submitted) once = (once.distinct, once.is_new)
  final_once before (resumed entry rest state persisted submitted completed ending e f r) once =
      final_once before r once
  final_once before (changed entry rest state persisted submitted completed message e f) once =
      (once.distinct, once.is_new)
  final_once before (proved entry rest state persisted submitted result ending e f r) once =
      let none_yet = completed_result-none entry.seller state e in
      let (distinct, fresh) = submitted_next before state submitted entry.seller once none_yet in
      final_once before r (record {
        distinct = distinct;
        is_new = fresh;
        completed =
            All-append _ submitted (entry.seller ∷ [])
              (All-map (λ seller h. next_keeps seller entry result state f h) submitted
                once.completed)
              (next_has entry result state f, tt);
        kept = λ seller h. next_keeps seller entry result state f (once.kept seller h);
      })
  final_once before (stopped entry rest state persisted submitted message e f) once =
      submitted_next before state submitted entry.seller once
        (completed_result-none entry.seller state e)

  final_completes :
      {entries : List Entry} {state : State} {persisted : List State} {submitted : List Text}
      {ending : Ending}
      → Runs run verify_completed now entries state persisted submitted ending
      → All (λ (entry : Entry). (result : Submitted) × (run_verified run entry ≡ ok result)) entries
      → ((result : Result) → verify_completed result ≡ ok tt)
      → (ending.state.is_complete ≡ true) × (ending.thrown ≡ none)
  final_completes (done state persisted submitted) runs checks = (refl, refl)
  final_completes (resumed entry rest state persisted submitted completed ending e f r) runs
        checks =
      final_completes r runs.1 checks
  final_completes (changed entry rest state persisted submitted completed message e f) runs checks =
      let clash = checks completed in absurd (cc)
  final_completes (proved entry rest state persisted submitted result ending e f r) runs checks =
      final_completes r runs.1 checks
  final_completes (stopped entry rest state persisted submitted message e f) ((result, g), more)
        checks =
      absurd (cc)

  -- A run of the queue submits no seller twice and none that the state had completed before; and in
  -- the state that it ends with, each entry's seller is completed, or the state is not complete.
  pub run_queue_submits_once :
      (entries : List Entry) (state : State)
      → let ending = run_queue run verify_completed now entries state in
        IsDistinct ending.submitted
        × All (HasNo state) ending.submitted
        × (All (λ (entry : Entry). Has entry.seller ending.state) entries
            ⊎ (ending.state.is_complete ≡ false))
  unfolding run_queue
  run_queue_submits_once entries state =
      let runs =
        queue_loop-Runs run verify_completed now entries (started state) (started state ∷ []) [] in
      let (distinct, fresh) =
        final_once state runs
          (record { distinct = tt; is_new = tt; completed = tt; kept = λ seller h. h }) in
      (distinct, fresh, final_is_complete runs refl)

  -- A seller that is completed before a run of the queue is completed in the state that it ends with
  -- and in every state that it persists.
  pub run_queue_keeps :
      (entries : List Entry) (state : State) (seller : Text)
      → Has seller state
      → let ending = run_queue run verify_completed now entries state in
        Has seller ending.state × All (Has seller) ending.persisted
  unfolding run_queue
  run_queue_keeps entries state seller h =
      persisted_keep seller
        (queue_loop-Runs run verify_completed now entries (started state) (started state ∷ []) []) h
        (h, tt)

  -- Where submitting succeeds with a verified proof for each entry, and no completed artifact has
  -- changed, a run of the queue ends complete with each entry's seller completed, and throws nothing.
  pub run_queue_completes :
      (entries : List Entry) (state : State)
      → All (λ (entry : Entry). (result : Submitted) × (run_verified run entry ≡ ok result)) entries
      → ((result : Result) → verify_completed result ≡ ok tt)
      → let ending = run_queue run verify_completed now entries state in
        (ending.state.is_complete ≡ true)
        × (ending.thrown ≡ none)
        × All (λ (entry : Entry). Has entry.seller ending.state) entries
  unfolding run_queue
  run_queue_completes entries state runs checks =
      let turns =
        queue_loop-Runs run verify_completed now entries (started state) (started state ∷ []) [] in
      let (complete, quiet) = final_completes turns runs checks in
      (
        complete,
        quiet,
        elim (final_is_complete turns refl) [ inl all ↦ all | inr open_still ↦ absurd (cc) ],
      )
