-- ===== src/Queue/Progress.antt =====
-- The results of a run of the queue: what is completed stays so, and all is when the run is complete.
use loop_proof.Common.{
  ◌≡◌, refl, sym, ap, ◌∙◌, inl, inr, arith, Bool, Bool-cases, Option-cases, true, false, not, ◌||◌,
  none, some, List, [], ◌∷◌, ◌++◌, filter, find, any, Text, codes, text_eq, text_eq_sound, Outcome,
  Outcome-cases, ok, throw, >>=-eq-ok, not_thrown, ok_injective,
}
use loop_proof.Queue.{
  Entry, Submitted, Result, State, Ending, is_completed_by, completed_result, working_on,
  with_result, failed, finished, run_verified, queue_loop,
}

-- The state has a completed result of the seller.
abbrev pub has_completed : Text → State → Bool
has_completed seller state = any (is_completed_by seller) state.results

any-find {ℓ} : {A : Type ℓ} (p : A → Bool) (xs : List A) → find p xs ≡ none → any p xs ≡ false
any-find p [] h = refl
any-find p (x ∷ xs) h = ground (arith, any-find p xs)

any-find-some {ℓ} :
    {A : Type ℓ} (p : A → Bool) (xs : List A) (x : A) → find p xs ≡ some x → any p xs ≡ true
any-find-some p [] x h = absurd (cc)
any-find-some p (y ∷ xs) x h = ground (arith, h, any-find-some p xs x)

pub completed_result-none :
    (seller : Text) (state : State)
    → completed_result seller state ≡ none
    → has_completed seller state ≡ false
unfolding completed_result
completed_result-none seller state h = any-find (is_completed_by seller) state.results h

pub completed_result-some :
    (seller : Text) (state : State) (result : Result)
    → completed_result seller state ≡ some result
    → has_completed seller state ≡ true
unfolding completed_result
completed_result-some seller state result h =
    any-find-some (is_completed_by seller) state.results result h

-- The new result is found, and those of the other sellers stay.
any-replaced :
    (seller : Text) (entry : Entry) (last : Result) (results : List Result)
    → last.seller ≡ entry.seller
    → last.submitted.complete ≡ true
    → any
        (is_completed_by seller)
        (filter (λ (item : Result). not (text_eq item.seller entry.seller)) results ++ last ∷ [])
      ≡ (text_eq entry.seller seller || any (is_completed_by seller) results)
any-replaced seller entry last [] e f = rw (e, f) (ground arith)
any-replaced seller entry last (item ∷ rest) e f =
    elim (Bool-cases (text_eq item.seller entry.seller)) [
      | inl same ↦
          let equal =
            ap (λ (t : Text). text_eq t seller) (text_eq_sound item.seller entry.seller same) in
          rw same (any-replaced seller entry last rest e f ∙ ground (arith, equal))
      | inr other ↦ rw other (ground (arith, any-replaced seller entry last rest e f))
    ]

pub has_completed-with_result :
    (seller : Text) (entry : Entry) (submitted : Submitted) (state : State)
    → submitted.complete ≡ true
    → has_completed seller (with_result entry submitted state)
      ≡ (text_eq entry.seller seller || has_completed seller state)
unfolding with_result
has_completed-with_result seller entry submitted state f =
    any-replaced seller entry
      (record { seller = entry.seller; label = entry.label; submitted = submitted }) state.results
      refl f

pub run_verified-complete :
    (run : Entry → Outcome Text Submitted) (entry : Entry) (submitted : Submitted)
    → run_verified run entry ≡ ok submitted
    → submitted.complete ≡ true
unfolding run_verified
run_verified-complete run entry submitted h =
    let (s, e, h1) = >>=-eq-ok (run entry) _ h in
    let (test, h2) =
      not_thrown (not s.complete || not s.production_proof_verified)
        (codes "seller proof did not verify") _ h1 in
    ap (λ (x : Submitted). x.complete) (sym (ok_injective h2)) ∙ ground (arith, test)

module _ (run : Entry → Outcome Text Submitted)
    (verify_completed : Result → Outcome Text (Unit {0})) (now : Text) where
  -- The turns of the loop, up to its ending.
  pub data Runs : List Entry → State → List State → List Text → Ending → Type 0 where
    done :
        (state : State) (persisted : List State) (submitted : List Text)
        → Runs [] state persisted submitted (record {
          state = finished now state;
          persisted = persisted ++ finished now state ∷ [];
          submitted = submitted;
          thrown = none;
        })
    resumed :
        (entry : Entry) (rest : List Entry) (state : State) (persisted : List State)
        (submitted : List Text) (completed : Result) (ending : Ending)
        → completed_result entry.seller state ≡ some completed
        → verify_completed completed ≡ ok tt
        → Runs rest state persisted submitted ending
        → Runs (entry ∷ rest) state persisted submitted ending
    changed :
        (entry : Entry) (rest : List Entry) (state : State) (persisted : List State)
        (submitted : List Text) (completed : Result) (message : Text)
        → completed_result entry.seller state ≡ some completed
        → verify_completed completed ≡ throw message
        → Runs (entry ∷ rest) state persisted submitted (record {
          state = state;
          persisted = persisted;
          submitted = submitted;
          thrown = some message;
        })
    proved :
        (entry : Entry) (rest : List Entry) (state : State) (persisted : List State)
        (submitted : List Text) (result : Submitted) (ending : Ending)
        → completed_result entry.seller state ≡ none
        → run_verified run entry ≡ ok result
        → Runs rest
            (with_result entry result (working_on entry.seller state))
            (persisted
              ++ working_on entry.seller state
                ∷ with_result entry result (working_on entry.seller state)
                ∷ [])
            (submitted ++ entry.seller ∷ [])
            ending
        → Runs (entry ∷ rest) state persisted submitted ending
    stopped :
        (entry : Entry) (rest : List Entry) (state : State) (persisted : List State)
        (submitted : List Text) (message : Text)
        → completed_result entry.seller state ≡ none
        → run_verified run entry ≡ throw message
        → Runs (entry ∷ rest) state persisted submitted (record {
          state = failed message (working_on entry.seller state);
          persisted =
              persisted
              ++ working_on entry.seller state
                ∷ failed message (working_on entry.seller state)
                ∷ [];
          submitted = submitted ++ entry.seller ∷ [];
          thrown = none;
        })

  pub queue_loop-Runs :
      (entries : List Entry) (state : State) (persisted : List State) (submitted : List Text)
      → Runs entries state persisted submitted
          (queue_loop run verify_completed now entries state persisted submitted)
  unfolding queue_loop
  queue_loop-Runs [] state persisted submitted = done state persisted submitted
  queue_loop-Runs (entry ∷ rest) state persisted submitted =
      elim (Option-cases (completed_result entry.seller state)) [
        | inr (completed, e) ↦ elim (Outcome-cases (verify_completed completed)) [
          | inl (unit, f) ↦
              rw (e, f, queue_loop)
                (resumed entry rest state persisted submitted completed _ e f
                  (queue_loop-Runs rest state persisted submitted))
          | inr (message, f) ↦
              rw (e, f, queue_loop)
                (changed entry rest state persisted submitted completed message e f)
        ]
        | inl e ↦ elim (Outcome-cases (run_verified run entry)) [
          | inl (result, f) ↦
              rw (e, f, queue_loop)
                (proved entry rest state persisted submitted result _ e f
                  (queue_loop-Runs rest _ _ _))
          | inr (message, f) ↦
              rw (e, f, queue_loop) (stopped entry rest state persisted submitted message e f)
        ]
      ]
