-- ===== src/Queue.antt =====
-- scripts/submit-frozen-seller-batch.mjs: `validateBatch` and `runQueue`, which submits the sellers of an
-- approved batch one after another and can be run again after a stop. Submitting a seller and checking
-- a completed artifact are arguments; so is the digest of a quote (SHA-256 of its JSON text). `persist`
-- writes the state to a file, and is the list of the states that were written.
pub mod Progress
pub mod Resuming
use loop_proof.Common.{
  ℕ, ◌==◌, if◌then◌else◌, Bool, true, false, not, ◌&&◌, ◌||◌, Option, none, some, List, [], ◌∷◌,
  ◌++◌, map, filter, find, every, length, Text, codes, text_eq, to_lower_case, keys_by_text, set_of,
  Outcome, ok, throw, throw_if, ◌>>=◌, ◌>>◌,
}
use loop_proof.Published.{is_lower_address}

pub record Entry : Type 0 where
  pub seller : Text
  pub label : Text
  pub quote_path : Text
  pub quote_digest : Text

pub record Body : Type 0 where
  pub version : ℕ
  pub kind : Text
  pub entries : List Entry
  pub proof_count : ℕ
  pub aip4_compliant : Bool
  pub concurrency : ℕ
  pub requester : Text

pub record Quote : Type 0 where
  pub body : Body
  pub digest : Text

pub data Failure : Type 0 where
  digest_approval_mismatch invalid_scope invalid_requester : Failure

abbrev pub seller_of : Entry → Text
seller_of entry = entry.seller

-- `validateBatch`
unfoldable pub validate_batch : (Body → Text) → Quote → Text → Outcome Failure (Unit {0})
unfolding text_eq set_of is_lower_address
validate_batch quote_digest quote approval = do
  throw_if
      (not (
        (quote.body.version == 1)
        && (text_eq quote.body.kind (codes "frozen-seller-batch-approval")
            && (text_eq quote.digest (quote_digest quote.body) && text_eq approval quote.digest))))
      digest_approval_mismatch
  throw_if
      ((length quote.body.entries == 0)
        || (not (quote.body.proof_count == length quote.body.entries)
            || (not (length (set_of (map seller_of quote.body.entries)) == quote.body.proof_count)
                || (quote.body.aip4_compliant || not (quote.body.concurrency == 1)))))
      invalid_scope
  throw_if (not (is_lower_address quote.body.requester)) invalid_requester

-- What submitting a seller gives.
pub record Submitted : Type 0 where
  pub complete : Bool
  pub production_proof_verified : Bool
  pub artifact : Text
  pub artifact_sha256 : Text

pub record Result : Type 0 where
  pub seller : Text
  pub label : Text
  pub submitted : Submitted

pub data Status : Type 0 where
  running complete paused_insufficient_funds needs_attention awaiting_approval : Status

-- The state that is persisted, without the fields that no step reads.
pub record State : Type 0 where
  pub is_complete : Bool
  pub status : Status
  pub current_seller : Option Text
  pub error : Option Text
  pub finished_at : Option Text
  pub results : List Result

-- How a run ended: the state, the states that were persisted, the sellers that were submitted, and
-- what `verifyCompleted` threw, which nothing catches.
pub record Ending : Type 0 where
  pub state : State
  pub persisted : List State
  pub submitted : List Text
  pub thrown : Option Text

unfoldable pub starts_with : Text → Text → Bool
starts_with [] text = true
starts_with (c ∷ rest) [] = false
starts_with (c ∷ rest) (d ∷ text) = (c == d) && starts_with rest text

unfoldable pub contains_text : Text → Text → Bool
unfolding starts_with
contains_text part [] = starts_with part []
contains_text part (c ∷ text) = starts_with part (c ∷ text) || contains_text part text

-- `/insufficient available PROVE|prover-network balance is zero/i.test(message)`
unfoldable pub is_out_of_funds : Text → Bool
unfolding contains_text to_lower_case
is_out_of_funds message =
    contains_text (codes "insufficient available prove") (to_lower_case message)
    || contains_text (codes "prover-network balance is zero") (to_lower_case message)

abbrev pub status_of : Text → Status
status_of message = if is_out_of_funds message then paused_insufficient_funds else needs_attention

-- `state.results.find(…)`: a completed result of the seller.
abbrev pub is_completed_by : Text → Result → Bool
is_completed_by seller result = text_eq result.seller seller && result.submitted.complete

unfoldable pub completed_result : Text → State → Option Result
unfolding text_eq
completed_result seller state = find (is_completed_by seller) state.results

-- The state at the start of a run.
abbrev pub started : State → State
started state = record state { is_complete = false; status = running; error = none }

abbrev pub working_on : Text → State → State
working_on seller state = record state { current_seller = some seller }

-- The results with those of the seller replaced by the new one.
unfoldable pub with_result : Entry → Submitted → State → State
unfolding text_eq
with_result entry submitted state = record state {
  results =
      filter (λ (item : Result). not (text_eq item.seller entry.seller)) state.results
      ++ record { seller = entry.seller; label = entry.label; submitted = submitted } ∷ [];
}

abbrev pub failed : Text → State → State
failed message state = record state { status = status_of message; error = some message }

abbrev pub finished : Text → State → State
finished now state = record state {
  is_complete = true;
  status = complete;
  current_seller = none;
  finished_at = some now;
}

-- `run(entry)` with the test of its result.
unfoldable pub run_verified : (Entry → Outcome Text Submitted) → Entry → Outcome Text Submitted
run_verified run entry = do
  submitted ← run entry
  throw_if (not submitted.complete || not submitted.production_proof_verified)
      (codes "seller proof did not verify")
  ok submitted

module _ (run : Entry → Outcome Text Submitted)
    (verify_completed : Result → Outcome Text (Unit {0})) (now : Text) where
  -- The loop, from what was persisted and submitted before.
  unfoldable pub queue_loop : List Entry → State → List State → List Text → Ending
  unfolding completed_result run_verified with_result is_out_of_funds
  queue_loop [] state persisted submitted = record {
    state = finished now state;
    persisted = persisted ++ finished now state ∷ [];
    submitted = submitted;
    thrown = none;
  }
  queue_loop (entry ∷ rest) state persisted submitted = elim (completed_result entry.seller state) [
    | some completed ↦ elim (verify_completed completed) [
      | ok done ↦ queue_loop rest state persisted submitted
      | throw message ↦ record {
        state = state;
        persisted = persisted;
        submitted = submitted;
        thrown = some message;
      }
    ]
    | none ↦
        let working = working_on entry.seller state in
        elim (run_verified run entry) [
          | ok result ↦
              let next = with_result entry result working in
              queue_loop rest next (persisted ++ working ∷ next ∷ [])
                (submitted ++ entry.seller ∷ [])
          | throw message ↦
              let stopped = failed message working in
              record {
                state = stopped;
                persisted = persisted ++ working ∷ stopped ∷ [];
                submitted = submitted ++ entry.seller ∷ [];
                thrown = none;
              }
        ]
  ]

  -- `runQueue`
  unfoldable pub run_queue : List Entry → State → Ending
  unfolding queue_loop
  run_queue entries state = queue_loop entries (started state) (started state ∷ []) []
