-- ===== src/Tests/Queues.antt =====
-- Runs of the queue at concrete inputs.
use loop_proof.Common.{
  ◌≡◌, refl, ◌⊎◌, true, false, none, some, List, [], ◌∷◌, All, Text, codes, text_eq, IsDistinct,
  keys_by_text, Outcome, ok, throw,
}
use loop_proof.Queue.{
  Entry, Submitted, Result, State, paused_insufficient_funds, run_verified, run_queue,
}
use loop_proof.Queue.Resuming.{
  Has, HasNo, run_queue_submits_once, run_queue_keeps, run_queue_completes,
}

abbrev entry_of : Text → Entry
entry_of seller = record { seller = seller; label = seller; quote_path = []; quote_digest = [] }

abbrev entries : List Entry
entries = entry_of (codes "0xaa") ∷ entry_of (codes "0xbb") ∷ entry_of (codes "0xcc") ∷ []

abbrev verified : Submitted
verified = record {
  complete = true;
  production_proof_verified = true;
  artifact = codes "seller.json";
  artifact_sha256 = [];
}

-- A state after a stop: the first seller is completed.
abbrev resumable : State
resumable = record {
  is_complete = false;
  status = paused_insufficient_funds;
  current_seller = some (codes "0xbb");
  error = some (codes "insufficient available PROVE");
  finished_at = none;
  results = record { seller = codes "0xaa"; label = codes "0xaa"; submitted = verified } ∷ [];
}

abbrev succeeds : Entry → Outcome Text Submitted
succeeds entry = ok verified

-- Submitting stops at the third seller.
abbrev runs_dry : Entry → Outcome Text Submitted
runs_dry entry = elim (text_eq entry.seller (codes "0xcc")) [
  | true ↦ throw (codes "prover-network balance is zero")
  | false ↦ ok verified
]

abbrev unchanged : Result → Outcome Text (Unit {0})
unchanged result = ok tt

runs_dry_pauses :
    ((run_queue runs_dry unchanged (codes "now") entries resumable).submitted
      ≡ codes "0xbb" ∷ codes "0xcc" ∷ [])
    × ((run_queue runs_dry unchanged (codes "now") entries resumable).state.status
        ≡ paused_insufficient_funds)
unfolding run_queue text_eq
runs_dry_pauses = (refl, refl)

run_queue_submits_once_example :
    let ending = run_queue runs_dry unchanged (codes "now") entries resumable in
    IsDistinct ending.submitted
    × All (HasNo resumable) ending.submitted
    × (All (λ (entry : Entry). Has entry.seller ending.state) entries
        ⊎ (ending.state.is_complete ≡ false))
run_queue_submits_once_example =
    run_queue_submits_once runs_dry unchanged (codes "now") entries resumable

run_queue_keeps_example :
    let ending = run_queue runs_dry unchanged (codes "now") entries resumable in
    Has (codes "0xaa") ending.state × All (Has (codes "0xaa")) ending.persisted
unfolding text_eq
run_queue_keeps_example =
    run_queue_keeps runs_dry unchanged (codes "now") entries resumable (codes "0xaa") refl

run_queue_completes_example :
    let ending = run_queue succeeds unchanged (codes "now") entries resumable in
    (ending.state.is_complete ≡ true)
    × (ending.thrown ≡ none)
    × All (λ (entry : Entry). Has entry.seller ending.state) entries
unfolding run_verified
run_queue_completes_example =
    run_queue_completes succeeds unchanged (codes "now") entries resumable
      ((verified, refl), ((verified, refl), ((verified, refl), tt))) (λ result. refl)
