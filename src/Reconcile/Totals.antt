-- ===== src/Reconcile/Totals.antt =====
-- The figures of the reconciled report: what its counts add up to.
use loop_proof.Common.{
  ℕ, ◌+◌, Ordering, ◌≡◌, ◌∙◌, refl, sym, ap, subst, inl, inr, arith, Bool-cases, Bool, true, false,
  List, [], ◌∷◌, filter, filter_eq_self, every, length, length-sort, sum_by, All, Text, codes,
  text_eq, text_eq_iff, keys_by_text, has, IsDistinct, lookup, ok, >>=-eq-ok, ok_injective,
  map_outcome, All-map_outcome, length-map_outcome, Option, none, some,
}
use loop_proof.Reconcile.{
  SellerProof, Candidate, Reconciled, ReconcileRequest, states, count_of, counts_of,
  is_investigated, candidates_of, reconciled, with_proof, normalize_address, result_of,
  result_order, reconcile_development_proof_results,
}
use loop_proof.Reconcile.Parts.{parts_of}

abbrev is_in : List Text → Candidate → Bool
is_in keys candidate = has candidate.state keys

-- A state that is not among others: its candidates and theirs are apart.
count_beside :
    (key : Text) (keys : List Text) (candidates : List Candidate)
    → has key keys ≡ false
    → count_of candidates key + length (filter (is_in keys) candidates)
      ≡ length (filter (is_in (key ∷ keys)) candidates)
unfolding count_of has
count_beside key keys [] absent = refl
count_beside key keys (candidate ∷ rest) absent = elim (Bool-cases (text_eq candidate.state key)) [
  | inl same ↦
      let out : has candidate.state keys ≡ false =
        ap (λ state. has state keys) ((text_eq_iff candidate.state key).0 same) ∙ absent in
      ground (arith, count_beside key keys rest absent)
  | inr other ↦ ground (arith, count_beside key keys rest absent)
]

none_in : (candidates : List Candidate) → length (filter (is_in []) candidates) ≡ 0
unfolding has
none_in [] = refl
none_in (candidate ∷ rest) = none_in rest

-- The candidates of some states are counted by the counts of these states.
sum-count_of :
    (keys : List Text) (candidates : List Candidate)
    → IsDistinct keys
    → sum_by (count_of candidates) keys ≡ length (filter (is_in keys) candidates)
unfolding has
sum-count_of [] candidates distinct = sym (none_in candidates)
sum-count_of (key ∷ keys) candidates (absent, distinct) =
    ap (λ n. count_of candidates key + n) (sum-count_of keys candidates distinct)
    ∙ count_beside key keys candidates absent

-- One of the states that are counted.
abbrev pub IsKnown : Candidate → Type 0
IsKnown candidate = has candidate.state states ≡ true

with_proof-IsKnown :
    (candidate : Candidate) (proof : Option SellerProof)
    → IsKnown candidate
    → IsKnown (with_proof candidate proof)
unfolding with_proof has text_eq
with_proof-IsKnown candidate none known = known
with_proof-IsKnown candidate (some proof) known =
    elim (Bool-cases (text_eq candidate.state (codes "proof_candidate"))) [
      | inl waiting ↦ rw (waiting, with_proof) refl
      | inr other ↦ rw (other, with_proof) known
    ]

reconciled-IsKnown :
    (proofs : List (Text × SellerProof)) (entries candidates : List Candidate)
    → map_outcome (reconciled proofs) entries ≡ ok candidates
    → All IsKnown entries
    → All IsKnown candidates
unfolding reconciled
reconciled-IsKnown proofs entries candidates done known =
    All-map_outcome (reconciled proofs)
      (λ candidate made from known_before.
        let (seller, address, same) = >>=-eq-ok (normalize_address candidate.seller) _ from in
        subst (λ (c : Candidate). IsKnown c) (ok_injective same)
          (with_proof-IsKnown candidate (lookup seller proofs) known_before))
      entries candidates done known

every_known :
    (candidates : List Candidate) → All IsKnown candidates → every (is_in states) candidates ≡ true
every_known [] known = refl
every_known (candidate ∷ rest) (known, others) = ground (arith, every_known rest others)

abbrev pub Adds : List Candidate → Reconciled → Type 0
Adds entries result =
    (sum_by (λ (count : Text × ℕ). count.1) result.counts ≡ length entries)
    × (result.report.investigated_seller_count
        ≡ count_of result.candidates (codes "complete_no_loop")
          + (count_of result.candidates (codes "predicate_rejected")
              + count_of result.candidates (codes "proof_validated")))
    × (length result.report.sellers ≡ result.report.investigated_seller_count)

-- Where reconcileDevelopmentProofResults returns and each candidate has one of the six states: the counts
-- add up to the candidates; the investigated sellers are as many as the candidates whose state is one of
-- complete_no_loop, predicate_rejected and proof_validated; and the report has a result for each.
pub reconcile_development_proof_results-totals :
    (locale_compare : Text → Text → Ordering) (request : ReconcileRequest)
    (entries : List Candidate) (result : Reconciled)
    → candidates_of request.discovery ≡ ok entries
    → All IsKnown entries
    → reconcile_development_proof_results locale_compare request ≡ ok result
    → Adds entries result
unfolding counts_of is_investigated
reconcile_development_proof_results-totals locale_compare request entries result read known done =
    let parts = parts_of locale_compare request result done in
    let same : parts.entries ≡ entries = ok_injective (sym parts.entries_read ∙ read) in
    let after =
      reconciled-IsKnown parts.gathered.proofs_by_seller parts.entries parts.candidates
        parts.entries_changed (rw same known) in
    let all =
      sum-count_of states parts.candidates (refl, (refl, (refl, (refl, (refl, (refl, tt))))))
      ∙ ap length
          (filter_eq_self (is_in states) parts.candidates (every_known parts.candidates after))
      ∙ length-map_outcome (reconciled parts.gathered.proofs_by_seller) parts.entries
          parts.candidates parts.entries_changed
      ∙ ap length same in
    let investigated =
      length-map_outcome (result_of parts.diagnostics) (filter is_investigated parts.candidates)
        parts.results parts.results_made in
    let divided =
      sum-count_of
        (codes "complete_no_loop" ∷ codes "predicate_rejected" ∷ codes "proof_validated" ∷ [])
        parts.candidates (refl, (refl, (refl, tt))) in
    subst (λ (r : Reconciled). Adds entries r) parts.result_made
      (
        all,
        omega (arith, investigated, divided),
        length-sort (result_order locale_compare) parts.results,
      )
