-- ===== src/Authentication/Locating.antt =====
-- scripts/proof-planner.mjs: the log that `locateLog` finds stands in the receipt.
use loop_proof.Common.{
  ℕ, suc, ◌+◌, ◌==◌, ◌≡◌, refl, sym, ap, subst, ◌∙◌, inl, inr, arith, Bool, Bool-cases,
  Option-cases, true, some, List, [], ◌∷◌, All, get_elem?, Outcome, ok, >>=-eq-ok, passed,
  ok_injective, All-map, some_injective,
}
use loop_proof.Evidence.{Atom}
use loop_proof.Authentication.{
  Failure, log_mismatch, Log, Contracts, hex_number, log_matches, find_index, filter_logs, only_log,
  only_match, locate_log, matching_log, matching_logs,
}

-- The log at a place of the logs.
abbrev pub IsAt : List Log → ℕ × Log → Type 0
IsAt logs (place, log) = get_elem? logs place ≡ some log

-- The same, of logs that stand behind some others.
record IsBehind (before : ℕ) (logs : List Log) (located : ℕ × Log) : Type 0 where
  offset : ℕ
  place : located.0 ≡ before + offset
  found : get_elem? logs offset ≡ some located.1

IsBehind-cons :
    (before : ℕ) (first : Log) (logs : List Log) (located : ℕ × Log)
    → IsBehind (suc before) logs located
    → IsBehind before (first ∷ logs) located
IsBehind-cons before first logs located b = record {
  offset = suc (b.offset);
  place = omega (arith, b.place);
  found = b.found;
}

find_index-IsBehind :
    (wanted before : ℕ) (logs : List Log) (located : ℕ × Log)
    → find_index wanted before logs ≡ ok (some located)
    → IsBehind before logs located
unfolding find_index
find_index-IsBehind wanted before [] located h = absurd (cc)
find_index-IsBehind wanted before (log ∷ rest) located h =
    let (number, e, h1) = >>=-eq-ok (hex_number log.log_index) _ h in
    elim (Bool-cases (number == wanted)) [
      | inl same ↦
          let found : (before, log) ≡ located = some_injective (ok_injective (rw same at h1)) in
          record {
            offset = 0;
            place = omega (arith, ap (λ (l : ℕ × Log). l.0) found);
            found = ap (λ (l : ℕ × Log). some l.1) found;
          }
      | inr other ↦
          IsBehind-cons before log rest located
            (find_index-IsBehind wanted (suc before) rest located (rw other at h1))
    ]

filter_logs-IsBehind :
    (test : Log → Outcome Failure Bool) (before : ℕ) (logs : List Log) (kept : List (ℕ × Log))
    → filter_logs test before logs ≡ ok kept
    → All (IsBehind before logs) kept
unfolding filter_logs
filter_logs-IsBehind test before [] kept h = subst (All (IsBehind before [])) (ok_injective h) tt
filter_logs-IsBehind test before (log ∷ rest) kept h =
    let (keep, e, h1) = >>=-eq-ok (test log) _ h in
    let (others, f, h2) = >>=-eq-ok (filter_logs test (suc before) rest) _ h1 in
    let behind =
      All-map (λ located. IsBehind-cons before log rest located) others
        (filter_logs-IsBehind test (suc before) rest others f) in
    let first : IsBehind before (log ∷ rest) (before, log) = record {
      offset = 0;
      place = omega arith;
      found = refl;
    } in
    subst (All (IsBehind before (log ∷ rest))) (ok_injective h2)
      (elim (Bool-cases keep) [ inl e ↦ rw e (first, behind) | inr e ↦ rw e behind ])

only_log-All :
    (P : ℕ × Log → Type 0) (failure : ℕ → Failure) (logs : List (ℕ × Log)) (located : ℕ × Log)
    → only_log failure logs ≡ ok located
    → All P logs
    → P located
unfolding only_log
only_log-All P failure [] located h all = absurd (cc)
only_log-All P failure (found ∷ []) located h all = subst P (ok_injective h) all.0
only_log-All P failure (first ∷ second ∷ rest) located h all = absurd (cc)

IsAt-IsBehind : (logs : List Log) (located : ℕ × Log) → IsBehind 0 logs located → IsAt logs located
IsAt-IsBehind logs located b =
    let same : located.0 ≡ b.offset = omega (arith, b.place) in
    ap (λ place. get_elem? logs place) same ∙ b.found

module _ (contracts : Contracts) (dependency : Atom) (logs : List Log) (located : ℕ × Log) where
  only_match-IsAt : only_match contracts dependency logs ≡ ok located → IsAt logs located
  unfolding only_match
  only_match-IsAt h =
      let (matches, e, h1) =
        >>=-eq-ok (filter_logs (log_matches contracts dependency) 0 logs) _ h in
      IsAt-IsBehind logs located (
        only_log-All (IsBehind 0 logs) matching_logs matches located h1
          (filter_logs-IsBehind (log_matches contracts dependency) 0 logs matches e))

  locate_log-IsAt : locate_log contracts dependency logs ≡ ok located → IsAt logs located
  unfolding locate_log
  locate_log-IsAt h = elim (Option-cases dependency.log_index) [
    | inl e ↦ only_match-IsAt (rw e at h)
    | inr (index, e) ↦
        let h1 = rw e at h in
        let (found, f, h2) = >>=-eq-ok (find_index index 0 logs) _ h1 in
        elim (Option-cases found) [
          | inl g ↦ only_match-IsAt (rw g at h2)
          | inr (at_index, g) ↦ IsAt-IsBehind logs located (
              find_index-IsBehind index 0 logs located
                (f ∙ ap ok (g ∙ ap some (ok_injective (rw g at h2)))))
        ]
  ]

  -- The log that is located stands in the receipt and matches the dependency.
  pub matching_log-IsAt :
      matching_log contracts dependency logs ≡ ok located
      → IsAt logs located × (log_matches contracts dependency located.1 ≡ ok true)
  unfolding matching_log
  matching_log-IsAt h =
      let (found, e, h1) = >>=-eq-ok (locate_log contracts dependency logs) _ h in
      let (matches, f, h2) = >>=-eq-ok (log_matches contracts dependency found.1) _ h1 in
      let (met, h3) = passed matches log_mismatch _ h2 in
      let same : found ≡ located = ok_injective h3 in
      (
        locate_log-IsAt (e ∙ ap ok same),
        ap (λ (l : ℕ × Log). log_matches contracts dependency l.1) (sym same) ∙ f ∙ ap ok met,
      )

pub hex_number-eq-ok : (n : ℕ) {m : ℕ} → hex_number n ≡ ok m → n ≡ m
unfolding hex_number
hex_number-eq-ok n h = ground (arith, h)
