-- ===== src/FixedVolume/AtLeast.antt =====
-- What `selectFixedVolumeReturns` gives: never less than the baseline.
use loop_proof.Common.{
  ℕ, any, has, and_true, ◌-◌, ◌≤◌, ◌≡◌, refl, sym, ◌∙◌, ◌↔◌, inl, inr, arith, leb, ◌==◌, Bool-cases,
  true, Ordering, some, List, [], ◌∷◌, ◌++◌, map, filter, every, flat_map, length, length-append,
  length-map, sum_by, sum_by-append, All, All-append, All-sort, All-filter, All_of_every,
  every-filter, Text, keys_by_text, ok, >>=-eq-ok, passed, ok_injective, ==_iff, subst,
}
use loop_proof.Policy.{max_return_paths}
use loop_proof.Evidence.{Evidence, atomic_evidence}
use loop_proof.Returns.{
  Selection, consider, select_loop, is_done, Options, credit, path_keys, required_return_raw,
  valid_return_evidence, valid_candidates, no_paths, select_return_evidence, is_complete,
}
use loop_proof.Returns.Selecting.{select_return_evidence-IsSelection}
use loop_proof.FixedVolume.Scoped.{IsScopedPath, is_valid_path-IsScopedPath}
use loop_proof.FixedVolume.{
  baseline_mismatch, invalid_baseline, amount, Request, Scope, FixedVolume, ReturnPath, Chosen,
  is_valid_path, hop_key, return_path, augmented, reselected, better, is_whole_baseline,
  select_fixed_volume_returns,
}

abbrev pub credit_of : ReturnPath → ℕ
credit_of path = path.credit_raw

-- What holds of both ways to choose.
record IsChosen (scope : Scope) (chosen : Chosen) : Type 0 where
  counted : chosen.returned_raw ≡ sum_by credit chosen.evidence
  bounded : length chosen.evidence ≤ max_return_paths
  in_scope : All (IsScopedPath scope) chosen.evidence

sum-map-return_path :
    (paths : List Evidence) → sum_by credit_of (map return_path paths) ≡ sum_by credit paths
unfolding return_path
sum-map-return_path [] = refl
sum-map-return_path (path ∷ rest) = omega (arith, sum-map-return_path rest)

filter-IsScopedPath :
    (scope : Scope) (paths : List Evidence)
    → All (IsScopedPath scope) (filter (is_valid_path scope) paths)
filter-IsScopedPath scope paths =
    All_of_every (IsScopedPath scope) (is_valid_path scope) (is_valid_path-IsScopedPath scope)
      (filter (is_valid_path scope) paths) (every-filter (is_valid_path scope) paths)

module _ (P : Evidence → Type 0) where
  All-consider :
      (s : Selection) (candidate : Evidence)
      → P candidate
      → All P s.evidence
      → All P (consider s candidate).evidence
  unfolding consider
  All-consider s candidate p h =
      elim (Bool-cases (any (λ key. has key s.used_keys) (path_keys candidate))) [
        | inl shared ↦ rw shared h
        | inr new ↦ rw new (All-append P s.evidence (candidate ∷ []) h (p, tt))
      ]

  All-select_loop :
      (max_paths required : ℕ) (candidates : List Evidence) (s : Selection)
      → All P candidates
      → All P s.evidence
      → All P (select_loop max_paths required candidates s).evidence
  unfolding select_loop
  All-select_loop max_paths required [] s ps h = h
  All-select_loop max_paths required (c ∷ cs) s ps h =
      elim (Bool-cases (is_done max_paths required s)) [
        | inl enough ↦ rw enough h
        | inr more ↦
            rw more
              (All-select_loop max_paths required cs (consider s c) ps.1 (All-consider s c ps.0 h))
      ]

module _ (collate : Text → Text → Ordering) where
  All-select :
      (P : Evidence → Type 0) (candidates : List Evidence) (o : Options)
      → All P candidates
      → All P (select_return_evidence collate candidates o).evidence
  unfolding select_return_evidence valid_candidates
  All-select P candidates o h =
      All-select_loop P o.max_paths o.required_raw
        (valid_candidates collate o.earliest_settlement_timestamp candidates)
        (no_paths o.reserved_keys)
        (All-sort _ P _ (
          All-filter P (valid_return_evidence collate o.earliest_settlement_timestamp) candidates
            h))
        tt

  augmented-IsChosen :
      (r : Request) (required : ℕ)
      → length r.baseline ≤ max_return_paths
      → All (IsScopedPath r.scope) r.baseline
      → IsChosen r.scope (augmented collate r required (sum_by credit r.baseline))
        × (sum_by credit r.baseline
            ≤ (augmented collate r required (sum_by credit r.baseline)).returned_raw)
  unfolding augmented
  augmented-IsChosen r required h valid =
      let baseline_credit = sum_by credit r.baseline in
      let options : Options = record {
        required_raw = required - baseline_credit;
        earliest_settlement_timestamp = some r.scope.earliest;
        max_paths = max_return_paths - length r.baseline;
        reserved_keys = map hop_key (flat_map atomic_evidence r.baseline);
      } in
      let candidates = filter (is_valid_path r.scope) r.candidates in
      let selection = select_return_evidence-IsSelection collate candidates options in
      let paths = (select_return_evidence collate candidates options).evidence in
      (
        record {
          counted = omega (arith, selection.counted, sum_by-append credit r.baseline paths);
          bounded = omega (arith, selection.bounded, length-append r.baseline paths, h);
          in_scope = All-append (IsScopedPath r.scope) r.baseline paths valid (
              All-select (IsScopedPath r.scope) candidates options
                (filter-IsScopedPath r.scope r.candidates));
        },
        omega arith,
      )

  reselected-IsChosen :
      (r : Request) (required : ℕ) → IsChosen r.scope (reselected collate r required)
  unfolding reselected
  reselected-IsChosen r required =
      let options : Options = record {
        required_raw = required;
        earliest_settlement_timestamp = some r.scope.earliest;
        max_paths = max_return_paths;
        reserved_keys = [];
      } in
      let selection =
        select_return_evidence-IsSelection collate
          (filter (is_valid_path r.scope) (r.baseline ++ r.candidates)) options in
      record {
        counted = selection.counted;
        bounded = selection.bounded;
        in_scope =
            All-select (IsScopedPath r.scope)
              (filter (is_valid_path r.scope) (r.baseline ++ r.candidates)) options
              (filter-IsScopedPath r.scope (r.baseline ++ r.candidates));
      }

  better-IsChosen :
      (scope : Scope) (first second : Chosen)
      → IsChosen scope first
      → IsChosen scope second
      → IsChosen scope (better first second)
        × (first.returned_raw ≤ (better first second).returned_raw)
        × (second.returned_raw ≤ (better first second).returned_raw)
  better-IsChosen scope first second a b =
      elim (Bool-cases (leb second.returned_raw first.returned_raw)) [
        | inl e ↦ rw e (a, omega arith, ground arith)
        | inr e ↦ rw e (b, ground arith, omega arith)
      ]

  is_whole_baseline-length :
      (r : Request) (baseline_credit : ℕ)
      → is_whole_baseline collate r baseline_credit ≡ true
      → length r.baseline ≤ max_return_paths
  unfolding is_whole_baseline
  is_whole_baseline-length r baseline_credit h =
      let options : Options = record {
        required_raw = baseline_credit;
        earliest_settlement_timestamp = some r.scope.earliest;
        max_paths = max_return_paths;
        reserved_keys = [];
      } in
      let selection = select_return_evidence-IsSelection collate r.baseline options in
      let checked = select_return_evidence collate r.baseline options in
      let whole =
        (and_true (is_complete baseline_credit checked)
          (length checked.evidence == length r.baseline) h).1 in
      omega
        (arith, (==_iff (length checked.evidence) (length r.baseline)).0 whole, selection.bounded)

  -- Where selectFixedVolumeReturns gives a result, it chooses at most 512 paths, each from the seller to
  -- the funder, whose hops have a transaction hash and are in the period by their times and, where these
  -- are known, by their blocks; their credits add up to what it returns, which is not less than the
  -- baseline's; and the shortfall is what is missing of the required amount, so that the target is met
  -- exactly if there is none.
  pub select_fixed_volume_returns_at_least :
      (r : Request) (result : FixedVolume)
      → select_fixed_volume_returns collate r ≡ ok result
      → (evidence : List Evidence) × (result.paths ≡ map return_path evidence)
        × All (IsScopedPath r.scope) evidence
        × (length result.paths ≤ max_return_paths)
        × (sum_by credit_of result.paths ≡ result.candidate_return_raw)
        × (sum_by credit r.baseline ≤ result.candidate_return_raw)
        × (result.shortfall_raw ≡ result.required_return_raw - result.candidate_return_raw)
        × ((result.target_met_by_candidates ≡ true) ↔ (result.shortfall_raw ≡ 0))
  unfolding select_fixed_volume_returns
  select_fixed_volume_returns_at_least r result h =
      let (required, e, h1) = >>=-eq-ok (amount (required_return_raw r.volume r.target_bps)) _ h in
      let (valid, h2) = passed (every (is_valid_path r.scope) r.baseline) baseline_mismatch _ h1 in
      let baseline_credit = sum_by credit r.baseline in
      let (whole, h3) =
        passed (is_whole_baseline collate r baseline_credit) invalid_baseline _ h2 in
      let in_scope =
        All_of_every (IsScopedPath r.scope) (is_valid_path r.scope)
          (is_valid_path-IsScopedPath r.scope) r.baseline valid in
      let first = augmented collate r required baseline_credit in
      let second = reselected collate r required in
      let (is_first, least) =
        augmented-IsChosen r required (is_whole_baseline-length r baseline_credit whole) in_scope in
      let (chosen, not_less, _) =
        better-IsChosen r.scope first second is_first (reselected-IsChosen r required) in
      let selected = better first second in
      subst
        (λ (result : FixedVolume).
          (evidence : List Evidence) × (result.paths ≡ map return_path evidence)
          × All (IsScopedPath r.scope) evidence
          × (length result.paths ≤ max_return_paths)
          × (sum_by credit_of result.paths ≡ result.candidate_return_raw)
          × (sum_by credit r.baseline ≤ result.candidate_return_raw)
          × (result.shortfall_raw ≡ result.required_return_raw - result.candidate_return_raw)
          × ((result.target_met_by_candidates ≡ true) ↔ (result.shortfall_raw ≡ 0)))
        (ok_injective h3)
        (
          selected.evidence,
          refl,
          chosen.in_scope,
          omega (arith, length-map selected.evidence return_path, chosen.bounded),
          sum-map-return_path selected.evidence ∙ sym chosen.counted,
          omega (arith, least, not_less),
          refl,
          (λ g. ground (arith, g), λ g. ground (arith, g)),
        )
