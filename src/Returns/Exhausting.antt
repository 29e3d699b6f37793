-- ===== src/Returns/Exhausting.antt =====
-- The greedy loop of `selectReturnEvidence` in return-path-selection.mjs: what it leaves out.
use mathlib.Core.List.{Mem, mem-append_left, mem-append_right, mem-cons_self}
use loop_proof.Common.{
  ℕ, ◌<◌, ◌≡◌, sym, subst, ◌⊎◌, inl, inr, arith, Bool-cases, Bool, true, false, List, [], ◌∷◌, any,
  All, All-unsort, All_of_filter, length, has, add_all, has-append, keys_by_text, Text, Ordering,
  add,
}
use loop_proof.Evidence.{Evidence}
use loop_proof.Returns.{
  Selection, Options, is_done, consider, select_loop, select_return_evidence, no_paths,
  valid_candidates, valid_return_evidence, path_keys, compare_return_evidence,
}

-- One of the path's transfers is in the set.
abbrev pub shares_key : List Text → Evidence → Bool
shares_key used c = any (λ key. has key used) (path_keys c)

-- The path was selected, or shares a transfer with what is used.
abbrev pub IsSettled : Selection → Evidence → Type 0
IsSettled s c = Mem c s.evidence ⊎ (shares_key s.used_keys c ≡ true)

has-add_all :
    (key : Text) (ks used : List Text) → has key used ≡ true → has key (add_all ks used) ≡ true
unfolding add_all add
has-add_all key [] used h = h
has-add_all key (k ∷ ks) used h =
    has-add_all key ks (add k used) (ground (arith, has-append key used (k ∷ [])))

-- What the first selection holds is in the second.
record Grows (s t : Selection) : Type 0 where
  keeps : (c : Evidence) → Mem c s.evidence → Mem c t.evidence
  uses : (key : Text) → has key s.used_keys ≡ true → has key t.used_keys ≡ true

consider-Grows : (s : Selection) (c : Evidence) → Grows s (consider s c)
unfolding consider
consider-Grows s c = elim (Bool-cases (shares_key s.used_keys c)) [
  | inl shared ↦ rw shared (record { keeps = λ d m. m; uses = λ key h. h })
  | inr new ↦ rw new (record {
    keeps = λ d m. mem-append_left _ m;
    uses = λ key h. has-add_all key (path_keys c) s.used_keys h;
  })
]

module _ (max_paths required : ℕ) where
  select_loop-Grows :
      (cs : List Evidence) (s : Selection) → Grows s (select_loop max_paths required cs s)
  unfolding select_loop
  select_loop-Grows [] s = record { keeps = λ d m. m; uses = λ key h. h }
  select_loop-Grows (c ∷ cs) s = elim (Bool-cases (is_done max_paths required s)) [
    | inl done ↦ rw done (record { keeps = λ d m. m; uses = λ key h. h })
    | inr more ↦
        let step = consider-Grows s c in
        let rest = select_loop-Grows cs (consider s c) in
        rw more (record {
          keeps = λ d m. rest.keeps d (step.keeps d m);
          uses = λ key h. rest.uses key (step.uses key h);
        })
  ]

  shares_key_mono :
      (ks used used' : List Text)
      → ((key : Text) → has key used ≡ true → has key used' ≡ true)
      → any (λ key. has key used) ks ≡ true
      → any (λ key. has key used') ks ≡ true
  shares_key_mono [] used used' grows h = h
  shares_key_mono (k ∷ ks) used used' grows h = elim (Bool-cases (has k used)) [
    | inl old ↦ rw (grows k old)
    | inr new ↦
        let rest : any (λ key. has key used) ks ≡ true = rw new at h in
        ground (arith, shares_key_mono ks used used' grows rest)
  ]

  settle : (s t : Selection) (c : Evidence) → Grows s t → IsSettled s c → IsSettled t c
  settle s t c g (inl chosen) = inl (g.keeps c chosen)
  settle s t c g (inr shared) =
      inr (shares_key_mono (path_keys c) s.used_keys t.used_keys g.uses shared)

  consider-IsSettled : (s : Selection) (c : Evidence) → IsSettled (consider s c) c
  unfolding consider
  consider-IsSettled s c = elim (Bool-cases (shares_key s.used_keys c)) [
    | inl shared ↦ rw shared (inr shared)
    | inr new ↦ rw new (inl (mem-append_right s.evidence mem-cons_self))
  ]

  select_loop_more :
      (c : Evidence) (cs : List Evidence) (s : Selection)
      → is_done max_paths required s ≡ false
      → select_loop max_paths required cs (consider s c) ≡ select_loop max_paths required (c ∷ cs) s
  unfolding select_loop
  select_loop_more c cs s more = rw more

  select_loop_done :
      (c : Evidence) (cs : List Evidence) (s : Selection)
      → is_done max_paths required s ≡ true
      → select_loop max_paths required (c ∷ cs) s ≡ s
  unfolding select_loop
  select_loop_done c cs s done = rw done

  select_loop-IsSettled :
      (cs : List Evidence) (s : Selection)
      → is_done max_paths required (select_loop max_paths required cs s) ≡ false
      → All (IsSettled (select_loop max_paths required cs s)) cs
  select_loop-IsSettled [] s h = tt
  select_loop-IsSettled (c ∷ cs) s h = elim (Bool-cases (is_done max_paths required s)) [
    | inl done ↦
        let still : is_done max_paths required s ≡ false =
          subst (λ t. is_done max_paths required t ≡ false) (select_loop_done c cs s done) h in
        absurd (ground arith)
    | inr more ↦
        let next = consider s c in
        let result = select_loop max_paths required cs next in
        let step = select_loop_more c cs s more in
        subst (λ t. All (IsSettled t) (c ∷ cs)) step
          (
            settle next result c (select_loop-Grows cs next) (consider-IsSettled s c),
            select_loop-IsSettled cs next
                (subst (λ t. is_done max_paths required t ≡ false) (sym step) h),
          )
  ]

module _ (collate : Text → Text → Ordering) where
  -- If the selection neither reached the required amount nor the bound on the number of paths, then
  -- every valid candidate was selected or shares a transfer with the used keys: nothing that could
  -- still be added was left out.
  pub select_return_evidence_exhausts :
      (candidates : List Evidence) (o : Options)
      → (select_return_evidence collate candidates o).returned_raw < o.required_raw
      → length (select_return_evidence collate candidates o).evidence < o.max_paths
      → All
          (λ c.
            valid_return_evidence collate o.earliest_settlement_timestamp c ≡ true
            → IsSettled (select_return_evidence collate candidates o) c)
          candidates
  unfolding select_return_evidence valid_candidates
  select_return_evidence_exhausts candidates o short few =
      let earliest = o.earliest_settlement_timestamp in
      let start = no_paths o.reserved_keys in
      let cs = valid_candidates collate earliest candidates in
      All_of_filter _ (valid_return_evidence collate earliest) candidates (
        All-unsort (compare_return_evidence collate) _ _
          (select_loop-IsSettled o.max_paths o.required_raw cs start (ground arith)))
