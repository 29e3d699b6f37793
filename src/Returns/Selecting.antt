-- ===== src/Returns/Selecting.antt =====
-- The greedy loop of `selectReturnEvidence` in return-path-selection.mjs: what it selects.
use mathlib.Core.List.{append_assoc, append-nil}
use loop_proof.Common.{
  ℕ, ◌≤◌, ◌<◌, ◌≡◌, refl, ap, sym, ◌∙◌, ◌⊎◌, inl, inr, arith, Bool-cases, true, false, List, [],
  ◌∷◌, ◌++◌, filter, any, All, All-append, All-sort, All_of_every, every-filter, length,
  length-append, flat_map, flat_map-snoc, sum_by, sum_by-append, has, set_of, IsDistinct,
  set_of-IsDistinct, add_all-IsDistinct, add_all_fresh, every_new_IsFresh, keys_by_text, Text,
  Ordering, Option,
}
use loop_proof.Evidence.{Evidence}
use loop_proof.Returns.{
  Selection, Options, no_paths, is_done, consider, select_loop, select_return_evidence,
  valid_candidates, valid_return_evidence, credit, path_keys,
}
use loop_proof.Returns.Valid.{valid-IsDistinct}

-- The path before the last one did not reach the required amount.
abbrev pub IsNeeded : ℕ → List Evidence → Type 0
IsNeeded required evidence =
    (evidence ≡ [])
    ⊎ ((before : List Evidence) × (last : Evidence) × (evidence ≡ before ++ last ∷ [])
        × (sum_by credit before < required))

-- What holds of the loop's variables, over the keys that were reserved at its start.
pub record IsSelection {ℓ} (P : Evidence → Type ℓ) (max_paths required : ℕ) (reserved : List Text)
    (s : Selection) : Type ℓ where
  pub used : s.used_keys ≡ reserved ++ flat_map path_keys s.evidence
  pub distinct : IsDistinct s.used_keys
  pub counted : s.returned_raw ≡ sum_by credit s.evidence
  pub bounded : length s.evidence ≤ max_paths
  pub chosen : All P s.evidence
  pub needed : IsNeeded required s.evidence

module _ {ℓ} (P : Evidence → Type ℓ)
    (distinct_keys : (c : Evidence) → P c → IsDistinct (path_keys c)) (max_paths required : ℕ)
    (reserved : List Text) where
  consider-IsSelection :
      (s : Selection) (c : Evidence)
      → P c
      → is_done max_paths required s ≡ false
      → IsSelection P max_paths required reserved s
      → IsSelection P max_paths required reserved (consider s c)
  unfolding consider
  consider-IsSelection s c p open_ inv =
      elim (Bool-cases (any (λ key. has key s.used_keys) (path_keys c))) [
        | inl shared ↦ rw shared inv
        | inr new ↦ rw new (record {
          used =
              add_all_fresh (path_keys c) s.used_keys (distinct_keys c p)
                (every_new_IsFresh (path_keys c) s.used_keys new)
              ∙ ap (λ (keys : List Text). keys ++ path_keys c) inv.used
              ∙ append_assoc reserved (flat_map path_keys s.evidence) (path_keys c)
              ∙ ap (◌++◌ reserved) (sym (flat_map-snoc path_keys s.evidence c));
          distinct = add_all-IsDistinct (path_keys c) s.used_keys inv.distinct;
          counted = omega (arith, inv.counted, sum_by-append credit s.evidence (c ∷ []));
          bounded = ground (arith, length-append s.evidence (c ∷ []));
          chosen = All-append P s.evidence (c ∷ []) inv.chosen (p, tt);
          needed = inr (s.evidence, c, refl, ground (arith, inv.counted));
        })
      ]

  pub select_loop-IsSelection :
      (cs : List Evidence) (s : Selection)
      → All P cs
      → IsSelection P max_paths required reserved s
      → IsSelection P max_paths required reserved (select_loop max_paths required cs s)
  unfolding select_loop
  select_loop-IsSelection [] s ps inv = inv
  select_loop-IsSelection (c ∷ cs) s ps inv = elim (Bool-cases (is_done max_paths required s)) [
    | inl done ↦ rw done inv
    | inr more ↦
        rw more
          (select_loop-IsSelection cs (consider s c) ps.1 (consider-IsSelection s c ps.0 more inv))
  ]

abbrev pub IsValidEvidence : (Text → Text → Ordering) → Option ℕ → Evidence → Type 0
IsValidEvidence collate earliest c = valid_return_evidence collate earliest c ≡ true

module _ (collate : Text → Text → Ordering) where
  valid_candidates-All :
      (earliest : Option ℕ) (candidates : List Evidence)
      → All (IsValidEvidence collate earliest) (valid_candidates collate earliest candidates)
  unfolding valid_candidates
  valid_candidates-All earliest candidates = All-sort _ (IsValidEvidence collate earliest) _ (
      All_of_every (IsValidEvidence collate earliest) (valid_return_evidence collate earliest)
        (λ c h. h) (filter (valid_return_evidence collate earliest) candidates)
        (every-filter (valid_return_evidence collate earliest) candidates))

  -- The selection holds at most `maxPaths` valid paths. The used keys are the reserved ones and those
  -- of the selected paths, with no key twice: no transfer is counted in two paths, or in a path and
  -- in the reserve. The returned amount is the sum of the credits, and without the last selected path
  -- the sum is below what is required.
  pub select_return_evidence-IsSelection :
      (candidates : List Evidence) (o : Options)
      → IsSelection
          (IsValidEvidence collate o.earliest_settlement_timestamp)
          o.max_paths
          o.required_raw
          (set_of o.reserved_keys)
          (select_return_evidence collate candidates o)
  unfolding select_return_evidence
  select_return_evidence-IsSelection candidates o =
      select_loop-IsSelection (IsValidEvidence collate o.earliest_settlement_timestamp)
        (valid-IsDistinct collate o.earliest_settlement_timestamp) o.max_paths o.required_raw
        (set_of o.reserved_keys)
        (valid_candidates collate o.earliest_settlement_timestamp candidates)
        (no_paths o.reserved_keys) (valid_candidates-All o.earliest_settlement_timestamp candidates)
        (record {
          used = sym (append-nil (set_of o.reserved_keys));
          distinct = set_of-IsDistinct o.reserved_keys;
          counted = refl;
          bounded = omega arith;
          chosen = tt;
          needed = inl refl;
        })
