-- ===== src/Graph/Fuel.antt =====
-- The fuel of the walk and of the search for the first later transfer is enough: more changes nothing.
use loop_proof.Common.{
  ℕ, zero, suc, ◌+◌, ◌/◌, ◌≤◌, ◌<◌, ◌≡◌, ◌≢◌, ◌∙◌, refl, sym, arith, Bool-cases, Option-cases, inl,
  inr, true, false, Option, none, some, List, [], ◌∷◌, length, length-append, get_elem?, drop, ltb,
  ltb→lt, Text,
}
use loop_proof.Graph.{Transfer, outgoing, comes_before}
use loop_proof.Graph.Walking.{
  Search, Walk, extended, halved, search_lower, try_hop, try_hops, ends_at, search_on, walk_from,
}

-- The bounds after a turn, and that they are closer.
abbrev turned : Transfer → List Transfer → ℕ → ℕ → ℕ × ℕ
turned previous hops lower upper =
    halved previous (get_elem? hops ((lower + upper) / 2)) ((lower + upper) / 2) lower upper

halved_closer :
    (previous : Transfer) (hop : Option Transfer) (lower upper fuel : ℕ)
    → lower < upper
    → upper ≤ lower + suc fuel
    → (halved previous hop ((lower + upper) / 2) lower upper).1
      ≤ (halved previous hop ((lower + upper) / 2) lower upper).0 + fuel
halved_closer previous none lower upper fuel apart enough = omega arith
halved_closer previous (some hop) lower upper fuel apart enough =
    elim (Bool-cases (comes_before previous hop)) [
      | inl later ↦ rw later (omega arith)
      | inr earlier ↦ rw earlier (omega arith)
    ]

search_lower-turned :
    (fuel : ℕ) (previous : Transfer) (hops : List Transfer) (lower upper : ℕ)
    → ltb lower upper ≡ true
    → search_lower (suc fuel) previous hops lower upper
      ≡ search_lower fuel previous hops
          (turned previous hops lower upper).0
          (turned previous hops lower upper).1
unfolding search_lower
search_lower-turned fuel previous hops lower upper apart = rw apart

search_lower_done :
    (fuel : ℕ) (previous : Transfer) (hops : List Transfer) (lower upper : ℕ)
    → ltb lower upper ≡ false
    → search_lower fuel previous hops lower upper ≡ lower
unfolding search_lower
search_lower_done zero previous hops lower upper met = refl
search_lower_done (suc fuel) previous hops lower upper met = rw met

-- The loop of the search for an index ends within as many turns as the bounds are apart.
search_lower_stable :
    (fuel : ℕ) (previous : Transfer) (hops : List Transfer) (lower upper : ℕ)
    → upper ≤ lower + fuel
    → search_lower (suc fuel) previous hops lower upper
      ≡ search_lower fuel previous hops lower upper
unfolding search_lower
search_lower_stable zero previous hops lower upper enough =
    search_lower_done 1 previous hops lower upper (ground arith)
search_lower_stable (suc fuel) previous hops lower upper enough =
    elim (Bool-cases (ltb lower upper)) [
      | inl apart ↦
          search_lower-turned (suc fuel) previous hops lower upper apart
          ∙ search_lower_stable fuel previous hops (turned previous hops lower upper).0
              (turned previous hops lower upper).1
              (halved_closer previous (get_elem? hops ((lower + upper) / 2)) lower upper fuel
                (ltb→lt lower upper apart) enough)
          ∙ sym (search_lower-turned fuel previous hops lower upper apart)
      | inr met ↦
          search_lower_done (suc (suc fuel)) previous hops lower upper met
          ∙ sym (search_lower_done (suc fuel) previous hops lower upper met)
    ]

module _ (funder : Text) (distance : List (Text × ℕ)) (paid : List (Text × List Text))
    (graph : List (Text × List Transfer)) (max_paths max_steps : ℕ) where
  -- Two ways to go on that agree on the walks of this length.
  abbrev Agree : ℕ → (Walk → Search → Search) → (Walk → Search → Search) → Type 0
  Agree size one other =
      (walk : Walk) (state : Search)
      → length walk.selected ≡ size
      → one walk state ≡ other walk state

  try_hop-Agree :
      (one other : Walk → Search → Search) (walk : Walk) (hop : Transfer) (state : Search)
      → Agree (suc (length walk.selected)) one other
      → try_hop funder distance paid graph max_paths max_steps one walk hop state
        ≡ try_hop funder distance paid graph max_paths max_steps other walk hop state
  unfolding try_hop extended
  try_hop-Agree one other walk hop state agree = rw (
      agree (extended walk hop) (record state { steps = suc state.steps })
        (omega (arith, length-append walk.selected (hop ∷ []))))

  try_hops-Agree :
      (one other : Walk → Search → Search) (walk : Walk) (hops : List Transfer) (state : Search)
      → Agree (suc (length walk.selected)) one other
      → try_hops funder distance paid graph max_paths max_steps one walk hops state
        ≡ try_hops funder distance paid graph max_paths max_steps other walk hops state
  unfolding try_hops
  try_hops-Agree one other walk [] state agree = refl
  try_hops-Agree one other walk (hop ∷ hops) state agree = rw (
    try_hop-Agree one other walk hop state agree,
    try_hops-Agree one other walk hops
        (try_hop funder distance paid graph max_paths max_steps other walk hop state).0 agree,
  )

  -- At ten hops the walk ends.
  ends_at_ten :
      (walk : Walk) (state : Search)
      → 10 ≤ length walk.selected
      → ends_at funder distance paid graph max_paths max_steps walk state ≢ none
  unfolding ends_at
  ends_at_ten walk state long on = ground arith

  -- From ten less the hops that the path has, more fuel does not change the search: the walk is the
  -- source's recursion without a bound.
  pub walk_from_stable :
      (fuel : ℕ) (walk : Walk) (state : Search)
      → 10 ≤ fuel + length walk.selected
      → walk_from funder distance paid graph max_paths max_steps (suc fuel) walk state
        ≡ walk_from funder distance paid graph max_paths max_steps fuel walk state
  unfolding walk_from search_on
  walk_from_stable zero walk state enough =
      elim (Option-cases (ends_at funder distance paid graph max_paths max_steps walk state)) [
        | inl on ↦ absurd (ends_at_ten walk state (omega arith) on)
        | inr (ended, over) ↦ rw (over, walk_from)
      ]
  walk_from_stable (suc fuel) walk state enough =
      elim (Option-cases (ends_at funder distance paid graph max_paths max_steps walk state)) [
        | inl on ↦
            rw (on, walk_from)
              (let hops = outgoing walk.previous.to graph in
                let lower = search_lower (length hops) walk.previous hops 0 (length hops) in
                try_hops-Agree (walk_from funder distance paid graph max_paths max_steps (suc fuel))
                  (walk_from funder distance paid graph max_paths max_steps fuel) walk
                  (drop lower hops) state
                  (λ longer later size. walk_from_stable fuel longer later (omega arith)))
        | inr (ended, over) ↦ rw (over, walk_from)
      ]
