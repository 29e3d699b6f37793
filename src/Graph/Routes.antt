-- ===== src/Graph/Routes.antt =====
-- What `discoverExpandedReturnGraph` finds: every path is a route from the seller to the funder.
use loop_proof.Common.{
  ℕ, zero, suc, ◌+◌, ◌*◌, ◌≤◌, ◌≡◌, refl, subst, arith, if◌then◌else◌, Bool-cases, Option-cases,
  inl, inr, true, false, Option, none, some, get_or, some_injective, List, [], ◌∷◌, ◌++◌, length,
  length-append, drop, ltb, leb, Text, text_eq, text_eq_iff, has, keys_by_text, add, lookup, All,
  All-append,
}
use loop_proof.Policy.{rho_hop_bps, t_path_seconds, basis_points}
use loop_proof.Graph.{Transfer, outgoing, comes_before, is_usable}
use loop_proof.Graph.Distances.{IsAway, lookup-IsAway}
use loop_proof.Graph.Building.{IsSentBy, IsKeyed, outgoing-IsKeyed}
use loop_proof.Graph.Walking.{
  RelayPath, Search, Walk, extended, search_lower, is_spent, is_skipped, try_hop, try_hops, ends_at,
  search_on, walk_from, starting, walk_all,
}

module _ (earliest end : ℕ) (seller : Text) where
  -- A route that starts at the seller: its hops, the first and the last of them, what it carries and
  -- the addresses it meets.
  pub data Route : List Transfer → Transfer → Transfer → ℕ → List Text → Type 0 where
    leaves :
        {hop : Transfer}
        → hop.from ≡ seller
        → is_usable earliest end hop ≡ true
        → Route (hop ∷ []) hop hop hop.amount_raw (add hop.to (seller ∷ []))
    goes_on :
        {hops : List Transfer} {first previous hop : Transfer} {credit : ℕ} {visited : List Text}
        → Route hops first previous credit visited
        → hop.from ≡ previous.to
        → is_usable earliest end hop ≡ true
        → comes_before previous hop ≡ true
        → hop.timestamp ≤ first.timestamp + t_path_seconds
        → previous.amount_raw * rho_hop_bps ≤ hop.amount_raw * basis_points
        → has hop.to visited ≡ false
        → Route
            (hops ++ hop ∷ [])
            first
            hop
            (if ltb hop.amount_raw credit then hop.amount_raw else credit)
            (add hop.to visited)

  abbrev pub IsRoute : Walk → Type 0
  IsRoute walk = Route walk.selected walk.first walk.previous walk.credit walk.visited

  -- A route of at most so many hops.
  abbrev pub IsShort : ℕ → Walk → Type 0
  IsShort most walk = IsRoute walk × (length walk.selected ≤ most)

  -- A path that a route of at most nine hops to the funder made.
  abbrev pub IsFound : Text → RelayPath → Type 0
  IsFound funder path =
      (walk : Walk) × IsRoute walk
      × (length walk.selected ≤ 9)
      × (walk.previous.to ≡ funder)
      × (path.hops ≡ walk.selected)
      × (path.credit_raw ≡ walk.credit)

All-drop {ℓ κ} : {A : Type ℓ} (P : A → Type κ) (n : ℕ) (xs : List A) → All P xs → All P (drop n xs)
All-drop P zero xs h = h
All-drop P (suc n) [] h = tt
All-drop P (suc n) (x ∷ xs) h = All-drop P n xs h.1

module _ (earliest end : ℕ) (seller funder : Text) (distance : List (Text × ℕ))
    (paid : List (Text × List Text)) (graph : List (Text × List Transfer))
    (keyed : IsKeyed earliest end graph) (away : IsAway funder distance)
    (max_paths max_steps : ℕ) where
  abbrev Holds : Search → Type 0
  Holds state =
      All (IsFound earliest end seller funder) state.paths × (length state.paths ≤ max_paths)

  abbrev Keeps : (Walk → Search → Search) → Type 0
  Keeps visit =
      (walk : Walk) (state : Search)
      → IsShort earliest end seller 9 walk
      → Holds state
      → Holds (visit walk state)

  abbrev Continues : Walk → Transfer → Type 0
  Continues walk hop = IsSentBy earliest end walk.previous.to hop

  extended-IsShort :
      (walk : Walk) (hop : Transfer)
      → IsShort earliest end seller 8 walk
      → Continues walk hop
      → ltb (walk.first.timestamp + t_path_seconds) hop.timestamp ≡ false
      → is_skipped funder distance paid graph max_paths max_steps walk hop ≡ false
      → IsShort earliest end seller 9 (extended walk hop)
  unfolding extended is_skipped
  extended-IsShort walk hop (route, short) (sent, usable) in_time taken = (
    goes_on route sent usable (ground arith) (ground arith) (ground arith) (ground arith),
    ground (arith, length-append walk.selected (hop ∷ [])),
  )

  try_hop-Holds :
      (visit : Walk → Search → Search) (walk : Walk) (hop : Transfer) (state : Search)
      → Keeps visit
      → IsShort earliest end seller 8 walk
      → Continues walk hop
      → Holds state
      → Holds (try_hop funder distance paid graph max_paths max_steps visit walk hop state).0
  unfolding try_hop
  try_hop-Holds visit walk hop state keeps route sent held =
      elim (Bool-cases (leb max_steps (suc state.steps))) [
        | inl spent ↦ rw spent held
        | inr going ↦
            elim (Bool-cases (ltb (walk.first.timestamp + t_path_seconds) hop.timestamp)) [
              | inl late ↦ rw (going, late) held
              | inr in_time ↦
                  elim (Bool-cases
                    (is_skipped funder distance paid graph max_paths max_steps walk hop)) [
                      | inl skipped ↦ rw (going, in_time, skipped) held
                      | inr taken ↦
                          rw (going, in_time, taken)
                            (keeps (extended walk hop) (record state { steps = suc state.steps })
                              (extended-IsShort walk hop route sent in_time taken) held)
                    ]
            ]
      ]

  try_hops-Holds :
      (visit : Walk → Search → Search) (walk : Walk) (hops : List Transfer) (state : Search)
      → Keeps visit
      → IsShort earliest end seller 8 walk
      → All (Continues walk) hops
      → Holds state
      → Holds (try_hops funder distance paid graph max_paths max_steps visit walk hops state)
  unfolding try_hops
  try_hops-Holds visit walk [] state keeps route sent held = held
  try_hops-Holds visit walk (hop ∷ hops) state keeps route sent held =
      let tried = try_hop funder distance paid graph max_paths max_steps visit walk hop state in
      let first = try_hop-Holds visit walk hop state keeps route sent.0 held in
      elim (Bool-cases tried.1) [
        | inl more ↦ rw more (try_hops-Holds visit walk hops tried.0 keeps route sent.1 first)
        | inr stopped ↦ rw stopped first
      ]

  search_on-Holds :
      (visit : Walk → Search → Search) (walk : Walk) (state : Search)
      → Keeps visit
      → IsShort earliest end seller 8 walk
      → Holds state
      → Holds (search_on funder distance paid graph max_paths max_steps visit walk state)
  unfolding search_on
  search_on-Holds visit walk state keeps route held =
      let hops = outgoing walk.previous.to graph in
      let lower = search_lower (length hops) walk.previous hops 0 (length hops) in
      try_hops-Holds visit walk (drop lower hops) state keeps route
        (All-drop (Continues walk) lower hops
          (outgoing-IsKeyed earliest end walk.previous.to graph keyed))
        held

  abbrev found : Walk → Search → Search
  found walk state = record state {
    paths = state.paths ++ record { hops = walk.selected; credit_raw = walk.credit } ∷ [];
  }

  found-Holds :
      (walk : Walk) (state : Search)
      → IsShort earliest end seller 9 walk
      → walk.previous.to ≡ funder
      → leb max_paths (length state.paths) ≡ false
      → Holds state
      → Holds (found walk state)
  found-Holds walk state route arrived room (paths, bounded) =
      let path : RelayPath = record { hops = walk.selected; credit_raw = walk.credit } in
      (
        All-append (IsFound earliest end seller funder) state.paths (path ∷ []) paths
            ((walk, route.0, route.1, arrived, refl, refl), tt),
        ground (arith, length-append state.paths (path ∷ [])),
      )

  -- A route that the walk does not follow further.
  ends_at-Holds :
      (walk : Walk) (state ended : Search)
      → IsShort earliest end seller 9 walk
      → Holds state
      → ends_at funder distance paid graph max_paths max_steps walk state ≡ some ended
      → Holds ended
  unfolding ends_at is_spent
  ends_at-Holds walk state ended route held end_here =
      elim (Bool-cases (is_spent funder distance paid graph max_paths max_steps state)) [
        | inl spent ↦
            let made : some (record state { truncated = true }) ≡ some ended =
              rw spent at end_here in
            subst (λ (s : Search). Holds s) (some_injective made) held
        | inr going ↦ elim (Bool-cases (text_eq walk.previous.to funder)) [
          | inl arrived ↦
              let made : some (found walk state) ≡ some ended = rw (going, arrived) at end_here in
              subst (λ (s : Search). Holds s) (some_injective made)
                (found-Holds walk state route ((text_eq_iff walk.previous.to funder).0 arrived)
                  (ground arith) held)
          | inr elsewhere ↦
              elim (Bool-cases
                (ltb 9 (length walk.selected + get_or (lookup walk.previous.to distance) 10))) [
                  | inl far ↦
                      let made : some state ≡ some ended = rw (going, elsewhere, far) at end_here in
                      subst (λ (s : Search). Holds s) (some_injective made) held
                  | inr near ↦
                      let made : ◌≡◌ {A = Option Search} none (some ended) =
                        rw (going, elsewhere, near) at end_here in
                      cc
                ]
        ]
      ]

  -- Where the walk goes on there is room for a hop.
  short_of_on :
      (walk : Walk) (state : Search)
      → ends_at funder distance paid graph max_paths max_steps walk state ≡ none
      → length walk.selected ≤ 8
  unfolding ends_at is_spent
  short_of_on walk state on = ground (arith, lookup-IsAway funder walk.previous.to distance away)

  walk_from-Keeps :
      (fuel : ℕ) → Keeps (walk_from funder distance paid graph max_paths max_steps fuel)
  unfolding walk_from
  walk_from-Keeps zero walk state route held =
      elim (Option-cases (ends_at funder distance paid graph max_paths max_steps walk state)) [
        | inl on ↦ rw (on, walk_from) held
        | inr (ended, over) ↦ rw (over, walk_from) (ends_at-Holds walk state ended route held over)
      ]
  walk_from-Keeps (suc fuel) walk state route held =
      elim (Option-cases (ends_at funder distance paid graph max_paths max_steps walk state)) [
        | inl on ↦
            rw (on, walk_from)
              (search_on-Holds (walk_from funder distance paid graph max_paths max_steps fuel) walk
                state (walk_from-Keeps fuel) (route.0, short_of_on walk state on) held)
        | inr (ended, over) ↦ rw (over, walk_from) (ends_at-Holds walk state ended route held over)
      ]

  pub walk_all-Holds :
      (hops : List Transfer) (state : Search)
      → All (IsSentBy earliest end seller) hops
      → Holds state
      → Holds (walk_all funder distance paid graph max_paths max_steps seller hops state)
  unfolding walk_all starting
  walk_all-Holds [] state sent held = held
  walk_all-Holds (hop ∷ hops) state ((from, usable), sent) held =
      let searched =
        walk_from funder distance paid graph max_paths max_steps 9
          (starting funder distance paid graph max_paths max_steps seller hop) state in
      let first =
        walk_from-Keeps 9 (starting funder distance paid graph max_paths max_steps seller hop) state
          (leaves from usable, omega arith) held in
      elim (Bool-cases (is_spent funder distance paid graph max_paths max_steps searched)) [
        | inl spent ↦ rw spent first
        | inr going ↦ rw going (walk_all-Holds hops searched sent first)
      ]
