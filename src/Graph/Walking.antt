-- ===== src/Graph/Walking.antt =====
-- scripts/expanded-return-graph.mjs: the depth-first search of `discoverExpandedReturnGraph` and its
-- result.
use loop_proof.Common.{
  ℕ, zero, suc, ◌+◌, ◌-◌, ◌*◌, ◌/◌, compare, Ordering, ltb, leb, if◌then◌else◌, Bool, true, false,
  not, ◌&&◌, ◌||◌, Option, none, some, get_or, List, [], ◌∷◌, ◌++◌, any, length, get_elem?, drop,
  Text, text_eq, keys_by_text, has, add, lookup, has_key, or_else, sort, unit_order, Outcome, ok,
  throw,
}
use loop_proof.Policy.{rho_hop_bps, t_path_seconds, basis_points}
use loop_proof.Returns.{is_safe_integer}
use loop_proof.Graph.{Transfer, Trace, Network, outgoing, order, comes_before, build_network}
use loop_proof.Graph.Distances.{distances, destinations}

pub record RelayPath : Type 0 where
  pub hops : List Transfer
  pub credit_raw : ℕ

-- `paths`, `steps` and `truncated`.
pub record Search : Type 0 where
  pub paths : List RelayPath
  pub steps : ℕ
  pub truncated : Bool

-- The path so far: its hops, of which the first is `selected[0]` and the last `selected.at(-1)`, its
-- credit and the addresses it has visited.
pub record Walk : Type 0 where
  pub selected : List Transfer
  pub first : Transfer
  pub previous : Transfer
  pub credit : ℕ
  pub visited : List Text

unfoldable pub extended : Walk → Transfer → Walk
unfolding add
extended walk hop = record walk {
  selected = walk.selected ++ hop ∷ [];
  previous = hop;
  credit = if ltb hop.amount_raw walk.credit then hop.amount_raw else walk.credit;
  visited = add hop.to walk.visited;
}

-- The bounds after one turn of the loop.
abbrev pub halved : Transfer → Option Transfer → ℕ → ℕ → ℕ → ℕ × ℕ
halved previous none middle lower upper = (lower, middle)
halved previous (some hop) middle lower upper =
    if not (comes_before previous hop) then (suc middle, upper) else (lower, middle)

-- The first index whose transfer comes after the previous hop. The fuel is the number of transfers.
unfoldable pub search_lower : ℕ → Transfer → List Transfer → ℕ → ℕ → ℕ
search_lower zero previous hops lower upper = lower
search_lower (suc fuel) previous hops lower upper =
    let middle = (lower + upper) / 2 in
    let (left, right) = halved previous (get_elem? hops middle) middle lower upper in
    let found = search_lower fuel previous hops left right in
    if ltb lower upper then found else lower

unfoldable pub sort_hops : List (Text × List Transfer) → List (Text × List Transfer)
unfolding sort order
sort_hops [] = []
sort_hops ((address, hops) ∷ rest) = (address, sort order hops) ∷ sort_hops rest

-- The order of the seller's payments: the larger first.
unfoldable pub start_order : Transfer → Transfer → Ordering
unfolding order
start_order left right = or_else (compare right.amount_raw left.amount_raw) (order left right)

module _ (funder : Text) (distance : List (Text × ℕ)) (paid : List (Text × List Text))
    (graph : List (Text × List Transfer)) (max_paths max_steps : ℕ) where
  -- `canFinish`
  unfoldable pub can_finish : ℕ → Text → List Text → Bool
  unfolding text_eq has_key has add lookup
  can_finish zero address visited = text_eq address funder
  can_finish (suc remaining) address visited =
      text_eq address funder
      || (has_key address distance
          && any (λ next. not (has next visited) && can_finish remaining next (add next visited))
              (get_or (lookup address paid) []))

  unfoldable pub is_spent : Search → Bool
  is_spent state = leb max_paths (length state.paths) || leb max_steps state.steps

  -- Whether the loop over the transfers of an address goes past this one without a walk.
  unfoldable pub is_skipped : Walk → Transfer → Bool
  unfolding has add can_finish
  is_skipped walk hop =
      not (comes_before walk.previous hop)
      || (has hop.to walk.visited
          || (ltb (hop.amount_raw * basis_points) (walk.previous.amount_raw * rho_hop_bps)
              || not (can_finish (8 - length walk.selected) hop.to (add hop.to walk.visited))))

  -- One turn of the loop, and whether the loop goes on.
  unfoldable pub try_hop : (Walk → Search → Search) → Walk → Transfer → Search → Search × Bool
  unfolding is_spent is_skipped extended
  try_hop visit walk hop state =
      let counted = record state { steps = suc state.steps } in
      if leb max_steps counted.steps
      then (record counted { truncated = true }, false)
      else if ltb (walk.first.timestamp + t_path_seconds) hop.timestamp
      then (counted, false)
      else if is_skipped walk hop
      then (counted, true)
      else let searched = visit (extended walk hop) counted in (searched, not (is_spent searched))

  unfoldable pub try_hops : (Walk → Search → Search) → Walk → List Transfer → Search → Search
  unfolding try_hop
  try_hops visit walk [] state = state
  try_hops visit walk (hop ∷ rest) state =
      let (searched, goes_on) = try_hop visit walk hop state in
      let later = try_hops visit walk rest searched in if goes_on then later else searched

  -- The returns before the loop.
  unfoldable pub ends_at : Walk → Search → Option Search
  unfolding is_spent text_eq lookup
  ends_at walk state =
      if is_spent state
      then some (record state { truncated = true })
      else if text_eq walk.previous.to funder
      then some (record state {
        paths = state.paths ++ record { hops = walk.selected; credit_raw = walk.credit } ∷ [];
      })
      else if ltb 9 (length walk.selected + get_or (lookup walk.previous.to distance) 10)
      then some state
      else none

  -- The loop over the transfers of the address.
  unfoldable pub search_on : (Walk → Search → Search) → Walk → Search → Search
  unfolding try_hops outgoing search_lower
  search_on visit walk state =
      let hops = outgoing walk.previous.to graph in
      let lower = search_lower (length hops) walk.previous hops 0 (length hops) in
      try_hops visit walk (drop lower hops) state

  -- `walk` at the address that the last hop pays. The fuel is for ten hops, where no way is left.
  unfoldable pub walk_from : ℕ → Walk → Search → Search
  unfolding ends_at search_on
  walk_from zero walk state = get_or (ends_at walk state) state
  walk_from (suc fuel) walk state = elim (ends_at walk state) [
    | some ended ↦ ended
    | none ↦ search_on (walk_from fuel) walk state
  ]

  unfoldable pub starting : Text → Transfer → Walk
  unfolding add
  starting seller hop = record {
    selected = hop ∷ [];
    first = hop;
    previous = hop;
    credit = hop.amount_raw;
    visited = add hop.to (seller ∷ []);
  }

  unfoldable pub walk_all : Text → List Transfer → Search → Search
  unfolding walk_from is_spent starting
  walk_all seller [] state = state
  walk_all seller (hop ∷ rest) state =
      let searched = walk_from 9 (starting seller hop) state in
      let later = walk_all seller rest searched in
      if is_spent searched then record searched { truncated = true } else later

abbrev pub no_search : Search
no_search = record { paths = []; steps = 0; truncated = false }

pub data Failure : Type 0 where
  invalid_limits : Failure

-- `exhaustive` is always false and is left out.
pub record Discovered : Type 0 where
  pub paths : List RelayPath
  pub edge_count : ℕ
  pub loaded_trace_count : ℕ
  pub missing_traces : List Text
  pub truncated : Bool
  pub steps : ℕ
  pub max_paths : ℕ
  pub max_steps : ℕ

pub record Request : Type 0 where
  pub seller : Text
  pub funder : Text
  pub load_trace : Text → Option Trace
  pub earliest : ℕ
  pub end : ℕ
  pub max_paths : ℕ
  pub max_steps : ℕ

abbrev pub is_limit : ℕ → Bool
is_limit limit = is_safe_integer limit && ltb 0 limit

-- The search over a network that is built.
unfoldable pub search_network : Request → Network → Search
unfolding distances destinations sort_hops walk_all sort start_order outgoing
search_network request network =
    let graph = sort_hops network.graph in
    walk_all request.funder (distances request.funder network) (destinations graph) graph
      request.max_paths request.max_steps request.seller
      (sort start_order (outgoing request.seller graph)) no_search

unfoldable pub discover_expanded_return_graph : Request → Outcome Failure Discovered
unfolding build_network search_network sort unit_order
discover_expanded_return_graph request =
    if not (is_limit request.max_paths && is_limit request.max_steps)
    then throw invalid_limits
    else let network =
        build_network request.earliest request.end request.load_trace request.seller
          request.funder in
      let state = search_network request network in
      ok (record {
        paths = state.paths;
        edge_count = length network.edges;
        loaded_trace_count = length network.loaded;
        missing_traces = sort unit_order network.missing;
        truncated = state.truncated;
        steps = state.steps;
        max_paths = request.max_paths;
        max_steps = request.max_steps;
      })
