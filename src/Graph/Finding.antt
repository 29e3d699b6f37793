-- ===== src/Graph/Finding.antt =====
-- The result of `discoverExpandedReturnGraph`: every path is a route, and there are not too many.
use loop_proof.Common.{
  ℕ, ◌≤◌, ◌≡◌, subst, arith, Bool-cases, inl, inr, not, ◌&&◌, List, [], ◌∷◌, length, Text, All,
  All-sort, sort, ok, ok_injective,
}
use loop_proof.Graph.{Transfer, Network, outgoing, order, build_network}
use loop_proof.Graph.Building.{IsSentBy, IsKeyed, outgoing-IsKeyed, build_network-IsKeyed}
use loop_proof.Graph.Distances.{distances, distances-IsAway, destinations}
use loop_proof.Graph.Walking.{
  RelayPath, Request, Discovered, is_limit, sort_hops, start_order, search_network, no_search,
  discover_expanded_return_graph,
}
use loop_proof.Graph.Routes.{IsFound, walk_all-Holds}

sort_hops-IsKeyed :
    (earliest end : ℕ) (graph : List (Text × List Transfer))
    → IsKeyed earliest end graph
    → IsKeyed earliest end (sort_hops graph)
unfolding sort_hops
sort_hops-IsKeyed earliest end [] keyed = tt
sort_hops-IsKeyed earliest end ((address, hops) ∷ graph) (group, keyed) = (
  All-sort order (IsSentBy earliest end address) hops group,
  sort_hops-IsKeyed earliest end graph keyed,
)

-- What the paths of a search are.
abbrev pub AreFound : Request → List RelayPath → Type 0
AreFound request paths =
    All (IsFound request.earliest request.end request.seller request.funder) paths
    × (length paths ≤ request.max_paths)

search_network-AreFound :
    (request : Request) (network : Network)
    → IsKeyed request.earliest request.end network.graph
    → AreFound request (search_network request network).paths
unfolding search_network
search_network-AreFound request network keyed =
    let graph = sort_hops network.graph in
    let sorted = sort_hops-IsKeyed request.earliest request.end network.graph keyed in
    let sent = outgoing-IsKeyed request.earliest request.end request.seller graph sorted in
    walk_all-Holds request.earliest request.end request.seller request.funder
      (distances request.funder network) (destinations graph) graph sorted
      (distances-IsAway request.funder network) request.max_paths request.max_steps
      (sort start_order (outgoing request.seller graph)) no_search
      (All-sort start_order (IsSentBy request.earliest request.end request.seller)
        (outgoing request.seller graph) sent)
      (tt, omega arith)

-- Where discoverExpandedReturnGraph returns, it has at most maxPaths paths, and each is a route: its first
-- hop leaves the seller and its last one pays the funder, it has at most nine hops, each hop leaves where
-- the one before arrived, comes strictly after it, retains the required share of it, is at most the path's
-- time after the first, is in the period, and pays an address that the route has not met; the
-- credit is the smallest amount.
pub discover_expanded_return_graph-AreFound :
    (request : Request) (found : Discovered)
    → discover_expanded_return_graph request ≡ ok found
    → AreFound request found.paths
unfolding discover_expanded_return_graph
discover_expanded_return_graph-AreFound request found done =
    elim (Bool-cases (not (is_limit request.max_paths && is_limit request.max_steps))) [
      | inl invalid ↦ let failed = rw invalid at done in cc
      | inr valid ↦
          let network =
            build_network request.earliest request.end request.load_trace request.seller
              request.funder in
          subst (λ (d : Discovered). AreFound request d.paths) (ok_injective (rw valid at done))
            (search_network-AreFound request network (
              build_network-IsKeyed request.earliest request.end request.load_trace request.seller
                request.funder))
    ]
