-- ===== src/Tests/Graphs.antt =====
-- A seller who pays a relay, and a relay that pays the funder.
use loop_proof.Common.{
  ◌≡◌, refl, arith, false, true, Option, some, [], ◌∷◌, Text, codes, text_eq, if◌then◌else◌, ok,
}
use loop_proof.Graph.{Transfer, Trace}
use loop_proof.Graph.Walking.{
  Request, Discovered, Walk, no_search, walk_from, discover_expanded_return_graph,
}
use loop_proof.Graph.Finding.{AreFound, discover_expanded_return_graph-AreFound}
use loop_proof.Graph.Fuel.{walk_from_stable}

abbrev payment : Transfer
payment = record {
  from = codes "s";
  to = codes "r";
  tx_hash = codes "t1";
  log_index = 1;
  timestamp = 10;
  amount_raw = 1000;
}

abbrev receipt : Transfer
receipt = record {
  from = codes "r";
  to = codes "f";
  tx_hash = codes "t2";
  log_index = 2;
  timestamp = 20;
  amount_raw = 900;
}

abbrev trace_of : Text → Option Trace
trace_of address =
    if text_eq address (codes "s")
    then some (record { complete = true; inbound_usdc = []; outbound_usdc = payment ∷ [] })
    else if text_eq address (codes "r")
    then some (record { complete = true; inbound_usdc = []; outbound_usdc = receipt ∷ [] })
    else some (record { complete = true; inbound_usdc = receipt ∷ []; outbound_usdc = [] })

abbrev request : Request
request = record {
  seller = codes "s";
  funder = codes "f";
  load_trace = trace_of;
  earliest = 5;
  end = 100;
  max_paths = 10;
  max_steps = 100;
}

abbrev discovered : Discovered
discovered = record {
  paths = record { hops = payment ∷ receipt ∷ []; credit_raw = 900 } ∷ [];
  edge_count = 2;
  loaded_trace_count = 2;
  missing_traces = [];
  truncated = false;
  steps = 1;
  max_paths = 10;
  max_steps = 100;
}

discovered_by : discover_expanded_return_graph request ≡ ok discovered
unfolding discover_expanded_return_graph text_eq
discovered_by = refl

discover_expanded_return_graph-AreFound_example : AreFound request discovered.paths
discover_expanded_return_graph-AreFound_example =
    discover_expanded_return_graph-AreFound request discovered discovered_by

abbrev beginning : Walk
beginning = record {
  selected = payment ∷ [];
  first = payment;
  previous = payment;
  credit = 1000;
  visited = codes "s" ∷ codes "r" ∷ [];
}

walk_from_stable_example :
    walk_from
      (codes "f")
      ((codes "f", 0) ∷ (codes "r", 1) ∷ [])
      ((codes "r", codes "f" ∷ []) ∷ [])
      ((codes "r", receipt ∷ []) ∷ [])
      10
      100
      10
      beginning
      no_search
    ≡ walk_from
        (codes "f")
        ((codes "f", 0) ∷ (codes "r", 1) ∷ [])
        ((codes "r", codes "f" ∷ []) ∷ [])
        ((codes "r", receipt ∷ []) ∷ [])
        10
        100
        9
        beginning
        no_search
walk_from_stable_example =
    walk_from_stable (codes "f") ((codes "f", 0) ∷ (codes "r", 1) ∷ [])
      ((codes "r", codes "f" ∷ []) ∷ []) ((codes "r", receipt ∷ []) ∷ []) 10 100 9 beginning
      no_search (omega arith)
