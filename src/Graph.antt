-- ===== src/Graph.antt =====
-- scripts/expanded-return-graph.mjs: `discoverExpandedReturnGraph`, which searches the transfers that are
-- reached from a seller for paths to a funder. `loadTrace` is an argument; `none` is a trace that is
-- not there. A raw transfer has its hash, whichever of the two fields it stands in.
pub mod Building
pub mod Walking
pub mod Routes
pub mod Distances
pub mod Finding
pub mod Fuel
use loop_proof.Common.{
  ℕ, zero, suc, ◌+◌, ◌-◌, ◌*◌, ◌/◌, compare, Ordering, ltb, leb, ◌==◌, if◌then◌else◌, Bool, true,
  false, not, ◌&&◌, ◌||◌, Option, none, some, get_or, List, [], ◌∷◌, ◌++◌, map, any, length,
  get_elem?, drop, Text, codes, text_eq, to_lower_case, decimal, keys_by_text, has, add, set_of,
  lookup, has_key, insert, push, or_else, sort, unit_order,
}
use loop_proof.Policy.{rho_hop_bps, t_path_seconds, basis_points}

pub record Transfer : Type 0 where
  pub from : Text
  pub to : Text
  pub tx_hash : Text
  pub log_index : ℕ
  pub timestamp : ℕ
  pub amount_raw : ℕ

pub record Trace : Type 0 where
  pub complete : Bool
  pub inbound_usdc : List Transfer
  pub outbound_usdc : List Transfer

-- What the search has read.
pub record Network : Type 0 where
  pub graph : List (Text × List Transfer)
  pub edges : List (Text × Transfer)
  pub loaded : List Text
  pub missing : List Text

abbrev pub no_network : Network
no_network = record { graph = []; edges = []; loaded = []; missing = [] }

-- `graph.get(address) ?? []`
unfoldable pub outgoing : Text → List (Text × List Transfer) → List Transfer
unfolding lookup
outgoing address graph = get_or (lookup address graph) []

unfoldable pub normalized : Transfer → Transfer
unfolding to_lower_case
normalized hop = record hop {
  from = to_lower_case hop.from;
  to = to_lower_case hop.to;
  tx_hash = to_lower_case hop.tx_hash;
}

unfoldable pub identity : Transfer → Text
unfolding decimal
identity transfer = transfer.tx_hash ++ (codes ":" ++ decimal transfer.log_index)

-- The order of the transfers of an address.
unfoldable pub order : Transfer → Transfer → Ordering
order left right =
    or_else (compare left.timestamp right.timestamp) (compare left.log_index right.log_index)

abbrev pub comes_before : Transfer → Transfer → Bool
comes_before left right = elim (order left right) [ Ordering.lt ↦ true | _ ↦ false ]

-- A trace that is missing or incomplete is noted.
unfoldable pub note_missing : Text → Option Trace → Network → Network
unfolding add
note_missing address none network = record network { missing = add address network.missing }
note_missing address (some trace) network =
    if trace.complete then network else record network { missing = add address network.missing }

abbrev pub outbound_of : Option Trace → List Transfer
outbound_of none = []
outbound_of (some trace) = trace.outbound_usdc

abbrev pub inbound_of : Option Trace → List Transfer
inbound_of none = []
inbound_of (some trace) = trace.inbound_usdc

module _ (earliest end : ℕ) where
  -- The transfers that `add` takes.
  unfoldable pub is_usable : Transfer → Bool
  unfolding text_eq
  is_usable transfer =
      ltb earliest transfer.timestamp
      && (leb transfer.timestamp end
          && (not (text_eq transfer.from transfer.to) && ltb 0 transfer.amount_raw))

  -- `add`
  unfoldable pub add_hop : Transfer → Network → Network
  unfolding normalized is_usable identity has_key push
  add_hop hop network =
      let transfer = normalized hop in
      if not (is_usable transfer) || has_key (identity transfer) network.edges
      then network
      else record network {
        graph = push transfer.from transfer network.graph;
        edges = network.edges ++ (identity transfer, transfer) ∷ [];
      }

  unfoldable pub add_hops : List Transfer → Network → Network
  unfolding add_hop
  add_hops [] network = network
  add_hops (hop ∷ rest) network = add_hops rest (add_hop hop network)

  module _ (load_trace : Text → Option Trace) (seller funder : Text) where
    -- `load`
    unfoldable pub load : Text → Network → Network
    unfolding has add_hops note_missing
    load address network =
        if has address network.loaded
        then network
        else add_hops (outbound_of (load_trace address)) (
            note_missing address (load_trace address)
              (record network { loaded = network.loaded ++ address ∷ [] }))

    -- One level of the frontier, in the order of the addresses.
    unfoldable pub expand : List Text → Network × List Text → Network × List Text
    unfolding text_eq load outgoing set_of add
    expand [] (network, next) = (network, next)
    expand (address ∷ rest) (network, next) =
        if text_eq address funder || text_eq address seller
        then expand rest (network, next)
        else let grown = load address network in
          expand rest (
            grown,
            set_of (next ++ map (λ (hop : Transfer). hop.to) (outgoing address grown.graph)),
          )

    abbrev pub expand_level : Network × List Text → Network × List Text
    expand_level (network, frontier) = expand (sort unit_order frontier) (network, [])

    -- The funder's receipts and the seller's payments.
    unfoldable pub start_network : Network
    unfolding note_missing add_hops load
    start_network =
        let terminal = load_trace funder in
        load seller (add_hops (inbound_of terminal) (note_missing funder terminal no_network))

    -- Whom the seller pays.
    unfoldable pub start_frontier : List Text
    unfolding start_network outgoing set_of
    start_frontier = set_of (map (λ (hop : Transfer). hop.to) (outgoing seller start_network.graph))

    -- The network before the search, with two levels more.
    unfoldable pub build_network : Network
    unfolding start_network start_frontier expand sort unit_order
    build_network = (expand_level (expand_level (start_network, start_frontier))).0
