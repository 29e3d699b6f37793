-- ===== src/Graph/Building.antt =====
-- What the network of `discoverExpandedReturnGraph` holds: under each address the usable transfers that it
-- sends.
use loop_proof.Common.{
  ℕ, ◌≡◌, refl, sym, subst, arith, Bool-cases, inl, inr, true, not, ◌||◌, Option, none, some, List,
  [], ◌∷◌, Text, text_eq, text_eq_iff, has, keys_by_text, lookup, has_key, push, sort, unit_order,
  All, All-append,
}
use loop_proof.Graph.{
  Transfer, Trace, Network, no_network, outgoing, normalized, is_usable, identity, add_hop,
  add_hops, note_missing, outbound_of, inbound_of, load, expand, expand_level, start_network,
  start_frontier, build_network,
}

module _ (earliest end : ℕ) where
  -- A usable transfer of the address.
  abbrev pub IsSentBy : Text → Transfer → Type 0
  IsSentBy address hop = (hop.from ≡ address) × (is_usable earliest end hop ≡ true)

  abbrev pub IsGroup : Text × List Transfer → Type 0
  IsGroup (address, hops) = All (IsSentBy address) hops

  abbrev pub IsKeyed : List (Text × List Transfer) → Type 0
  IsKeyed graph = All IsGroup graph

  push-IsKeyed :
      (hop : Transfer) (graph : List (Text × List Transfer))
      → is_usable earliest end hop ≡ true
      → IsKeyed graph
      → IsKeyed (push hop.from hop graph)
  unfolding push
  push-IsKeyed hop [] usable keyed = (((refl, usable), tt), tt)
  push-IsKeyed hop ((address, hops) ∷ graph) usable (group, keyed) =
      elim (Bool-cases (text_eq address hop.from)) [
        | inl same ↦
            let sent : IsSentBy address hop =
              (sym ((text_eq_iff address hop.from).0 same), usable) in
            rw same (All-append (IsSentBy address) hops (hop ∷ []) group (sent, tt), keyed)
        | inr other ↦ rw other (group, push-IsKeyed hop graph usable keyed)
      ]

  add_hop-IsKeyed :
      (hop : Transfer) (network : Network)
      → IsKeyed network.graph
      → IsKeyed (add_hop earliest end hop network).graph
  unfolding add_hop
  add_hop-IsKeyed hop network keyed =
      let transfer = normalized hop in
      elim (Bool-cases
        (not (is_usable earliest end transfer) || has_key (identity transfer) network.edges)) [
          | inl old ↦ rw old keyed
          | inr new ↦ rw new (push-IsKeyed transfer network.graph (ground arith) keyed)
        ]

  add_hops-IsKeyed :
      (hops : List Transfer) (network : Network)
      → IsKeyed network.graph
      → IsKeyed (add_hops earliest end hops network).graph
  unfolding add_hops
  add_hops-IsKeyed [] network keyed = keyed
  add_hops-IsKeyed (hop ∷ hops) network keyed =
      add_hops-IsKeyed hops (add_hop earliest end hop network) (add_hop-IsKeyed hop network keyed)

  note_missing-IsKeyed :
      (address : Text) (trace : Option Trace) (network : Network)
      → IsKeyed network.graph
      → IsKeyed (note_missing address trace network).graph
  unfolding note_missing
  note_missing-IsKeyed address none network keyed = keyed
  note_missing-IsKeyed address (some trace) network keyed = elim (Bool-cases trace.complete) [
    | inl complete ↦ rw complete keyed
    | inr incomplete ↦ rw incomplete keyed
  ]

  module _ (load_trace : Text → Option Trace) (seller funder : Text) where
    load-IsKeyed :
        (address : Text) (network : Network)
        → IsKeyed network.graph
        → IsKeyed (load earliest end load_trace seller funder address network).graph
    unfolding load
    load-IsKeyed address network keyed = elim (Bool-cases (has address network.loaded)) [
      | inl old ↦ rw old keyed
      | inr new ↦ rw new (
          add_hops-IsKeyed (outbound_of (load_trace address)) _
            (note_missing-IsKeyed address (load_trace address) _ keyed))
    ]

    expand-IsKeyed :
        (frontier : List Text) (network : Network) (next : List Text)
        → IsKeyed network.graph
        → IsKeyed (expand earliest end load_trace seller funder frontier (network, next)).0.graph
    unfolding expand
    expand-IsKeyed [] network next keyed = keyed
    expand-IsKeyed (address ∷ rest) network next keyed =
        elim (Bool-cases (text_eq address funder || text_eq address seller)) [
          | inl terminal ↦ rw terminal (expand-IsKeyed rest network next keyed)
          | inr inner ↦ rw inner (expand-IsKeyed rest _ _ (load-IsKeyed address network keyed))
        ]

    start_network-IsKeyed : IsKeyed (start_network earliest end load_trace seller funder).graph
    unfolding start_network
    start_network-IsKeyed =
        let terminal = load_trace funder in
        let noted = note_missing funder terminal no_network in
        load-IsKeyed seller (add_hops earliest end (inbound_of terminal) noted) (
          add_hops-IsKeyed (inbound_of terminal) noted
            (note_missing-IsKeyed funder terminal no_network tt))

    expand_level-IsKeyed :
        (reached : Network × List Text)
        → IsKeyed reached.0.graph
        → IsKeyed (expand_level earliest end load_trace seller funder reached).0.graph
    expand_level-IsKeyed (network, frontier) keyed =
        expand-IsKeyed (sort unit_order frontier) network [] keyed

    pub build_network-IsKeyed : IsKeyed (build_network earliest end load_trace seller funder).graph
    unfolding build_network
    build_network-IsKeyed =
        let reached : Network × List Text = (
          start_network earliest end load_trace seller funder,
          start_frontier earliest end load_trace seller funder,
        ) in
        expand_level-IsKeyed (expand_level earliest end load_trace seller funder reached)
          (expand_level-IsKeyed reached start_network-IsKeyed)

  pub outgoing-IsKeyed :
      (address : Text) (graph : List (Text × List Transfer))
      → IsKeyed graph
      → All (IsSentBy address) (outgoing address graph)
  unfolding outgoing lookup
  outgoing-IsKeyed address [] keyed = tt
  outgoing-IsKeyed address ((key, hops) ∷ graph) (group, keyed) =
      elim (Bool-cases (text_eq key address)) [
        | inl same ↦
            rw same (
              subst (λ sender. All (IsSentBy sender) hops) ((text_eq_iff key address).0 same) group)
        | inr other ↦ rw other (outgoing-IsKeyed address graph keyed)
      ]
