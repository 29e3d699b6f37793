-- ===== src/Returns/Discover.antt =====
-- scripts/return-path-selection.mjs: `discoverCachedRelayReturns`, which builds return paths of two or
-- three hops from cached traces. `loadTrace` is an argument: a trace, or `none` where there is none.
-- `mapConcurrent` stores each trace at the index of its relay, so the order of the loads is not seen.
pub mod Found
pub mod Accounting
use loop_proof.Returns.Prefixes.{
  Trace, normalize_transfer, serialize_transfer, from_of, to_of, time_of, Prefix, outbound_of,
  inbound_of, is_first_hop, seconds_after, prefixes_through, compare_prefixes,
}
use loop_proof.Common.{
  ℕ, ◌+◌, ◌-◌, ◌==◌, compare, min, ltb, leb, if◌then◌else◌, Bool, true, false, not, ◌&&◌, ◌||◌,
  Ordering, Option, none, some, get_or, List, [], ◌∷◌, ◌++◌, map, filter, any, flat_map, length,
  Text, text_eq, to_lower_case, unit_order, or_else, sort, keys_by_text, has, add_all, set_of,
  lookup, group_by,
}
use loop_proof.Policy.{t_path_seconds}
use loop_proof.Evidence.{Atom, number_of}
use loop_proof.Returns.{normalize_address, transfer_key, retains, compare_transfer}

-- A path that was found; its seller and its funder are the arguments.
pub record FoundPath : Type 0 where
  pub relay : Text
  pub intermediary : Option Text
  pub hops : List Atom

abbrev pub found_path : Prefix → List Atom → FoundPath
found_path p hops = record {
  relay = p.relay;
  intermediary = if length hops == 3 then some (to_of p.second) else none;
  hops = map serialize_transfer hops;
}

-- The state of the loop over the prefixes.
pub record Discovery : Type 0 where
  pub paths : List FoundPath
  pub returned_raw : ℕ
  pub used_keys : List Text

abbrev pub is_finished : ℕ → ℕ → Discovery → Bool
is_finished max_paths required s = leb max_paths (length s.paths) || leb required s.returned_raw

module _ (collate : Text → Text → Ordering) where
  -- The best entry after one more; where the credits are equal the earlier transfer is better.
  unfoldable pub improve : Prefix → List Text → Option (Atom × ℕ) → Atom → Option (Atom × ℕ)
  unfolding transfer_key retains compare_transfer has
  improve p used best entry =
      let credit = min p.prefix_credit_raw entry.amount_raw in
      let skipped =
        leb (time_of entry) (time_of p.second)
        || (has (transfer_key entry) used || not (retains entry.amount_raw p.second.amount_raw)) in
      let better : Bool = elim best [
        | none ↦ ltb 0 credit
        | some (old, old_credit) ↦
            ltb old_credit credit
            || (credit == old_credit
                && elim (compare_transfer collate entry old) [ Ordering.lt ↦ true | _ ↦ false ])
      ] in
      if not skipped && better then some (entry, credit) else best

  -- `bestAvailableFinish`, from the best entry so far: an entry too late for the path ends the loop.
  unfoldable pub best_finish :
      Prefix → List Text → Option (Atom × ℕ) → List Atom → Option (Atom × ℕ)
  unfolding improve
  best_finish p used best [] = best
  best_finish p used best (entry ∷ rest) =
      let others = best_finish p used (improve p used best entry) rest in
      if ltb (time_of p.second) (time_of entry)
        && ltb t_path_seconds (time_of entry - time_of p.first)
      then best
      else others

  -- The hops of a path from a prefix, and its credit.
  unfoldable pub complete_path :
      Text → List (Text × List Atom) → List Text → Prefix → Option (List Atom × ℕ)
  unfolding best_finish lookup text_eq
  complete_path funder inbound used p =
      if text_eq (to_of p.second) funder
      then some (p.first ∷ p.second ∷ [], p.prefix_credit_raw)
      else elim (best_finish p used none (get_or (lookup (to_of p.second) inbound) [])) [
        | none ↦ none
        | some (finish, credit) ↦ some (p.first ∷ p.second ∷ finish ∷ [], credit)
      ]

  -- The loop's body: a path that shares a transfer with what is used is passed over.
  unfoldable pub extend : Text → List (Text × List Atom) → Discovery → Prefix → Discovery
  unfolding complete_path transfer_key has add_all serialize_transfer
  extend funder inbound s p =
      if has (transfer_key p.first) s.used_keys || has (transfer_key p.second) s.used_keys
      then s
      else elim (complete_path funder inbound s.used_keys p) [
        | none ↦ s
        | some (hops, credit) ↦
            if any (λ key. has key s.used_keys) (map transfer_key hops) then s else record {
              paths = s.paths ++ found_path p hops ∷ [];
              returned_raw = s.returned_raw + credit;
              used_keys = add_all (map transfer_key hops) s.used_keys;
            }
      ]

  unfoldable pub discover_loop :
      Text → List (Text × List Atom) → ℕ → ℕ → List Prefix → Discovery → Discovery
  unfolding extend
  discover_loop funder inbound max_paths required [] s = s
  discover_loop funder inbound max_paths required (p ∷ rest) s =
      let next = discover_loop funder inbound max_paths required rest (extend funder inbound s p) in
      if is_finished max_paths required s then s else next

-- The arguments of `discoverCachedRelayReturns`.
pub record Request : Type 0 where
  pub seller : Text
  pub funder : Text
  pub seller_trace : Option Trace
  pub funder_trace : Option Trace
  pub earliest_settlement_timestamp : ℕ
  pub required_raw : ℕ
  pub max_paths : ℕ
  pub reserved_keys : List Text

-- `firstHops`, by the relay that receives them.
unfoldable pub first_hops_by_relay : Request → List (Text × List Atom)
unfolding is_first_hop normalize_transfer group_by to_lower_case
first_hops_by_relay r = group_by to_of (
    filter
      (is_first_hop (to_lower_case r.seller) (to_lower_case r.funder)
        r.earliest_settlement_timestamp)
      (outbound_of r.seller_trace))

module _ (collate : Text → Text → Ordering) where
  -- `funderInboundBySender`, each sender's transfers in order.
  unfoldable pub funder_inbound_by_sender : Request → List (Text × List Atom)
  unfolding normalize_transfer group_by to_lower_case text_eq compare_transfer
  funder_inbound_by_sender r =
      map (λ (entry : Text × List Atom). (entry.0, sort (compare_transfer collate) entry.1))
        (group_by from_of (
          filter
            (λ (entry : Atom).
              text_eq (to_of entry) (to_lower_case r.funder) && not (entry.amount_raw == 0))
            (inbound_of r.funder_trace)))

  -- The prefixes through all relays, in the order in which they are tried.
  unfoldable pub all_prefixes : (Text → Option Trace) → Request → List Prefix
  unfolding first_hops_by_relay prefixes_through compare_prefixes
  all_prefixes load_trace r =
      let by_relay = first_hops_by_relay r in
      let relays = sort unit_order (map (λ (entry : Text × List Atom). entry.0) by_relay) in
      sort (compare_prefixes collate)
        (flat_map (λ relay. prefixes_through collate by_relay relay (load_trace relay)) relays)

  unfoldable pub discover_cached_relay_returns : (Text → Option Trace) → Request → Discovery
  unfolding all_prefixes funder_inbound_by_sender discover_loop to_lower_case set_of
  discover_cached_relay_returns load_trace r =
      discover_loop collate (to_lower_case r.funder) (funder_inbound_by_sender r) r.max_paths
        r.required_raw (all_prefixes load_trace r)
        (record { paths = []; returned_raw = 0; used_keys = set_of r.reserved_keys })
