-- ===== src/Returns/Discover/Accounting.antt =====
-- `discoverCachedRelayReturns`: what it returns for any traces.
use loop_proof.Returns.Prefixes.{Trace, time_of, seconds_after, prefixes_through, compare_prefixes}
use loop_proof.Common.{
  ◌-◌, refl, inl, inr, arith, ltb, leb, Bool-cases, Option, none, some, get_or, List, [], ◌∷◌, All,
  All-sort, All-flat_map, Text, Ordering, lookup, to_lower_case, keys_by_text, set_of,
  set_of-IsDistinct,
}
use loop_proof.Policy.{t_path_seconds}
use loop_proof.Evidence.{Atom}
use loop_proof.Returns.{retains}
use loop_proof.Returns.Discover.{
  Request, first_hops_by_relay, all_prefixes, funder_inbound_by_sender,
  discover_cached_relay_returns,
}
use loop_proof.Returns.Discover.Found.{IsCredited, IsDiscovery, discover_loop-IsDiscovery}

seconds_after-IsCredited :
    (relay : Text) (first : Atom) (outbound : List Atom)
    → All IsCredited (seconds_after relay first outbound)
unfolding seconds_after
seconds_after-IsCredited relay first [] = tt
seconds_after-IsCredited relay first (second ∷ rest) =
    let others = seconds_after-IsCredited relay first rest in
    elim (Bool-cases (leb (time_of second) (time_of first))) [
      | inl early ↦ rw early others
      | inr later ↦ elim (Bool-cases (retains second.amount_raw first.amount_raw)) [
        | inr lost ↦ rw (later, lost) others
        | inl kept ↦ elim (Bool-cases (ltb t_path_seconds (time_of second - time_of first))) [
          | inl late ↦ rw (later, kept, late) tt
          | inr in_time ↦ rw (later, kept, in_time) (refl, others)
        ]
      ]
    ]

module _ (collate : Text → Text → Ordering) where
  prefixes_through-IsCredited :
      (by_relay : List (Text × List Atom)) (relay : Text) (trace : Option Trace)
      → All IsCredited (prefixes_through collate by_relay relay trace)
  unfolding prefixes_through
  prefixes_through-IsCredited by_relay relay none = tt
  prefixes_through-IsCredited by_relay relay (some trace) = elim (Bool-cases trace.complete) [
    | inr incomplete ↦ rw incomplete tt
    | inl complete ↦ rw complete (
        All-flat_map IsCredited _ (λ (first : Atom). seconds_after-IsCredited relay first _)
          (get_or (lookup relay by_relay) []))
  ]

  all_prefixes-IsCredited :
      (load_trace : Text → Option Trace) (r : Request)
      → All IsCredited (all_prefixes collate load_trace r)
  unfolding all_prefixes
  all_prefixes-IsCredited load_trace r = All-sort (compare_prefixes collate) IsCredited _ (
      All-flat_map IsCredited _
        (λ relay. prefixes_through-IsCredited (first_hops_by_relay r) relay (load_trace relay)) _)

  -- The paths are at most `maxPaths`. No path has a transfer that is reserved or in a path before it,
  -- the used keys are the reserved ones and those of the paths, with no key twice, and the returned
  -- amount is the sum of the paths' smallest amounts. The paths before the last one give less than
  -- what is required.
  pub discover_cached_relay_returns-IsDiscovery :
      (load_trace : Text → Option Trace) (r : Request)
      → IsDiscovery r.max_paths r.required_raw
          (set_of r.reserved_keys)
          (discover_cached_relay_returns collate load_trace r)
  unfolding discover_cached_relay_returns
  discover_cached_relay_returns-IsDiscovery load_trace r =
      discover_loop-IsDiscovery collate (to_lower_case r.funder)
        (funder_inbound_by_sender collate r) r.max_paths r.required_raw (set_of r.reserved_keys)
        (all_prefixes collate load_trace r)
        (record { paths = []; returned_raw = 0; used_keys = set_of r.reserved_keys })
        (all_prefixes-IsCredited load_trace r)
        (record {
          used = refl;
          distinct = set_of-IsDistinct r.reserved_keys;
          separate = tt;
          counted = refl;
          bounded = omega arith;
          needed = inl refl;
        })
