-- ===== src/Returns/Prefixes.antt =====
-- scripts/return-path-selection.mjs: the transfers of cached traces, and the first two hops of the return
-- paths that `discoverCachedRelayReturns` tries.
use loop_proof.Common.{
  ℕ, ◌-◌, ◌==◌, compare, min, ltb, leb, if◌then◌else◌, Bool, not, ◌&&◌, Ordering, Option, none,
  some, get_or, List, [], ◌∷◌, map, filter, flat_map, Text, text_eq, or_else, sort, keys_by_text,
  lookup,
}
use loop_proof.Policy.{t_path_seconds}
use loop_proof.Evidence.{Atom, number_of}
use loop_proof.Returns.{normalize_address, retains, compare_transfer}

-- The cached transfers of an address.
pub record Trace : Type 0 where
  pub complete : Bool
  pub outbound_usdc : List Atom
  pub inbound_usdc : List Atom

-- `normalizeTransfer`. The entries of a trace have no `dependencyId`.
unfoldable pub normalize_transfer : Atom → Atom
unfolding normalize_address
normalize_transfer entry = record entry {
  dependency_id = none;
  timestamp = some (number_of entry.timestamp);
  log_index = some (number_of entry.log_index);
  from = some (normalize_address entry.from);
  to = some (normalize_address entry.to);
}

-- `serializeTransfer`
unfoldable pub serialize_transfer : Atom → Atom
serialize_transfer entry = record entry { block_number = none; transaction_index = none }

abbrev pub from_of : Atom → Text
from_of entry = get_or entry.from []

abbrev pub to_of : Atom → Text
to_of entry = get_or entry.to []

abbrev pub time_of : Atom → ℕ
time_of entry = number_of entry.timestamp

-- The first two hops of a path.
pub record Prefix : Type 0 where
  pub first : Atom
  pub second : Atom
  pub relay : Text
  pub prefix_credit_raw : ℕ

abbrev pub outbound_of : Option Trace → List Atom
outbound_of none = []
outbound_of (some trace) = map normalize_transfer trace.outbound_usdc

abbrev pub inbound_of : Option Trace → List Atom
inbound_of none = []
inbound_of (some trace) = map normalize_transfer trace.inbound_usdc

-- The hops that leave the seller after the earliest settlement.
unfoldable pub is_first_hop : Text → Text → ℕ → Atom → Bool
unfolding text_eq
is_first_hop seller funder earliest entry =
    text_eq (from_of entry) seller
    && (not (text_eq (to_of entry) seller)
        && (not (text_eq (to_of entry) funder)
            && (not (entry.amount_raw == 0) && ltb earliest (time_of entry))))

-- The loop over a relay's outbound hops: a hop too late for the path ends it.
unfoldable pub seconds_after : Text → Atom → List Atom → List Prefix
unfolding retains
seconds_after relay first [] = []
seconds_after relay first (second ∷ rest) =
    let others = seconds_after relay first rest in
    if leb (time_of second) (time_of first)
    then others
    else if not (retains second.amount_raw first.amount_raw)
    then others
    else if ltb t_path_seconds (time_of second - time_of first)
    then []
    else record {
      first = first;
      second = second;
      relay = relay;
      prefix_credit_raw = min first.amount_raw second.amount_raw;
    }
      ∷ others

module _ (collate : Text → Text → Ordering) where
  -- The prefixes through one relay; an incomplete trace gives none.
  unfoldable pub prefixes_through : List (Text × List Atom) → Text → Option Trace → List Prefix
  unfolding seconds_after lookup text_eq compare_transfer normalize_transfer
  prefixes_through by_relay relay none = []
  prefixes_through by_relay relay (some trace) =
      let outbound = sort (compare_transfer collate) (
        filter (λ (entry : Atom). text_eq (from_of entry) relay && not (entry.amount_raw == 0))
          (outbound_of (some trace))) in
      let found =
        flat_map (λ (first : Atom). seconds_after relay first outbound)
          (get_or (lookup relay by_relay) []) in
      if trace.complete then found else []

  unfoldable pub compare_prefixes : Prefix → Prefix → Ordering
  unfolding compare_transfer
  compare_prefixes left right = or_else (compare right.prefix_credit_raw left.prefix_credit_raw) (
      or_else (compare_transfer collate left.first right.first)
        (compare_transfer collate left.second right.second))
