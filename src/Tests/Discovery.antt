-- ===== src/Tests/Discovery.antt =====
-- Return paths out of cached traces.
use loop_proof.Returns.Prefixes.{
  Trace, normalize_transfer, serialize_transfer, is_first_hop, seconds_after, prefixes_through,
  compare_prefixes,
}
use loop_proof.Common.{
  ◌≡◌, refl, true, List, [], ◌∷◌, Option, none, some, Text, codes, text_eq, to_lower_case, decimal,
  unit_order, sort, set_of, has, add_all, keys_by_text, lookup, group_by, push, if◌then◌else◌,
}
use loop_proof.Evidence.{Atom}
use loop_proof.Returns.{normalize_address, transfer_key, retains, if_both_safe, compare_transfer}
use loop_proof.Returns.Discover.{
  Request, improve, best_finish, complete_path, extend, discover_loop, first_hops_by_relay,
  funder_inbound_by_sender, all_prefixes, discover_cached_relay_returns,
}
use loop_proof.Returns.Discover.Found.{IsDiscovery}
use loop_proof.Returns.Discover.Accounting.{discover_cached_relay_returns-IsDiscovery}
use loop_proof.Tests.Samples.{hop_at}

program : Unit {0}
unfolding text_eq to_lower_case decimal unit_order sort set_of has add_all lookup group_by push
    normalize_address transfer_key retains if_both_safe compare_transfer normalize_transfer
    serialize_transfer is_first_hop seconds_after prefixes_through compare_prefixes improve
    best_finish complete_path extend discover_loop first_hops_by_relay funder_inbound_by_sender
    all_prefixes discover_cached_relay_returns
program = tt

abbrev trace : List Atom → List Atom → Option Trace
trace outbound inbound =
    some (record { complete = true; outbound_usdc = outbound; inbound_usdc = inbound })

-- The seller pays a relay, the relay pays somebody, who pays the funder.
abbrev payment : Atom
payment = hop_at 10 1000 (codes "0xs") (codes "0xr")

abbrev forward : Atom
forward = hop_at 20 900 (codes "0xr") (codes "0xi")

abbrev receipt : Atom
receipt = hop_at 30 800 (codes "0xi") (codes "0xF")

abbrev load_trace : Text → Option Trace
load_trace address = if text_eq address (codes "0xr") then trace (forward ∷ []) [] else none

abbrev request : Request
request = record {
  seller = codes "0xS";
  funder = codes "0xf";
  seller_trace = trace (payment ∷ []) [];
  funder_trace = trace [] (receipt ∷ []);
  earliest_settlement_timestamp = 5;
  required_raw = 500;
  max_paths = 512;
  reserved_keys = [];
}

found_amount : (discover_cached_relay_returns unit_order load_trace request).returned_raw ≡ 800
unfolding program
found_amount = refl

-- With the receipt reserved nothing is found.
none_found :
    (discover_cached_relay_returns unit_order load_trace
      (record request { reserved_keys = codes "0xt:30" ∷ [] })).paths
    ≡ []
unfolding program
none_found = refl

discover_cached_relay_returns-IsDiscovery_example :
    IsDiscovery 512 500 (set_of []) (discover_cached_relay_returns unit_order load_trace request)
discover_cached_relay_returns-IsDiscovery_example =
    discover_cached_relay_returns-IsDiscovery unit_order load_trace request
