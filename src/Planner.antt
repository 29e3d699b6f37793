-- ===== src/Planner.antt =====
-- scripts/proof-planner.mjs: the order of evidence, the authentication group of a block and the
-- cost of a selection, which all parts of the planner use. Evidence here is resolved: its blocks
-- and its place in the block are known.
pub mod Order
pub mod Capacity
pub mod Ledger
pub mod Closure
pub mod Inconsistent
pub mod Choosing
pub mod Cohort
pub mod Plans
pub mod Memberships
use loop_proof.Common.{
  ℕ, ◌+◌, compare, Ordering, ltb, ◌==◌, if◌then◌else◌, Bool, true, false, not, ◌||◌, Option, none,
  some, get_or, List, [], ◌∷◌, ◌++◌, map, flat_map, length, sum_by, Text, codes, decimal, join,
  or_else, sort, unit_order, nat_eq, set_of, Outcome, ok, throw, map_outcome, ◌>>=◌, ◌>>◌, throw_if,
}
use loop_proof.Evidence.{
  Atom, RelayPath, Evidence, atom, relay_path, atomic_evidence, number_of, Platform,
}
use loop_proof.Returns.{is_safe_integer}

abbrev pub historical_start_block : ℕ
historical_start_block = 44469557

abbrev pub minimum_reciprocal_volume_bps : ℕ
minimum_reciprocal_volume_bps = 8000

-- What the planner throws, with the text that its message names.
pub data Failure : Type 0 where
  block_predates_coverage : Option ℕ → Failure
  missing_ledger_balance : Text → Failure
  missing_dependency_id : Failure
  unsupported_claim_type : Text → Failure
  no_cohort_strategy : Text → Failure
  no_reciprocity : Failure
  volume_mismatch : Text → Failure
  reciprocal_volume_mismatch : Text → Failure
  invalid_return_volume : Failure
  missing_report_dependency : Text → Failure
  merkle_target_not_found : Failure
  missing_metric : Failure
  empty_path : Failure

-- `authenticationGroup`: it names the block's group, and throws for a block that is missing, unsafe
-- or too old.
unfoldable pub authentication_group : Option ℕ → Outcome Failure Text
unfolding decimal
authentication_group none = throw (block_predates_coverage none)
authentication_group (some block) =
    if not (is_safe_integer block) || ltb block historical_start_block
    then throw (block_predates_coverage (some block))
    else ok (codes "block:" ++ decimal block)

-- `sumRaw`
abbrev pub sum_raw : List Atom → ℕ
sum_raw = sum_by (λ (entry : Atom). entry.amount_raw)

-- The identifier of listed evidence.
abbrev pub id_of : Atom → Text
id_of entry = get_or entry.dependency_id []

abbrev pub evidence_id : Evidence → Text
evidence_id (atom a) = id_of a
evidence_id (relay_path path) = path.dependency_id

abbrev pub buyer_of : Atom → Text
buyer_of entry = get_or entry.buyer []

-- The place of a log on the chain.
unfoldable pub compare_position : Atom → Atom → Ordering
compare_position left right =
    or_else (compare (number_of left.block_number) (number_of right.block_number)) (
      or_else (compare (number_of left.transaction_index) (number_of right.transaction_index))
        (compare (number_of left.log_index) (number_of right.log_index)))

-- The parts of `costTuple`.
pub record Cost : Type 0 where
  pub windows : ℕ
  pub atoms : ℕ
  pub witness_bytes : ℕ
  pub canonical : Text

module _ (platform : Platform) where
  open platform use {collate, stringify}

  -- `compareEvidence` of two single logs.
  unfoldable pub compare_atoms : Atom → Atom → Ordering
  unfolding compare_position
  compare_atoms left right =
      or_else (compare_position left right) (collate (id_of left) (id_of right))

  -- `compareEvidence`
  unfoldable pub compare_evidence : Evidence → Evidence → Ordering
  unfolding compare_atoms
  compare_evidence (atom left) (atom right) = compare_atoms left right
  compare_evidence left right = collate (evidence_id left) (evidence_id right)

  canonical_name : Evidence → Text
  canonical_name (atom a) = get_or a.dependency_id (stringify (atom a))
  canonical_name (relay_path path) = path.dependency_id

  -- `canonicalEvidence`
  unfoldable pub canonical_evidence : List Evidence → Text
  unfolding canonical_name
  canonical_evidence entries = join (codes ":") (sort unit_order (map canonical_name entries))

  -- `costTuple`, for evidence whose blocks have an authentication group: as many groups as blocks.
  unfoldable pub cost_of : List Evidence → Cost
  unfolding canonical_evidence
  cost_of evidence =
      let atomic = flat_map atomic_evidence evidence in
      record {
        windows = length (set_of (map (λ (entry : Atom). number_of entry.block_number) atomic));
        atoms = length atomic;
        witness_bytes = sum_by (λ entry. length (stringify entry)) evidence;
        canonical = canonical_evidence evidence;
      }

  -- `costTuple`
  unfoldable pub cost_tuple : List Evidence → Outcome Failure Cost
  unfolding cost_of authentication_group
  cost_tuple evidence = do
    _ ←
        map_outcome (λ (entry : Atom). authentication_group entry.block_number)
          (flat_map atomic_evidence evidence)
    ok (cost_of evidence)

  -- `compareCost`
  unfoldable pub compare_cost : Cost → Cost → Ordering
  compare_cost left right = or_else (compare left.windows right.windows) (
      or_else (compare left.atoms right.atoms) (
        or_else (compare left.witness_bytes right.witness_bytes)
          (collate left.canonical right.canonical)))

  -- `sort(compareRelayPath)` of two paths or more compares each of them with another, and a comparison
  -- computes both costs, so it throws where a path has a hop in a block before the coverage.
  unfoldable pub check_relay_costs : List RelayPath → Outcome Failure (Unit {0})
  unfolding cost_tuple
  check_relay_costs [] = ok tt
  check_relay_costs (path ∷ []) = ok tt
  check_relay_costs (first ∷ second ∷ rest) = do
    _ ←
        map_outcome (λ path. cost_tuple (map atom (atomic_evidence (relay_path path))))
          (first ∷ second ∷ rest)
    ok tt

  -- `compareRelayPath`: `find` returns the left path's own figure at the first place where the two
  -- costs differ, and the comparator's answer is that figure. The throws of `costTuple` are those of
  -- `check_relay_costs`.
  unfoldable pub compare_relay_path : RelayPath → RelayPath → Ordering
  unfolding cost_of
  compare_relay_path left right =
      let hops = λ (path : RelayPath). map atom (atomic_evidence (relay_path path)) in
      let a = cost_of (hops left) in
      let b = cost_of (hops right) in
      if not (a.windows == b.windows)
      then compare a.windows 0
      else if not (a.atoms == b.atoms)
      then compare a.atoms 0
      else if not (a.witness_bytes == b.witness_bytes)
      then compare a.witness_bytes 0
      else collate a.canonical b.canonical
