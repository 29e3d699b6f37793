-- ===== src/Returns.antt =====
-- scripts/return-path-selection.mjs: the credit of a return path, the return that a settlement
-- volume requires, the test for a valid path, and the greedy selection of paths.
-- `localeCompare` follows the locale's collation, which is an argument here.
pub mod Amounts
pub mod Valid
pub mod Exhausting
pub mod Selecting
pub mod Prefixes
pub mod Discover
use loop_proof.Common.{
  ℕ, suc, ◌+◌, ◌-◌, ◌*◌, ◌/◌, compare, Ordering, ltb, leb, ◌==◌, if◌then◌else◌, Bool, true, false,
  not, ◌&&◌, ◌||◌, Option, none, some, get_or, List, [], ◌∷◌, ◌++◌, map, filter, any, length, last?,
  Text, codes, text_eq, to_lower_case, join, decimal, or_else, sort, keys_by_text, has, add_all,
  set_of, Outcome, ok, throw_if, ◌>>◌,
}
use loop_proof.Policy.{rho_hop_bps, t_path_seconds, basis_points}
use loop_proof.Evidence.{Atom, Evidence, atomic_evidence, number_of}

pub data Failure : Type 0 where
  invalid_return_volume : Failure

-- A `BigInt` argument, which may be negative.
pub data ℤ : Type 0 where
  pos : ℕ → ℤ
  negsuc : ℕ → ℤ

abbrev pub at_most_zero : ℤ → Bool
at_most_zero (pos n) = n == 0
at_most_zero (negsuc n) = true

abbrev pub negative : ℤ → Bool
negative (pos n) = false
negative (negsuc n) = true

abbrev pub magnitude : ℤ → ℕ
magnitude (pos n) = n
magnitude (negsuc n) = suc n

-- `amounts.reduce((minimum, amount) => …)` with no start value throws on an empty list: `none`.
unfoldable pub least : List ℕ → Option ℕ
least [] = none
least (a ∷ []) = some a
least (a ∷ b ∷ rest) = least ((if ltb b a then b else a) ∷ rest)

unfoldable pub return_path_credit_raw : Evidence → Option ℕ
unfolding least
return_path_credit_raw evidence = least (map (λ entry. entry.amount_raw) (atomic_evidence evidence))

-- The credit of a path that is known to have a hop.
abbrev pub credit : Evidence → ℕ
credit evidence = get_or (return_path_credit_raw evidence) 0

unfoldable pub required_return_raw : ℤ → ℤ → Outcome Failure ℕ
required_return_raw volume target = do
  throw_if (negative volume || (at_most_zero target || ltb basis_points (magnitude target)))
      invalid_return_volume
  let numerator = magnitude volume * magnitude target
  ok ((numerator + basis_points - 1) / basis_points)

-- `normalizeAddress`: null is read as the text "null".
abbrev pub string_of : Option Text → Text
string_of t = get_or t (codes "null")

unfoldable pub normalize_address : Option Text → Text
unfolding to_lower_case
normalize_address value = to_lower_case (string_of value)

unfoldable pub transfer_key : Atom → Text
unfolding to_lower_case decimal
transfer_key entry =
    to_lower_case (get_or entry.transaction_hash (get_or entry.dependency_id (codes "undefined")))
    ++ codes ":"
    ++ decimal (number_of entry.log_index)

unfoldable pub retains : ℕ → ℕ → Bool
retains next previous = leb (previous * rho_hop_bps) (next * basis_points)

abbrev pub is_safe_integer : ℕ → Bool
is_safe_integer n = leb n 9007199254740991

-- A difference that counts only where both numbers are there.
unfoldable pub if_both_safe : Option ℕ → Option ℕ → Ordering
if_both_safe (some a) (some b) =
    if is_safe_integer a && is_safe_integer b then compare a b else Ordering.eq
if_both_safe _ _ = Ordering.eq

-- What `validReturnEvidence` asks of one transfer of the path.
unfoldable pub valid_transfer : Atom → Bool
unfolding normalize_address text_eq
valid_transfer current = not (current.amount_raw == 0) && elim current.from [
  | none ↦ true
  | some from ↦ elim current.to [
    | none ↦ true
    | some to ↦ not (text_eq (to_lower_case from) (to_lower_case to))
  ]
]

-- The first transfer comes after the earliest settlement, where both times are known.
unfoldable pub starts_after : Option ℕ → Atom → Bool
starts_after (some earliest) first = elim first.timestamp [
  | none ↦ true
  | some time ↦ ltb earliest time
]
starts_after none first = true

unfoldable pub within_path_time : List Atom → Bool
within_path_time [] = true
within_path_time (first ∷ []) = true
within_path_time (first ∷ second ∷ rest) = elim (last? (second ∷ rest)) [
  | none ↦ true
  | some last ↦ leb (number_of last.timestamp - number_of first.timestamp) t_path_seconds
]

-- `new Set(atoms.map(transferKey)).size === atoms.length`
unfoldable pub distinct_transfers : List Atom → Bool
unfolding transfer_key set_of
distinct_transfers atoms = length (set_of (map transfer_key atoms)) == length atoms

unfoldable pub return_evidence_identity : Evidence → Text
unfolding transfer_key join
return_evidence_identity evidence = join (codes ">") (map transfer_key (atomic_evidence evidence))

module _ (collate : Text → Text → Ordering) where
  unfoldable pub compare_transfer : Atom → Atom → Ordering
  unfolding if_both_safe
  compare_transfer left right = or_else (if_both_safe left.block_number right.block_number) (
      or_else (compare (number_of left.timestamp) (number_of right.timestamp)) (
        or_else (if_both_safe left.transaction_index right.transaction_index) (
          or_else (collate (string_of left.transaction_hash) (string_of right.transaction_hash))
            (compare (number_of left.log_index) (number_of right.log_index)))))

  abbrev pub comes_before : Atom → Atom → Bool
  comes_before left right = elim (compare_transfer left right) [ Ordering.lt ↦ true | _ ↦ false ]

  -- What it asks of two transfers in a row.
  unfoldable pub valid_step : Atom → Atom → Bool
  unfolding normalize_address text_eq compare_transfer retains
  valid_step previous current =
      text_eq (normalize_address previous.to) (normalize_address current.from)
      && (comes_before previous current && retains current.amount_raw previous.amount_raw)

  unfoldable pub valid_transfers : List Atom → Bool
  unfolding valid_transfer valid_step
  valid_transfers [] = true
  valid_transfers (a ∷ []) = valid_transfer a
  valid_transfers (a ∷ b ∷ rest) =
      valid_transfer a && (valid_step a b && valid_transfers (b ∷ rest))

  unfoldable pub valid_return_atoms : Option ℕ → List Atom → Bool
  unfolding distinct_transfers starts_after valid_transfers within_path_time
  valid_return_atoms earliest [] = false
  valid_return_atoms earliest (first ∷ rest) =
      let atoms = first ∷ rest in
      leb (length atoms) 9
      && (distinct_transfers atoms
          && (starts_after earliest first && (valid_transfers atoms && within_path_time atoms)))

  unfoldable pub valid_return_evidence : Option ℕ → Evidence → Bool
  unfolding valid_return_atoms
  valid_return_evidence earliest evidence = valid_return_atoms earliest (atomic_evidence evidence)

  -- Larger credits first.
  unfoldable pub compare_return_evidence : Evidence → Evidence → Ordering
  unfolding return_path_credit_raw return_evidence_identity
  compare_return_evidence left right =
      or_else (compare (credit right) (credit left))
        (collate (return_evidence_identity left) (return_evidence_identity right))

-- The variables of the selection's loop.
pub record Selection : Type 0 where
  pub evidence : List Evidence
  pub returned_raw : ℕ
  pub used_keys : List Text

abbrev pub path_keys : Evidence → List Text
path_keys candidate = map transfer_key (atomic_evidence candidate)

-- The body of the loop: a candidate that shares a transfer with what is used is passed over.
unfoldable pub consider : Selection → Evidence → Selection
unfolding transfer_key has add_all return_path_credit_raw
consider s candidate =
    if any (λ key. has key s.used_keys) (path_keys candidate) then s else record {
      evidence = s.evidence ++ candidate ∷ [];
      returned_raw = s.returned_raw + credit candidate;
      used_keys = add_all (path_keys candidate) s.used_keys;
    }

-- The test for the loop's `break`.
abbrev pub is_done : ℕ → ℕ → Selection → Bool
is_done max_paths required s = leb max_paths (length s.evidence) || leb required s.returned_raw

unfoldable pub select_loop : ℕ → ℕ → List Evidence → Selection → Selection
unfolding consider
select_loop max_paths required [] s = s
select_loop max_paths required (candidate ∷ rest) s =
    let next = select_loop max_paths required rest (consider s candidate) in
    if is_done max_paths required s then s else next

-- The options of `selectReturnEvidence`.
pub record Options : Type 0 where
  pub required_raw : ℕ
  pub earliest_settlement_timestamp : Option ℕ
  pub max_paths : ℕ
  pub reserved_keys : List Text

abbrev pub no_paths : List Text → Selection
no_paths reserved = record { evidence = []; returned_raw = 0; used_keys = set_of reserved }

abbrev pub is_complete : ℕ → Selection → Bool
is_complete required s = leb required s.returned_raw

module _ (collate : Text → Text → Ordering) where
  -- The candidates that the loop goes through, in its order.
  unfoldable pub valid_candidates : Option ℕ → List Evidence → List Evidence
  unfolding valid_return_evidence sort compare_return_evidence
  valid_candidates earliest candidates =
      sort (compare_return_evidence collate)
        (filter (valid_return_evidence collate earliest) candidates)

  unfoldable pub select_return_evidence : List Evidence → Options → Selection
  unfolding valid_candidates select_loop set_of
  select_return_evidence candidates o =
      select_loop o.max_paths o.required_raw
        (valid_candidates o.earliest_settlement_timestamp candidates) (no_paths o.reserved_keys)
