-- ===== src/FixedVolume.antt =====
-- scripts/search-fixed-volume-returns.mjs: `classifySeller` and `selectFixedVolumeReturns`, which adds return
-- paths to those of a baseline for a fixed volume; and scripts/search-joint-wash-volume.mjs:
-- `assessJointCandidate` and `selectLedgerCandidate`. An absent index of a log is null, which `Number`
-- reads as 0. `localeCompare` follows the locale's collation, which is an argument.
pub mod Scoped
pub mod AtLeast
use loop_proof.Common.{
  ℕ, ◌+◌, ◌-◌, ltb, leb, ◌==◌, if◌then◌else◌, Bool, true, false, not, ◌&&◌, ◌||◌, Ordering, Option,
  none, some, get_or, List, [], ◌∷◌, ◌++◌, map, filter, every, flat_map, length, last?, sum_by,
  Text, codes, text_eq, to_lower_case, decimal, Outcome, ok, throw, throw_if, ◌>>=◌, ◌>>◌,
}
use loop_proof.Policy.{max_return_paths}
use loop_proof.Evidence.{Atom, Evidence, relay_path, atomic_evidence, number_of}
use loop_proof.Hex.{is_hex}
use loop_proof.Returns
use loop_proof.Returns.{
  ℤ, pos, magnitude, is_safe_integer, credit, required_return_raw, select_return_evidence,
  is_complete, Selection,
}

pub data Failure : Type 0 where
  invalid_volume : Failure
  baseline_mismatch : Failure
  invalid_baseline : Failure

-- A failure of `requiredReturnRaw`, as one of these scripts.
abbrev pub amount : {A : Type 0} → Outcome Returns.Failure A → Outcome Failure A
amount (ok a) = ok a
amount (throw failure) = throw invalid_volume

-- `key`
unfoldable pub hop_key : Atom → Text
unfolding to_lower_case decimal
hop_key hop =
    to_lower_case (get_or hop.transaction_hash (codes "undefined"))
    ++ (codes ":" ++ decimal (number_of hop.log_index))

abbrev pub is_address : Option Text → Text → Bool
is_address none address = false
is_address (some found) address = text_eq (to_lower_case found) (to_lower_case address)

pub record Scope : Type 0 where
  pub seller : Text
  pub funder : Text
  pub earliest : ℕ
  pub end : ℕ
  pub start_block : ℕ
  pub end_block : ℕ

-- What `valid` asks of each hop.
unfoldable pub is_valid_hop : Scope → Atom → Bool
unfolding is_hex
is_valid_hop scope hop =
    is_safe_integer (number_of hop.timestamp)
    && (ltb scope.earliest (number_of hop.timestamp)
        && (leb (number_of hop.timestamp) scope.end
            && (is_hex 64 (get_or hop.transaction_hash [])
                && (is_safe_integer (number_of hop.log_index) && elim hop.block_number [
                  | none ↦ true
                  | some number ↦ leb scope.start_block number && leb number scope.end_block
                ]))))

-- `hops.length > 0`, from the seller to the funder, and every hop in the scope.
unfoldable pub is_valid_path : Scope → Evidence → Bool
unfolding is_valid_hop text_eq to_lower_case
is_valid_path scope path = elim (atomic_evidence path) [
  | [] ↦ false
  | first ∷ rest ↦
      is_address first.from scope.seller
      && (elim (last? (first ∷ rest)) [ none ↦ false | some last ↦ is_address last.to scope.funder ]
          && every (is_valid_hop scope) (first ∷ rest))
]

-- The arguments of `selectFixedVolumeReturns`.
pub record Request : Type 0 where
  pub candidates : List Evidence
  pub baseline : List Evidence
  pub volume : ℤ
  pub target_bps : ℤ
  pub scope : Scope

pub record ReturnPath : Type 0 where
  pub credit_raw : ℕ
  pub hops : List Atom

pub record FixedVolume : Type 0 where
  pub required_return_raw : ℕ
  pub baseline_return_raw : ℕ
  pub candidate_return_raw : ℕ
  pub shortfall_raw : ℕ
  pub target_met_by_candidates : Bool
  pub paths : List ReturnPath

-- A path with its credit, the hashes of its hops in small letters.
unfoldable pub return_path : Evidence → ReturnPath
unfolding to_lower_case
return_path path = record {
  credit_raw = credit path;
  hops =
      map
        (λ (hop : Atom). record hop {
          transaction_hash = some (to_lower_case (get_or hop.transaction_hash []));
        })
        (atomic_evidence path);
}

-- The chosen paths and what they return.
pub record Chosen : Type 0 where
  pub evidence : List Evidence
  pub returned_raw : ℕ

-- The better of the two; the first if they return the same.
abbrev pub better : Chosen → Chosen → Chosen
better first second = if leb second.returned_raw first.returned_raw then first else second

module _ (collate : Text → Text → Ordering) where
  abbrev pub select : List Evidence → ℕ → ℕ → List Text → ℕ → Selection
  select candidates earliest required reserved max_paths =
      select_return_evidence collate candidates (record {
        required_raw = required;
        earliest_settlement_timestamp = some earliest;
        max_paths = max_paths;
        reserved_keys = reserved;
      })

  -- The baseline with further paths that share no transfer with it.
  unfoldable pub augmented : Request → ℕ → ℕ → Chosen
  unfolding select_return_evidence is_valid_path hop_key
  augmented r required baseline_credit =
      let remaining =
        select (filter (is_valid_path r.scope) r.candidates) r.scope.earliest
          (required - baseline_credit) (map hop_key (flat_map atomic_evidence r.baseline))
          (max_return_paths - length r.baseline) in
      record {
        evidence = r.baseline ++ remaining.evidence;
        returned_raw = baseline_credit + remaining.returned_raw;
      }

  -- A selection from all paths anew.
  unfoldable pub reselected : Request → ℕ → Chosen
  unfolding select_return_evidence is_valid_path
  reselected r required =
      let selection =
        select (filter (is_valid_path r.scope) (r.baseline ++ r.candidates)) r.scope.earliest
          required [] max_return_paths in
      record { evidence = selection.evidence; returned_raw = selection.returned_raw }

  -- The test that the baseline selects itself whole.
  unfoldable pub is_whole_baseline : Request → ℕ → Bool
  unfolding select_return_evidence
  is_whole_baseline r baseline_credit =
      let checked = select r.baseline r.scope.earliest baseline_credit [] max_return_paths in
      is_complete baseline_credit checked && (length checked.evidence == length r.baseline)

  -- `selectFixedVolumeReturns`
  unfoldable pub select_fixed_volume_returns : Request → Outcome Failure FixedVolume
  unfolding required_return_raw is_valid_path is_whole_baseline augmented reselected return_path
  select_fixed_volume_returns r = do
    required ← amount (required_return_raw r.volume r.target_bps)
    throw_if (not (every (is_valid_path r.scope) r.baseline)) baseline_mismatch
    let baseline_credit = sum_by credit r.baseline
    throw_if (not (is_whole_baseline r baseline_credit)) invalid_baseline
    let selected = better (augmented r required baseline_credit) (reselected r required)
    ok (record {
      required_return_raw = required;
      baseline_return_raw = baseline_credit;
      candidate_return_raw = selected.returned_raw;
      shortfall_raw = required - selected.returned_raw;
      target_met_by_candidates = leb required selected.returned_raw;
      paths = map return_path selected.evidence;
    })

-- `assessJointCandidate`
pub data Disposition : Type 0 where
  retain_baseline_smaller_candidate retain_baseline_insufficient_returns : Disposition
  candidate_needs_native_verification : Disposition

pub record Assessment : Type 0 where
  pub preserves_baseline_volume : Bool
  pub return_shortfall_raw : ℕ
  pub eligible_for_native_verification : Bool
  pub disposition : Disposition

unfoldable pub assess_joint_candidate : ℕ → ℕ → ℕ → ℤ → Outcome Failure Assessment
unfolding required_return_raw
assess_joint_candidate baseline candidate returned target = do
  required ← amount (required_return_raw (pos candidate) target)
  let gap = required - returned
  let regresses = ltb candidate baseline
  ok (record {
    preserves_baseline_volume = not regresses;
    return_shortfall_raw = gap;
    eligible_for_native_verification = not regresses && (gap == 0);
    disposition =
        if regresses
        then retain_baseline_smaller_candidate
        else if ltb 0 gap
        then retain_baseline_insufficient_returns
        else candidate_needs_native_verification;
  })

-- `classifySeller`, of an entry of the status file.
pub data Classification : Type 0 where
  excluded_baseline already_meets_target missing_return_measurement search_required : Classification

pub record StatusEntry : Type 0 where
  pub supports_30_percent_return_floor : Bool
  pub guest_alpha_return_bps : ℕ
  pub returned_credit_raw : Option ℕ
  pub proven_wash_volume_raw : ℕ

unfoldable pub classify_seller : StatusEntry → ℤ → Outcome Failure Classification
unfolding required_return_raw
classify_seller entry target = do
  _ ← amount (required_return_raw (pos 0) target)
  if not entry.supports_30_percent_return_floor
      then ok excluded_baseline
      else (if leb (magnitude target) entry.guest_alpha_return_bps
          then ok already_meets_target
          else elim entry.returned_credit_raw [
            | none ↦ ok missing_return_measurement
            | some credit ↦ do
              required ← amount (required_return_raw (pos entry.proven_wash_volume_raw) target)
              ok (if leb required credit then already_meets_target else search_required)
          ])
