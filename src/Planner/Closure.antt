-- ===== src/Planner/Closure.antt =====
-- scripts/proof-planner.mjs: which returns close the loop for a funder (`selectClosureForFunder`,
-- `validRelayPath`) and how much volume they cover.
pub mod Hops
pub mod Paths
pub mod Coverage
use loop_proof.Common.{
  ℕ, ◌+◌, ◌-◌, ◌*◌, ◌/◌, ◌==◌, ltb, leb, if◌then◌else◌, Bool, true, false, not, ◌&&◌, ◌||◌,
  Ordering, Option, none, some, get_or, List, [], ◌∷◌, ◌++◌, map, filter, every, flat_map, length,
  last?, sum_by, Text, codes, text_eq, to_lower_case, sort, Outcome, ok, throw, ◌>>=◌,
}
use loop_proof.Policy.{rho_hop_bps, t_path_seconds, max_return_paths, basis_points}
use loop_proof.Evidence.{
  EvidenceType, direct_seller_funder, Atom, RelayPath, Evidence, atom, relay_path, atomic_evidence,
  hop_list, number_of, Platform,
}
use loop_proof.Claims.{Period}
use loop_proof.Returns.{is_safe_integer, credit}
use loop_proof.Planner.{
  Failure, missing_dependency_id, compare_position, compare_atoms, check_relay_costs,
  compare_relay_path,
}

-- `normalize(left) === normalize(right)`, where null equals null only.
unfoldable pub same_normalized : Option Text → Option Text → Bool
unfolding text_eq to_lower_case
same_normalized none none = true
same_normalized (some left) (some right) = text_eq (to_lower_case left) (to_lower_case right)
same_normalized _ _ = false

-- `left === right`
unfoldable pub same_text : Option Text → Text → Bool
unfolding text_eq
same_text none right = false
same_text (some left) right = text_eq left right

unfoldable pub non_self_transfer : Atom → Bool
unfolding same_normalized
non_self_transfer entry = elim entry.from [
  | none ↦ true
  | some from ↦ elim entry.to [
    | none ↦ true
    | some to ↦ not (same_normalized (some from) (some to))
  ]
]

unfoldable pub in_period : Option Period → Atom → Bool
in_period none entry = true
in_period (some period) entry =
    leb period.start_block (number_of entry.block_number)
    && ltb (number_of entry.block_number) period.end_block_exclusive

abbrev pub has_safe_block : Atom → Bool
has_safe_block entry = elim entry.block_number [ none ↦ false | some block ↦ is_safe_integer block ]

module _ (platform : Platform) where
  -- `compareEvidence` of two hops. Where their places are equal it reads the first one's identifier,
  -- and a hop that has none makes it throw.
  unfoldable pub compare_hops : Atom → Atom → Outcome Failure Ordering
  unfolding compare_position
  compare_hops previous current = elim (compare_position previous current) [
    | Ordering.eq ↦ elim previous.dependency_id [
      | none ↦ throw missing_dependency_id
      | some id ↦ ok (platform.collate id (get_or current.dependency_id (codes "undefined")))
    ]
    | other ↦ ok other
  ]

  abbrev pub is_before : Ordering → Bool
  is_before o = elim o [ Ordering.lt ↦ true | _ ↦ false ]

  -- The loop over the hops behind the first one.
  unfoldable pub valid_hops : Atom → List Atom → Outcome Failure Bool
  unfolding compare_hops
  valid_hops previous [] = ok true
  valid_hops previous (current ∷ rest) = if current.amount_raw == 0 then ok false else do
    order ← compare_hops previous current
    let refused =
        not (is_before order)
        || (ltb (number_of current.timestamp) (number_of previous.timestamp)
            || ltb (current.amount_raw * basis_points) (previous.amount_raw * rho_hop_bps))
    if refused then ok false else valid_hops current rest

  unfoldable pub valid_relay_hops : Option Period → List Atom → Outcome Failure Bool
  unfolding valid_hops in_period
  valid_relay_hops period [] = ok false
  valid_relay_hops period (first ∷ rest) =
      if ltb 9 (length (first ∷ rest)) || not (every has_safe_block (first ∷ rest))
      then ok false
      else if not (every (in_period period) (first ∷ rest))
      then ok false
      else if first.amount_raw == 0
      then ok false
      else do
        steps ← valid_hops first rest
        let last = get_or (last? rest) first
        ok (steps && leb (number_of last.timestamp - number_of first.timestamp) t_path_seconds)

  unfoldable pub valid_relay_path : Option Period → RelayPath → Outcome Failure Bool
  unfolding valid_relay_hops
  valid_relay_path period path = valid_relay_hops period (hop_list path.hops)

pub data ClosureClass : Type 0 where
  self_funded direct_seller_funder_only relay_path_only direct_and_relay : ClosureClass

-- `rejected` holds the identifiers of the relay paths that were turned down.
pub record Closure : Type 0 where
  pub evidence : List Evidence
  pub evidence_class : ClosureClass
  pub rejected : List Text

-- The direct returns to a funder.
unfoldable pub is_direct_return : Text → Option Period → Evidence → Bool
unfolding same_text non_self_transfer in_period
is_direct_return funder period (atom entry) =
    elim entry.evidence_type [ direct_seller_funder ↦ true | _ ↦ false ]
    && (same_text entry.funder funder
        && (not (entry.amount_raw == 0) && (non_self_transfer entry && in_period period entry)))
is_direct_return funder period (relay_path path) = false

-- The relay paths to a funder.
unfoldable pub relay_candidates : Text → List Evidence → List RelayPath
unfolding same_text
relay_candidates funder [] = []
relay_candidates funder (atom entry ∷ rest) = relay_candidates funder rest
relay_candidates funder (relay_path path ∷ rest) =
    if same_text path.funder funder
    then path ∷ relay_candidates funder rest
    else relay_candidates funder rest

module _ (platform : Platform) where
  -- The accepted paths and the identifiers of the others.
  unfoldable pub divide_relays :
      Option Period → List RelayPath → Outcome Failure (List RelayPath × List Text)
  unfolding non_self_transfer valid_relay_path
  divide_relays period [] = ok ([], [])
  divide_relays period (path ∷ rest) = do
    accepted ←
        if every non_self_transfer (hop_list path.hops)
        then valid_relay_path platform period path
        else ok false
    (valid, rejected) ← divide_relays period rest
    ok (if accepted then (path ∷ valid, rejected) else (valid, path.dependency_id ∷ rejected))

  unfoldable pub class_of : List Evidence → List RelayPath → ClosureClass
  class_of [] relay = relay_path_only
  class_of (d ∷ direct) [] = direct_seller_funder_only
  class_of (d ∷ direct) (r ∷ relay) = direct_and_relay

  unfoldable pub select_closure_for_funder :
      List Evidence → Text → Option Text → Option Period → Outcome Failure (Option Closure)
  unfolding same_normalized is_direct_return relay_candidates divide_relays check_relay_costs
      class_of
  select_closure_for_funder dependencies funder seller period =
      if same_normalized (some funder) seller
      then ok (some (record { evidence = []; evidence_class = self_funded; rejected = [] }))
      else do
        let direct = filter (is_direct_return funder period) dependencies
        (valid, rejected) ← divide_relays period (relay_candidates funder dependencies)
        _ ← check_relay_costs platform valid
        let relay = sort (compare_relay_path platform) valid
        let evidence = direct ++ map relay_path relay
        ok (elim evidence [
          | [] ↦ none
          | first ∷ rest ↦ some (record {
            evidence = first ∷ rest;
            evidence_class = class_of direct relay;
            rejected = rejected;
          })
        ])

-- `returnCoverageQualifies`
unfoldable pub return_coverage_qualifies : List Evidence → ℕ → ℕ → Bool
return_coverage_qualifies [] volume target = true
return_coverage_qualifies (first ∷ rest) volume target =
    let closure = first ∷ rest in
    not (ltb max_return_paths (length closure))
    && leb (volume * target) (sum_by credit closure * basis_points)

-- `returnSettlementCapacity`: null, where nothing bounds the volume, is `none`.
unfoldable pub return_settlement_capacity : List Evidence → ℕ → Option ℕ
return_settlement_capacity [] target = none
return_settlement_capacity (first ∷ rest) target =
    let closure = first ∷ rest in
    if ltb max_return_paths (length closure)
    then some 0
    else some (sum_by credit closure * basis_points / target)

module _ (platform : Platform) where
  -- `closureOccursAfterSettlements`
  unfoldable pub closure_occurs_after_settlements : List Atom → List Evidence → Bool
  closure_occurs_after_settlements settlements closure =
      elim (sort (compare_atoms platform) settlements) [
        | [] ↦ false
        | earliest ∷ rest ↦
            every
              (λ entry. elim (compare_atoms platform entry earliest) [
                | Ordering.gt ↦ true
                | _ ↦ false
              ])
              (flat_map atomic_evidence closure)
      ]
