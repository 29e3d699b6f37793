-- ===== src/Merkle.antt =====
-- The Merkle trees over hashes: `merkleRoot` of scripts/proof-bundle.mjs, and `merkleMembership`,
-- `merkleMembershipIndex` and `legacyMerkleMembership` of scripts/proof-planner.mjs.
-- SHA-256 (node:crypto) is an argument: the hexadecimal digest of a list of bytes.
mod Search
pub mod Climbing
pub mod Order
use loop_proof.Common.{
  ℕ, zero, suc, ◌+◌, ◌-◌, ◌*◌, ◌/◌, ◌%◌, min, ltb, leb, ◌==◌, if◌then◌else◌, Bool, ◌&&◌, Option,
  none, some, List, [], ◌∷◌, ◌++◌, length, get_elem?, Text, codes, text_eq, sort, unit_order,
  Outcome, ok, throw, get_or,
}

pub data Failure : Type 0 where
  target_not_found : Failure

-- `text.slice(2)`
abbrev pub without_prefix : Text → Text
without_prefix [] = []
without_prefix (a ∷ []) = []
without_prefix (a ∷ b ∷ rest) = rest

hex_digit : ℕ → Option ℕ
hex_digit c =
    if leb 48 c && leb c 57
    then some (c - 48)
    else if leb 97 c && leb c 102
    then some (c - 87)
    else if leb 65 c && leb c 70
    then some (c - 55)
    else none

-- `Buffer.from(text, "hex")` stops at the first pair that is not hexadecimal.
unfoldable pub hex_bytes : Text → List ℕ
unfolding hex_digit
hex_bytes [] = []
hex_bytes (a ∷ []) = []
hex_bytes (a ∷ b ∷ rest) =
    let more = hex_bytes rest in
    elim (hex_digit a) [
      | none ↦ []
      | some high ↦ elim (hex_digit b) [ none ↦ [] | some low ↦ (high * 16 + low) ∷ more ]
    ]

-- One step of a membership proof.
pub record Step : Type 0 where
  pub sibling : Text
  pub sibling_on_left : Bool

-- The place of the node's sibling in a level; a last node with no sibling is its own.
unfoldable pub sibling_index : ℕ → ℕ → ℕ
sibling_index size index = if index % 2 == 0 then min (index + 1) (size - 1) else index - 1

-- The step at an index of a level. The sibling's place is always in the level.
unfoldable pub step_at : List Text → ℕ → Step
unfolding sibling_index
step_at level index =
    let place = sibling_index (length level) index in
    record { sibling = get_or (get_elem? level place) []; sibling_on_left = ltb place index }

-- `levels.slice(0, -1)`
unfoldable pub without_last {ℓ} : {A : Type ℓ} → List A → List A
without_last [] = []
without_last (x ∷ []) = []
without_last (x ∷ y ∷ rest) = x ∷ without_last (y ∷ rest)

-- The loop over the levels that are kept: `index` is halved on the way up.
unfoldable pub steps_through : List (List Text) → ℕ → List Step
unfolding step_at
steps_through [] index = []
steps_through (level ∷ levels) index = step_at level index ∷ steps_through levels (index / 2)

-- `new Map(hashes.map((hash, index) => [hash, index]))` keeps the last index of a hash.
unfoldable pub last_index : Text → List Text → Option ℕ
unfolding text_eq
last_index target [] = none
last_index target (hash ∷ hashes) = elim (last_index target hashes) [
  | some index ↦ some (suc index)
  | none ↦ if text_eq hash target then some 0 else none
]

-- `hashes.indexOf(target)`
unfoldable pub first_index : Text → List Text → Option ℕ
unfolding text_eq
first_index target [] = none
first_index target (hash ∷ hashes) =
    if text_eq hash target
    then some 0
    else elim (first_index target hashes) [ none ↦ none | some index ↦ some (suc index) ]

module _ (sha256 : List ℕ → Text) where
  -- The hash of an inner node.
  unfoldable pub node : Text → Text → Text
  unfolding hex_bytes
  node left right =
      codes "0x"
      ++ sha256 (1 ∷ (hex_bytes (without_prefix left) ++ hex_bytes (without_prefix right)))

  -- The level above: a last hash with no partner is joined with itself.
  unfoldable pub next_level : List Text → List Text
  next_level [] = []
  next_level (a ∷ []) = node a a ∷ []
  next_level (a ∷ b ∷ rest) = node a b ∷ next_level rest

  -- `while (level.length > 1)`, with fuel: the length of the level is enough.
  unfoldable pub top_level : ℕ → List Text → List Text
  unfolding next_level
  top_level zero level = level
  top_level (suc fuel) level =
      let above = top_level fuel (next_level level) in if ltb 1 (length level) then above else level

  unfoldable pub merkle_root : List Text → Text
  unfolding top_level
  merkle_root [] = codes "0x" ++ sha256 (0 ∷ [])
  merkle_root (hash ∷ hashes) =
      let top = top_level (length (hash ∷ hashes)) (sort unit_order (hash ∷ hashes)) in
      get_or (get_elem? top 0) []

  -- The levels of the tree from the sorted hashes up to the root.
  unfoldable pub levels_from : ℕ → List Text → List (List Text)
  unfolding next_level
  levels_from zero level = level ∷ []
  levels_from (suc fuel) level =
      let above = level ∷ levels_from fuel (next_level level) in
      if ltb 1 (length level) then above else level ∷ []

  unfoldable pub merkle_membership : List Text → Text → Outcome Failure (List Step)
  unfolding levels_from without_last steps_through
  merkle_membership hashes target =
      let sorted = sort unit_order hashes in
      elim (last_index target sorted) [
        | none ↦ throw target_not_found
        | some index ↦ ok (steps_through (without_last (levels_from (length hashes) sorted)) index)
      ]

  -- The loop of the older version, which builds the levels while it goes up.
  unfoldable pub legacy_steps : ℕ → List Text → ℕ → List Step
  unfolding step_at next_level
  legacy_steps zero level index = []
  legacy_steps (suc fuel) level index =
      let above = step_at level index ∷ legacy_steps fuel (next_level level) (index / 2) in
      if ltb 1 (length level) then above else []

  unfoldable pub legacy_merkle_membership : List Text → Text → Outcome Failure (List Step)
  unfolding legacy_steps
  legacy_merkle_membership hashes target =
      let sorted = sort unit_order hashes in
      elim (first_index target sorted) [
        | none ↦ throw target_not_found
        | some index ↦ ok (legacy_steps (length hashes) sorted index)
      ]

  -- What a verifier of a membership proof computes: the root, from the leaf and the steps.
  pub climb : Text → List Step → Text
  climb hash [] = hash
  climb hash (step ∷ steps) =
      climb (if step.sibling_on_left then node step.sibling hash else node hash step.sibling) steps
