-- ===== src/Merkle/Climbing.antt =====
-- A membership proof leads from its leaf to the root.
use loop_proof.Common.{
  ℕ, zero, suc, ◌+◌, ◌/◌, ◌≤◌, ◌<◌, ◌≡◌, refl, sym, ap, ◌∙◌, inl, inr, arith, ltb, if◌then◌else◌,
  Bool-cases, Option-cases, true, false, Option, some, List, [], ◌∷◌, length, length-sort,
  get_elem?, Text, sort, unit_order, ok, throw, has, keys_by_text, has-sort, IsDistinct,
  IsDistinct-sort,
}
use loop_proof.Merkle.{
  Step, sibling_index, step_at, without_last, steps_through, last_index, node, next_level,
  top_level, merkle_root, levels_from, merkle_membership, legacy_steps, legacy_merkle_membership,
  climb, target_not_found,
}
use loop_proof.Merkle.Search.{last_index-get, last_index_found, last_index_absent, first-eq-last}

get_some_bound :
    (level : List Text) (i : ℕ) {h : Text} → get_elem? level i ≡ some h → i < length level
get_some_bound [] i e = cc
get_some_bound (x ∷ level) zero e = omega arith
get_some_bound (x ∷ level) (suc i) e = omega (arith, get_some_bound level i e)

-- Two places further on the sibling is two places further on.
sibling_index_shift :
    (size i : ℕ)
    → i < size
    → sibling_index (suc (suc size)) (suc (suc i)) ≡ suc (suc (sibling_index size i))
unfolding sibling_index
sibling_index_shift size i h = ground arith

-- The sibling of the first node of a pair is the second.
sibling_index_second : (n : ℕ) → sibling_index (suc (suc n)) 0 ≡ 1
unfolding sibling_index
sibling_index_second n = ground arith

ltb_shift : (a b : ℕ) → ltb (suc (suc a)) (suc (suc b)) ≡ ltb a b
ltb_shift a b = ground arith

step_at_shift :
    (a b : Text) (rest : List Text) (i : ℕ)
    → i < length rest
    → step_at (a ∷ b ∷ rest) (suc (suc i)) ≡ step_at rest i
unfolding step_at
step_at_shift a b rest i h =
    rw (sibling_index_shift (length rest) i h, ltb_shift (sibling_index (length rest) i) i)

step_at_pair :
    (a b : Text) (rest : List Text)
    → (step_at (a ∷ b ∷ rest) 0 ≡ record { sibling = b; sibling_on_left = false })
      × (step_at (a ∷ b ∷ rest) 1 ≡ record { sibling = a; sibling_on_left = true })
unfolding step_at
step_at_pair a b rest = (rw (sibling_index_second (length rest)), refl)

step_at_single : (a : Text) → step_at (a ∷ []) 0 ≡ record { sibling = a; sibling_on_left = false }
unfolding step_at
step_at_single a = refl

module _ (sha256 : List ℕ → Text) where
  -- The parent of a hash, by the step at its place.
  abbrev parent : Text → Step → Text
  parent hash step =
      if step.sibling_on_left then node sha256 step.sibling hash else node sha256 hash step.sibling

  -- The level above holds the parent at half the index.
  parent_in_next_level :
      (level : List Text) (i : ℕ) (h : Text)
      → get_elem? level i ≡ some h
      → get_elem? (next_level sha256 level) (i / 2) ≡ some (parent h (step_at level i))
  unfolding next_level
  parent_in_next_level [] i h e = cc
  parent_in_next_level (a ∷ []) zero h e = let same : a ≡ h = cc in rw (step_at_single a, same)
  parent_in_next_level (a ∷ []) (suc i) h e = cc
  parent_in_next_level (a ∷ b ∷ rest) zero h e =
      let same : a ≡ h = cc in rw ((step_at_pair a b rest).0, same)
  parent_in_next_level (a ∷ b ∷ rest) (suc zero) h e =
      let same : b ≡ h = cc in rw ((step_at_pair a b rest).1, same)
  parent_in_next_level (a ∷ b ∷ rest) (suc (suc i)) h e =
      let half : suc (suc i) / 2 ≡ suc (i / 2) = omega arith in
      rw (half, step_at_shift a b rest i (get_some_bound rest i e))
        (parent_in_next_level rest i h e)

  length-next_level :
      (level : List Text) → length (next_level sha256 level) ≡ (length level + 1) / 2
  unfolding next_level
  length-next_level [] = omega arith
  length-next_level (a ∷ []) = omega arith
  length-next_level (a ∷ b ∷ rest) = omega (arith, length-next_level rest)

  -- The top of the tree over a level that the fuel is enough for.
  abbrev top : ℕ → List Text → Option Text
  top fuel level = get_elem? (top_level sha256 fuel level) 0

  only_hash :
      (level : List Text) (i : ℕ) (h : Text)
      → length level ≤ 1
      → get_elem? level i ≡ some h
      → get_elem? level 0 ≡ some h
  only_hash [] i h short e = cc
  only_hash (a ∷ []) zero h short e = e
  only_hash (a ∷ []) (suc i) h short e = cc
  only_hash (a ∷ b ∷ rest) i h short e = absurd (omega arith)

  climb_to_top :
      (fuel : ℕ) (level : List Text) (i : ℕ) (h : Text)
      → length level ≤ suc fuel
      → get_elem? level i ≡ some h
      → top fuel level ≡ some (climb sha256 h (legacy_steps sha256 fuel level i))
  unfolding top_level legacy_steps climb
  climb_to_top zero level i h enough e = only_hash level i h enough e
  climb_to_top (suc fuel) level i h enough e = elim (Bool-cases (ltb 1 (length level))) [
    | inl long ↦
        rw (long, top_level, legacy_steps)
          (climb_to_top fuel (next_level sha256 level) (i / 2) (parent h (step_at level i))
            (ground (arith, length-next_level level)) (parent_in_next_level level i h e))
    | inr short ↦ rw (short, top_level, legacy_steps) (only_hash level i h (ground arith) e)
  ]

  without_last_levels :
      (below : List Text) (fuel : ℕ) (level : List Text)
      → without_last (below ∷ levels_from sha256 fuel level)
        ≡ below ∷ without_last (levels_from sha256 fuel level)
  unfolding levels_from without_last
  without_last_levels below zero level = refl
  without_last_levels below (suc fuel) level = elim (Bool-cases (ltb 1 (length level))) [
    | inl long ↦ rw (long, levels_from)
    | inr short ↦ rw (short, levels_from)
  ]

  -- The steps through the kept levels are those of the older loop.
  steps_through-legacy :
      (fuel : ℕ) (level : List Text) (i : ℕ)
      → steps_through (without_last (levels_from sha256 fuel level)) i
        ≡ legacy_steps sha256 fuel level i
  unfolding steps_through levels_from without_last legacy_steps
  steps_through-legacy zero level i = refl
  steps_through-legacy (suc fuel) level i = elim (Bool-cases (ltb 1 (length level))) [
    | inl long ↦
        rw (long, legacy_steps, without_last_levels level fuel (next_level sha256 level))
          (ap (◌∷◌ (step_at level i)) (steps_through-legacy fuel (next_level sha256 level) (i / 2)))
    | inr short ↦ rw (short, legacy_steps)
  ]

  merkle_root-top :
      (hashes : List Text) {h : Text}
      → top (length hashes) (sort unit_order hashes) ≡ some h
      → merkle_root sha256 hashes ≡ h
  unfolding merkle_root sort
  merkle_root-top [] e = cc
  merkle_root-top (hash ∷ hashes) {h} e = rw e

  climb-steps :
      (hashes : List Text) (target : Text) (i : ℕ)
      → get_elem? (sort unit_order hashes) i ≡ some target
      → climb sha256 target (legacy_steps sha256 (length hashes) (sort unit_order hashes) i)
        ≡ merkle_root sha256 hashes
  climb-steps hashes target i e = sym (
      merkle_root-top hashes (
        climb_to_top (length hashes) (sort unit_order hashes) i target
          (omega (arith, length-sort unit_order hashes)) e))

  -- Every hash of the tree has a membership proof, and the proof leads from the hash to the root.
  pub merkle_membership_climbs :
      (hashes : List Text) (target : Text)
      → has target hashes ≡ true
      → (steps : List Step) × (merkle_membership sha256 hashes target ≡ ok steps)
        × (climb sha256 target steps ≡ merkle_root sha256 hashes)
  unfolding merkle_membership
  merkle_membership_climbs hashes target h =
      let sorted = sort unit_order hashes in
      let (i, found) = last_index_found target sorted (has-sort unit_order target hashes ∙ h) in
      (
        legacy_steps sha256 (length hashes) sorted i,
        rw (found, merkle_membership) (ap ok (steps_through-legacy (length hashes) sorted i)),
        climb-steps hashes target i (last_index-get target sorted i found),
      )

  -- A hash that is not in the tree has none: the search throws.
  pub merkle_membership_throws :
      (hashes : List Text) (target : Text)
      → has target hashes ≡ false
      → merkle_membership sha256 hashes target ≡ throw target_not_found
  unfolding merkle_membership
  merkle_membership_throws hashes target h =
      let sorted = sort unit_order hashes in
      elim (Option-cases (last_index target sorted)) [
        | inl absent ↦ rw (absent, merkle_membership)
        | inr (i, found) ↦
            let present : has target hashes ≡ true =
              sym (has-sort unit_order target hashes) ∙ last_index_absent target sorted i found in
            absurd (ground arith)
      ]

  -- Over distinct hashes the indexed version gives the same proofs as the older one.
  pub merkle_membership-legacy :
      (hashes : List Text) (target : Text)
      → IsDistinct hashes
      → merkle_membership sha256 hashes target ≡ legacy_merkle_membership sha256 hashes target
  unfolding merkle_membership legacy_merkle_membership
  merkle_membership-legacy hashes target d =
      let sorted = sort unit_order hashes in
      let same = first-eq-last target sorted (IsDistinct-sort unit_order hashes d) in
      elim (Option-cases (last_index target sorted)) [
        | inl absent ↦ ground arith
        | inr (i, found) ↦ ground (arith, steps_through-legacy (length hashes) sorted i)
      ]
