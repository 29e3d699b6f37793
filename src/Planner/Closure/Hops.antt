-- ===== src/Planner/Closure/Hops.antt =====
-- `validRelayPath` of the planner: what it asks of a hop's block and of two hops in a row.
use loop_proof.Common.{
  ok_injective, ap, Text, codes, ℕ, ◌⊎◌, ◌^◌, Option-cases, some, none, ◌≤◌, ◌<◌, ◌≡◌, refl,
  Ordering-cases, ◌↔◌, inl, inr, arith, true, Ordering, Option, get_or, ok,
}
use loop_proof.Evidence.{Atom, number_of, Platform}
use loop_proof.Claims.{Period}
use loop_proof.Planner.{compare_position}
use loop_proof.Planner.Closure.{in_period, has_safe_block, compare_hops}

-- The block is known and a safe integer.
abbrev pub HasBlock : Atom → Type 0
HasBlock entry = (block : ℕ) × (entry.block_number ≡ some block) × (block < 2 ^ 53)

-- The block is in the period, where one is given.
abbrev pub IsWithin : Option Period → Atom → Type 0
IsWithin none entry = Unit
IsWithin (some period) entry =
    (period.start_block ≤ number_of entry.block_number)
    × (number_of entry.block_number < period.end_block_exclusive)

pub has_safe_block-HasBlock : (entry : Atom) → has_safe_block entry ≡ true → HasBlock entry
has_safe_block-HasBlock entry h = elim (Option-cases entry.block_number) [
  | inl e ↦ absurd (ground (arith, h, e))
  | inr (block, e) ↦ (block, e, ground (arith, h, e))
]

pub HasBlock-has_safe_block : (entry : Atom) → HasBlock entry → has_safe_block entry ≡ true
HasBlock-has_safe_block entry (block, e, small) = ground (arith, e, small)

pub in_period-IsWithin :
    (period : Option Period) (entry : Atom) → in_period period entry ≡ true → IsWithin period entry
unfolding in_period
in_period-IsWithin none entry h = tt
in_period-IsWithin (some period) entry h = (ground (arith, h), ground (arith, h))

pub IsWithin-in_period :
    (period : Option Period) (entry : Atom) → IsWithin period entry → in_period period entry ≡ true
unfolding in_period
IsWithin-in_period none entry h = refl
IsWithin-in_period (some period) entry h = ground (arith, h)

-- By the block, the place in the block and the place in the receipt.
abbrev pub IsEarlier : Atom → Atom → Type 0
IsEarlier left right =
    (number_of left.block_number < number_of right.block_number)
    ⊎ ((number_of left.block_number ≡ number_of right.block_number)
        × ((number_of left.transaction_index < number_of right.transaction_index)
            ⊎ ((number_of left.transaction_index ≡ number_of right.transaction_index)
                × (number_of left.log_index < number_of right.log_index))))

abbrev pub IsSamePlace : Atom → Atom → Type 0
IsSamePlace left right =
    (number_of left.block_number ≡ number_of right.block_number)
    × (number_of left.transaction_index ≡ number_of right.transaction_index)
    × (number_of left.log_index ≡ number_of right.log_index)

compare_position-IsEarlier :
    (left right : Atom) → (compare_position left right ≡ Ordering.lt) ↔ IsEarlier left right
unfolding compare_position
compare_position-IsEarlier left right = (λ h. ground (arith, h), λ h. ground (arith, h))

compare_position-IsSamePlace :
    (left right : Atom) → (compare_position left right ≡ Ordering.eq) ↔ IsSamePlace left right
unfolding compare_position
compare_position-IsSamePlace left right = (λ h. ground (arith, h), λ h. ground (arith, h))

module _ (platform : Platform) where
  -- A hop follows another: it comes later on the chain, or it has the same place and the first one's
  -- identifier is there and stands before.
  abbrev pub IsFollowedBy : Atom → Atom → Type 0
  IsFollowedBy previous current =
      IsEarlier previous current
      ⊎ (IsSamePlace previous current
          × ((id : Text) × (previous.dependency_id ≡ some id)
              × (platform.collate id (get_or current.dependency_id (codes "undefined"))
                  ≡ Ordering.lt)))

  pub compare_hops-IsFollowedBy :
      (previous current : Atom)
      → (compare_hops platform previous current ≡ ok Ordering.lt) ↔ IsFollowedBy previous current
  unfolding compare_hops
  compare_hops-IsFollowedBy previous current = (
    λ h. elim (Ordering-cases (compare_position previous current)) [
      | inl e ↦ inl ((compare_position-IsEarlier previous current).0 e)
      | inr (inl e) ↦ elim (Option-cases previous.dependency_id) [
        | inl none_there ↦ absurd (ground (arith, h, e, none_there))
        | inr (id, there) ↦ inr (
          (compare_position-IsSamePlace previous current).0 e,
          (id, there, ok_injective (rw (e, there, compare_hops) at h)),
        )
      ]
      | inr (inr e) ↦ absurd (ground (arith, h, e))
    ],
    λ h. elim h [
      | inl earlier ↦
          rw ((compare_position-IsEarlier previous current).1 earlier, compare_hops) refl
      | inr (place, (id, there, before)) ↦
          rw ((compare_position-IsSamePlace previous current).1 place, there, compare_hops)
            (ap ok before)
    ],
  )
