-- ===== src/Planner/Capacity/Greedy.antt =====
-- What `selectWithinCapacity` selects: as much as fits, going through the settlements in their order
-- on the chain.
use mathlib.Core.List.{Mem, Perm, perm_middle, mem-cons_self, mem-cons_of_mem}
use mathlib.Core.List.Perm
use loop_proof.Common.{
  ℕ, ◌+◌, ◌≤◌, ◌<◌, ◌≡◌, refl, subst, ◌⊎◌, inl, inr, arith, ltb, Bool-cases, true, false, List, [],
  ◌∷◌, ◌++◌, All, All-map, All-unsort, sort, sort-perm, sum_by-sort,
}
use loop_proof.Evidence.{Atom, Platform}
use loop_proof.Planner.{sum_raw, compare_atoms}
use loop_proof.Planner.Capacity.{take_within, select_within_capacity}

take_within-le :
    (capacity selected : ℕ) (xs : List Atom)
    → selected ≤ capacity
    → selected + sum_raw (take_within capacity selected xs) ≤ capacity
unfolding take_within
take_within-le capacity selected [] h = omega arith
take_within-le capacity selected (x ∷ xs) h = ground (
  arith,
  take_within-le capacity selected xs,
  take_within-le capacity (selected + x.amount_raw) xs,
)

-- A settlement is in the selection, or would not fit beside it.
abbrev pub IsDecided : ℕ → ℕ → List Atom → Atom → Type 0
IsDecided capacity selected chosen x =
    Mem x chosen ⊎ (capacity < selected + sum_raw chosen + x.amount_raw)

IsDecided-later :
    (capacity selected : ℕ) (x y : Atom) (chosen : List Atom)
    → IsDecided capacity (selected + x.amount_raw) chosen y
    → IsDecided capacity selected (x ∷ chosen) y
IsDecided-later capacity selected x y chosen (inl m) = inl (mem-cons_of_mem x m)
IsDecided-later capacity selected x y chosen (inr over) = inr (omega arith)

take_within_over :
    (capacity selected : ℕ) (x : Atom) (xs : List Atom)
    → ltb capacity (selected + x.amount_raw) ≡ true
    → take_within capacity selected xs ≡ take_within capacity selected (x ∷ xs)
unfolding take_within
take_within_over capacity selected x xs over = rw (over, take_within)

take_within_fits :
    (capacity selected : ℕ) (x : Atom) (xs : List Atom)
    → ltb capacity (selected + x.amount_raw) ≡ false
    → x ∷ take_within capacity (selected + x.amount_raw) xs ≡ take_within capacity selected (x ∷ xs)
unfolding take_within
take_within_fits capacity selected x xs fits = rw (fits, take_within)

take_within-IsDecided :
    (capacity selected : ℕ) (xs : List Atom)
    → All (IsDecided capacity selected (take_within capacity selected xs)) xs
take_within-IsDecided capacity selected [] = tt
take_within-IsDecided capacity selected (x ∷ xs) =
    elim (Bool-cases (ltb capacity (selected + x.amount_raw))) [
      | inl over ↦
          subst (λ chosen. All (IsDecided capacity selected chosen) (x ∷ xs))
            (take_within_over capacity selected x xs over)
            (inr (ground arith), take_within-IsDecided capacity selected xs)
      | inr fits ↦
          let later = take_within capacity (selected + x.amount_raw) xs in
          subst (λ chosen. All (IsDecided capacity selected chosen) (x ∷ xs))
            (take_within_fits capacity selected x xs fits)
            (
              inl mem-cons_self,
              All-map (λ y. IsDecided-later capacity selected x y later) xs
                  (take_within-IsDecided capacity (selected + x.amount_raw) xs),
            )
    ]

take_within-perm :
    (capacity selected : ℕ) (xs : List Atom)
    → (dropped : List Atom) × Perm (take_within capacity selected xs ++ dropped) xs
unfolding take_within
take_within-perm capacity selected [] = ([], Perm.rfl)
take_within-perm capacity selected (x ∷ xs) =
    elim (Bool-cases (ltb capacity (selected + x.amount_raw))) [
      | inl over ↦
          let (dropped, p) = take_within-perm capacity selected xs in
          rw (over, take_within)
            (
              x ∷ dropped,
              Perm.trans (perm_middle (take_within capacity selected xs) dropped) (Perm.cons x p),
            )
      | inr fits ↦
          let (dropped, p) = take_within-perm capacity (selected + x.amount_raw) xs in
          rw (fits, take_within) (dropped, Perm.cons x p)
    ]

-- Where everything fits nothing is dropped.
take_within_all :
    (capacity selected : ℕ) (xs : List Atom)
    → selected + sum_raw xs ≤ capacity
    → take_within capacity selected xs ≡ xs
unfolding take_within
take_within_all capacity selected [] h = refl
take_within_all capacity selected (x ∷ xs) h =
    ground (arith, take_within_all capacity (selected + x.amount_raw) xs)

module _ (platform : Platform) (settlements : List Atom) (capacity : ℕ) where
  -- The selected settlements do not exceed the capacity.
  pub select_within_capacity-le :
      sum_raw (select_within_capacity platform settlements capacity) ≤ capacity
  unfolding select_within_capacity
  select_within_capacity-le =
      let xs = sort (compare_atoms platform) settlements in
      omega (
        arith,
        take_within-le capacity 0 xs (omega arith),
        sum_by-sort (compare_atoms platform) (λ (entry : Atom). entry.amount_raw)
            (take_within capacity 0 xs),
      )

  select_within_capacity-IsDecided :
      All (IsDecided capacity 0 (select_within_capacity platform settlements capacity)) settlements
  unfolding select_within_capacity
  select_within_capacity-IsDecided =
      let xs = sort (compare_atoms platform) settlements in
      let chosen = take_within capacity 0 xs in
      let same = sum_by-sort (compare_atoms platform) (λ (entry : Atom). entry.amount_raw) chosen in
      All-unsort (compare_atoms platform) _ settlements (
        All-map
          (λ x d. elim d [
            | inl m ↦ inl ((Perm.mem_iff (sort-perm (compare_atoms platform) chosen)).1 m)
            | inr over ↦ inr (omega (arith, same))
          ])
          xs (take_within-IsDecided capacity 0 xs))

  -- The selection and what it leaves out are together the settlements that were given.
  pub select_within_capacity-perm :
      (dropped : List Atom) × Perm
        (select_within_capacity platform settlements capacity ++ dropped)
        settlements
  unfolding select_within_capacity
  select_within_capacity-perm =
      let xs = sort (compare_atoms platform) settlements in
      let (dropped, p) = take_within-perm capacity 0 xs in
      (
        dropped,
        Perm.trans
            (Perm.append_right dropped
              (sort-perm (compare_atoms platform) (take_within capacity 0 xs)))
            (Perm.trans p (sort-perm (compare_atoms platform) settlements)),
      )

  -- The selected settlements do not exceed the capacity; with what is left out they are the
  -- settlements that were given; and no settlement that was left out fits beside them.
  pub select_within_capacity-IsGreedy :
      (sum_raw (select_within_capacity platform settlements capacity) ≤ capacity)
      × ((dropped : List Atom) × Perm
            (select_within_capacity platform settlements capacity ++ dropped)
            settlements)
      × All
          (IsDecided capacity 0 (select_within_capacity platform settlements capacity))
          settlements
  select_within_capacity-IsGreedy =
      (select_within_capacity-le, select_within_capacity-perm, select_within_capacity-IsDecided)
