-- ===== src/Planner/Ledger/Rounds.antt =====
-- One round of the ledger loop keeps the order on the chain, and drops a settlement or nothing.
use loop_proof.Common.{
  ℕ, suc, ◌+◌, ◌≤◌, ◌≡◌, refl, sym, ap, ◌∙◌, arith, List, [], ◌∷◌, ◌++◌, map, length, length-append,
  length-sort, sum_by, sum_by-sort, sort, sort-IsSorted, sort_of_sorted, IsSorted, IsComparator,
  Text, codes, join,
}
use loop_proof.Evidence.{Atom, Platform}
use loop_proof.Planner.{id_of, compare_atoms}
use loop_proof.Planner.Order.{compare_atoms-IsComparator}
use loop_proof.Planner.Capacity.{take_within, select_within_capacity}
use loop_proof.Planner.Ledger.{retain, fingerprint, latest, available_raw}

length-take_within-le : (c s : ℕ) (xs : List Atom) → length (take_within c s xs) ≤ length xs
unfolding take_within
length-take_within-le c s [] = omega arith
length-take_within-le c s (x ∷ xs) =
    ground (arith, length-take_within-le c s xs, length-take_within-le c (s + x.amount_raw) xs)

take_within_full :
    (c s : ℕ) (xs : List Atom) → length xs ≤ length (take_within c s xs) → take_within c s xs ≡ xs
unfolding take_within
take_within_full c s [] h = refl
take_within_full c s (x ∷ xs) h =
    ground (arith, length-take_within-le c s xs, take_within_full c (s + x.amount_raw) xs)

-- A weight of at least one for each settlement falls by no less than the number of those dropped.
weight_of_dropped :
    (f : Atom → ℕ) (c s : ℕ) (xs : List Atom)
    → sum_by (λ x. suc (f x)) (take_within c s xs) + length xs
      ≤ sum_by (λ x. suc (f x)) xs + length (take_within c s xs)
unfolding take_within
weight_of_dropped f c s [] = omega arith
weight_of_dropped f c s (x ∷ xs) =
    ground (arith, weight_of_dropped f c s xs, weight_of_dropped f c (s + x.amount_raw) xs)

-- The length of a fingerprint, counting one separator for each settlement.
length-join :
    (x : Atom) (xs : List Atom)
    → suc (length (join (codes ":") (map id_of (x ∷ xs))))
      ≡ sum_by (λ (a : Atom). suc (length (id_of a))) (x ∷ xs)
unfolding join
length-join x [] = omega arith
length-join x (y ∷ ys) =
    let tail : Text = join (codes ":") (map id_of (y ∷ ys)) in
    let step : join (codes ":") (map id_of (x ∷ y ∷ ys)) ≡ (id_of x ++ codes ":") ++ tail = refl in
    omega (
      arith,
      length-join y ys,
      ap (λ (t : Text). length t) step,
      length-append (id_of x ++ codes ":") tail,
      length-append (id_of x) (codes ":"),
    )

module _ (platform : Platform) (collation : IsComparator platform.collate) (fundings : List Atom)
    (balance_end : ℕ) where
  order : IsComparator (compare_atoms platform)
  order = compare_atoms-IsComparator platform collation

  pub retain-IsSorted :
      (first : Atom) (rest : List Atom)
      → IsSorted (compare_atoms platform) (retain platform fundings balance_end first rest)
  unfolding retain
  retain-IsSorted first rest = sort-IsSorted (compare_atoms platform) order _

  module _ (first : Atom) (rest : List Atom)
      (sorted : IsSorted (compare_atoms platform) (first ∷ rest)) where
    kept :
        (c : ℕ)
        → select_within_capacity platform (first ∷ rest) c
          ≡ sort (compare_atoms platform) (take_within c 0 (first ∷ rest))
    unfolding select_within_capacity
    kept c =
        ap (λ xs. sort (compare_atoms platform) (take_within c 0 xs))
          (sort_of_sorted (compare_atoms platform) (first ∷ rest) sorted)

    pub length-retain-le :
        length (retain platform fundings balance_end first rest) ≤ length (first ∷ rest)
    unfolding retain
    length-retain-le =
        let c = available_raw platform fundings balance_end (latest platform first rest) in
        omega (
          arith,
          ap (λ (l : List Atom). length l) (kept c),
          length-sort (compare_atoms platform) (take_within c 0 (first ∷ rest)),
          length-take_within-le c 0 (first ∷ rest),
        )

    -- A round that drops nothing gives the same list back.
    pub retain_full :
        length (first ∷ rest) ≤ length (retain platform fundings balance_end first rest)
        → retain platform fundings balance_end first rest ≡ first ∷ rest
    unfolding retain
    retain_full h =
        let c = available_raw platform fundings balance_end (latest platform first rest) in
        let all_taken = take_within_full c 0 (first ∷ rest) (
          omega (
            arith,
            ap (λ (l : List Atom). length l) (kept c),
            length-sort (compare_atoms platform) (take_within c 0 (first ∷ rest)),
          )) in
        kept c
        ∙ ap (sort (compare_atoms platform)) all_taken
        ∙ sort_of_sorted (compare_atoms platform) (first ∷ rest) sorted

    -- The fingerprint tells whether a round dropped something.
    pub retain_of_fingerprint :
        (x : Atom) (xs : List Atom)
        → retain platform fundings balance_end first rest ≡ x ∷ xs
        → fingerprint platform (x ∷ xs) ≡ fingerprint platform (first ∷ rest)
        → x ∷ xs ≡ first ∷ rest
    unfolding retain
    retain_of_fingerprint x xs e same =
        let c = available_raw platform fundings balance_end (latest platform first rest) in
        let taken = take_within c 0 (first ∷ rest) in
        let weight : List Atom → ℕ = sum_by (λ (a : Atom). suc (length (id_of a))) in
        let chosen : x ∷ xs ≡ sort (compare_atoms platform) taken = sym e ∙ kept c in
        let weighs : weight (x ∷ xs) ≡ weight taken =
          ap weight chosen ∙ sum_by-sort (compare_atoms platform) _ taken in
        let print_length = ap (λ (t : Text). length t) same in
        sym e
        ∙ retain_full (
            omega (
              arith,
              weighs,
              print_length,
              length-join x xs,
              length-join first rest,
              weight_of_dropped (λ (a : Atom). length (id_of a)) c 0 (first ∷ rest),
              ap (λ (l : List Atom). length l) (kept c),
              length-sort (compare_atoms platform) taken,
            ))
