-- ===== src/Planner/Ledger/Buyers.antt =====
-- `selectLedgerAwareSettlements` for one buyer: the loop ends, and its result fits the ledger.
use loop_proof.Common.{
  ℕ, ◌+◌, ◌≡◌, subst, List, [], length, length-sort, sort, sort-IsSorted, IsComparator, Text, none,
  some, get_or, lookup, ok, ap,
}
use loop_proof.Evidence.{Atom, Platform}
use loop_proof.Planner.{compare_atoms}
use loop_proof.Planner.Order.{compare_atoms-IsComparator}
use loop_proof.Planner.Ledger.{refine, select_for_buyer}
use loop_proof.Planner.Ledger.Refining.{IsRefinement, refine_start-IsRefinement}

module _ (platform : Platform) where
  -- The buyer's fundings in the order of the chain.
  abbrev pub fundings_of : List (Text × List Atom) → Text → List Atom
  fundings_of funding_by_buyer buyer =
      sort (compare_atoms platform) (get_or (lookup buyer funding_by_buyer) [])

  select_for_buyer_known :
      (funding_by_buyer : List (Text × List Atom)) (balances : List (Text × ℕ)) (buyer : Text)
      (values : List Atom) (balance_end : ℕ) (chosen : List Atom)
      → lookup buyer balances ≡ some balance_end
      → refine platform
          (length values + 2)
          (fundings_of funding_by_buyer buyer)
          balance_end
          (sort (compare_atoms platform) values)
          none
        ≡ some chosen
      → select_for_buyer platform funding_by_buyer balances (buyer, values) ≡ ok chosen
  unfolding select_for_buyer
  select_for_buyer_known funding_by_buyer balances buyer values balance_end chosen known found =
      rw (known, select_for_buyer) (ap (λ r. ok (get_or r [])) found)

  -- For a buyer whose balance at the end of the period is known the loop ends within its fuel, and
  -- its result is returned. It holds some of the buyer's settlements, and it fits the ledger: its sum
  -- and the balance are covered by the funding before its last settlement, with the tolerance, unless
  -- it moves nothing.
  pub select_for_buyer-IsRefinement :
      IsComparator platform.collate
      → (funding_by_buyer : List (Text × List Atom)) (balances : List (Text × ℕ)) (buyer : Text)
        (values : List Atom) (balance_end : ℕ)
      → lookup buyer balances ≡ some balance_end
      → (r : IsRefinement platform
          (fundings_of funding_by_buyer buyer)
          balance_end
          (sort (compare_atoms platform) values)
          (refine platform
            (length values + 2)
            (fundings_of funding_by_buyer buyer)
            balance_end
            (sort (compare_atoms platform) values)
            none))
        × (select_for_buyer platform funding_by_buyer balances (buyer, values) ≡ ok r.chosen)
  select_for_buyer-IsRefinement collation funding_by_buyer balances buyer values balance_end known =
      let fundings = fundings_of funding_by_buyer buyer in
      let eligible = sort (compare_atoms platform) values in
      let r =
        subst
          (λ n.
            IsRefinement platform fundings balance_end eligible
              (refine platform (n + 2) fundings balance_end eligible none))
          (length-sort (compare_atoms platform) values)
          (refine_start-IsRefinement platform fundings balance_end collation eligible (
            sort-IsSorted (compare_atoms platform) (compare_atoms-IsComparator platform collation)
              values)) in
      (
        r,
        select_for_buyer_known funding_by_buyer balances buyer values balance_end r.chosen known
            r.found,
      )
