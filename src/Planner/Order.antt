-- ===== src/Planner/Order.antt =====
-- The order of single logs in the planner is a consistent one, if the platform's collation is.
use loop_proof.Common.{
  compare, IsComparator, IsComparator-by, compare-IsComparator, or_else-IsComparator,
}
use loop_proof.Evidence.{Atom, Platform, number_of}
use loop_proof.Planner.{compare_position, compare_atoms, id_of}

compare_position-IsComparator : IsComparator compare_position
unfolding compare_position
compare_position-IsComparator =
    or_else-IsComparator _ _
      (IsComparator-by (λ (a : Atom). number_of a.block_number) compare compare-IsComparator)
      (or_else-IsComparator _ _
        (IsComparator-by (λ (a : Atom). number_of a.transaction_index) compare compare-IsComparator)
        (IsComparator-by (λ (a : Atom). number_of a.log_index) compare compare-IsComparator))

pub compare_atoms-IsComparator :
    (platform : Platform) → IsComparator platform.collate → IsComparator (compare_atoms platform)
unfolding compare_atoms
compare_atoms-IsComparator platform c =
    or_else-IsComparator compare_position _ compare_position-IsComparator
      (IsComparator-by id_of platform.collate c)
