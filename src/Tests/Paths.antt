-- ===== src/Tests/Paths.antt =====
-- Return paths at concrete inputs.
use loop_proof.Common.{
  ℕ, ◌<◌, ◌≡◌, refl, ◌↔◌, arith, true, false, List, [], ◌∷◌, none, All, length, text_eq,
  to_lower_case, decimal, join, unit_order, sort, set_of, has, add_all, keys_by_text,
}
use loop_proof.Evidence.{Evidence, atom, relay_path}
use loop_proof.Returns.{
  least, return_path_credit_raw, normalize_address, transfer_key, retains, if_both_safe,
  compare_transfer, valid_transfer, valid_step, valid_transfers, starts_after, within_path_time,
  distinct_transfers, valid_return_atoms, valid_return_evidence, return_evidence_identity,
  compare_return_evidence, consider, select_loop, Options, valid_candidates, select_return_evidence,
  is_complete,
}
use loop_proof.Returns.Valid.{IsReturnPath, valid_return_atoms_iff}
use loop_proof.Returns.Selecting.{IsValidEvidence, IsSelection, select_return_evidence-IsSelection}
use loop_proof.Returns.Exhausting.{IsSettled, select_return_evidence_exhausts}
use loop_proof.Tests.Samples.{first_hop, second_hop, relay, direct}

program : Unit {0}
unfolding least return_path_credit_raw normalize_address transfer_key retains if_both_safe
    compare_transfer valid_transfer valid_step valid_transfers starts_after within_path_time
    distinct_transfers valid_return_atoms valid_return_evidence return_evidence_identity
    compare_return_evidence consider select_loop valid_candidates select_return_evidence text_eq
    to_lower_case decimal join unit_order sort set_of has add_all
program = tt

abbrev candidates : List Evidence
candidates = atom direct ∷ relay_path relay ∷ []

abbrev options : ℕ → Options
options required = record {
  required_raw = required;
  earliest_settlement_timestamp = none;
  max_paths = 512;
  reserved_keys = [];
}

-- The larger credit comes first, and alone it is enough.
enough :
    (select_return_evidence unit_order candidates (options 900)).evidence ≡ relay_path relay ∷ []
unfolding program
enough = refl

-- More than both give is required.
too_much : is_complete 1500 (select_return_evidence unit_order candidates (options 1500)) ≡ false
unfolding program
too_much = refl

select_return_evidence-IsSelection_example :
    IsSelection
      (IsValidEvidence unit_order none)
      512
      900
      (set_of [])
      (select_return_evidence unit_order candidates (options 900))
select_return_evidence-IsSelection_example =
    select_return_evidence-IsSelection unit_order candidates (options 900)

short : (select_return_evidence unit_order candidates (options 1500)).returned_raw < 1500
unfolding program
short = omega arith

few : length (select_return_evidence unit_order candidates (options 1500)).evidence < 512
unfolding program
few = omega arith

select_return_evidence_exhausts_example :
    All
      (λ c.
        valid_return_evidence unit_order none c ≡ true
        → IsSettled (select_return_evidence unit_order candidates (options 1500)) c)
      candidates
select_return_evidence_exhausts_example =
    select_return_evidence_exhausts unit_order candidates (options 1500) short few

valid_return_atoms_iff_example :
    (valid_return_atoms unit_order none (first_hop ∷ second_hop ∷ []) ≡ true)
    ↔ IsReturnPath unit_order none first_hop (second_hop ∷ [])
valid_return_atoms_iff_example = valid_return_atoms_iff unit_order none first_hop (second_hop ∷ [])
