-- ===== src/Tests/Proofs.antt =====
-- The memberships of a plan at concrete inputs.
use loop_proof.Common.{ℕ, ◌≡◌, refl, List, [], ◌∷◌, Text, codes, text_eq, has, keys_by_text, ok}
use loop_proof.Claims.{closed_loop, Claim}
use loop_proof.Common.{none}
use loop_proof.Evidence.{Evidence, atom}
use loop_proof.Planner.Plans.{Plan}
use loop_proof.Planner.Memberships.{ProvedPlan, attach_memberships}
use loop_proof.Planner.Memberships.Proved.{AreProved, attach_memberships_listed}
use loop_proof.Tests.Samples.{settlement_at}

abbrev pub digest : List ℕ → Text
digest bytes = codes "61"

abbrev evidence : List Evidence
evidence =
    atom (settlement_at (codes "0xaa") 44470001 70)
    ∷ atom (settlement_at (codes "0xbb") 44470002 60)
    ∷ []

abbrev pub claim : Claim
claim = record {
  claim_id = codes "claim";
  claim_type = closed_loop;
  subjects = [];
  approved_buyers = [];
  approved_funders = [];
  wallet_a = none;
  wallet_b = none;
  metrics = none;
  dependency_root = [];
  leaf_hash = codes "0xcc";
  dependencies = evidence;
}

abbrev pub plan : Plan
plan = record {
  claim_id = codes "claim";
  claim_type = closed_loop;
  subjects = [];
  dependency_root = [];
  selected_evidence = evidence;
  selected_blocks = 44470001 ∷ 44470002 ∷ [];
  cost = record { windows = 2; atoms = 2; witness_bytes = 0; canonical = [] };
}

abbrev all_claims : List Claim
all_claims = record claim { leaf_hash = codes "0xdd" } ∷ claim ∷ []

attach_memberships_listed_example :
    (proved : ProvedPlan) × (attach_memberships digest (λ c. []) (λ e. []) plan claim all_claims
      ≡ ok proved)
    × AreProved digest (λ c. []) (λ e. []) plan claim all_claims proved
unfolding has text_eq
attach_memberships_listed_example =
    attach_memberships_listed digest (λ c. []) (λ e. []) plan claim all_claims refl
      (refl, (refl, tt))
