-- ===== src/Tests/Bundles.antt =====
-- One evidence bundle for each seller.
use loop_proof.Common.{
  keys_of, ◌≡◌, refl, List, [], ◌∷◌, none, some, Text, codes, text_eq, to_lower_case, keys_by_text,
  lookup, has_key, insert, IsDistinct, ok, throw,
}
use loop_proof.Claims.{closed_loop, Claim}
use loop_proof.Sellers.{
  Entry, second_bundle, missing_evidence, by_claim_onto, add_subjects, add_claims,
  seller_evidence_by_address,
}
use loop_proof.Sellers.Complete.{sellers_of, seller_evidence_by_address-keys}

program : Unit {0}
unfolding text_eq to_lower_case lookup has_key insert by_claim_onto add_subjects add_claims
    seller_evidence_by_address
program = tt

abbrev claim_of : Text → List Text → Claim
claim_of id subjects = record {
  claim_id = id;
  claim_type = closed_loop;
  subjects = subjects;
  approved_buyers = [];
  approved_funders = [];
  wallet_a = none;
  wallet_b = none;
  metrics = none;
  dependency_root = [];
  leaf_hash = [];
  dependencies = [];
}

abbrev entry_of : Text → Entry
entry_of id = record { claim_id = id; kind = some (codes "k"); witness_path = some (codes "w") }

abbrev claims : List Claim
claims =
    claim_of (codes "Pair") (codes "0xA" ∷ codes "0xB" ∷ [])
    ∷ claim_of (codes "one") (codes "0xc" ∷ [])
    ∷ []

abbrev entries : List Entry
entries = entry_of (codes "one") ∷ entry_of (codes "pair") ∷ []

abbrev result : List (Text × Entry)
result =
    (codes "0xa", entry_of (codes "pair"))
    ∷ (codes "0xb", entry_of (codes "pair"))
    ∷ (codes "0xc", entry_of (codes "one"))
    ∷ []

mapped : seller_evidence_by_address claims entries ≡ ok result
unfolding program
mapped = refl

-- test/seller-evidence.test.mjs: sellers that differ by case only are the same.
overlapping :
    seller_evidence_by_address
      (claim_of (codes "one") (codes "0xc" ∷ []) ∷ claim_of (codes "pair") (codes "0xC" ∷ []) ∷ [])
      entries
    ≡ throw (second_bundle (codes "0xc"))
unfolding program
overlapping = refl

missing : seller_evidence_by_address claims [] ≡ throw (missing_evidence (codes "Pair"))
unfolding program
missing = refl

seller_evidence_by_address-keys_example :
    (keys_of result ≡ sellers_of claims) × IsDistinct (sellers_of claims)
seller_evidence_by_address-keys_example =
    seller_evidence_by_address-keys claims entries result mapped
