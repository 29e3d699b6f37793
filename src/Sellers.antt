-- ===== src/Sellers.antt =====
-- scripts/seller-evidence.mjs: one evidence bundle for each seller of the approved claims.
pub mod Complete
use loop_proof.Common.{
  Bool, true, false, ◌||◌, Option, none, some, List, [], ◌∷◌, Text, to_lower_case, lookup, has_key,
  insert, if◌then◌else◌, Outcome, ok, throw, ◌>>=◌,
}
use loop_proof.Claims.{Claim}

pub data Failure : Type 0 where
  duplicate_entry missing_evidence second_bundle no_single_bundle : Text → Failure

-- An entry of the evidence: the identifier of its claim, and what the proof is made from.
pub record Entry : Type 0 where
  pub claim_id : Text
  pub kind : Option Text
  pub witness_path : Option Text

-- The loop that finds each claim's entry.
unfoldable pub by_claim_onto :
    List (Text × Entry) → List Entry → Outcome Failure (List (Text × Entry))
unfolding to_lower_case has_key insert
by_claim_onto found [] = ok found
by_claim_onto found (entry ∷ rest) =
    let id = to_lower_case entry.claim_id in
    let others = by_claim_onto (insert id entry found) rest in
    if has_key id found then throw (duplicate_entry id) else others

-- The loop over the subjects of a claim.
unfoldable pub add_subjects :
    Entry → List (Text × Entry) → List Text → Outcome Failure (List (Text × Entry))
unfolding to_lower_case has_key insert
add_subjects entry result [] = ok result
add_subjects entry result (subject ∷ rest) =
    let seller = to_lower_case subject in
    let others = add_subjects entry (insert seller entry result) rest in
    if has_key seller result then throw (second_bundle seller) else others

-- The loop over the claims.
unfoldable pub add_claims :
    List (Text × Entry) → List (Text × Entry) → List Claim → Outcome Failure (List (Text × Entry))
unfolding to_lower_case lookup add_subjects
add_claims entries result [] = ok result
add_claims entries result (claim ∷ rest) = elim (lookup (to_lower_case claim.claim_id) entries) [
  | none ↦ throw (missing_evidence claim.claim_id)
  | some entry ↦ do next ← add_subjects entry result claim.subjects; add_claims entries next rest
]

-- `sellerEvidenceByAddress`
unfoldable pub seller_evidence_by_address :
    List Claim → List Entry → Outcome Failure (List (Text × Entry))
unfolding by_claim_onto add_claims
seller_evidence_by_address claims entries = do
  found ← by_claim_onto [] entries
  add_claims found [] claims

abbrev pub is_filled : Option Text → Bool
is_filled none = false
is_filled (some []) = false
is_filled (some (c ∷ rest)) = true

-- `singleEvidenceEntry`, of an entry that may be missing. An entry is never a list here.
unfoldable pub single_evidence_entry : Option Entry → Text → Outcome Failure Entry
single_evidence_entry none seller = throw (no_single_bundle seller)
single_evidence_entry (some entry) seller =
    if is_filled entry.kind
    then if is_filled entry.witness_path then ok entry else throw (no_single_bundle seller)
    else throw (no_single_bundle seller)
