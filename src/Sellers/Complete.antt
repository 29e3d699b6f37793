-- ===== src/Sellers/Complete.antt =====
-- `sellerEvidenceByAddress`: which sellers its result has, and that none has two bundles.
use mathlib.Core.List.{append_assoc, append-nil}
use loop_proof.Common.{
  keys_of, keys-insert, has-keys, subst, IsDistinct-snoc, ◌≡◌, sym, ap, ◌∙◌, inl, inr, arith,
  Bool-cases, Option-cases, List, [], ◌∷◌, ◌++◌, map, flat_map, Text, to_lower_case, keys_by_text,
  IsDistinct, lookup, has_key, insert, ok, >>=-eq-ok, ok_injective,
}
use loop_proof.Claims.{Claim}
use loop_proof.Sellers.{Entry, by_claim_onto, add_subjects, add_claims, seller_evidence_by_address}

-- The sellers of claims, in lower case.
abbrev pub sellers_of : List Claim → List Text
sellers_of claims = flat_map (λ (claim : Claim). map to_lower_case claim.subjects) claims

add_subjects-keys :
    (entry : Entry) (result : List (Text × Entry)) (subjects : List Text)
    (next : List (Text × Entry))
    → add_subjects entry result subjects ≡ ok next
    → IsDistinct (keys_of result)
    → (keys_of next ≡ keys_of result ++ map to_lower_case subjects) × IsDistinct (keys_of next)
unfolding add_subjects
add_subjects-keys entry result [] next h d =
    rw (← ok_injective h) (sym (append-nil (keys_of result)), d)
add_subjects-keys entry result (subject ∷ rest) next h d =
    elim (Bool-cases (has_key (to_lower_case subject) result)) [
      | inl old ↦ absurd (ground (arith, old, h))
      | inr new ↦
          let seller = to_lower_case subject in
          let grown = keys-insert seller entry result new in
          let distinct =
            subst (λ (keys : List Text). IsDistinct keys) (sym grown)
              (IsDistinct-snoc seller (keys_of result) (has-keys seller result ∙ new) d) in
          let ih =
            add_subjects-keys entry (insert seller entry result) rest next
              (rw (new, add_subjects) at h) distinct in
          (
            ih.0
                ∙ ap (λ keys. keys ++ map to_lower_case rest) grown
                ∙ append_assoc (keys_of result) (seller ∷ []) (map to_lower_case rest),
            ih.1,
          )
    ]

add_claims-keys :
    (entries result : List (Text × Entry)) (claims : List Claim) (next : List (Text × Entry))
    → add_claims entries result claims ≡ ok next
    → IsDistinct (keys_of result)
    → (keys_of next ≡ keys_of result ++ sellers_of claims) × IsDistinct (keys_of next)
unfolding add_claims
add_claims-keys entries result [] next h d =
    rw (← ok_injective h) (sym (append-nil (keys_of result)), d)
add_claims-keys entries result (claim ∷ rest) next h d =
    elim (Option-cases (lookup (to_lower_case claim.claim_id) entries)) [
      | inl missing ↦ absurd (ground (arith, missing, h))
      | inr (entry, e) ↦
          let (middle, f, g) =
            >>=-eq-ok (add_subjects entry result claim.subjects)
              (λ (middle : List (Text × Entry)). add_claims entries middle rest)
              (rw (e, add_claims) at h) in
          let first = add_subjects-keys entry result claim.subjects middle f d in
          let ih = add_claims-keys entries middle rest next g first.1 in
          (
            ih.0
                ∙ ap (λ keys. keys ++ sellers_of rest) first.0
                ∙ append_assoc (keys_of result) (map to_lower_case claim.subjects)
                    (sellers_of rest),
            ih.1,
          )
    ]

-- Where `sellerEvidenceByAddress` gives a result, its sellers are those of all the claims, in their
-- order and in lower case, and no seller is in it twice; so it gives none where two subjects agree.
pub seller_evidence_by_address-keys :
    (claims : List Claim) (entries : List Entry) (result : List (Text × Entry))
    → seller_evidence_by_address claims entries ≡ ok result
    → (keys_of result ≡ sellers_of claims) × IsDistinct (sellers_of claims)
unfolding seller_evidence_by_address
seller_evidence_by_address-keys claims entries result h =
    let (found, e, f) = >>=-eq-ok (by_claim_onto [] entries) _ h in
    let k = add_claims-keys found [] claims result f tt in
    (k.0, subst (λ (keys : List Text). IsDistinct keys) k.0 k.1)
