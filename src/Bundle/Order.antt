-- ===== src/Bundle/Order.antt =====
-- What does not depend on the order in which the claims and their fields are given.
use mathlib.Core.List.{Perm, Permᴰ}
use mathlib.Core.List.Perm
use mathlib.Core.Logic.{∥∥₁_elim}
use native.Mathlib.Nat.{ℕ_set}
use loop_proof.Common.{
  ℕ, ◌+◌, Ordering, ◌≡◌, ◌∙◌, refl, sym, ap, ap₂, subst, inl, inr, arith, Bool, Bool-cases, true,
  false, if◌then◌else◌, List, [], ◌∷◌, ◌++◌, map, filter, length, Text, codes, text_eq, text_eq_iff,
  sort, sort-perm,
}
use loop_proof.Json.{Json, Fields, string, object, set_field}
use loop_proof.Json.Order.{
  SameFields, same, objects, at_end, beside, swapped, chained, canonical_json_of_same,
}
use loop_proof.Merkle.Order.{merkle_root_of_perm}
use loop_proof.Bundle.{
  RawClaim, FinalClaim, BundleClaim, has_type, count_claims, finalized, finalize_claim, claim_order,
  finalize_bundle, claim_body, id_of, leaf_of, hash_canonical,
}

set_field-SameFields :
    (key : Text) (value : Json) {left right : Fields}
    → SameFields left right
    → SameFields (set_field key value left) (set_field key value right)
unfolding set_field
set_field-SameFields key value at_end = beside same at_end
set_field-SameFields key value (beside {key = old} {left = left} {right = right} alike rest) =
    elim (Bool-cases (text_eq old key)) [
      | inl hit ↦ rw hit (beside same rest)
      | inr miss ↦ rw miss (beside alike (set_field-SameFields key value rest))
    ]
set_field-SameFields key value (swapped {key = one} {other_key = two} apart) =
    elim (Bool-cases (text_eq one key)) [
      | inl first ↦
          let not_second : text_eq two key ≡ false =
            ground (arith, text_eq_iff one key, text_eq_iff two key, text_eq_iff one two) in
          rw (first, not_second, set_field) (swapped apart)
      | inr not_first ↦ elim (Bool-cases (text_eq two key)) [
        | inl second ↦ rw (not_first, second, set_field) (swapped apart)
        | inr not_second ↦ rw (not_first, not_second, set_field) (swapped apart)
      ]
    ]
set_field-SameFields key value (chained first second) =
    chained (set_field-SameFields key value first) (set_field-SameFields key value second)

abbrev bit : Bool → ℕ
bit b = if b then 1 else 0

length-filter-cons {ℓ} :
    {A : Type ℓ} (p : A → Bool) (x : A) (xs : List A)
    → length (filter p (x ∷ xs)) ≡ bit (p x) + length (filter p xs)
length-filter-cons p x xs = ground arith

length-filter_of_permᴰ {ℓ} :
    {A : Type ℓ} (p : A → Bool) {xs ys : List A}
    → Permᴰ xs ys
    → length (filter p xs) ≡ length (filter p ys)
length-filter_of_permᴰ p Permᴰ.nil = refl
length-filter_of_permᴰ p (Permᴰ.cons {a = a} {b = b} {l₁ = xs} {l₂ = ys} e q) =
    length-filter-cons p a xs
    ∙ ap₂ (λ x n. bit (p x) + n) e (length-filter_of_permᴰ p q)
    ∙ sym (length-filter-cons p b ys)
length-filter_of_permᴰ p (Permᴰ.swap {a = a} {b = b} {a' = c} {b' = d} {l = l} e f) = omega (
  arith,
  length-filter-cons p a (b ∷ l),
  length-filter-cons p b l,
  length-filter-cons p c (d ∷ l),
  length-filter-cons p d l,
  ap (λ x. bit (p x)) e,
  ap (λ x. bit (p x)) f,
)
length-filter_of_permᴰ p (Permᴰ.trans q r) = length-filter_of_permᴰ p q ∙ length-filter_of_permᴰ p r

length-filter_of_perm {ℓ} :
    {A : Type ℓ} (p : A → Bool) {xs ys : List A}
    → Perm xs ys
    → length (filter p xs) ≡ length (filter p ys)
length-filter_of_perm p {xs} {ys} q =
    let is_set : IsSet ℕ = hlevel ℕ_set in
    ∥∥₁_elim q (is_set (length (filter p xs)) (length (filter p ys))) (length-filter_of_permᴰ p)

filter_all {ℓ} : {A : Type ℓ} (xs : List A) → filter (λ x. true) xs ≡ xs
filter_all [] = refl
filter_all (x ∷ xs) = ap (λ ys. x ∷ ys) (filter_all xs)

length_of_perm {ℓ} : {A : Type ℓ} {xs ys : List A} → Perm xs ys → length xs ≡ length ys
length_of_perm {xs} {ys} p =
    ap length (sym (filter_all xs))
    ∙ length-filter_of_perm (λ x. true) p
    ∙ ap length (filter_all ys)

count_claims_of_perm :
    {left right : List FinalClaim} → Perm left right → count_claims left ≡ count_claims right
unfolding count_claims
count_claims_of_perm p = rw (
  length-filter_of_perm (has_type (codes "P0_CLOSED_LOOP")) p,
  length-filter_of_perm (has_type (codes "P0_RECIPROCAL")) p,
  length_of_perm p,
)

module _ (sha256 : List ℕ → Text) (locale_compare : Text → Text → Ordering) where
  hash_of_same :
      (domain : Text) {left right : Fields}
      → SameFields left right
      → hash_canonical sha256 locale_compare domain (object left)
        ≡ hash_canonical sha256 locale_compare domain (object right)
  unfolding hash_canonical
  hash_of_same domain alike =
      ap (λ text. codes "0x" ++ sha256 (domain ++ 0 ∷ [] ++ text))
        (canonical_json_of_same (objects alike))

  id_of_same :
      {left right : Fields}
      → SameFields left right
      → id_of sha256 locale_compare left ≡ id_of sha256 locale_compare right
  unfolding id_of
  id_of_same alike = hash_of_same (codes "claim-id") alike

  leaf_of_same :
      {left right : Fields}
      → SameFields left right
      → leaf_of sha256 locale_compare left ≡ leaf_of sha256 locale_compare right
  unfolding leaf_of
  leaf_of_same {left} {right} alike =
      ap
        (λ id.
          hash_canonical sha256 locale_compare (codes "claim-leaf")
            (object (set_field (codes "claimId") (string id) left)))
        (id_of_same alike)
      ∙ hash_of_same (codes "claim-leaf") (
          set_field-SameFields (codes "claimId") (string (id_of sha256 locale_compare right)) alike)

  claim_body_of_same :
      (left right : RawClaim)
      → SameFields left.body right.body
      → left.dependencies ≡ right.dependencies
      → SameFields (claim_body sha256 locale_compare left) (claim_body sha256 locale_compare right)
  claim_body_of_same left right alike dependencies =
      subst
        (λ (given : List Fields).
          SameFields (claim_body sha256 locale_compare left)
            (claim_body sha256 locale_compare (record { body = right.body; dependencies = given })))
        dependencies (unfold claim_body in set_field-SameFields (codes "dependencyRoot") _ alike)

  -- Two claims with the same dependencies, whose other fields differ only in their order, at any
  -- depth, get the same identifier and the same leaf hash.
  pub finalize_claim_of_same :
      (left right : RawClaim)
      → SameFields left.body right.body
      → left.dependencies ≡ right.dependencies
      → ((finalize_claim sha256 locale_compare left).claim_id
          ≡ (finalize_claim sha256 locale_compare right).claim_id)
        × ((finalize_claim sha256 locale_compare left).leaf_hash
            ≡ (finalize_claim sha256 locale_compare right).leaf_hash)
  unfolding finalize_claim
  finalize_claim_of_same left right alike dependencies =
      let bodies = claim_body_of_same left right alike dependencies in
      (id_of_same bodies, leaf_of_same bodies)

  leaf_hashes : List BundleClaim → List Text
  leaf_hashes claims =
      map (λ (claim : FinalClaim). claim.leaf_hash)
        (sort (claim_order sha256 locale_compare) (map (finalized sha256 locale_compare) claims))

  -- Rearranging the claims leaves the root and the counts of the bundle as they are.
  pub finalize_bundle_of_perm :
      (left right : List BundleClaim)
      → Perm left right
      → ((finalize_bundle sha256 locale_compare left).report_root
          ≡ (finalize_bundle sha256 locale_compare right).report_root)
        × ((finalize_bundle sha256 locale_compare left).claim_counts
            ≡ (finalize_bundle sha256 locale_compare right).claim_counts)
  unfolding finalize_bundle
  finalize_bundle_of_perm left right p =
      let cmp = claim_order sha256 locale_compare in
      let sorted : Perm (sort cmp (map (finalized sha256 locale_compare) left))
          (sort cmp (map (finalized sha256 locale_compare) right)) =
        Perm.trans (sort-perm cmp (map (finalized sha256 locale_compare) left)) (
          Perm.trans (Perm.map (finalized sha256 locale_compare) p)
            (Perm.symm (sort-perm cmp (map (finalized sha256 locale_compare) right)))) in
      (
        merkle_root_of_perm sha256 _ _ (Perm.map (λ (claim : FinalClaim). claim.leaf_hash) sorted),
        count_claims_of_perm sorted,
      )
