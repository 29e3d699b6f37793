-- ===== src/Bundle.antt =====
-- scripts/proof-bundle.mjs: the claims and the bundle, as JSON values. SHA-256 (the
-- hexadecimal digest of a list of bytes) and the collation of `localeCompare` are arguments. A claim's
-- dependencies stand beside its other fields, which hashing leaves them out of.
pub mod Locators
pub mod Order
use loop_proof.Common.{
  ℕ, suc, ◌-◌, Ordering, ◌==◌, if◌then◌else◌, Bool, true, false, Option, none, some, List, [], ◌∷◌,
  ◌++◌, map, filter, length, Text, codes, text_eq, to_lower_case, decimal, insert, sort,
}
use loop_proof.Hex.{is_hex}
use loop_proof.Json.{
  Json, Fields, null, number, string, array, object, Items, no_items, item, no_fields, field,
  get_field, set_field, canonical_json,
}
use loop_proof.Merkle.{merkle_root}
use loop_proof.Returns.{is_safe_integer}

pub record RawClaim : Type 0 where
  pub body : Fields
  pub dependencies : List Fields

pub record Dependency : Type 0 where
  pub dependency : Fields
  pub dependency_id : Text

-- The body has the dependency root.
pub record FinalClaim : Type 0 where
  pub body : Fields
  pub claim_id : Text
  pub leaf_hash : Text
  pub dependencies : List Dependency

-- A claim of a bundle: one that has its leaf, or one that has not.
pub data BundleClaim : Type 0 where
  raw : RawClaim → BundleClaim
  final : FinalClaim → BundleClaim

pub record ClaimCounts : Type 0 where
  pub closed_loops : ℕ
  pub reciprocals : ℕ
  pub total : ℕ

pub record FinalBundle : Type 0 where
  pub claim_counts : ClaimCounts
  pub report_root : Text
  pub claims : List FinalClaim

-- `claim.type === type`
unfoldable pub has_type : Text → FinalClaim → Bool
unfolding get_field text_eq
has_type expected claim = elim (get_field (codes "type") claim.body) [
  | some (string actual) ↦ text_eq actual expected
  | _ ↦ false
]

unfoldable pub by_text : List Fields → List (Text × Fields) → List (Text × Fields)
unfolding canonical_json insert
by_text [] found = found
by_text (fields ∷ rest) found = by_text rest (insert (canonical_json (object fields)) fields found)

unfoldable pub count_claims : List FinalClaim → ClaimCounts
unfolding has_type
count_claims claims = record {
  closed_loops = length (filter (has_type (codes "P0_CLOSED_LOOP")) claims);
  reciprocals = length (filter (has_type (codes "P0_RECIPROCAL")) claims);
  total = length claims;
}

module _ (sha256 : List ℕ → Text) (locale_compare : Text → Text → Ordering) where
  -- `dedupeDependencies`
  unfoldable pub dedupe_dependencies : List Fields → List Fields
  unfolding by_text sort canonical_json
  dedupe_dependencies values =
      sort
        (λ (left : Fields) (right : Fields).
          locale_compare (canonical_json (object left)) (canonical_json (object right)))
        (map (λ (entry : Text × Fields). entry.1) (by_text values []))

  -- `hashCanonical`
  unfoldable pub hash_canonical : Text → Json → Text
  unfolding canonical_json
  hash_canonical domain input = codes "0x" ++ sha256 (domain ++ 0 ∷ [] ++ canonical_json input)

  unfoldable pub identified : Fields → Dependency
  unfolding hash_canonical
  identified fields = record {
    dependency = fields;
    dependency_id = hash_canonical (codes "dependency") (object fields);
  }

  unfoldable pub dependency_order : Dependency → Dependency → Ordering
  dependency_order left right = locale_compare left.dependency_id right.dependency_id

  -- The dependencies with their identifiers, in the order of these.
  unfoldable pub identified_dependencies : List Fields → List Dependency
  unfolding dedupe_dependencies identified dependency_order sort
  identified_dependencies dependencies =
      sort dependency_order (map identified (dedupe_dependencies dependencies))

  unfoldable pub claim_body : RawClaim → Fields
  unfolding identified_dependencies merkle_root set_field
  claim_body claim =
      set_field (codes "dependencyRoot")
        (string (
          merkle_root sha256 (
            map (λ (entry : Dependency). entry.dependency_id)
              (identified_dependencies claim.dependencies))))
        claim.body

  unfoldable pub id_of : Fields → Text
  unfolding hash_canonical
  id_of body = hash_canonical (codes "claim-id") (object body)

  unfoldable pub leaf_of : Fields → Text
  unfolding hash_canonical id_of set_field
  leaf_of body =
      hash_canonical (codes "claim-leaf")
        (object (set_field (codes "claimId") (string (id_of body)) body))

  -- `finalizeClaim`
  unfoldable pub finalize_claim : RawClaim → FinalClaim
  unfolding claim_body id_of leaf_of identified_dependencies
  finalize_claim claim = record {
    body = claim_body claim;
    claim_id = id_of (claim_body claim);
    leaf_hash = leaf_of (claim_body claim);
    dependencies = identified_dependencies claim.dependencies;
  }

  unfoldable pub finalized : BundleClaim → FinalClaim
  unfolding finalize_claim
  finalized (raw claim) = finalize_claim claim
  finalized (final claim) = claim

  unfoldable pub claim_order : FinalClaim → FinalClaim → Ordering
  claim_order left right = locale_compare left.claim_id right.claim_id

  -- `finalizeBundle`
  unfoldable pub finalize_bundle : List BundleClaim → FinalBundle
  unfolding finalized claim_order sort count_claims merkle_root
  finalize_bundle claims =
      let finals = sort claim_order (map finalized claims) in
      record {
        claim_counts = count_claims finals;
        report_root = merkle_root sha256 (map (λ (claim : FinalClaim). claim.leaf_hash) finals);
        claims = finals;
      }
