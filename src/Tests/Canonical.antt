-- ===== src/Tests/Canonical.antt =====
-- Claims as JSON values: their text, and what does not depend on the order.
use mathlib.Core.List.Perm
use loop_proof.Common.{ℕ, ◌≡◌, refl, true, some, List, [], ◌∷◌, Text, codes, text_eq, unit_order}
use loop_proof.Json.{
  Fields, null, boolean, string, array, object, no_items, item, no_fields, field, canonical_json,
}
use loop_proof.Json.Order.{SameFields, swapped}
use loop_proof.Bundle.{RawClaim, raw, finalize_claim, finalize_bundle}
use loop_proof.Bundle.Locators.{numeric_or_null}
use loop_proof.Bundle.Order.{finalize_claim_of_same, finalize_bundle_of_perm}

-- A digest that only shows what is hashed.
abbrev shown : List ℕ → Text
shown bytes = bytes

abbrev one_way : Fields
one_way =
    field (codes "type") (string (codes "P0_RECIPROCAL"))
      (field (codes "list") (array (item (boolean true) (item null no_items))) no_fields)

abbrev other_way : Fields
other_way =
    field (codes "list") (array (item (boolean true) (item null no_items)))
      (field (codes "type") (string (codes "P0_RECIPROCAL")) no_fields)

printed :
    canonical_json (object one_way) ≡ codes "{\"list\":[true,null],\"type\":\"P0_RECIPROCAL\"}"
unfolding canonical_json text_eq
printed = refl

rounded : numeric_or_null (some 9007199254740992) ≡ null
unfolding numeric_or_null
rounded = refl

alike : SameFields one_way other_way
unfolding text_eq
alike = swapped refl

abbrev first_claim : RawClaim
first_claim = record { body = one_way; dependencies = one_way ∷ other_way ∷ [] }

abbrev second_claim : RawClaim
second_claim = record { body = other_way; dependencies = one_way ∷ other_way ∷ [] }

finalize_claim_of_same_example :
    ((finalize_claim shown unit_order first_claim).claim_id
      ≡ (finalize_claim shown unit_order second_claim).claim_id)
    × ((finalize_claim shown unit_order first_claim).leaf_hash
        ≡ (finalize_claim shown unit_order second_claim).leaf_hash)
finalize_claim_of_same_example =
    finalize_claim_of_same shown unit_order first_claim second_claim alike refl

abbrev third_claim : RawClaim
third_claim = record { body = no_fields; dependencies = [] }

finalize_bundle_of_perm_example :
    ((finalize_bundle shown unit_order (raw first_claim ∷ raw third_claim ∷ [])).report_root
      ≡ (finalize_bundle shown unit_order (raw third_claim ∷ raw first_claim ∷ [])).report_root)
    × ((finalize_bundle shown unit_order (raw first_claim ∷ raw third_claim ∷ [])).claim_counts
        ≡ (finalize_bundle shown unit_order (raw third_claim ∷ raw first_claim ∷ [])).claim_counts)
finalize_bundle_of_perm_example =
    finalize_bundle_of_perm shown unit_order (raw first_claim ∷ raw third_claim ∷ [])
      (raw third_claim ∷ raw first_claim ∷ []) (Perm.swap (raw third_claim) (raw first_claim) [])
