-- ===== src/Json/Order.antt =====
-- `canonicalJson` does not depend on the order of the fields.
use mathlib.Core.List.{Perm}
use mathlib.Core.List.Perm
use loop_proof.Common.{
  ◌≡◌, ◌∙◌, refl, ap, ap₂, arith, false, if◌then◌else◌, some, get_or, List, [], ◌∷◌, ◌++◌, map,
  Text, codes, text_eq, text_eq_iff, join, lookup, sort, unit_order, sort-unit_order_of_perm,
}
use loop_proof.Json.{
  Json, Items, Fields, array, object, no_items, item, no_fields, field, quoted, keys, printed_field,
  canonical_json, canonical_items, canonical_fields,
}

-- Values that differ only in the order of the fields of their objects, at any depth.
mutual
  pub data SameJson : Json → Json → Type 0 where
    same : {value : Json} → SameJson value value
    arrays : {left right : Items} → SameItems left right → SameJson (array left) (array right)
    objects : {left right : Fields} → SameFields left right → SameJson (object left) (object right)

  pub data SameItems : Items → Items → Type 0 where
    no_more : SameItems no_items no_items
    next :
        {value other : Json} {left right : Items}
        → SameJson value other
        → SameItems left right
        → SameItems (item value left) (item other right)

  pub data SameFields : Fields → Fields → Type 0 where
    at_end : SameFields no_fields no_fields
    beside :
        {key : Text} {value other : Json} {left right : Fields}
        → SameJson value other
        → SameFields left right
        → SameFields (field key value left) (field key other right)
    swapped :
        {key other_key : Text} {value other : Json} {rest : Fields}
        → text_eq key other_key ≡ false
        → SameFields
            (field key value (field other_key other rest))
            (field other_key other (field key value rest))
    chained :
        {left middle right : Fields}
        → SameFields left middle
        → SameFields middle right
        → SameFields left right

map_of_eq {ℓ κ} :
    {A : Type ℓ} {B : Type κ} (f g : A → B)
    → ((x : A) → f x ≡ g x)
    → (xs : List A) → map f xs ≡ map g xs
map_of_eq f g each [] = refl
map_of_eq f g each (x ∷ xs) = ap₂ (λ y ys. y ∷ ys) (each x) (map_of_eq f g each xs)

keys-perm : {left right : Fields} → SameFields left right → Perm (keys left) (keys right)
unfolding keys
keys-perm at_end = Perm.rfl
keys-perm (beside {key} value rest) = Perm.cons key (keys-perm rest)
keys-perm (swapped {key} {other_key} {rest = rest} apart) = Perm.swap other_key key (keys rest)
keys-perm (chained first second) = Perm.trans (keys-perm first) (keys-perm second)

lookup_swapped :
    (sought key other_key value other : Text) (rest : List (Text × Text))
    → text_eq key other_key ≡ false
    → lookup sought ((key, value) ∷ (other_key, other) ∷ rest)
      ≡ lookup sought ((other_key, other) ∷ (key, value) ∷ rest)
unfolding lookup
lookup_swapped sought key other_key value other rest apart =
    ground (arith, text_eq_iff key sought, text_eq_iff other_key sought, text_eq_iff key other_key)

mutual
  unfolding canonical_json

  pub canonical_json_of_same :
      {left right : Json} → SameJson left right → canonical_json left ≡ canonical_json right
  canonical_json_of_same same = refl
  canonical_json_of_same (arrays items) =
      ap (λ texts. codes "[" ++ join (codes ",") texts ++ codes "]") (canonical_items_of_same items)
  canonical_json_of_same (objects {left} {right} fields) =
      ap (λ texts. codes "{" ++ join (codes ",") texts ++ codes "}")
        (ap (map (printed_field (canonical_fields left)))
            (sort-unit_order_of_perm (keys-perm fields))
          ∙ map_of_eq (printed_field (canonical_fields left))
              (printed_field (canonical_fields right))
              (λ key.
                ap (λ text. quoted key ++ codes ":" ++ get_or text []) (lookup_of_same key fields))
              (sort unit_order (keys right)))

  pub canonical_items_of_same :
      {left right : Items} → SameItems left right → canonical_items left ≡ canonical_items right
  canonical_items_of_same no_more = refl
  canonical_items_of_same (next value rest) =
      ap₂ (λ text texts. text ∷ texts) (canonical_json_of_same value) (canonical_items_of_same rest)

  pub lookup_of_same :
      {left right : Fields} (sought : Text)
      → SameFields left right
      → lookup sought (canonical_fields left) ≡ lookup sought (canonical_fields right)
  lookup_of_same sought at_end = refl
  lookup_of_same sought (beside {key} value rest) =
      ap₂ (λ text later. if text_eq key sought then some text else later)
        (canonical_json_of_same value) (lookup_of_same sought rest)
  lookup_of_same sought (swapped {key} {other_key} {value} {other} {rest} apart) =
      lookup_swapped sought key other_key (canonical_json value) (canonical_json other)
        (canonical_fields rest) apart
  lookup_of_same sought (chained first second) =
      lookup_of_same sought first ∙ lookup_of_same sought second
