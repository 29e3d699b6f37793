-- ===== src/Json.antt =====
-- scripts/proof-bundle.mjs: `canonicalJson` on the values that `JSON.parse` gives. A number of the bundles is a
-- natural number, and the texts are ASCII. No two fields of an object have one key.
pub mod Order
use loop_proof.Common.{
  ℕ, ◌+◌, ◌/◌, ◌%◌, ltb, ◌==◌, if◌then◌else◌, Bool, true, false, Option, none, some, get_or, List,
  [], ◌∷◌, ◌++◌, map, flat_map, Text, codes, text_eq, join, decimal, lookup, sort, unit_order,
}

mutual
  pub data Json : Type 0 where
    null : Json
    boolean : Bool → Json
    number : ℕ → Json
    string : Text → Json
    array : Items → Json
    object : Fields → Json

  pub data Items : Type 0 where
    no_items : Items
    item : Json → Items → Items

  pub data Fields : Type 0 where
    no_fields : Fields
    field : Text → Json → Fields → Fields

hex_sign : ℕ → ℕ
hex_sign digit = if ltb digit 10 then 48 + digit else 87 + digit

-- A character in a string that `JSON.stringify` prints.
unfoldable pub escaped : ℕ → Text
unfolding hex_sign
escaped c =
    if c == 34
    then codes "\\\""
    else if c == 92
    then codes "\\\\"
    else if c == 8
    then codes "\\b"
    else if c == 9
    then codes "\\t"
    else if c == 10
    then codes "\\n"
    else if c == 12
    then codes "\\f"
    else if c == 13
    then codes "\\r"
    else if ltb c 32
    then codes "\\u00" ++ hex_sign (c / 16) ∷ hex_sign (c % 16) ∷ []
    else c ∷ []

-- `JSON.stringify` of a string.
unfoldable pub quoted : Text → Text
unfolding escaped
quoted text = codes "\"" ++ flat_map escaped text ++ codes "\""

-- `Object.keys(input)`
unfoldable pub keys : Fields → List Text
keys no_fields = []
keys (field key value rest) = key ∷ keys rest

-- The text of a field, given the texts of all values.
unfoldable pub printed_field : List (Text × Text) → Text → Text
unfolding quoted lookup
printed_field values key = quoted key ++ codes ":" ++ get_or (lookup key values) []

-- `canonicalJson`: the keys of an object are sorted.
unfoldable mutual
  unfolding decimal quoted join printed_field sort unit_order keys

  pub canonical_json : Json → Text
  canonical_json null = codes "null"
  canonical_json (boolean true) = codes "true"
  canonical_json (boolean false) = codes "false"
  canonical_json (number n) = decimal n
  canonical_json (string text) = quoted text
  canonical_json (array items) = codes "[" ++ join (codes ",") (canonical_items items) ++ codes "]"
  canonical_json (object fields) =
      codes "{"
      ++ join (codes ",")
          (map (printed_field (canonical_fields fields)) (sort unit_order (keys fields)))
      ++ codes "}"

  pub canonical_items : Items → List Text
  canonical_items no_items = []
  canonical_items (item value rest) = canonical_json value ∷ canonical_items rest

  pub canonical_fields : Fields → List (Text × Text)
  canonical_fields no_fields = []
  canonical_fields (field key value rest) = (key, canonical_json value) ∷ canonical_fields rest

-- `input[key]`
unfoldable pub get_field : Text → Fields → Option Json
unfolding text_eq
get_field key no_fields = none
get_field key (field other value rest) =
    if text_eq other key then some value else get_field key rest

-- `{ ...input, [key]: value }`: an old key keeps its place.
unfoldable pub set_field : Text → Json → Fields → Fields
unfolding text_eq
set_field key value no_fields = field key value no_fields
set_field key value (field other old rest) =
    if text_eq other key then field other value rest else field other old (set_field key value rest)
