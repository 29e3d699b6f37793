-- ===== src/Common/MapKeys.antt =====
-- The keys of a `Map`.
use mathlib.Core.Path.{◌≡◌, refl}
use mathlib.Core.List.{List, [], ◌∷◌, ◌++◌, map}
use mathlib.Core.Bool.{false}
use native.Mathlib.Omega.{arith}
use loop_proof.Common.Lists.{All}
use loop_proof.Common.Texts.{Text, text_eq, text_eq_iff}
use loop_proof.Common.Keys.{keys_by_text, has}
use loop_proof.Common.Maps.{has_key, insert}

module _ {ℓ} {V : Type ℓ} where
  abbrev pub keys_of : List (Text × V) → List Text
  keys_of found = map (λ (entry : Text × V). entry.0) found

  -- A new key joins at the end.
  pub keys-insert :
      (key : Text) (value : V) (found : List (Text × V))
      → has_key key found ≡ false
      → keys_of (insert key value found) ≡ keys_of found ++ key ∷ []
  unfolding has_key insert
  keys-insert key value [] h = refl
  keys-insert key value ((j, w) ∷ found) h = ground (arith, keys-insert key value found)

  pub has-keys :
      (key : Text) (found : List (Text × V)) → has key (keys_of found) ≡ has_key key found
  unfolding has has_key
  has-keys key [] = refl
  has-keys key ((j, w) ∷ found) =
      ground (arith, has-keys key found, text_eq_iff key j, text_eq_iff j key)

  pub All-insert {κ} :
      (P : Text × V → Type κ) (key : Text) (value : V) (found : List (Text × V))
      → has_key key found ≡ false
      → P (key, value)
      → All P found
      → All P (insert key value found)
  unfolding has_key insert
  All-insert P key value [] new p all = (p, tt)
  All-insert P key value ((j, w) ∷ found) new p (first, all) =
      let other : text_eq j key ≡ false = ground arith in
      rw (other, insert) (first, All-insert P key value found (ground arith) p all)
