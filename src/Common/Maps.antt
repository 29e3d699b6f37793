-- ===== src/Common/Maps.antt =====
-- `Map` from texts: an association list in insertion order.
use mathlib.Core.List.{List, [], ◌∷◌, ◌++◌}
use mathlib.Core.Bool.{Bool, false, ◌||◌}
use mathlib.Core.Option.{Option, none, some}
use loop_proof.Common.Tests.{if◌then◌else◌}
use loop_proof.Common.Texts.{Text, text_eq}

module _ {ℓ} {V : Type ℓ} where
  -- `map.get(key)`
  unfoldable pub lookup : Text → List (Text × V) → Option V
  lookup k [] = none
  lookup k ((j, v) ∷ m) = if text_eq j k then some v else lookup k m

  -- `map.has(key)`
  unfoldable pub has_key : Text → List (Text × V) → Bool
  has_key k [] = false
  has_key k ((j, v) ∷ m) = text_eq j k || has_key k m

  -- `map.set(key, value)`: an old key keeps its place.
  unfoldable pub insert : Text → V → List (Text × V) → List (Text × V)
  insert k v [] = (k, v) ∷ []
  insert k v ((j, w) ∷ m) = if text_eq j k then (j, v) ∷ m else (j, w) ∷ insert k v m

  -- The `push` of a grouping loop: the value joins the list under the key.
  unfoldable pub push : Text → V → List (Text × List V) → List (Text × List V)
  push k v [] = (k, v ∷ []) ∷ []
  push k v ((j, vs) ∷ m) = if text_eq j k then (j, vs ++ v ∷ []) ∷ m else (j, vs) ∷ push k v m

  group_onto : (V → Text) → List V → List (Text × List V) → List (Text × List V)
  unfolding push
  group_onto key [] m = m
  group_onto key (v ∷ vs) m = group_onto key vs (push (key v) v m)

  -- `groupBy(values, key)`
  unfoldable pub group_by : (V → Text) → List V → List (Text × List V)
  unfolding group_onto
  group_by key vs = group_onto key vs []
