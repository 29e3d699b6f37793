-- ===== src/Merkle/Search.antt =====
-- The searches for a hash's index in a list of hashes.
use loop_proof.Common.{
  ℕ, zero, suc, ◌≡◌, refl, inl, inr, arith, Bool-cases, Option-cases, true, false, some, List, [],
  ◌∷◌, get_elem?, Text, text_eq, text_eq_sound, text_eq_refl, has, keys_by_text, IsDistinct,
}
use loop_proof.Merkle.{last_index, first_index}

-- An index that the searches find holds the target.
pub last_index-get :
    (target : Text) (hashes : List Text) (i : ℕ)
    → last_index target hashes ≡ some i
    → get_elem? hashes i ≡ some target
unfolding last_index
last_index-get target [] i e = cc
last_index-get target (hash ∷ hashes) zero e = ground (arith, text_eq_sound hash target)
last_index-get target (hash ∷ hashes) (suc i) e = last_index-get target hashes i (ground arith)

first_index-get :
    (target : Text) (hashes : List Text) (i : ℕ)
    → first_index target hashes ≡ some i
    → get_elem? hashes i ≡ some target
unfolding first_index
first_index-get target [] i e = cc
first_index-get target (hash ∷ hashes) zero e = ground (arith, text_eq_sound hash target)
first_index-get target (hash ∷ hashes) (suc i) e = first_index-get target hashes i (ground arith)

-- The searches fail only where the target is not among the hashes.
pub last_index_found :
    (target : Text) (hashes : List Text)
    → has target hashes ≡ true
    → (i : ℕ) × (last_index target hashes ≡ some i)
unfolding last_index has
last_index_found target [] h = cc
last_index_found target (hash ∷ hashes) h = elim (Option-cases (last_index target hashes)) [
  | inr (i, later) ↦ (suc i, rw later)
  | inl none_later ↦ elim (Bool-cases (has target hashes)) [
    | inl in_rest ↦ let (i, found) = last_index_found target hashes in_rest in absurd (ground arith)
    | inr not_in_rest ↦ (0, ground (arith, text_eq_sound target hash, text_eq_refl target))
  ]
]

pub last_index_absent :
    (target : Text) (hashes : List Text) (i : ℕ)
    → last_index target hashes ≡ some i
    → has target hashes ≡ true
unfolding last_index has
last_index_absent target [] i e = cc
last_index_absent target (hash ∷ hashes) zero e =
    ground (arith, text_eq_sound hash target, text_eq_refl target)
last_index_absent target (hash ∷ hashes) (suc i) e =
    ground (arith, last_index_absent target hashes i)

-- Over distinct hashes both searches find the same index.
pub first-eq-last :
    (target : Text) (hashes : List Text)
    → IsDistinct hashes
    → first_index target hashes ≡ last_index target hashes
unfolding first_index last_index
first-eq-last target [] d = refl
first-eq-last target (hash ∷ hashes) d = elim (Bool-cases (text_eq hash target)) [
  | inr other ↦ ground (arith, first-eq-last target hashes d.1)
  | inl same ↦ elim (Option-cases (last_index target hashes)) [
    | inl absent ↦ ground arith
    | inr (i, later) ↦
        let twice : has target hashes ≡ true = last_index_absent target hashes i later in
        let e : hash ≡ target = text_eq_sound hash target same in
        let once : has target hashes ≡ false = rw e at d.0 in absurd (ground arith)
  ]
]
