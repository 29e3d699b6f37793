-- ===== src/Common/Throwing.antt =====
-- Code that may throw: its value, or what it throws.
use mathlib.Core.Path.{◌≡◌, refl}
use mathlib.Core.Bool.{Bool, true, false, not}
use mathlib.Core.Logic.{◌⊎◌, inl, inr}
use mathlib.Core.List.{List, [], ◌∷◌}
use mathlib.Core.Path.{ap}
use Prim.Native.Nat.{suc}
use loop_proof.Common.Lists.{All, length}

pub data Outcome {ℓ κ} (E : Type κ) (A : Type ℓ) : Type (ℓ ⊔ κ) where
  ok : A → Outcome E A
  throw : E → Outcome E A

-- What follows is run on the value; a failure is passed on.
abbrev pub ◌>>=◌ {ℓ κ μ} :
    {Failure : Type μ} {A : Type ℓ} {B : Type κ}
    → Outcome Failure A
    → (A → Outcome Failure B)
    → Outcome Failure B
throw failure >>= next = throw failure
ok value >>= next = next value

abbrev pub ◌>>◌ {ℓ μ} :
    {Failure : Type μ} {B : Type ℓ}
    → Outcome Failure (Unit {0})
    → Outcome Failure B
    → Outcome Failure B
throw failure >> next = throw failure
ok done >> next = next

infixl 5 ◌>>◌ ◌>>=◌
-- `if (test) throw failure;`
abbrev pub throw_if {μ} : {Failure : Type μ} → Bool → Failure → Outcome Failure (Unit {0})
throw_if false failure = ok tt
throw_if true failure = throw failure

-- `values.map(f)` for a callback that may throw: the first failure ends it.
unfoldable pub map_outcome {ℓ κ μ} :
    {E : Type μ} {A : Type ℓ} {B : Type κ} → (A → Outcome E B) → List A → Outcome E (List B)
map_outcome f [] = ok []
map_outcome f (x ∷ xs) = do y ← f x; ys ← map_outcome f xs; ok (y ∷ ys)

-- What a successful bind was made of.
pub >>=-eq-ok {ℓ κ μ} :
    {Failure : Type μ} {A : Type ℓ} {B : Type κ} (first : Outcome Failure A)
    (next : A → Outcome Failure B) {result : B}
    → first >>= next ≡ ok result
    → (value : A) × (first ≡ ok value) × (next value ≡ ok result)
>>=-eq-ok (throw failure) next done = cc
>>=-eq-ok (ok value) next done = (value, refl, done)

pub throw_if-eq-ok {μ} :
    {E : Type μ} (test : Bool) (e : E) {u : Unit {0}} → throw_if test e ≡ ok u → test ≡ false
throw_if-eq-ok true e h = cc
throw_if-eq-ok false e h = refl

pub Outcome-cases {ℓ κ} :
    {E : Type κ} {A : Type ℓ} (m : Outcome E A) → ((a : A) × (m ≡ ok a)) ⊎ ((e : E) × (m ≡ throw e))
Outcome-cases (ok a) = inl (a, refl)
Outcome-cases (throw e) = inr (e, refl)

pub ok_injective {ℓ κ} :
    {E : Type κ} {A : Type ℓ} {a b : A} → ◌≡◌ {A = Outcome E A} (ok a) (ok b) → a ≡ b
ok_injective h = cc

pub >>-eq-ok {ℓ κ} :
    {E : Type κ} {B : Type ℓ} (first : Outcome E (Unit {0})) (next : Outcome E B) {result : B}
    → first >> next ≡ ok result
    → (first ≡ ok tt) × (next ≡ ok result)
>>-eq-ok (throw failure) next h = absurd (cc)
>>-eq-ok (ok done) next h = (refl, h)

-- A test that threw nothing: what it threw for does not hold, or what it asked for holds.
pub not_thrown {ℓ κ} :
    {E : Type κ} {B : Type ℓ} (test : Bool) (failure : E) (next : Outcome E B) {result : B}
    → throw_if test failure >> next ≡ ok result
    → (test ≡ false) × (next ≡ ok result)
not_thrown false failure next h = (refl, h)
not_thrown true failure next h = absurd (cc)

pub passed {ℓ κ} :
    {E : Type κ} {B : Type ℓ} (test : Bool) (failure : E) (next : Outcome E B) {result : B}
    → throw_if (not test) failure >> next ≡ ok result
    → (test ≡ true) × (next ≡ ok result)
passed true failure next h = (refl, h)
passed false failure next h = absurd (cc)

module _ {ℓ κ μ} {E : Type μ} {A : Type ℓ} {B : Type κ} (f : A → Outcome E B) where
  pub map_outcome-cons :
      (x : A) (xs : List A) {y : B} {ys : List B}
      → f x ≡ ok y
      → map_outcome f xs ≡ ok ys
      → map_outcome f (x ∷ xs) ≡ ok (y ∷ ys)
  unfolding map_outcome
  map_outcome-cons x xs e h = rw (e, h)

  pub map_outcome-cons-eq-ok :
      (x : A) (xs : List A) {zs : List B}
      → map_outcome f (x ∷ xs) ≡ ok zs
      → (y : B) × (ys : List B) × (f x ≡ ok y) × (map_outcome f xs ≡ ok ys) × (zs ≡ y ∷ ys)
  unfolding map_outcome
  map_outcome-cons-eq-ok x xs h =
      let (y, e, h1) = >>=-eq-ok (f x) _ h in
      let (ys, g, h2) = >>=-eq-ok (map_outcome f xs) _ h1 in (y, ys, e, g, cc)

  pub length-map_outcome :
      (xs : List A) (ys : List B) → map_outcome f xs ≡ ok ys → length ys ≡ length xs
  unfolding map_outcome
  length-map_outcome [] ys h = rw (← ok_injective h) refl
  length-map_outcome (x ∷ xs) ys h =
      let (z, zs, made, rest, same) = map_outcome-cons-eq-ok x xs h in
      rw same (ap suc (length-map_outcome xs zs rest))

  pub All-map_outcome {ν ξ} :
      {P : A → Type ν} {Q : B → Type ξ}
      → ((x : A) (y : B) → f x ≡ ok y → P x → Q y)
      → (xs : List A) (ys : List B) → map_outcome f xs ≡ ok ys
      → All P xs
      → All Q ys
  unfolding map_outcome
  All-map_outcome each [] ys h all = rw (← ok_injective h) tt
  All-map_outcome each (x ∷ xs) ys h all =
      let (z, zs, made, rest, same) = map_outcome-cons-eq-ok x xs h in
      rw same (each x z made all.0, All-map_outcome each xs zs rest all.1)
