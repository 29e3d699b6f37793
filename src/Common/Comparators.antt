-- ===== src/Common/Comparators.antt =====
-- Comparators that are consistent: by a number, by the image under a function, and one after the other.
use mathlib.Core.Path.{◌≡◌}
use mathlib.Core.Logic.{◌≢◌}
use Prim.Native.Nat.{compare, Ordering}
use native.Mathlib.Omega.{arith}
use loop_proof.Common.Sort.{or_else, IsComparator}

pub compare-IsComparator : IsComparator compare
compare-IsComparator = record { flips = λ x y. ground arith; chains = λ x y z h k. ground arith }

pub IsComparator-by {ℓ κ} :
    {A : Type ℓ} {B : Type κ} (f : A → B) (cmp : B → B → Ordering)
    → IsComparator cmp
    → IsComparator (λ (x y : A). cmp (f x) (f y))
IsComparator-by f cmp c = record {
  flips = λ x y. c.flips (f x) (f y);
  chains = λ x y z. c.chains (f x) (f y) (f z);
}

-- "Before", followed by "not after", is "before".
lt_chains {ℓ} :
    {A : Type ℓ} (cmp : A → A → Ordering)
    → IsComparator cmp
    → (x y z : A) → cmp x y ≡ Ordering.lt
    → cmp y z ≢ Ordering.gt
    → cmp x z ≡ Ordering.lt
lt_chains cmp c x y z before not_after =
    ground
      (arith, c.chains x y z, c.chains y z x, c.chains z x y, c.flips x y, c.flips y z, c.flips x z)

eq_chains {ℓ} :
    {A : Type ℓ} (cmp : A → A → Ordering)
    → IsComparator cmp
    → (x y z : A) → cmp x y ≡ Ordering.eq
    → cmp x z ≡ cmp y z
eq_chains cmp c x y z same = ground (
  arith,
  c.chains x y z,
  c.chains y x z,
  c.chains z x y,
  c.chains z y x,
  c.flips x y,
  c.flips y z,
  c.flips x z,
)

pub or_else-IsComparator {ℓ} :
    {A : Type ℓ} (f g : A → A → Ordering)
    → IsComparator f
    → IsComparator g
    → IsComparator (λ (x y : A). or_else (f x y) (g x y))
or_else-IsComparator f g c d = record {
  flips = λ x y. ground (arith, c.flips x y, d.flips x y);
  chains = λ x y z h k. ground (arith, lt_chains f c x y z, eq_chains f c x y z, d.chains x y z);
}
