-- ===== src/FixedVolume/Scoped.antt =====
-- scripts/search-fixed-volume-returns.mjs: what `valid` of `selectFixedVolumeReturns` asks of a path.
use loop_proof.Common.{
  Bool, false, ◌&&◌, ℕ, ◌≤◌, ◌<◌, ◌≡◌, ◌⊎◌, ◌^◌, refl, inl, inr, arith, and_true, true, List, [],
  ◌∷◌, every, last?, All, All_of_every, Option, none, some, get_or, Option-cases, Text, text_eq_iff,
  to_lower_case,
}
use loop_proof.Hex.{is_hex}
use loop_proof.Evidence.{Atom, Evidence, atomic_evidence, number_of}
use loop_proof.FixedVolume.{Scope, is_address, is_valid_hop, is_valid_path}

-- The address is there, and it is the one wanted but for capitals.
abbrev pub IsAddressed : Option Text → Text → Type 0
IsAddressed found wanted =
    (text : Text) × (found ≡ some text) × (to_lower_case text ≡ to_lower_case wanted)

-- A hop of the period, by its time and, where it is known, by its block, with a transaction hash.
pub record IsScopedHop (scope : Scope) (hop : Atom) : Type 0 where
  after_start : scope.earliest < number_of hop.timestamp
  before_end : number_of hop.timestamp ≤ scope.end
  safe_time : number_of hop.timestamp < 2 ^ 53
  hashed : is_hex 64 (get_or hop.transaction_hash []) ≡ true
  safe_index : number_of hop.log_index < 2 ^ 53
  in_blocks :
      (hop.block_number ≡ none)
      ⊎ ((block : ℕ) × (hop.block_number ≡ some block)
          × (scope.start_block ≤ block)
          × (block ≤ scope.end_block))

-- A path from the seller to the funder whose hops are of the period.
pub record IsScopedPath (scope : Scope) (path : Evidence) : Type 0 where
  first : Atom
  last : Atom
  rest : List Atom
  hops : atomic_evidence path ≡ first ∷ rest
  ends : last? (first ∷ rest) ≡ some last
  from_seller : IsAddressed first.from scope.seller
  to_funder : IsAddressed last.to scope.funder
  scoped : All (IsScopedHop scope) (first ∷ rest)

is_address-IsAddressed :
    (found : Option Text) (wanted : Text)
    → is_address found wanted ≡ true
    → IsAddressed found wanted
is_address-IsAddressed none wanted h = absurd (cc)
is_address-IsAddressed (some text) wanted h =
    (text, refl, (text_eq_iff (to_lower_case text) (to_lower_case wanted)).0 h)

is_valid_hop-IsScopedHop :
    (scope : Scope) (hop : Atom) → is_valid_hop scope hop ≡ true → IsScopedHop scope hop
unfolding is_valid_hop
is_valid_hop-IsScopedHop scope hop h = record {
  after_start = ground (arith, h);
  before_end = ground (arith, h);
  safe_time = ground (arith, h);
  hashed = ground (arith, h);
  safe_index = ground (arith, h);
  in_blocks = elim (Option-cases hop.block_number) [
    | inl e ↦ inl e
    | inr (block, e) ↦ inr (block, e, ground (arith, h, e), ground (arith, h, e))
  ];
}

is_valid_hops :
    (scope : Scope) (path : Evidence) (hops : List Atom)
    → atomic_evidence path ≡ hops
    → is_valid_path scope path ≡ true
    → IsScopedPath scope path
unfolding is_valid_path
is_valid_hops scope path [] e h = absurd (ground (arith, e, h))
is_valid_hops scope path (first ∷ rest) e h =
    let ends_at_funder : Bool = elim (last? (first ∷ rest)) [
      | none ↦ false
      | some last ↦ is_address last.to scope.funder
    ] in
    let scoped_hops = every (is_valid_hop scope) (first ∷ rest) in
    let (from_seller, t1) =
      and_true (is_address first.from scope.seller) (ends_at_funder && scoped_hops)
        (rw (e, is_valid_path) at h) in
    let (to_funder, scoped) = and_true ends_at_funder scoped_hops t1 in
    elim (Option-cases (last? (first ∷ rest))) [
      | inl no_last ↦ absurd (ground (arith, no_last, to_funder))
      | inr (last, ends) ↦ record {
        first = first;
        last = last;
        rest = rest;
        hops = e;
        ends = ends;
        from_seller = is_address-IsAddressed first.from scope.seller from_seller;
        to_funder = is_address-IsAddressed last.to scope.funder (rw ends at to_funder);
        scoped =
            All_of_every (IsScopedHop scope) (is_valid_hop scope) (is_valid_hop-IsScopedHop scope)
              (first ∷ rest) scoped;
      }
    ]

pub is_valid_path-IsScopedPath :
    (scope : Scope) (path : Evidence) → is_valid_path scope path ≡ true → IsScopedPath scope path
is_valid_path-IsScopedPath scope path h = is_valid_hops scope path (atomic_evidence path) refl h
