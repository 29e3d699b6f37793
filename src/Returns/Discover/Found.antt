-- ===== src/Returns/Discover/Found.antt =====
-- What the loop of `discoverCachedRelayReturns` keeps.
use loop_proof.Returns.Prefixes.{Prefix, time_of, serialize_transfer, to_of}
use loop_proof.Common.{
  ℕ, ◌+◌, ◌≤◌, ◌<◌, ◌≡◌, refl, sym, ap, ap₂, subst, ◌∙◌, ◌⊎◌, inl, inr, arith, ◌-◌, ◌&&◌, ltb, min,
  lookup, if◌then◌else◌, text_eq, some_injective, Bool, Bool-cases, Option-cases, true, false, ◌||◌,
  Option, none, some, get_or, List, [], ◌∷◌, ◌++◌, map, any, length, length-append, sum_by,
  sum_by-append, All, Text, Ordering, keys_by_text, has, add_all, IsDistinct, add_all-IsDistinct,
}
use loop_proof.Policy.{t_path_seconds}
use loop_proof.Evidence.{Atom}
use loop_proof.Returns.{least, transfer_key}
use loop_proof.Returns.Discover.{
  FoundPath, Discovery, improve, best_finish, complete_path, found_path, extend, is_finished,
  discover_loop,
}

abbrev pub keys_of : FoundPath → List Text
keys_of path = map transfer_key path.hops

-- The smallest amount of a path's hops.
abbrev pub credit_of : FoundPath → ℕ
credit_of path = get_or (least (map (λ (entry : Atom). entry.amount_raw) path.hops)) 0

-- No path has a transfer that is used before it.
abbrev pub AreSeparate : List Text → List FoundPath → Type 0
AreSeparate used [] = Unit
AreSeparate used (path ∷ rest) =
    (any (λ key. has key used) (keys_of path) ≡ false)
    × AreSeparate (add_all (keys_of path) used) rest

abbrev used_after : List Text → List FoundPath → List Text
used_after used [] = used
used_after used (path ∷ rest) = used_after (add_all (keys_of path) used) rest

-- The paths before the last one do not give what is required.
abbrev pub AreNeeded : ℕ → List FoundPath → Type 0
AreNeeded required paths =
    (paths ≡ [])
    ⊎ ((before : List FoundPath) × (last : FoundPath) × (paths ≡ before ++ last ∷ [])
        × (sum_by credit_of before < required))

pub record IsDiscovery (max_paths required : ℕ) (reserved : List Text) (s : Discovery)
    : Type 0 where
  pub used : s.used_keys ≡ used_after reserved s.paths
  pub distinct : IsDistinct s.used_keys
  pub separate : AreSeparate reserved s.paths
  pub counted : s.returned_raw ≡ sum_by credit_of s.paths
  pub bounded : length s.paths ≤ max_paths
  pub needed : AreNeeded required s.paths

AreSeparate-snoc :
    (used : List Text) (paths : List FoundPath) (path : FoundPath)
    → AreSeparate used paths
    → any (λ key. has key (used_after used paths)) (keys_of path) ≡ false
    → AreSeparate used (paths ++ path ∷ [])
AreSeparate-snoc used [] path s h = (h, tt)
AreSeparate-snoc used (first ∷ rest) path s h =
    (s.0, AreSeparate-snoc (add_all (keys_of first) used) rest path s.1 h)

used_after_snoc :
    (used : List Text) (paths : List FoundPath) (path : FoundPath)
    → used_after used (paths ++ path ∷ []) ≡ add_all (keys_of path) (used_after used paths)
used_after_snoc used [] path = refl
used_after_snoc used (first ∷ rest) path = used_after_snoc (add_all (keys_of first) used) rest path

-- The credit of a prefix is that of its two hops.
abbrev pub IsCredited : Prefix → Type 0
IsCredited p = p.prefix_credit_raw ≡ min p.first.amount_raw p.second.amount_raw

-- A path that is joined to those found before.
keys-serialized :
    (p : Prefix) (hops : List Atom) → keys_of (found_path p hops) ≡ map transfer_key hops
unfolding serialize_transfer transfer_key
keys-serialized p [] = refl
keys-serialized p (hop ∷ hops) = ap (λ keys. transfer_key hop ∷ keys) (keys-serialized p hops)

joined :
    (max_paths required : ℕ) (reserved : List Text) (s : Discovery) (p : Prefix) (hops : List Atom)
    (credit : ℕ)
    → is_finished max_paths required s ≡ false
    → any (λ key. has key s.used_keys) (map transfer_key hops) ≡ false
    → credit_of (found_path p hops) ≡ credit
    → IsDiscovery max_paths required reserved s
    → IsDiscovery max_paths required reserved (record {
      paths = s.paths ++ found_path p hops ∷ [];
      returned_raw = s.returned_raw + credit;
      used_keys = add_all (map transfer_key hops) s.used_keys;
    })
joined max_paths required reserved s p hops credit unfinished fresh c d =
    let same = keys-serialized p hops in
    record {
      used =
          ap₂ (λ keys used. add_all keys used) (sym same) d.used
          ∙ sym (used_after_snoc reserved s.paths (found_path p hops));
      distinct = add_all-IsDistinct (map transfer_key hops) s.used_keys d.distinct;
      separate = AreSeparate-snoc reserved s.paths (found_path p hops) d.separate (
          subst
            (λ (used : List Text). any (λ key. has key used) (keys_of (found_path p hops)) ≡ false)
            d.used
            (subst (λ (keys : List Text). any (λ key. has key s.used_keys) keys ≡ false) (sym same)
              fresh));
      counted =
          ground (arith, sum_by-append credit_of s.paths (found_path p hops ∷ []), d.counted, c);
      bounded = ground (arith, length-append s.paths (found_path p hops ∷ []), d.bounded);
      needed = inr (s.paths, found_path p hops, refl, ground (arith, d.counted));
    }

two_hops :
    (p : Prefix) (hops : List Atom) (credit : ℕ)
    → IsCredited p
    → p.first ∷ p.second ∷ [] ≡ hops
    → p.prefix_credit_raw ≡ credit
    → credit_of (found_path p hops) ≡ credit
unfolding serialize_transfer least
two_hops p hops credit c e f =
    subst (λ (xs : List Atom). credit_of (found_path p xs) ≡ credit) e (ground (arith, c, f))

three_hops :
    (p : Prefix) (finish : Atom) (found : ℕ) (hops : List Atom) (credit : ℕ)
    → IsCredited p
    → found ≡ min p.prefix_credit_raw finish.amount_raw
    → p.first ∷ p.second ∷ finish ∷ [] ≡ hops
    → found ≡ credit
    → credit_of (found_path p hops) ≡ credit
unfolding serialize_transfer least
three_hops p finish found hops credit c k e f =
    subst (λ (xs : List Atom). credit_of (found_path p xs) ≡ credit) e (ground (arith, c, k, f))

module _ (collate : Text → Text → Ordering) (funder : Text)
    (inbound : List (Text × List Atom)) where
  -- The credit beside a best entry is that of the path with it.
  abbrev HasCredit : Prefix → Option (Atom × ℕ) → Type 0
  HasCredit p none = Unit
  HasCredit p (some (entry, credit)) = credit ≡ min p.prefix_credit_raw entry.amount_raw

  HasCredit-if :
      (p : Prefix) (test : Bool) (best : Option (Atom × ℕ)) (entry : Atom)
      → HasCredit p best
      → HasCredit p (if test then some (entry, min p.prefix_credit_raw entry.amount_raw) else best)
  HasCredit-if p true best entry h = refl
  HasCredit-if p false best entry h = h

  improve-HasCredit :
      (p : Prefix) (used : List Text) (best : Option (Atom × ℕ)) (entry : Atom)
      → HasCredit p best
      → HasCredit p (improve collate p used best entry)
  unfolding improve
  improve-HasCredit p used best entry h = HasCredit-if p _ best entry h

  best_finish-HasCredit :
      (p : Prefix) (used : List Text) (best : Option (Atom × ℕ)) (entries : List Atom)
      → HasCredit p best
      → HasCredit p (best_finish collate p used best entries)
  unfolding best_finish
  best_finish-HasCredit p used best [] h = h
  best_finish-HasCredit p used best (entry ∷ rest) h =
      elim (Bool-cases (
        ltb (time_of p.second) (time_of entry)
        && ltb t_path_seconds (time_of entry - time_of p.first))) [
          | inl late ↦ rw late h
          | inr in_time ↦ rw in_time (
              best_finish-HasCredit p used (improve collate p used best entry) rest
                (improve-HasCredit p used best entry h))
        ]

  complete_path-credit :
      (used : List Text) (p : Prefix) (hops : List Atom) (credit : ℕ)
      → IsCredited p
      → complete_path collate funder inbound used p ≡ some (hops, credit)
      → credit_of (found_path p hops) ≡ credit
  unfolding complete_path serialize_transfer least
  complete_path-credit used p hops credit c h =
      let entries = get_or (lookup (to_of p.second) inbound) [] in
      elim (Bool-cases (text_eq (to_of p.second) funder)) [
        | inl direct ↦
            let shape = some_injective (rw (direct, complete_path) at h) in
            two_hops p hops credit c (ap (λ (x : List Atom × ℕ). x.0) shape)
              (ap (λ (x : List Atom × ℕ). x.1) shape)
        | inr onward ↦ elim (Option-cases (best_finish collate p used none entries)) [
          | inl nothing ↦ absurd (ground (arith, onward, nothing, h))
          | inr ((finish, found), e) ↦
              let kept : HasCredit p (some (finish, found)) =
                subst (HasCredit p) e (best_finish-HasCredit p used none entries tt) in
              let shape = some_injective (rw (onward, e, complete_path) at h) in
              three_hops p finish found hops credit c kept (ap (λ (x : List Atom × ℕ). x.0) shape)
                (ap (λ (x : List Atom × ℕ). x.1) shape)
        ]
      ]

  extend-IsDiscovery :
      (max_paths required : ℕ) (reserved : List Text) (s : Discovery) (p : Prefix)
      → IsCredited p
      → is_finished max_paths required s ≡ false
      → IsDiscovery max_paths required reserved s
      → IsDiscovery max_paths required reserved (extend collate funder inbound s p)
  unfolding extend
  extend-IsDiscovery max_paths required reserved s p c unfinished d =
      elim (Bool-cases
        (has (transfer_key p.first) s.used_keys || has (transfer_key p.second) s.used_keys)) [
          | inl old ↦ rw (old, extend) d
          | inr new ↦ elim (Option-cases (complete_path collate funder inbound s.used_keys p)) [
            | inl nothing ↦ rw (new, nothing, extend) d
            | inr ((hops, credit), e) ↦
                elim (Bool-cases (any (λ key. has key s.used_keys) (map transfer_key hops))) [
                  | inl shared ↦ rw (new, e, shared, extend) d
                  | inr fresh ↦
                      rw (new, e, fresh, extend)
                        (joined max_paths required reserved s p hops credit unfinished fresh
                          (complete_path-credit s.used_keys p hops credit c e) d)
                ]
          ]
        ]

  pub discover_loop-IsDiscovery :
      (max_paths required : ℕ) (reserved : List Text) (prefixes : List Prefix) (s : Discovery)
      → All IsCredited prefixes
      → IsDiscovery max_paths required reserved s
      → IsDiscovery max_paths required reserved
          (discover_loop collate funder inbound max_paths required prefixes s)
  unfolding discover_loop
  discover_loop-IsDiscovery max_paths required reserved [] s c d = d
  discover_loop-IsDiscovery max_paths required reserved (p ∷ rest) s c d =
      elim (Bool-cases (is_finished max_paths required s)) [
        | inl finished ↦ rw finished d
        | inr unfinished ↦ rw unfinished (
            discover_loop-IsDiscovery max_paths required reserved rest
              (extend collate funder inbound s p) c.1
              (extend-IsDiscovery max_paths required reserved s p c.0 unfinished d))
      ]
