-- ===== src/Returns/Valid.antt =====
-- `validReturnEvidence` of return-path-selection.mjs, against what a return path is.
use loop_proof.Common.{
  ℕ, ◌-◌, ◌*◌, ◌≤◌, ◌<◌, ◌≡◌, ◌≢◌, refl, inl, inr, ◌↔◌, arith, leb→le, le→leb, Bool-cases,
  Option-cases, true, false, Ordering, Option, none, some, List, [], ◌∷◌, map, length, last?,
  set_of, IsDistinct, IsDistinct-of_size, size_of_distinct, length-map, ==_iff, ◌∙◌, sym,
  keys_by_text, Text, text_eq, text_eq_iff, text_eq_sound, to_lower_case,
}
use loop_proof.Policy.{rho_hop_bps, t_path_seconds, basis_points}
use loop_proof.Evidence.{Evidence, atomic_evidence, Atom, number_of}
use loop_proof.Returns.{
  transfer_key, distinct_transfers, normalize_address, compare_transfer, retains, valid_transfer,
  valid_step, valid_transfers, starts_after, within_path_time, valid_return_atoms,
  valid_return_evidence, path_keys,
}

-- A transfer of a path moves a positive amount, to another address where both are known.
pub record IsTransfer (a : Atom) : Type 0 where
  pub positive : 0 < a.amount_raw
  pub moves :
      (from to : Text) → a.from ≡ some from → a.to ≡ some to → to_lower_case from ≢ to_lower_case to

valid_transfer-IsTransfer : (a : Atom) → valid_transfer a ≡ true → IsTransfer a
unfolding valid_transfer
valid_transfer-IsTransfer a h = record {
  positive = ground arith;
  moves = λ from to f t e. ground (arith, text_eq_iff (to_lower_case from) (to_lower_case to));
}

distinct_ends :
    (a : Atom) (from to : Text)
    → IsTransfer a
    → a.from ≡ some from
    → a.to ≡ some to
    → text_eq (to_lower_case from) (to_lower_case to) ≡ false
distinct_ends a from to t f g =
    elim (Bool-cases (text_eq (to_lower_case from) (to_lower_case to))) [
      | inl same ↦ absurd (t.moves from to f g (text_eq_sound _ _ same))
      | inr other ↦ other
    ]

IsTransfer-valid_transfer : (a : Atom) → IsTransfer a → valid_transfer a ≡ true
unfolding valid_transfer
IsTransfer-valid_transfer a t = elim (Option-cases a.from) [
  | inl no_from ↦ ground arith
  | inr (from, f) ↦ elim (Option-cases a.to) [
    | inl no_to ↦ ground arith
    | inr (to, g) ↦ ground (arith, distinct_ends a from to t f g)
  ]
]

starts_after_iff :
    (earliest : Option ℕ) (first : Atom)
    → (starts_after earliest first ≡ true)
      ↔ ((limit time : ℕ) → earliest ≡ some limit → first.timestamp ≡ some time → limit < time)
unfolding starts_after
starts_after_iff none first = (λ h limit time e t. cc, λ h. refl)
starts_after_iff (some limit) first = (
  λ h limit' time e t. ground arith,
  λ h. elim (Option-cases first.timestamp) [
    | inl unknown ↦ ground arith
    | inr (time, known) ↦ ground (arith, h limit time refl known)
  ],
)

within_path_time_iff :
    (first : Atom) (rest : List Atom)
    → (within_path_time (first ∷ rest) ≡ true) ↔ (
        (last : Atom)
        → last? (first ∷ rest) ≡ some last
        → number_of last.timestamp - number_of first.timestamp ≤ t_path_seconds)
unfolding within_path_time
within_path_time_iff first [] =
    (λ h last e. let same : first ≡ last = cc in rw (← same) (omega arith), λ h. refl)
within_path_time_iff first (second ∷ rest) = (
  λ h last e.
      leb→le (number_of last.timestamp - number_of first.timestamp) t_path_seconds
        (rw (e, within_path_time) at h),
  λ h. elim (Option-cases (last? (second ∷ rest))) [
    | inl absent ↦ rw (absent, within_path_time)
    | inr (last, found) ↦ rw (found, within_path_time) (le→leb _ _ (h last found))
  ],
)

distinct_transfers_iff :
    (atoms : List Atom) → (distinct_transfers atoms ≡ true) ↔ IsDistinct (map transfer_key atoms)
unfolding distinct_transfers
distinct_transfers_iff atoms = (
  λ h.
      let size : length (set_of (map transfer_key atoms)) ≡ length atoms = (==_iff _ _).0 h in
      IsDistinct-of_size (map transfer_key atoms) (size ∙ sym (length-map atoms transfer_key)),
  λ d. (==_iff _ _).1 (size_of_distinct (map transfer_key atoms) d ∙ length-map atoms transfer_key),
)

module _ (collate : Text → Text → Ordering) where
  -- The next transfer starts where the last one ended, comes later on the chain, and passes on the
  -- required share of the amount.
  pub record IsStep (previous current : Atom) : Type 0 where
    pub joined : normalize_address previous.to ≡ normalize_address current.from
    pub later : compare_transfer collate previous current ≡ Ordering.lt
    pub retained : previous.amount_raw * rho_hop_bps ≤ current.amount_raw * basis_points

  abbrev pub IsChain : List Atom → Type 0
  IsChain [] = Unit
  IsChain (a ∷ []) = IsTransfer a
  IsChain (a ∷ b ∷ rest) = IsTransfer a × IsStep a b × IsChain (b ∷ rest)

  -- What a return path is, whatever order the tests are made in.
  pub record IsReturnPath (earliest : Option ℕ) (first : Atom) (rest : List Atom) : Type 0 where
    pub short : length (first ∷ rest) ≤ 9
    pub distinct : IsDistinct (map transfer_key (first ∷ rest))
    pub chain : IsChain (first ∷ rest)
    pub starts :
        (limit time : ℕ) → earliest ≡ some limit → first.timestamp ≡ some time → limit < time
    pub in_time :
        (last : Atom)
        → last? (first ∷ rest) ≡ some last
        → number_of last.timestamp - number_of first.timestamp ≤ t_path_seconds

  valid_step_iff : (a b : Atom) → (valid_step collate a b ≡ true) ↔ IsStep a b
  unfolding valid_step retains
  valid_step_iff a b =
      ground (arith, text_eq_iff (normalize_address a.to) (normalize_address b.from))

  valid_transfers_iff : (atoms : List Atom) → (valid_transfers collate atoms ≡ true) ↔ IsChain atoms
  unfolding valid_transfers
  valid_transfers_iff [] = (λ h. tt, λ h. refl)
  valid_transfers_iff (a ∷ []) = (valid_transfer-IsTransfer a, IsTransfer-valid_transfer a)
  valid_transfers_iff (a ∷ b ∷ rest) =
      let ih = valid_transfers_iff (b ∷ rest) in
      let step = valid_step_iff a b in
      (
        λ h. (
          valid_transfer-IsTransfer a (ground arith),
          step.0 (ground arith),
          ih.0 (ground arith),
        ),
        λ c. ground (arith, IsTransfer-valid_transfer a c.0, step.1 c.1, ih.1 c.2),
      )

  -- validReturnEvidence accepts the transfers of a path exactly where there are at most nine, no two of
  -- one key, each moves a positive amount to another address than the one it leaves, where both are known,
  -- and each but the first leaves the address that the one before pays, later, and passes on the required share; the first is later than the earliest
  -- settlement, where both times are known; and the last is within the allowed time of the first.
  pub valid_return_atoms_iff :
      (earliest : Option ℕ) (first : Atom) (rest : List Atom)
      → (valid_return_atoms collate earliest (first ∷ rest) ≡ true)
        ↔ IsReturnPath earliest first rest
  unfolding valid_return_atoms
  valid_return_atoms_iff earliest first rest = (
    λ h. record {
      short = ground arith;
      distinct = (distinct_transfers_iff (first ∷ rest)).0 (ground arith);
      chain = (valid_transfers_iff (first ∷ rest)).0 (ground arith);
      starts = (starts_after_iff earliest first).0 (ground arith);
      in_time = (within_path_time_iff first rest).0 (ground arith);
    },
    λ p. ground (
      arith,
      (distinct_transfers_iff (first ∷ rest)).1 p.distinct,
      (valid_transfers_iff (first ∷ rest)).1 p.chain,
      (starts_after_iff earliest first).1 p.starts,
      (within_path_time_iff first rest).1 p.in_time,
    ),
  )

  -- No transfer stands twice in a path that the test accepts.
  pub valid-IsDistinct :
      (earliest : Option ℕ) (c : Evidence)
      → valid_return_evidence collate earliest c ≡ true
      → IsDistinct (path_keys c)
  unfolding valid_return_evidence
  valid-IsDistinct earliest c h = distinct_of_atoms (atomic_evidence c) h
    where
      distinct_of_atoms :
          (atoms : List Atom)
          → valid_return_atoms collate earliest atoms ≡ true
          → IsDistinct (map transfer_key atoms)
      distinct_of_atoms [] h = tt
      distinct_of_atoms (first ∷ rest) h =
          ((valid_return_atoms_iff earliest first rest).0 h).distinct
