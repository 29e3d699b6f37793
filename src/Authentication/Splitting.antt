-- ===== src/Authentication/Splitting.antt =====
-- `authenticateClaim`: the dependencies that the chain confirms, and the others with the reason; and
-- `loadClaimLedgerBalances`. The calls run concurrently in the code and answer the same in any order,
-- so the model takes them in the order of the dependencies.
use loop_proof.Common.{
  ℕ, ◌+◌, ◌-◌, ltb, ◌≡◌, refl, sym, subst, arith, if◌then◌else◌, Bool, true, false, Option, none,
  some, List, [], ◌∷◌, ◌++◌, flat_map, length, All, Text, codes, drop, has_key, insert, Bool-cases,
  ap₂, length-append, text_eq_refl, Outcome, Outcome-cases, inl, inr, ok, throw, map_outcome,
  map_outcome-cons-eq-ok, ◌>>=◌, >>=-eq-ok, ok_injective,
}
use loop_proof.Claims.{Period, ClaimType, closed_loop, reciprocal, unsupported, Claim}
use loop_proof.Evidence.{Evidence}
use loop_proof.Money.{pad_start}
use loop_proof.Authentication.{
  Failure, transport, invalid_ledger_response, Node, Contracts, data_word,
}
use loop_proof.Authentication.Resolving.{ResolvedEvidence, resolve_dependency}

abbrev pub is_transport : Failure → Bool
is_transport transport = true
is_transport _ = false

-- A dependency that was confirmed, or why it was not.
pub data Entry : Type 0 where
  resolved : ResolvedEvidence → Entry
  rejected : Evidence → Failure → Entry

pub record Authenticated : Type 0 where
  pub resolved : List ResolvedEvidence
  pub rejected : List (Evidence × Failure)
  pub ledger_balances : Option (List (Text × ℕ))

abbrev pub resolved_in : Entry → List ResolvedEvidence
resolved_in (resolved evidence) = evidence ∷ []
resolved_in (rejected evidence failure) = []

abbrev pub rejected_in : Entry → List (Evidence × Failure)
rejected_in (resolved evidence) = []
rejected_in (rejected evidence failure) = (evidence, failure) ∷ []

abbrev pub buyers_selector : Text
buyers_selector = codes "0x97a993aa"

has_key-insert :
    (k j : Text) (v : ℕ) (m : List (Text × ℕ))
    → has_key k m ≡ true
    → has_key k (insert j v m) ≡ true
unfolding has_key insert
has_key-insert k j v [] h = ground arith
has_key-insert k j v ((i, w) ∷ m) h = ground (arith, has_key-insert k j v m)

has_key-insert_self : (k : Text) (v : ℕ) (m : List (Text × ℕ)) → has_key k (insert k v m) ≡ true
unfolding has_key insert
has_key-insert_self k v [] = ground (arith, text_eq_refl k)
has_key-insert_self k v ((j, w) ∷ m) = ground (arith, has_key-insert_self k v m)

module _ (node : Node) (contracts : Contracts) (period : Period)
    (eth_call : Text → Text → ℕ → Outcome Failure (Option Text)) where
  -- A failure of the transport is thrown; any other is a rejection.
  unfoldable pub authenticate : Evidence → Outcome Failure Entry
  unfolding resolve_dependency
  authenticate dependency = elim (resolve_dependency node contracts period dependency) [
    | ok evidence ↦ ok (resolved evidence)
    | throw failure ↦
        if is_transport failure then throw failure else ok (rejected dependency failure)
  ]

  -- The balance of a buyer at the end of the period.
  unfoldable pub ledger_balance : Text → Outcome Failure ℕ
  unfolding pad_start data_word
  ledger_balance buyer = do
    answer ←
        eth_call contracts.deposits (buyers_selector ++ pad_start 64 (drop 2 buyer))
          (period.end_block_exclusive - 1)
    elim answer [
      | none ↦ throw (invalid_ledger_response buyer)
      | some result ↦
          if ltb (length result) 66
          then throw (invalid_ledger_response buyer)
          else data_word result 0
    ]

  unfoldable pub load_balances : List Text → List (Text × ℕ) → Outcome Failure (List (Text × ℕ))
  unfolding ledger_balance insert
  load_balances [] balances = ok balances
  load_balances (buyer ∷ rest) balances = do
    balance ← ledger_balance buyer
    load_balances rest (insert buyer balance balances)

  unfoldable pub claim_balances : ClaimType → List Text → Outcome Failure (Option (List (Text × ℕ)))
  unfolding load_balances
  claim_balances closed_loop buyers = do balances ← load_balances buyers []; ok (some balances)
  claim_balances _ buyers = ok none

  -- `authenticateClaim`
  unfoldable pub authenticate_claim : Claim → Outcome Failure Authenticated
  unfolding map_outcome authenticate claim_balances
  authenticate_claim claim = do
    entries ← map_outcome authenticate claim.dependencies
    balances ← claim_balances claim.claim_type claim.approved_buyers
    ok (record {
      resolved = flat_map resolved_in entries;
      rejected = flat_map rejected_in entries;
      ledger_balances = balances;
    })

  -- What `resolveDependency` gives for each dependency, one by one.
  abbrev pub confirmed : Evidence → List ResolvedEvidence
  confirmed dependency = elim (resolve_dependency node contracts period dependency) [
    | ok evidence ↦ evidence ∷ []
    | throw failure ↦ []
  ]

  abbrev pub refused : Evidence → List (Evidence × Failure)
  refused dependency = elim (resolve_dependency node contracts period dependency) [
    | ok evidence ↦ []
    | throw failure ↦ (dependency, failure) ∷ []
  ]

  authenticate-eq-ok :
      (dependency : Evidence) (entry : Entry)
      → authenticate dependency ≡ ok entry
      → (resolved_in entry ≡ confirmed dependency)
        × (rejected_in entry ≡ refused dependency)
        × (length (resolved_in entry) + length (rejected_in entry) ≡ 1)
  unfolding authenticate
  authenticate-eq-ok dependency entry h =
      elim (Outcome-cases (resolve_dependency node contracts period dependency)) [
        | inl (evidence, e) ↦
            let same : resolved evidence ≡ entry = ok_injective (rw (e, authenticate) at h) in
            rw (e, confirmed, refused, ← same) (refl, refl, omega arith)
        | inr (failure, e) ↦ elim (Bool-cases (is_transport failure)) [
          | inl lost ↦ let thrown = rw (e, authenticate, lost) at h in absurd (cc)
          | inr other ↦
              let same : rejected dependency failure ≡ entry =
                ok_injective (rw (e, authenticate, other) at h) in
              rw (e, confirmed, refused, ← same) (refl, refl, omega arith)
        ]
      ]

  entries-eq-ok :
      (dependencies : List Evidence) (entries : List Entry)
      → map_outcome authenticate dependencies ≡ ok entries
      → (flat_map resolved_in entries ≡ flat_map confirmed dependencies)
        × (flat_map rejected_in entries ≡ flat_map refused dependencies)
        × (length (flat_map resolved_in entries) + length (flat_map rejected_in entries)
            ≡ length dependencies)
  entries-eq-ok [] entries h =
      let same : [] ≡ entries = unfold map_outcome in ok_injective h in
      rw (← same) (refl, refl, omega arith)
  entries-eq-ok (dependency ∷ rest) entries h =
      let (first, others, e, f, whole) = map_outcome-cons-eq-ok authenticate dependency rest h in
      let (a, b, c) = authenticate-eq-ok dependency first e in
      let (a1, b1, c1) = entries-eq-ok rest others f in
      rw whole (
        ap₂ ◌++◌ a a1,
        ap₂ ◌++◌ b b1,
        omega (
          arith,
          c,
          c1,
          length-append (resolved_in first) (flat_map resolved_in others),
          length-append (rejected_in first) (flat_map rejected_in others),
        ),
      )

  load_balances-has_key :
      (buyer : Text) (buyers : List Text) (balances loaded : List (Text × ℕ))
      → load_balances buyers balances ≡ ok loaded
      → has_key buyer balances ≡ true
      → has_key buyer loaded ≡ true
  unfolding load_balances
  load_balances-has_key buyer [] balances loaded h k =
      subst (λ (m : List (Text × ℕ)). has_key buyer m ≡ true) (ok_injective h) k
  load_balances-has_key buyer (next ∷ rest) balances loaded h k =
      let (balance, e, h1) = >>=-eq-ok (ledger_balance next) _ h in
      load_balances-has_key buyer rest (insert next balance balances) loaded h1
        (has_key-insert buyer next balance balances k)

  load_balances-All :
      (buyers : List Text) (balances loaded : List (Text × ℕ))
      → load_balances buyers balances ≡ ok loaded
      → All (λ buyer. has_key buyer loaded ≡ true) buyers
  unfolding load_balances
  load_balances-All [] balances loaded h = tt
  load_balances-All (buyer ∷ rest) balances loaded h =
      let (balance, e, h1) = >>=-eq-ok (ledger_balance buyer) _ h in
      (
        load_balances-has_key buyer rest (insert buyer balance balances) loaded h1
            (has_key-insert_self buyer balance balances),
        load_balances-All rest (insert buyer balance balances) loaded h1,
      )

  -- The balances that a claim of a type needs: those of its approved buyers, if it is a closed loop.
  abbrev pub HasBalances : ClaimType → List Text → Option (List (Text × ℕ)) → Type 0
  HasBalances closed_loop buyers none = ⊥
  HasBalances closed_loop buyers (some balances) =
      All (λ buyer. has_key buyer balances ≡ true) buyers
  HasBalances _ buyers balances = balances ≡ none

  claim_balances-HasBalances :
      (type : ClaimType) (buyers : List Text) (balances : Option (List (Text × ℕ)))
      → claim_balances type buyers ≡ ok balances
      → HasBalances type buyers balances
  unfolding claim_balances
  claim_balances-HasBalances closed_loop buyers balances h =
      let (loaded, e, h1) = >>=-eq-ok (load_balances buyers []) _ h in
      subst (HasBalances closed_loop buyers) (ok_injective h1)
        (load_balances-All buyers [] loaded e)
  claim_balances-HasBalances reciprocal buyers balances h = sym (ok_injective h)
  claim_balances-HasBalances (unsupported text) buyers balances h = sym (ok_injective h)

  -- Where authenticateClaim ends, its resolved dependencies are those that resolveDependency accepts and
  -- its rejections those that it throws for, each in the order of the claim and together as many as
  -- the claim's; and a closed-loop claim has the balance of each approved buyer.
  pub authenticate_claim_splits :
      (claim : Claim) (authenticated : Authenticated)
      → authenticate_claim claim ≡ ok authenticated
      → (authenticated.resolved ≡ flat_map confirmed claim.dependencies)
        × (authenticated.rejected ≡ flat_map refused claim.dependencies)
        × (length authenticated.resolved + length authenticated.rejected
            ≡ length claim.dependencies)
        × HasBalances claim.claim_type claim.approved_buyers authenticated.ledger_balances
  unfolding authenticate_claim
  authenticate_claim_splits claim authenticated h =
      let (entries, e, h1) = >>=-eq-ok (map_outcome authenticate claim.dependencies) _ h in
      let (balances, f, h2) =
        >>=-eq-ok (claim_balances claim.claim_type claim.approved_buyers) _ h1 in
      let (a, b, c) = entries-eq-ok claim.dependencies entries e in
      subst
        (λ (result : Authenticated).
          (result.resolved ≡ flat_map confirmed claim.dependencies)
          × (result.rejected ≡ flat_map refused claim.dependencies)
          × (length result.resolved + length result.rejected ≡ length claim.dependencies)
          × HasBalances claim.claim_type claim.approved_buyers result.ledger_balances)
        (ok_injective h2)
        (a, b, c, claim_balances-HasBalances claim.claim_type claim.approved_buyers balances f)
