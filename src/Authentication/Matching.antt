-- ===== src/Authentication/Matching.antt =====
-- scripts/proof-planner.mjs: what `logMatches` reads in a log, spelled out field by field.
use loop_proof.Common.{
  and_true, ℕ, ◌≡◌, ◌⊎◌, ◌∙◌, refl, sym, ap, inl, inr, ==_iff, arith, Bool, Bool-cases, ◌&&◌, ◌||◌,
  not, true, false, Option, none, some, [], ◌∷◌, Text, text_eq_iff, to_lower_case, ok, >>=-eq-ok,
  ok_injective,
}
use loop_proof.Evidence.{Atom}
use loop_proof.Authentication.{
  transfer_topic, channel_settled_topic, Log, Contracts, topic, topic_address, is_the, agrees,
  is_given, same_address, data_word, is_settlement_type, is_native_funding, is_settled_between,
  is_transfer_between, has_amount, log_matches,
}

-- The log has an address there, and it is the one that is wanted.
abbrev pub Shows : Option Text → Option Text → Type 0
Shows found wanted = (text : Text) × (found ≡ some text) × (wanted ≡ some text)

-- The same where an address is wanted, and anything where none is.
abbrev pub ShowsIfGiven : Option Text → Option Text → Type 0
ShowsIfGiven found wanted = (is_given wanted ≡ false) ⊎ Shows found wanted

-- The contract that emitted a log, but for capitals.
abbrev pub IsEmittedBy : Log → Text → Type 0
IsEmittedBy log contract = to_lower_case log.address ≡ to_lower_case contract

-- A settlement of the channels contract: its buyer, its seller and, in the second word, its amount.
pub record IsSettlementLog (contracts : Contracts) (dependency : Atom) (log : Log) : Type 0 where
  emitter : IsEmittedBy log contracts.channels
  event : topic log 0 ≡ some channel_settled_topic
  buyer : Shows (topic_address (topic log 2)) dependency.buyer
  seller : Shows (topic_address (topic log 3)) dependency.seller
  amount : data_word log.log_data 1 ≡ ok dependency.amount_raw

-- Where the dependency gives a funder and a buyer, the transfer goes from the funder to the buyer or to
-- the deposits contract.
abbrev pub IsFunding : Contracts → Atom → Log → Type 0
IsFunding contracts dependency log =
    ((is_given dependency.funder && is_given dependency.buyer) ≡ false)
    ⊎ (Shows (topic_address (topic log 1)) dependency.funder
        × (Shows (topic_address (topic log 2)) dependency.buyer
            ⊎ Shows (topic_address (topic log 2)) (some (to_lower_case contracts.deposits))))

-- A transfer of USDC: its sender, its receiver and, in the first word, its amount.
pub record IsTransferLog (contracts : Contracts) (dependency : Atom) (log : Log) : Type 0 where
  emitter : IsEmittedBy log contracts.usdc
  event : topic log 0 ≡ some transfer_topic
  sender : ShowsIfGiven (topic_address (topic log 1)) dependency.from
  receiver : ShowsIfGiven (topic_address (topic log 2)) dependency.to
  funding : IsFunding contracts dependency log
  amount : data_word log.log_data 0 ≡ ok dependency.amount_raw

-- By the type of the dependency.
abbrev pub IsMatching : Contracts → Atom → Log → Type 0
IsMatching contracts dependency log =
    ((is_settlement_type dependency.evidence_type ≡ true)
      × IsSettlementLog contracts dependency log)
    ⊎ ((is_settlement_type dependency.evidence_type ≡ false)
        × IsTransferLog contracts dependency log)

is_the-Shows : (found wanted : Option Text) → is_the found wanted ≡ true → Shows found wanted
unfolding is_the
is_the-Shows none wanted h = absurd (cc)
is_the-Shows (some a) none h = absurd (cc)
is_the-Shows (some a) (some b) h = (b, ap some ((text_eq_iff a b).0 h), refl)

agrees-ShowsIfGiven :
    (found wanted : Option Text) → agrees found wanted ≡ true → ShowsIfGiven found wanted
unfolding agrees
agrees-ShowsIfGiven found none h = inl refl
agrees-ShowsIfGiven found (some []) h = inl refl
agrees-ShowsIfGiven found (some (c ∷ rest)) h = inr (is_the-Shows found (some (c ∷ rest)) h)

same_address-IsEmittedBy :
    (log : Log) (contract : Text)
    → same_address log.address contract ≡ true
    → IsEmittedBy log contract
unfolding same_address
same_address-IsEmittedBy log contract h =
    (text_eq_iff (to_lower_case log.address) (to_lower_case contract)).0 h

event_of :
    (log : Log) (wanted : Text)
    → is_the (topic log 0) (some wanted) ≡ true
    → topic log 0 ≡ some wanted
event_of log wanted h =
    let (text, found, same) = is_the-Shows (topic log 0) (some wanted) h in found ∙ sym same

has_amount-data_word :
    (test : Bool) (text : Text) (index amount : ℕ)
    → has_amount test text index amount ≡ ok true
    → (test ≡ true) × (data_word text index ≡ ok amount)
unfolding has_amount
has_amount-data_word false text index amount h = absurd (cc)
has_amount-data_word true text index amount h =
    let (word, e, h1) = >>=-eq-ok (data_word text index) _ h in
    (refl, e ∙ ap ok ((==_iff word amount).0 (ok_injective h1)))

module _ (contracts : Contracts) (dependency : Atom) (log : Log) where
  settled-IsSettlementLog :
      has_amount (is_settled_between log dependency contracts) log.log_data 1 dependency.amount_raw
        ≡ ok true
      → IsSettlementLog contracts dependency log
  unfolding is_settled_between
  settled-IsSettlementLog h =
      let (tests, amount) = has_amount-data_word _ log.log_data 1 dependency.amount_raw h in
      let (emitter, t1) = and_true _ _ tests in
      let (event, t2) = and_true _ _ t1 in
      let (buyer, seller) = and_true _ _ t2 in
      record {
        emitter = same_address-IsEmittedBy log contracts.channels emitter;
        event = event_of log channel_settled_topic event;
        buyer = is_the-Shows (topic_address (topic log 2)) dependency.buyer buyer;
        seller = is_the-Shows (topic_address (topic log 3)) dependency.seller seller;
        amount = amount;
      }

  funding_test :
      (not (is_given dependency.funder && is_given dependency.buyer)
          || (is_the (topic_address (topic log 1)) dependency.funder
              && (is_the (topic_address (topic log 2)) dependency.buyer
                  || is_the
                      (topic_address (topic log 2))
                      (some (to_lower_case contracts.deposits)))))
        ≡ true
      → IsFunding contracts dependency log
  funding_test h = elim (Bool-cases (is_given dependency.funder && is_given dependency.buyer)) [
    | inr other ↦ inl other
    | inl given ↦ inr (
      is_the-Shows (topic_address (topic log 1)) dependency.funder (ground (arith, h, given)),
      elim (Bool-cases (is_the (topic_address (topic log 2)) dependency.buyer)) [
        | inl buyer ↦ inl (is_the-Shows (topic_address (topic log 2)) dependency.buyer buyer)
        | inr other ↦ inr (
            is_the-Shows (topic_address (topic log 2)) (some (to_lower_case contracts.deposits))
              (ground (arith, h, given, other)))
      ],
    )
  ]

  transferred-IsTransferLog :
      has_amount (is_transfer_between log dependency contracts) log.log_data 0 dependency.amount_raw
        ≡ ok true
      → IsTransferLog contracts dependency log
  unfolding is_transfer_between
  transferred-IsTransferLog h =
      let (tests, amount) = has_amount-data_word _ log.log_data 0 dependency.amount_raw h in
      let (emitter, t1) = and_true _ _ tests in
      let (event, t2) = and_true _ _ t1 in
      let (sender, t3) = and_true _ _ t2 in
      let (receiver, funding) = and_true _ _ t3 in
      record {
        emitter = same_address-IsEmittedBy log contracts.usdc emitter;
        event = event_of log transfer_topic event;
        sender = agrees-ShowsIfGiven (topic_address (topic log 1)) dependency.from sender;
        receiver = agrees-ShowsIfGiven (topic_address (topic log 2)) dependency.to receiver;
        funding = funding_test funding;
        amount = amount;
      }

  pub log_matches-IsMatching :
      log_matches contracts dependency log ≡ ok true → IsMatching contracts dependency log
  unfolding log_matches
  log_matches-IsMatching h = elim (Bool-cases (is_settlement_type dependency.evidence_type)) [
    | inl kind ↦ inl (kind, settled-IsSettlementLog (rw kind at h))
    | inr kind ↦ elim (Bool-cases (is_native_funding dependency.evidence_type)) [
      | inl native ↦ absurd (ground (arith, kind, native, h))
      | inr other ↦ inr (kind, transferred-IsTransferLog (rw (kind, other) at h))
    ]
  ]
