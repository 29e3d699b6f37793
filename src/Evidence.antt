-- ===== src/Evidence.antt =====
-- The evidence objects that the scripts pass around (scripts/proof-bundle.mjs builds them): a single
-- log, or a relay path of several. A text field that an object lacks, or that is null, is `none`.
-- A number that is `none` is null, which `locator` writes for a missing one and arithmetic reads as 0;
-- objects without the field at all, where arithmetic gives NaN, are not in the model. Every log has an amount.
-- Raw amounts are decimal texts of unsigned integers in the objects, read by `BigInt`.
use loop_proof.Common.{ℕ, List, [], ◌∷◌, Option, none, some, Text, Ordering, get_or}

pub data EvidenceType : Type 0 where
  settlement reciprocal_settlement total_settlement : EvidenceType
  usdc_funding native_funding : EvidenceType
  direct_seller_funder direct_seller_buyer : EvidenceType
  relay_seller_payment relay_forward relay_funder_receipt : EvidenceType

-- One log (or transaction) of the chain.
pub record Atom : Type 0 where
  pub evidence_type : EvidenceType
  pub dependency_id : Option Text
  pub transaction_hash : Option Text
  pub block_number : Option ℕ
  pub transaction_index : Option ℕ
  pub log_index : Option ℕ
  pub timestamp : Option ℕ
  pub amount_raw : ℕ
  pub from : Option Text
  pub to : Option Text
  pub buyer : Option Text
  pub seller : Option Text
  pub funder : Option Text
  pub deposit_log_index : Option ℕ

-- The hops of a relay path: a list, or the older two or three named fields.
pub data Hops : Type 0 where
  listed : List Atom → Hops
  named : (seller_payment relay_forward : Atom) → (funder_receipt : Option Atom) → Hops

pub record RelayPath : Type 0 where
  pub dependency_id : Text
  pub seller : Option Text
  pub funder : Option Text
  pub hops : Hops

-- A single log, or a path. Only these objects are listed in a claim, and each has an identifier.
pub data Evidence : Type 0 where
  atom : Atom → Evidence
  relay_path : RelayPath → Evidence

-- `[receipt].filter(Boolean)`
abbrev pub present {ℓ} : {A : Type ℓ} → Option A → List A
present none = []
present (some a) = a ∷ []

abbrev pub hop_list : Hops → List Atom
hop_list (listed hops) = hops
hop_list (named payment forward receipt) = payment ∷ forward ∷ present receipt

-- `atomicReturnEvidence`, and `atomicEvidence` of the planner: the same function twice.
abbrev pub atomic_evidence : Evidence → List Atom
atomic_evidence (atom a) = a ∷ []
atomic_evidence (relay_path path) = hop_list path.hops

-- `Number(value)` of a number or null.
abbrev pub number_of : Option ℕ → ℕ
number_of n = get_or n 0

-- What the scripts take from the platform: the collation of `localeCompare`, and the text that
-- `JSON.stringify` gives for the whole of an object.
pub record Platform : Type 0 where
  pub collate : Text → Text → Ordering
  pub stringify : Evidence → Text
