-- ===== src/Reconcile/Gathering.antt =====
-- What the loop of `reconcileDevelopmentProofResults` over the proofs gathers.
use mathlib.Core.List.{append-nil, append_assoc, Mem}
use loop_proof.Common.{
  keys_of, keys-insert, has-keys, All-insert, ◌≡◌, ◌∙◌, refl, sym, ap, subst, inl, inr, arith,
  Bool-cases, true, false, List, [], ◌∷◌, ◌++◌, map, All, Text, text_eq, text_eq_iff, to_lower_case,
  keys_by_text, IsDistinct, IsDistinct-snoc, has_key, insert, ok, >>=-eq-ok, >>-eq-ok, ok_injective,
  passed, not_thrown, Option, none, some, get_or,
}
use loop_proof.Hex.{is_hex, normalize_hash}
use loop_proof.Reconcile.{
  SellerProof, BundleClaim, Gathered, is_development_proof, gather, gather_all, check_claims,
  is_other, normalize_address, invalid_proof, invalid_bytes32, multiple_proofs, different_vkeys,
}
use loop_proof.Reconcile.Verified.{IsDevelopmentProof, is_development_proof_lem}

pub normalize_address_lem :
    (value address : Text) → normalize_address value ≡ ok address → to_lower_case value ≡ address
unfolding normalize_address
normalize_address_lem value address h = elim (Bool-cases (is_hex 40 value)) [
  | inl valid ↦ ok_injective (rw valid at h)
  | inr invalid ↦ let failed = rw invalid at h in cc
]

normalize_hash_lem :
    (value hash : Text)
    → normalize_hash invalid_bytes32 value ≡ ok hash
    → to_lower_case value ≡ hash
unfolding normalize_hash
normalize_hash_lem value hash h = elim (Bool-cases (is_hex 64 value)) [
  | inl valid ↦ ok_injective (rw valid at h)
  | inr invalid ↦ let failed = rw invalid at h in cc
]

abbrev pub seller_of : SellerProof → Text
seller_of proof = to_lower_case proof.seller

-- Every proof is a verified one, for the program key.
abbrev pub HasKey : Option Text → SellerProof → Type 0
HasKey vkey proof =
    IsDevelopmentProof proof × (vkey ≡ some (to_lower_case proof.seller_program_vkey))

gather-eq-ok :
    (claims : List (Text × BundleClaim)) (gathered next : Gathered) (proof : SellerProof)
    → gather claims gathered proof ≡ ok next
    → IsDevelopmentProof proof
      × (has_key (seller_of proof) gathered.proofs_by_seller ≡ false)
      × (is_other gathered.vkey (to_lower_case proof.seller_program_vkey) ≡ false)
      × (next ≡ record {
        proofs_by_seller = insert (seller_of proof) proof gathered.proofs_by_seller;
        vkey = some (to_lower_case proof.seller_program_vkey);
      })
unfolding gather
gather-eq-ok claims gathered next proof done =
    let (valid, after_test) = passed (is_development_proof proof) invalid_proof _ done in
    let (seller, addressed, after_seller) =
      >>=-eq-ok (normalize_address proof.seller) _ after_test in
    let (new, after_new) =
      not_thrown (has_key seller gathered.proofs_by_seller) (multiple_proofs seller) _
        after_seller in
    let (_, after_claims) =
      >>-eq-ok (check_claims claims seller (get_or proof.source_claim_ids [])) _ after_new in
    let (vkey, hashed, after_vkey) =
      >>=-eq-ok (normalize_hash invalid_bytes32 proof.seller_program_vkey) _ after_claims in
    let (known, made) = not_thrown (is_other gathered.vkey vkey) different_vkeys _ after_vkey in
    let same_seller = normalize_address_lem proof.seller seller addressed in
    let same_vkey = normalize_hash_lem proof.seller_program_vkey vkey hashed in
    rw (same_seller, same_vkey)
      (is_development_proof_lem proof valid, new, known, sym (ok_injective made))

-- A proof of the list, under its seller.
abbrev pub IsFiled : List SellerProof → Text × SellerProof → Type 0
IsFiled proofs (seller, proof) =
    Mem proof proofs × IsDevelopmentProof proof × (seller_of proof ≡ seller)

-- What the loop over some of the proofs makes of what it starts with.
pub record Grown (proofs : List SellerProof) (rest : List SellerProof) (before : Gathered)
    (after : Gathered) : Type 0 where
  pub filed : All (IsFiled proofs) after.proofs_by_seller
  pub keyed : All (HasKey after.vkey) rest
  pub kept : (vkey : Text) → before.vkey ≡ some vkey → after.vkey ≡ some vkey
  pub keys : keys_of after.proofs_by_seller ≡ keys_of before.proofs_by_seller ++ map seller_of rest
  pub distinct : IsDistinct (keys_of after.proofs_by_seller)

is_other_lem :
    (known : Option Text) (vkey old : Text)
    → is_other known vkey ≡ false
    → known ≡ some old
    → some vkey ≡ some old
is_other_lem none vkey old same e = cc
is_other_lem (some known) vkey old same e =
    let equal : text_eq known vkey ≡ true = ground arith in
    ap some (sym ((text_eq_iff known vkey).0 equal)) ∙ e

pub gather_all-Grown :
    (claims : List (Text × BundleClaim)) (proofs rest : List SellerProof) (before after : Gathered)
    → gather_all claims before rest ≡ ok after
    → All (λ proof. Mem proof proofs) rest
    → All (IsFiled proofs) before.proofs_by_seller
    → IsDistinct (keys_of before.proofs_by_seller)
    → Grown proofs rest before after
unfolding gather_all
gather_all-Grown claims proofs [] before after done among filed distinct =
    subst (λ (g : Gathered). Grown proofs [] before g) (ok_injective done)
      (record {
        filed = filed;
        keyed = tt;
        kept = λ vkey e. e;
        keys = sym (append-nil (keys_of before.proofs_by_seller));
        distinct = distinct;
      })
gather_all-Grown claims proofs (proof ∷ rest) before after done (member, among) filed distinct =
    let (next, gathering, later) = >>=-eq-ok (gather claims before proof) _ done in
    let (valid, new, known, made) = gather-eq-ok claims before next proof gathering in
    let seller = seller_of proof in
    let found = before.proofs_by_seller in
    let grown_keys = keys-insert seller proof found new in
    let grown =
      gather_all-Grown claims proofs rest
        (record {
          proofs_by_seller = insert seller proof found;
          vkey = some (to_lower_case proof.seller_program_vkey);
        })
        after (rw made at later) among
        (All-insert (IsFiled proofs) seller proof found new (member, valid, refl) filed)
        (subst (λ (keys : List Text). IsDistinct keys) (sym grown_keys)
          (IsDistinct-snoc seller (keys_of found) (has-keys seller found ∙ new) distinct)) in
    record {
      filed = grown.filed;
      keyed = ((valid, grown.kept (to_lower_case proof.seller_program_vkey) refl), grown.keyed);
      kept = λ vkey e.
          grown.kept vkey
            (is_other_lem before.vkey (to_lower_case proof.seller_program_vkey) vkey known e);
      keys =
          grown.keys
          ∙ ap (λ keys. keys ++ map seller_of rest) grown_keys
          ∙ append_assoc (keys_of found) (seller ∷ []) (map seller_of rest);
      distinct = grown.distinct;
    }
