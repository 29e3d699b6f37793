-- ===== src/Published.antt =====
-- scripts/published-seller-proofs.mjs: `unpackArtifact`, `validateArtifact` and `loadPackage`. SHA-256,
-- gzip, `JSON.parse` and the file system are arguments.
pub mod Totals
use loop_proof.Common.{
  ℕ, zero, suc, take, drop, ◌+◌, ◌-◌, ◌*◌, leb, ◌==◌, if◌then◌else◌, Bool, true, false, not, ◌&&◌,
  ◌||◌, Option, none, some, List, [], ◌∷◌, ◌++◌, length, every, Text, codes, text_eq, to_lower_case,
  keys_by_text, has, Outcome, ok, throw, throw_if, ◌>>=◌, ◌>>◌,
}
use loop_proof.Hex.{hex_value_from}
use loop_proof.Merkle.{without_prefix}

pub data Failure : Type 0 where
  unreadable_file : Failure
  compressed_checksum_mismatch : Failure
  not_gzip : Failure
  original_checksum_mismatch : Failure
  not_json : Failure
  invalid_production_artifact : Failure
  journal_mismatch : Failure
  chunk_order_mismatch : Failure
  reference_count_mismatch : Failure
  invalid_package_manifest : Failure
  invalid_or_duplicate_entry : Failure
  package_totals_mismatch : Failure

pub record Reference : Type 0 where
  pub number : ℕ
  pub block_hash : Text

pub record Chunk : Type 0 where
  pub index : ℕ
  pub references : List Reference

pub record Artifact : Type 0 where
  pub version : ℕ
  pub kind : Text
  pub proof_architecture : Text
  pub security_mode : Text
  pub proved : Bool
  pub verified : Bool
  pub seller : Text
  pub seller_program_vkey : Text
  pub public_values : Text
  pub proof_bytes : Text
  pub proven_wash_volume_raw : ℕ
  pub total_seller_volume_raw : ℕ
  pub evidence_digest : Text
  pub block_reference_count : ℕ
  pub block_authentication_chunk_size : ℕ
  pub block_authentication_chunks : List Chunk
  pub block_authentication_root : Text

-- An entry of the manifest. Its seller is also the number that `BigInt` reads from it.
pub record Entry : Type 0 where
  pub file : Text
  pub seller : Text
  pub gzip_sha256 : Text
  pub sha256 : Text
  pub uncompressed_bytes : ℕ
  pub proven_wash_volume_raw : ℕ
  pub total_seller_volume_raw : ℕ
  pub block_reference_count : ℕ
  pub block_authentication_chunk_count : ℕ

pub record Configuration : Type 0 where
  pub seller_program_vkey : Text
  pub verifier_hash : Text
  pub period_start_block : ℕ
  pub period_end_block : ℕ

pub record Manifest : Type 0 where
  pub version : ℕ
  pub kind : Text
  pub chain_id : ℕ
  pub proof_count : ℕ
  pub configuration : Configuration
  pub artifacts : List Entry
  pub total_proven_wash_volume_raw : ℕ
  pub total_seller_volume_raw : ℕ

pub record Loaded : Type 0 where
  pub entry : Entry
  pub bytes : List ℕ
  pub artifact : Artifact

-- `/[0-9a-f]/`, and with capitals where the pattern has the flag `i`
abbrev pub is_lower_hex : ℕ → Bool
is_lower_hex c = (leb 48 c && leb c 57) || (leb 97 c && leb c 102)

abbrev pub is_any_hex : ℕ → Bool
is_any_hex c = is_lower_hex c || (leb 65 c && leb c 70)

abbrev pub has_hex_prefix : Text → Bool
has_hex_prefix (zero_sign ∷ x ∷ rest) = (zero_sign == 48) && ((x == 120) || (x == 88))
has_hex_prefix _ = false

abbrev pub is_even : ℕ → Bool
is_even zero = true
is_even (suc n) = not (is_even n)

-- `words[index]`: 64 digits of the public values.
abbrev pub word : Artifact → ℕ → Text
word artifact index = take 64 (drop (64 * index) (without_prefix artifact.public_values))

unfoldable pub integer : Artifact → ℕ → ℕ
unfolding hex_value_from
integer artifact index = hex_value_from 0 (word artifact index)

-- The test of the artifact's own fields.
unfoldable pub is_production : Artifact → Entry → Configuration → Bool
unfolding text_eq to_lower_case
is_production a entry configuration =
    (a.version == 3)
    && text_eq a.kind (codes "antseed-wash-trading-seller-proof")
    && text_eq a.proof_architecture (codes "direct-seller-v1")
    && text_eq a.security_mode (codes "production")
    && a.proved
    && a.verified
    && text_eq (to_lower_case a.seller) entry.seller
    && text_eq a.seller_program_vkey configuration.seller_program_vkey
    && has_hex_prefix a.public_values
    && (length (without_prefix a.public_values) == 768)
    && every is_any_hex (without_prefix a.public_values)
    && has_hex_prefix a.proof_bytes
    && not (length (without_prefix a.proof_bytes) == 0)
    && is_even (length (without_prefix a.proof_bytes))
    && every is_any_hex (without_prefix a.proof_bytes)

-- The test of the words of the journal against the manifest.
unfoldable pub journal_matches : Artifact → Entry → Configuration → Bool
unfolding integer text_eq to_lower_case hex_value_from
journal_matches a entry configuration =
    ((integer a 0 == 1)
      && (integer a 1 == 8453)
      && (integer a 2 == configuration.period_start_block)
      && (integer a 3 == configuration.period_end_block)
      && (integer a 4 == hex_value_from 0 (without_prefix entry.seller)))
    && (((integer a 5 == entry.proven_wash_volume_raw)
          && (integer a 6 == entry.total_seller_volume_raw))
        && ((integer a 5 == a.proven_wash_volume_raw)
            && (integer a 6 == a.total_seller_volume_raw)
            && text_eq (codes "0x" ++ word a 7) a.evidence_digest
            && (integer a 8 == entry.block_reference_count)
            && (integer a 8 == a.block_reference_count)
            && (integer a 9 == a.block_authentication_chunk_size)
            && (integer a 10 == entry.block_authentication_chunk_count)
            && (integer a 10 == length a.block_authentication_chunks)
            && text_eq (codes "0x" ++ word a 11) a.block_authentication_root
            && text_eq (to_lower_case (take 10 a.proof_bytes))
                (take 10 configuration.verifier_hash)))

-- The loop over the chunks, from an index and the references before it.
unfoldable pub count_references : ℕ → ℕ → List Chunk → Outcome Failure ℕ
count_references index references [] = ok references
count_references index references (chunk ∷ rest) = do
  throw_if (not (chunk.index == index)) chunk_order_mismatch
  count_references (suc index) (references + length chunk.references) rest

-- `validateArtifact`
unfoldable pub validate_artifact : Artifact → Entry → Configuration → Outcome Failure (Unit {0})
unfolding is_production journal_matches count_references
validate_artifact artifact entry configuration = do
  throw_if (not (is_production artifact entry configuration)) invalid_production_artifact
  throw_if (not (journal_matches artifact entry configuration)) journal_mismatch
  references ← count_references 0 0 artifact.block_authentication_chunks
  throw_if (not (references == entry.block_reference_count)) reference_count_mismatch

abbrev pub or_throw : {A : Type 0} → Failure → Option A → Outcome Failure A
or_throw failure none = throw failure
or_throw failure (some value) = ok value

-- `/^0x[0-9a-f]{40}$/`
unfoldable pub is_lower_address : Text → Bool
is_lower_address (zero_sign ∷ x ∷ rest) =
    (zero_sign == 48) && (x == 120) && (length rest == 40) && every is_lower_hex rest
is_lower_address _ = false

-- The variables of the loop in `loadPackage`.
pub record Loading : Type 0 where
  pub artifacts : List Loaded
  pub sellers : List Text
  pub volume : ℕ
  pub total : ℕ

abbrev pub start : Loading
start = record { artifacts = []; sellers = []; volume = 0; total = 0 }

-- The test of an entry's path and seller.
unfoldable pub is_valid_entry : List Text → Entry → Bool
unfolding is_lower_address text_eq has
is_valid_entry sellers entry =
    is_lower_address entry.seller
    && text_eq entry.file (codes "artifacts/" ++ entry.seller ++ codes ".json.gz")
    && not (has entry.seller sellers)

module _ (sha256 : List ℕ → Text) (gunzip : ℕ → List ℕ → Option (List ℕ))
    (parse : List ℕ → Option Artifact) (read_file : Text → Option (List ℕ)) where
  -- `unpackArtifact`
  unfoldable pub unpack_artifact : List ℕ → Entry → Outcome Failure Loaded
  unfolding text_eq
  unpack_artifact compressed entry = do
    throw_if (not (text_eq (sha256 compressed) entry.gzip_sha256)) compressed_checksum_mismatch
    bytes ← or_throw not_gzip (gunzip (16 * 1024 * 1024) compressed)
    throw_if
        (not (length bytes == entry.uncompressed_bytes)
          || not (text_eq (sha256 bytes) entry.sha256))
        original_checksum_mismatch
    artifact ← or_throw not_json (parse bytes)
    ok (record { entry = entry; bytes = bytes; artifact = artifact })

  unfoldable pub load_entry : Configuration → Loading → Entry → Outcome Failure Loading
  unfolding is_valid_entry unpack_artifact validate_artifact
  load_entry configuration loading entry = do
    throw_if (not (is_valid_entry loading.sellers entry)) invalid_or_duplicate_entry
    compressed ← or_throw unreadable_file (read_file entry.file)
    unpacked ← unpack_artifact compressed entry
    validate_artifact unpacked.artifact entry configuration
    ok (record {
      artifacts = loading.artifacts ++ unpacked ∷ [];
      sellers = loading.sellers ++ entry.seller ∷ [];
      volume = loading.volume + entry.proven_wash_volume_raw;
      total = loading.total + entry.total_seller_volume_raw;
    })

  unfoldable pub load_entries : Configuration → Loading → List Entry → Outcome Failure Loading
  unfolding load_entry
  load_entries configuration loading [] = ok loading
  load_entries configuration loading (entry ∷ rest) = do
    next ← load_entry configuration loading entry
    load_entries configuration next rest

  -- `loadPackage`, of the parsed manifest.
  unfoldable pub load_package : Manifest → Outcome Failure (List Loaded)
  unfolding load_entries text_eq
  load_package manifest = do
    throw_if
        (not (
          (manifest.version == 1)
          && text_eq manifest.kind (codes "antseed-published-seller-proofs")
          && (manifest.chain_id == 8453)
          && (manifest.proof_count == length manifest.artifacts)))
        invalid_package_manifest
    loading ← load_entries manifest.configuration start manifest.artifacts
    throw_if
        (not (loading.volume == manifest.total_proven_wash_volume_raw)
          || not (loading.total == manifest.total_seller_volume_raw))
        package_totals_mismatch
    ok loading.artifacts
