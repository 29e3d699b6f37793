-- ===== src/Chunks.antt =====
-- scripts/generate-block-authentication-chunks.mjs: `buildBlockAuthenticationChunks`, which checks the
-- chunks of block references that a seller proof commits to. A field that is missing or is no list is
-- `none`; so is a number that `Number` does not read as a natural one.
pub mod Ordered
use loop_proof.Common.{
  ℕ, zero, suc, ◌+◌, ◌*◌, ltb, leb, ◌==◌, Bool, true, not, ◌&&◌, ◌||◌, Option, none, some, get_or,
  List, [], ◌∷◌, ◌++◌, length, last?, Text, codes, text_eq, to_lower_case, Outcome, ok, throw,
  throw_if, map_outcome, ◌>>=◌, ◌>>◌,
}
use loop_proof.Hex.{normalize_hash}
use loop_proof.Returns.{is_safe_integer}

pub data Failure : Type 0 where
  invalid_artifact : Failure
  chunk_size_not_positive : Failure
  chunk_size_differs : Failure
  chunk_count_mismatch : Failure
  invalid_chunk : Failure
  invalid_block_number : ℕ → Failure
  not_strictly_ordered : Failure
  reference_count_mismatch : Failure
  invalid_bytes32 : Text → Failure

-- A reference as it is read, and as it is checked.
pub record RawReference : Type 0 where
  pub number : Option ℕ
  pub block_hash : Text

pub record Reference : Type 0 where
  pub number : ℕ
  pub block_hash : Text

pub record RawChunk : Type 0 where
  pub index : ℕ
  pub references : Option (List RawReference)
  pub proof : Option (List Text)

pub record SellerProof : Type 0 where
  pub version : ℕ
  pub kind : Text
  pub proof_architecture : Text
  pub seller : Text
  pub evidence_digest : Text
  pub block_authentication_root : Text
  pub block_authentication_chunk_size : ℕ
  pub block_authentication_chunk_count : ℕ
  pub block_authentication_chunks : Option (List RawChunk)
  pub block_reference_count : ℕ

pub record Chunk : Type 0 where
  pub index : ℕ
  pub offset : ℕ
  pub references : List Reference
  pub proof : List Text

pub record ChunkFile : Type 0 where
  pub seller : Text
  pub evidence_digest : Text
  pub block_reference_count : ℕ
  pub block_authentication_root : Text
  pub chunk_size : ℕ
  pub chunk_count : ℕ
  pub chunks : List Chunk

abbrev pub hash : Text → Outcome Failure Text
hash value = normalize_hash invalid_bytes32 value

-- The test of the artifact's version, kind and architecture.
unfoldable pub is_direct_seller_proof : SellerProof → Bool
unfolding text_eq
is_direct_seller_proof proof =
    (proof.version == 3)
    && (text_eq proof.kind (codes "antseed-wash-trading-seller-proof")
        && text_eq proof.proof_architecture (codes "direct-seller-v1"))

-- A number that the loop accepts in a chunk, after those before it.
unfoldable pub block_number : ℕ → Option ℕ → Outcome Failure ℕ
block_number index none = throw (invalid_block_number index)
block_number index (some number) = do
  throw_if (not (is_safe_integer number) || (number == 0)) (invalid_block_number index)
  ok number

-- `references.length === 0 || number > references.at(-1).number`
abbrev pub comes_after : Option Reference → ℕ → Bool
comes_after none number = true
comes_after (some last) number = ltb last.number number

-- The inner loop: the references of one chunk are pushed behind those before.
unfoldable pub check_references :
    ℕ → List Reference → List RawReference → Outcome Failure (List Reference)
unfolding normalize_hash block_number
check_references index before [] = ok before
check_references index before (reference ∷ rest) = do
  block_hash ← hash reference.block_hash
  number ← block_number index reference.number
  throw_if (not (comes_after (last? before) number)) not_strictly_ordered
  check_references index (before ++ record { number = number; block_hash = block_hash } ∷ []) rest

-- The references and the proof of a chunk that passes the loop's first test.
unfoldable pub parts_of : ℕ → ℕ → RawChunk → Outcome Failure (List RawReference × List Text)
parts_of size index chunk = elim chunk.references [
  | none ↦ throw invalid_chunk
  | some references ↦ elim chunk.proof [
    | none ↦ throw invalid_chunk
    | some proof ↦ do
      throw_if
          (not (chunk.index == index) || ((length references == 0) || ltb size (length references)))
          invalid_chunk
      ok (references, proof)
  ]
]

unfoldable pub check_chunks :
    ℕ → ℕ → List Reference → List RawChunk → Outcome Failure (List Reference)
unfolding parts_of check_references
check_chunks size index before [] = ok before
check_chunks size index before (chunk ∷ rest) = do
  parts ← parts_of size index chunk
  references ← check_references index before parts.0
  check_chunks size (suc index) references rest

-- The objects that the result is made of.
unfoldable pub build_reference : RawReference → Outcome Failure Reference
unfolding normalize_hash
build_reference reference = do
  block_hash ← hash reference.block_hash
  ok (record { number = get_or reference.number 0; block_hash = block_hash })

unfoldable pub build_chunk : ℕ → RawChunk → Outcome Failure Chunk
unfolding build_reference normalize_hash map_outcome
build_chunk size chunk = do
  references ← map_outcome build_reference (get_or chunk.references [])
  proof ← map_outcome hash (get_or chunk.proof [])
  ok (record {
    index = chunk.index;
    offset = chunk.index * size;
    references = references;
    proof = proof;
  })

-- The chunks, if they are a list of the length that the artifact says.
unfoldable pub chunks_of : SellerProof → Outcome Failure (List RawChunk)
chunks_of proof = elim proof.block_authentication_chunks [
  | none ↦ throw chunk_count_mismatch
  | some chunks ↦ do
    throw_if (not (length chunks == proof.block_authentication_chunk_count)) chunk_count_mismatch
    ok chunks
]

-- `buildBlockAuthenticationChunks`
unfoldable pub build_block_authentication_chunks : SellerProof → ℕ → Outcome Failure ChunkFile
unfolding is_direct_seller_proof chunks_of check_chunks build_chunk normalize_hash to_lower_case
    map_outcome
build_block_authentication_chunks proof size = do
  throw_if (not (is_direct_seller_proof proof)) invalid_artifact
  throw_if (not (is_safe_integer size) || (size == 0)) chunk_size_not_positive
  throw_if (not (size == proof.block_authentication_chunk_size)) chunk_size_differs
  chunks ← chunks_of proof
  references ← check_chunks size 0 [] chunks
  throw_if (not (length references == proof.block_reference_count)) reference_count_mismatch
  digest ← hash proof.evidence_digest
  root ← hash proof.block_authentication_root
  built ← map_outcome (build_chunk size) chunks
  ok (record {
    seller = to_lower_case proof.seller;
    evidence_digest = digest;
    block_reference_count = length references;
    block_authentication_root = root;
    chunk_size = size;
    chunk_count = length chunks;
    chunks = built;
  })
