-- ===== src/Tests/Calls.antt =====
-- Calldata and block-authentication chunks at concrete inputs.
use loop_proof.Common.{
  ℕ, ◌≡◌, refl, arith, some, [], ◌∷◌, ◌++◌, flat_map, length, drop, take, Text, codes,
  to_lower_case, ok,
}
use loop_proof.Calldata.{is_dynamic_hex, selector, encode_stage_seller_proof}
use loop_proof.Calldata.Decoding.{argument, encode_stage_seller_proof_decodes}
use loop_proof.Chunks.{SellerProof, ChunkFile, RawChunk, build_block_authentication_chunks}
use loop_proof.Chunks.Ordered.{
  AreChunks, IsAscending, references_of, build_block_authentication_chunks-AreChunks,
}

encode_stage_seller_proof_decodes_example :
    (call : Text) × (encode_stage_seller_proof (codes "0xABcd01") (codes "0x0f") ≡ ok call)
    × (take 10 call ≡ codes "0x" ++ selector)
    × (argument call 0 ≡ drop 2 (to_lower_case (codes "0xABcd01")))
    × (argument call 1 ≡ drop 2 (to_lower_case (codes "0x0f")))
unfolding is_dynamic_hex
encode_stage_seller_proof_decodes_example =
    encode_stage_seller_proof_decodes (codes "0xABcd01") (codes "0x0f") refl refl (omega arith)
      (omega arith)

abbrev hash : Text
hash = codes "0xABCDEF0123456789abcdef0123456789abcdef0123456789abcdef0123456789"

abbrev chunk_of : ℕ → ℕ → ℕ → RawChunk
chunk_of index first second = record {
  index = index;
  references = some (
      record { number = some first; block_hash = hash }
      ∷ record { number = some second; block_hash = hash }
      ∷ []);
  proof = some (hash ∷ []);
}

abbrev proof : SellerProof
proof = record {
  version = 3;
  kind = codes "antseed-wash-trading-seller-proof";
  proof_architecture = codes "direct-seller-v1";
  seller = codes "0xAA";
  evidence_digest = hash;
  block_authentication_root = hash;
  block_authentication_chunk_size = 2;
  block_authentication_chunk_count = 2;
  block_authentication_chunks = some (chunk_of 0 17 21 ∷ chunk_of 1 22 40 ∷ []);
  block_reference_count = 4;
}

abbrev file : ChunkFile
file =
    let small = to_lower_case hash in
    record {
      seller = codes "0xaa";
      evidence_digest = small;
      block_reference_count = 4;
      block_authentication_root = small;
      chunk_size = 2;
      chunk_count = 2;
      chunks =
          record {
            index = 0;
            offset = 0;
            references =
                record { number = 17; block_hash = small }
                ∷ record { number = 21; block_hash = small }
                ∷ [];
            proof = small ∷ [];
          }
          ∷ record {
            index = 1;
            offset = 2;
            references =
                record { number = 22; block_hash = small }
                ∷ record { number = 40; block_hash = small }
                ∷ [];
            proof = small ∷ [];
          }
          ∷ [];
    }

build_block_authentication_chunks-AreChunks_example :
    AreChunks 2 0 file.chunks
    × IsAscending (flat_map references_of file.chunks)
    × (length (flat_map references_of file.chunks) ≡ proof.block_reference_count)
    × (file.block_reference_count ≡ proof.block_reference_count)
    × (length file.chunks ≡ proof.block_authentication_chunk_count)
    × (2 ≡ proof.block_authentication_chunk_size)
unfolding build_block_authentication_chunks
build_block_authentication_chunks-AreChunks_example =
    build_block_authentication_chunks-AreChunks proof 2 file refl
