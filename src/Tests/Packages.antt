-- ===== src/Tests/Packages.antt =====
-- A package of published proofs at a concrete input.
use loop_proof.Common.{
  ℕ, ◌≡◌, refl, true, some, List, [], ◌∷◌, ◌++◌, map, length, sum_by, Text, codes, keys_by_text,
  IsDistinct,
}
use loop_proof.Published.{Artifact, Entry, Manifest, Loaded, load_package}
use loop_proof.Published.Totals.{
  journal_volume, journal_total, seller_of, entry_of, load_package-totals,
}

abbrev zeros : Text
zeros = codes "000000000000000000000000000000000000000000000000000000000000"

abbrev seller : Text
seller = codes "0x00000000000000000000000000000000000000aa"

abbrev journal : Text
journal =
    codes "0x"
    ++ zeros
    ++ codes "0001"
    ++ zeros
    ++ codes "2105"
    ++ zeros
    ++ codes "0010"
    ++ zeros
    ++ codes "0020"
    ++ zeros
    ++ codes "00aa"
    ++ zeros
    ++ codes "0007"
    ++ zeros
    ++ codes "0009"
    ++ zeros
    ++ codes "0ddd"
    ++ zeros
    ++ codes "0001"
    ++ zeros
    ++ codes "0002"
    ++ zeros
    ++ codes "0001"
    ++ zeros
    ++ codes "0eee"

abbrev artifact : Artifact
artifact = record {
  version = 3;
  kind = codes "antseed-wash-trading-seller-proof";
  proof_architecture = codes "direct-seller-v1";
  security_mode = codes "production";
  proved = true;
  verified = true;
  seller = codes "0x00000000000000000000000000000000000000AA";
  seller_program_vkey = codes "0x01";
  public_values = journal;
  proof_bytes = codes "0xABcdef0102";
  proven_wash_volume_raw = 7;
  total_seller_volume_raw = 9;
  evidence_digest = codes "0x" ++ zeros ++ codes "0ddd";
  block_reference_count = 1;
  block_authentication_chunk_size = 2;
  block_authentication_chunks =
      record { index = 0; references = record { number = 17; block_hash = codes "0xbb" } ∷ [] }
      ∷ [];
  block_authentication_root = codes "0x" ++ zeros ++ codes "0eee";
}

abbrev entry : Entry
entry = record {
  file = codes "artifacts/0x00000000000000000000000000000000000000aa.json.gz";
  seller = seller;
  gzip_sha256 = codes "0xab";
  sha256 = codes "0xab";
  uncompressed_bytes = 2;
  proven_wash_volume_raw = 7;
  total_seller_volume_raw = 9;
  block_reference_count = 1;
  block_authentication_chunk_count = 1;
}

abbrev manifest : Manifest
manifest = record {
  version = 1;
  kind = codes "antseed-published-seller-proofs";
  chain_id = 8453;
  proof_count = 1;
  configuration = record {
    seller_program_vkey = codes "0x01";
    verifier_hash = codes "0xabcdef01ffff";
    period_start_block = 16;
    period_end_block = 32;
  };
  artifacts = entry ∷ [];
  total_proven_wash_volume_raw = 7;
  total_seller_volume_raw = 9;
}

abbrev contents : List ℕ
contents = 123 ∷ 125 ∷ []

abbrev artifacts : List Loaded
artifacts = record { entry = entry; bytes = contents; artifact = artifact } ∷ []

load_package-totals_example :
    (map entry_of artifacts ≡ manifest.artifacts)
    × (1 ≡ length artifacts)
    × IsDistinct (map seller_of artifacts)
    × (sum_by journal_volume artifacts ≡ 7)
    × (sum_by journal_total artifacts ≡ 9)
unfolding load_package
load_package-totals_example =
    load_package-totals (λ bytes. codes "0xab") (λ limit packed. some packed)
      (λ bytes. some artifact) (λ path. some contents) manifest artifacts refl
