-- ===== src/Chunks/Ordered.antt =====
-- What the chunks that `buildBlockAuthenticationChunks` gives hold.
use mathlib.Core.List.{append_assoc, append-nil}
use loop_proof.Common.{
  ℕ, suc, ◌*◌, ◌≤◌, ◌<◌, ◌==◌, ◌≡◌, refl, sym, ap, subst, ◌∙◌, arith, true, not, ◌||◌, Option, none,
  some, get_or, List, [], ◌∷◌, ◌++◌, length, last?, flat_map, Text, ok, map_outcome,
  map_outcome-cons, map_outcome-cons-eq-ok, Option-cases, inl, inr, >>=-eq-ok, not_thrown, passed,
  ok_injective, ==_iff,
}
use loop_proof.Returns.{is_safe_integer}
use loop_proof.Chunks.{
  is_direct_seller_proof, chunks_of, invalid_artifact, chunk_size_not_positive, chunk_size_differs,
  reference_count_mismatch, invalid_block_number, not_strictly_ordered, RawReference, Reference,
  RawChunk, SellerProof, Chunk, ChunkFile, hash, block_number, comes_after, check_references,
  parts_of, check_chunks, build_reference, build_chunk, build_block_authentication_chunks,
}

-- The numbers of the blocks strictly ascend.
abbrev pub IsAscending : List Reference → Type 0
IsAscending [] = Unit
IsAscending (first ∷ []) = Unit
IsAscending (first ∷ second ∷ rest) = (first.number < second.number) × IsAscending (second ∷ rest)

IsAscending-snoc :
    (before : List Reference) (reference : Reference)
    → IsAscending before
    → comes_after (last? before) reference.number ≡ true
    → IsAscending (before ++ reference ∷ [])
IsAscending-snoc [] reference a h = tt
IsAscending-snoc (first ∷ []) reference a h = (ground arith, tt)
IsAscending-snoc (first ∷ second ∷ rest) reference a h =
    (a.0, IsAscending-snoc (second ∷ rest) reference a.1 h)

block_number-eq-ok :
    (index : ℕ) (number : Option ℕ) {n : ℕ} → block_number index number ≡ ok n → get_or number 0 ≡ n
unfolding block_number
block_number-eq-ok index none h = absurd (cc)
block_number-eq-ok index (some number) h =
    let (test, e) =
      not_thrown (not (is_safe_integer number) || (number == 0)) (invalid_block_number index) _ h in
    ok_injective e

build_reference-eq :
    (reference : RawReference) {block_hash : Text} {number : ℕ}
    → hash reference.block_hash ≡ ok block_hash
    → get_or reference.number 0 ≡ number
    → build_reference reference ≡ ok (record { number = number; block_hash = block_hash })
unfolding build_reference
build_reference-eq reference e f = cc

-- The inner loop pushes the references of the chunk, in order, and they go on ascending.
check_references-eq-ok :
    (index : ℕ) (before : List Reference) (raw : List RawReference) {after : List Reference}
    → check_references index before raw ≡ ok after
    → IsAscending before
    → (references : List Reference) × (map_outcome build_reference raw ≡ ok references)
      × (after ≡ before ++ references)
      × IsAscending after
      × (length references ≡ length raw)
unfolding check_references
check_references-eq-ok index before [] h a = (
  [],
  unfold map_outcome in refl,
  sym (ok_injective h) ∙ sym (append-nil before),
  subst IsAscending (ok_injective h) a,
  refl,
)
check_references-eq-ok index before (reference ∷ rest) {after} h a =
    let (block_hash, e, h1) = >>=-eq-ok (hash reference.block_hash) _ h in
    let (number, f, h2) = >>=-eq-ok (block_number index reference.number) _ h1 in
    let next : Reference = record { number = number; block_hash = block_hash } in
    let (ordered, h3) = passed (comes_after (last? before) number) not_strictly_ordered _ h2 in
    let (references, built, pushed, ascending, counted) =
      check_references-eq-ok index (before ++ next ∷ []) rest h3
        (IsAscending-snoc before next a ordered) in
    (
      next ∷ references,
      map_outcome-cons build_reference reference rest
          (build_reference-eq reference e (block_number-eq-ok index reference.number f)) built,
      pushed ∙ append_assoc before (next ∷ []) references,
      ascending,
      ap suc counted,
    )

-- What is asked of a chunk at an index.
pub record IsChunk (size index : ℕ) (chunk : Chunk) : Type 0 where
  pub at_index : chunk.index ≡ index
  pub at_offset : chunk.offset ≡ index * size
  pub nonempty : 0 < length chunk.references
  pub within_size : length chunk.references ≤ size

abbrev pub AreChunks : ℕ → ℕ → List Chunk → Type 0
AreChunks size index [] = Unit
AreChunks size index (chunk ∷ rest) = IsChunk size index chunk × AreChunks size (suc index) rest

abbrev pub references_of : Chunk → List Reference
references_of chunk = chunk.references

-- What a chunk that passes the first test is made of.
record IsPart (size index : ℕ) (chunk : RawChunk) (parts : List RawReference × List Text)
    : Type 0 where
  references : chunk.references ≡ some parts.0
  proof : chunk.proof ≡ some parts.1
  same_index : chunk.index ≡ index
  nonempty : 0 < length parts.0
  within_size : length parts.0 ≤ size

parts_of-IsPart :
    (size index : ℕ) (chunk : RawChunk) {parts : List RawReference × List Text}
    → parts_of size index chunk ≡ ok parts
    → IsPart size index chunk parts
unfolding parts_of
parts_of-IsPart size index chunk h = elim (Option-cases chunk.references) [
  | inl e ↦ absurd (cc)
  | inr (references, e) ↦ elim (Option-cases chunk.proof) [
    | inl f ↦ absurd (cc)
    | inr (proof, f) ↦ ground (arith, h, e, f)
  ]
]

-- A chunk of the result that is built from a checked one.
build_chunk-IsChunk :
    (size index : ℕ) (chunk : RawChunk) (built : Chunk) {parts : List RawReference × List Text}
    {references : List Reference}
    → IsPart size index chunk parts
    → map_outcome build_reference parts.0 ≡ ok references
    → length references ≡ length parts.0
    → build_chunk size chunk ≡ ok built
    → IsChunk size index built × (built.references ≡ references)
unfolding build_chunk
build_chunk-IsChunk size index chunk built {parts} {references} part e counted h =
    let (refs, g, h1) = >>=-eq-ok (map_outcome build_reference (get_or chunk.references [])) _ h in
    let (proof, k, h2) = >>=-eq-ok (map_outcome hash (get_or chunk.proof [])) _ h1 in
    let same : refs ≡ references = cc (part.references) in
    let counts : length refs ≡ length parts.0 = ap length same ∙ counted in
    subst (λ (c : Chunk). IsChunk size index c × (c.references ≡ references)) (ok_injective h2)
      (
        record {
          at_index = part.same_index;
          at_offset = ap (λ i. i * size) part.same_index;
          nonempty = omega (arith, counts, part.nonempty);
          within_size = omega (arith, counts, part.within_size);
        },
        same,
      )

-- The loop over the chunks, next to the chunks that are built from them.
check_chunks-AreChunks :
    (size index : ℕ) (before : List Reference) (raw : List RawChunk) {after : List Reference}
    {built : List Chunk}
    → check_chunks size index before raw ≡ ok after
    → IsAscending before
    → map_outcome (build_chunk size) raw ≡ ok built
    → AreChunks size index built
      × (after ≡ before ++ flat_map references_of built)
      × IsAscending after
      × (length built ≡ length raw)
unfolding check_chunks
check_chunks-AreChunks size index before [] {after} {built} h a e =
    let none_built : [] ≡ built = unfold map_outcome in ok_injective e in
    let same : before ≡ after = ok_injective h in
    rw (← none_built) (tt, sym same ∙ sym (append-nil before), subst IsAscending same a, refl)
check_chunks-AreChunks size index before (chunk ∷ rest) {after} {built} h a e =
    let (parts, e1, h1) = >>=-eq-ok (parts_of size index chunk) _ h in
    let (references, e2, h2) = >>=-eq-ok (check_references index before parts.0) _ h1 in
    let (first, others, f1, f2, whole) = map_outcome-cons-eq-ok (build_chunk size) chunk rest e in
    let (pushed, g1, g2, ascending, counted) = check_references-eq-ok index before parts.0 e2 a in
    let (is_chunk, same) =
      build_chunk-IsChunk size index chunk first (parts_of-IsPart size index chunk e1) g1 counted
        f1 in
    let (are_chunks, joined, ascends, count) =
      check_chunks-AreChunks size (suc index) references rest h2 ascending f2 in
    rw whole (
      (is_chunk, are_chunks),
      joined
          ∙ ap (λ (rs : List Reference). rs ++ flat_map references_of others)
              (g2 ∙ ap (λ (rs : List Reference). before ++ rs) (sym same))
          ∙ append_assoc before first.references (flat_map references_of others),
      ascends,
      ap suc count,
    )

chunks_of-length :
    (proof : SellerProof) (chunks : List RawChunk)
    → chunks_of proof ≡ ok chunks
    → length chunks ≡ proof.block_authentication_chunk_count
unfolding chunks_of
chunks_of-length proof chunks h = elim (Option-cases proof.block_authentication_chunks) [
  | inl e ↦ absurd (cc)
  | inr (listed, e) ↦ ground (arith, h, e)
]

-- Where buildBlockAuthenticationChunks accepts a proof, the numbers of the blocks ascend strictly
-- through all chunks of the file, as many as the proof and the file count; the chunks stand at their
-- indices, each with its offset and with at least one reference and at most the size that the
-- proof commits to, as many chunks as the proof counts.
pub build_block_authentication_chunks-AreChunks :
    (proof : SellerProof) (size : ℕ) (file : ChunkFile)
    → build_block_authentication_chunks proof size ≡ ok file
    → AreChunks size 0 file.chunks
      × IsAscending (flat_map references_of file.chunks)
      × (length (flat_map references_of file.chunks) ≡ proof.block_reference_count)
      × (file.block_reference_count ≡ proof.block_reference_count)
      × (length file.chunks ≡ proof.block_authentication_chunk_count)
      × (size ≡ proof.block_authentication_chunk_size)
unfolding build_block_authentication_chunks
build_block_authentication_chunks-AreChunks proof size file h =
    let (a, h1) = passed (is_direct_seller_proof proof) invalid_artifact _ h in
    let (b, h2) =
      not_thrown (not (is_safe_integer size) || (size == 0)) chunk_size_not_positive _ h1 in
    let (c, h3) = passed (size == proof.block_authentication_chunk_size) chunk_size_differs _ h2 in
    let (chunks, d, h4) = >>=-eq-ok (chunks_of proof) _ h3 in
    let (references, e, h5) = >>=-eq-ok (check_chunks size 0 [] chunks) _ h4 in
    let (f, h6) =
      passed (length references == proof.block_reference_count) reference_count_mismatch _ h5 in
    let (digest, g, h7) = >>=-eq-ok (hash proof.evidence_digest) _ h6 in
    let (root, i, h8) = >>=-eq-ok (hash proof.block_authentication_root) _ h7 in
    let (built, j, h9) = >>=-eq-ok (map_outcome (build_chunk size) chunks) _ h8 in
    let (are_chunks, joined, ascends, count) = check_chunks-AreChunks size 0 [] chunks e tt j in
    let counted = (==_iff (length references) proof.block_reference_count).0 f in
    subst
      (λ (result : ChunkFile).
        AreChunks size 0 result.chunks
        × IsAscending (flat_map references_of result.chunks)
        × (length (flat_map references_of result.chunks) ≡ proof.block_reference_count)
        × (result.block_reference_count ≡ proof.block_reference_count)
        × (length result.chunks ≡ proof.block_authentication_chunk_count)
        × (size ≡ proof.block_authentication_chunk_size))
      (ok_injective h9)
      (
        are_chunks,
        subst IsAscending joined ascends,
        ap length (sym joined) ∙ counted,
        counted,
        count ∙ chunks_of-length proof chunks d,
        (==_iff size proof.block_authentication_chunk_size).0 c,
      )
