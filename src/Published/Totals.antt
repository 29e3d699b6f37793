-- ===== src/Published/Totals.antt =====
-- What a package that `loadPackage` accepts holds.
use loop_proof.Common.{
  >>-eq-ok, passed, ℕ, Bool, length-map, ap₂, subst, ◌∙◌, ◌*◌, Option, text_eq, ◌+◌, ◌≡◌, refl, sym,
  ap, arith, List, [], ◌∷◌, ◌++◌, map, sum_by, sum_by-append, Text, keys_by_text, has, IsDistinct,
  IsDistinct-snoc, ok, throw_if, throw_if-eq-ok, >>=-eq-ok, ok_injective, true, false, not, ◌||◌,
  ◌==◌, length, ==_iff, ◌&&◌,
}
use mathlib.Core.List.{append_assoc, append-nil, map-append}
use loop_proof.Published.{
  invalid_package_manifest, package_totals_mismatch, or_throw, unreadable_file,
  invalid_or_duplicate_entry, compressed_checksum_mismatch, not_gzip, original_checksum_mismatch,
  not_json, invalid_production_artifact, journal_mismatch, Artifact, Entry, Configuration, Manifest,
  Loaded, Loading, integer, journal_matches, is_production, validate_artifact, is_valid_entry,
  unpack_artifact, load_entry, load_entries, load_package, start,
}

-- The volumes that the proof's journal states.
abbrev pub journal_volume : Loaded → ℕ
journal_volume loaded = integer loaded.artifact 5

abbrev pub journal_total : Loaded → ℕ
journal_total loaded = integer loaded.artifact 6

abbrev pub seller_of : Loaded → Text
seller_of loaded = loaded.entry.seller

abbrev pub entry_of : Loaded → Entry
entry_of loaded = loaded.entry

last_test : (before test : Bool) → (before && test) ≡ true → test ≡ true
last_test true test h = h
last_test false test h = absurd (cc)

neither : (v w t u : ℕ) → (not (v == w) || not (t == u)) ≡ false → (v ≡ w) × (t ≡ u)
neither v w t u h = (ground (arith, h), ground (arith, h))

middle_tests :
    (before volume total after : Bool)
    → (before && ((volume && total) && after)) ≡ true
    → (volume ≡ true) × (total ≡ true)
middle_tests true true true after h = (refl, refl)
middle_tests true true false after h = absurd (cc)
middle_tests true false total after h = absurd (cc)
middle_tests false volume total after h = absurd (cc)

validate_artifact-journal :
    (a : Artifact) (e : Entry) (c : Configuration) {u : Unit {0}}
    → validate_artifact a e c ≡ ok u
    → (integer a 5 ≡ e.proven_wash_volume_raw) × (integer a 6 ≡ e.total_seller_volume_raw)
unfolding validate_artifact journal_matches
validate_artifact-journal a e c h =
    let (production, h1) = passed (is_production a e c) invalid_production_artifact _ h in
    let (matches, h2) = passed (journal_matches a e c) journal_mismatch _ h1 in
    let (volume, total) =
      middle_tests _ (integer a 5 == e.proven_wash_volume_raw)
        (integer a 6 == e.total_seller_volume_raw) _ matches in
    (
      (==_iff (integer a 5) e.proven_wash_volume_raw).0 volume,
      (==_iff (integer a 6) e.total_seller_volume_raw).0 total,
    )

module _ (sha256 : List ℕ → Text) (gunzip : ℕ → List ℕ → Option (List ℕ))
    (parse : List ℕ → Option Artifact) (read_file : Text → Option (List ℕ)) where
  unpack_artifact-entry :
      (compressed : List ℕ) (entry : Entry) (unpacked : Loaded)
      → unpack_artifact sha256 gunzip parse read_file compressed entry ≡ ok unpacked
      → unpacked.entry ≡ entry
  unfolding unpack_artifact
  unpack_artifact-entry compressed entry unpacked h =
      let (a, h1) =
        passed (text_eq (sha256 compressed) entry.gzip_sha256) compressed_checksum_mismatch _ h in
      let (bytes, b, h2) =
        >>=-eq-ok (or_throw not_gzip (gunzip (16 * 1024 * 1024) compressed)) _ h1 in
      let (c, h3) =
        >>-eq-ok
          (throw_if
            (not (length bytes == entry.uncompressed_bytes)
              || not (text_eq (sha256 bytes) entry.sha256))
            original_checksum_mismatch)
          _ h2 in
      let (artifact, d, h4) = >>=-eq-ok (or_throw not_json (parse bytes)) _ h3 in
      ap (λ (loaded : Loaded). loaded.entry) (sym (ok_injective h4))

  -- What one turn of the loop adds.
  record IsStep (loading : Loading) (entry : Entry) (next : Loading) : Type 0 where
    loaded : Loaded
    same_entry : loaded.entry ≡ entry
    is_new : has entry.seller loading.sellers ≡ false
    volume : journal_volume loaded ≡ entry.proven_wash_volume_raw
    total : journal_total loaded ≡ entry.total_seller_volume_raw
    added :
        record {
          artifacts = loading.artifacts ++ loaded ∷ [];
          sellers = loading.sellers ++ entry.seller ∷ [];
          volume = loading.volume + entry.proven_wash_volume_raw;
          total = loading.total + entry.total_seller_volume_raw;
        }
        ≡ next

  load_entry-IsStep :
      (configuration : Configuration) (loading : Loading) (entry : Entry) (next : Loading)
      → load_entry sha256 gunzip parse read_file configuration loading entry ≡ ok next
      → IsStep loading entry next
  unfolding load_entry is_valid_entry
  load_entry-IsStep configuration loading entry next h =
      let (valid, h1) =
        passed (is_valid_entry loading.sellers entry) invalid_or_duplicate_entry _ h in
      let (compressed, b, h2) = >>=-eq-ok (or_throw unreadable_file (read_file entry.file)) _ h1 in
      let (unpacked, c, h3) =
        >>=-eq-ok (unpack_artifact sha256 gunzip parse read_file compressed entry) _ h2 in
      let (d, h4) = >>-eq-ok (validate_artifact unpacked.artifact entry configuration) _ h3 in
      let (volumes, totals) = validate_artifact-journal unpacked.artifact entry configuration d in
      record {
        loaded = unpacked;
        same_entry = unpack_artifact-entry compressed entry unpacked c;
        is_new = ground (arith, valid);
        volume = volumes;
        total = totals;
        added = ok_injective h4;
      }

  -- The state of the loop: what the journals of the artifacts so far state.
  record IsLoading (before : List Entry) (loading : Loading) : Type 0 where
    entries : map entry_of loading.artifacts ≡ before
    sellers : loading.sellers ≡ map seller_of loading.artifacts
    distinct : IsDistinct loading.sellers
    volume : loading.volume ≡ sum_by journal_volume loading.artifacts
    total : loading.total ≡ sum_by journal_total loading.artifacts

  load_entry-IsLoading :
      (before : List Entry) (loading next : Loading) (entry : Entry)
      → IsLoading before loading
      → IsStep loading entry next
      → IsLoading (before ++ entry ∷ []) next
  load_entry-IsLoading before loading next entry state step =
      let loaded = step.loaded in
      rw (← step.added) (record {
        entries =
            map-append entry_of loading.artifacts (loaded ∷ [])
            ∙ ap₂ (λ (es : List Entry) (e : Entry). es ++ e ∷ []) state.entries step.same_entry;
        sellers =
            ap₂ (λ (ss : List Text) (e : Entry). ss ++ e.seller ∷ []) state.sellers
              (sym step.same_entry)
            ∙ sym (map-append seller_of loading.artifacts (loaded ∷ []));
        distinct = IsDistinct-snoc entry.seller loading.sellers step.is_new state.distinct;
        volume = omega (
          arith,
          state.volume,
          step.volume,
          sum_by-append journal_volume loading.artifacts (loaded ∷ []),
        );
        total = omega (
          arith,
          state.total,
          step.total,
          sum_by-append journal_total loading.artifacts (loaded ∷ []),
        );
      })

  load_entries-IsLoading :
      (configuration : Configuration) (before entries : List Entry) (loading last : Loading)
      → IsLoading before loading
      → load_entries sha256 gunzip parse read_file configuration loading entries ≡ ok last
      → IsLoading (before ++ entries) last
  unfolding load_entries
  load_entries-IsLoading configuration before [] loading last state h =
      subst (λ (x : Loading). IsLoading (before ++ []) x) (ok_injective h)
        (subst (λ (es : List Entry). IsLoading es loading) (sym (append-nil before)) state)
  load_entries-IsLoading configuration before (entry ∷ rest) loading last state h =
      let (next, e, h1) =
        >>=-eq-ok (load_entry sha256 gunzip parse read_file configuration loading entry) _ h in
      let step = load_entry-IsStep configuration loading entry next e in
      let after = load_entry-IsLoading before loading next entry state step in
      subst (λ (es : List Entry). IsLoading es last) (append_assoc before (entry ∷ []) rest)
        (load_entries-IsLoading configuration (before ++ entry ∷ []) rest next last after h1)

  -- Where loadPackage accepts a manifest, it gives one artifact for each entry, in order, as many as
  -- the manifest counts, no two of one seller, and the volumes that the journals of the proofs state
  -- add up to the two totals of the manifest.
  pub load_package-totals :
      (manifest : Manifest) (artifacts : List Loaded)
      → load_package sha256 gunzip parse read_file manifest ≡ ok artifacts
      → (map entry_of artifacts ≡ manifest.artifacts)
        × (manifest.proof_count ≡ length artifacts)
        × IsDistinct (map seller_of artifacts)
        × (sum_by journal_volume artifacts ≡ manifest.total_proven_wash_volume_raw)
        × (sum_by journal_total artifacts ≡ manifest.total_seller_volume_raw)
  unfolding load_package
  load_package-totals manifest artifacts h =
      let (valid, h1) = passed _ invalid_package_manifest _ h in
      let (last, e, h2) =
        >>=-eq-ok
          (load_entries sha256 gunzip parse read_file manifest.configuration start
            manifest.artifacts)
          _ h1 in
      let (totals, h3) =
        >>-eq-ok
          (throw_if
            (not (last.volume == manifest.total_proven_wash_volume_raw)
              || not (last.total == manifest.total_seller_volume_raw))
            package_totals_mismatch)
          _ h2 in
      let same : last.artifacts ≡ artifacts = ok_injective h3 in
      let (volume, total) =
        neither last.volume manifest.total_proven_wash_volume_raw last.total
          manifest.total_seller_volume_raw (throw_if-eq-ok _ package_totals_mismatch totals) in
      let empty : IsLoading [] start = record {
        entries = refl;
        sellers = refl;
        distinct = tt;
        volume = refl;
        total = refl;
      } in
      let state =
        load_entries-IsLoading manifest.configuration [] manifest.artifacts start last empty e in
      let counted = last_test _ (manifest.proof_count == length manifest.artifacts) valid in
      rw (← same) (
        state.entries,
        (==_iff manifest.proof_count (length manifest.artifacts)).0 counted
            ∙ sym (ap length state.entries)
            ∙ length-map last.artifacts entry_of,
        subst (λ (ss : List Text). IsDistinct ss) state.sellers state.distinct,
        sym state.volume ∙ volume,
        sym state.total ∙ total,
      )
