-- ===== src/Build/Encode/File.antt =====
-- internal/build/encode.go's `encode` against the checks of geo2.go that a file goes through.
use ip2geo.Base.{
  ℕ, ◌+◌, ◌*◌, ◌^◌, ◌≤◌, ◌<◌, ◌≡◌, refl, sym, ap, ◌∙◌, Option, none, some, List, [], ◌∷◌, ◌++◌,
  drop, length, replicate, All, All-append, map-some, some_injective, subst, arith, ltb, Bool-cases,
  inl, inr, ok,
}
use ip2geo.Bytes.{le_bytes}
use ip2geo.Bytes.Table.{length-le_table}
use ip2geo.Format.Header.{Header}
use ip2geo.Format.Layout.{record_width}
use ip2geo.Format.Meta.{meta_bytes}
use ip2geo.Format.RecordId.{id_width}
use ip2geo.Format.RecordId.RoundTrip.{id_width_range}
use ip2geo.Build.Blocks.Laws.{items, IsBlocks, length-items}
use ip2geo.Build.Merge4.Answer.{IsAscending, recs_of, length-recs_of}
use ip2geo.Reader.Search4.Lookup.{length-starts_of}
use ip2geo.Build.PackRecord.{append_records}
use ip2geo.Build.Merge6.{Boundary6}
use ip2geo.Build.Encode4.{v4_ids_bytes, v4_starts_bytes}
use ip2geo.Build.Encode4.Holds.{length-v4_idx_bytes, length-v4_starts_bytes}
use ip2geo.Build.Encode6.{
  v6_starts_bytes, v6_ids_bytes, exc_idx_bytes, exc_lo_bytes, high_halves, recs6_of, exc_idx_words,
  exc_lo_words, length-exc_idx_words, length-exc_lo_words, length-high_halves, length-recs6_of,
  count_exceptions,
}
use ip2geo.Build.XTable.{XTable}
use ip2geo.Build.Encode.{
  BuildResult, x_records_bytes, base_sections, exc_sections, x_sections, lang_sections, sections_of,
  encode,
}
use ip2geo.Build.Encode.Lengths.{
  length-id_table, length-str_idx_bytes, length-str_blob_bytes, length-append_records, IsXTable,
  length-x_records_bytes,
}
use ip2geo.Build.Assemble.{Section}
use ip2geo.Build.Assemble.Placed.{IsSized, room}
use ip2geo.Build.Assemble.Accepted.{IsLayable, IsFile, assemble-IsFile}
use ip2geo.Build.Encode.Order.{
  Between-append, Between-Ascends, exc-Between, lang-Between, x-Between, base-Between, base-lists,
}

-- What the builder hands to `encode`: lists in full blocks, IPv4 boundaries in order, and an extension
-- table whose entries have its layout's width and whose string ids are all renumbered.
pub record IsResult (profile : ℕ) (br : BuildResult) : Type 0 where
  pub profile_known : profile ≤ 3
  pub recs_blocks : IsBlocks br.recs
  pub v4_blocks : IsBlocks br.v4b
  pub v6_blocks : IsBlocks br.v6b
  pub v4_ascending : IsAscending 0 (items br.v4b)
  pub v4_fits : All (λ b. b.start < 2 ^ 32) (items br.v4b)
  pub table_fits : (t : XTable) → br.x ≡ some t → IsXTable t

length-meta_bytes : (br : BuildResult) → length (meta_bytes br.meta) ≡ 64
unfolding meta_bytes le_bytes
length-meta_bytes br = refl

module _ (profile : ℕ) (br : BuildResult) (v : IsResult profile br) where
  abbrev id_w : ℕ
  id_w = id_width br.recs.n

  base-IsSized : All IsSized (base_sections profile br)
  unfolding base_sections v4_ids_bytes v6_starts_bytes v6_ids_bytes
  base-IsSized =
      let (lo, hi) = id_width_range br.recs.n in
      let n4 = length-recs_of (items br.v4b) ∙ length-items br.v4b v.v4_blocks in
      let n6 = length-items br.v6b v.v6_blocks in
      let recs : br.recs.n * record_width profile
          ≡ length (append_records profile (items br.recs) (replicate 33 0)) =
        omega (
          arith,
          length-append_records profile (items br.recs) (replicate 33 0) v.profile_known refl,
          ap (λ n. n * record_width profile) (length-items br.recs v.recs_blocks),
        ) in
      let starts4 : 2 * br.v4b.n ≡ length (v4_starts_bytes br.v4b) =
        omega (arith, length-v4_starts_bytes br.v4b, length-starts_of (items br.v4b), n4) in
      let ids4 : br.v4b.n * id_w ≡ length (v4_ids_bytes id_w br.v4b) =
        omega (arith, length-id_table id_w (recs_of (items br.v4b)) lo hi, ap (λ n. n * id_w) n4) in
      let starts6 : 8 * br.v6b.n ≡ length (v6_starts_bytes (items br.v6b)) = omega (
        arith,
        length-le_table 8 (high_halves (items br.v6b)),
        length-high_halves (items br.v6b),
        n6,
      ) in
      let ids6 : br.v6b.n * id_w ≡ length (v6_ids_bytes id_w (items br.v6b)) = omega (
        arith,
        length-id_table id_w (recs6_of (items br.v6b)) lo hi,
        ap (λ n. n * id_w) (length-recs6_of (items br.v6b) ∙ n6),
      ) in
      let idx4 = sym (length-v4_idx_bytes br.v4b v.v4_ascending v.v4_fits) in
      let ids : All IsSized (drop 4 (base_sections profile br)) =
        (idx4, (starts4, (ids4, (starts6, (ids6, tt))))) in
      (
        sym (length-meta_bytes br),
        (sym (length-str_idx_bytes br.strs), (sym (length-str_blob_bytes br.strs), (recs, ids))),
      )

  x-IsSized :
      (x : Option XTable) (xs : List Section)
      → br.x ≡ x
      → x_sections br x ≡ some xs
      → All IsSized xs
  unfolding x_sections le_bytes
  x-IsSized none xs e h = subst (All IsSized) (some_injective h) tt
  x-IsSized (some t) xs e h =
      let (b, written, same) = map-some _ (x_records_bytes t br.remap (items br.recs)) h in
      subst (All IsSized) same (
        refl,
        (
          omega (
            arith,
            length-x_records_bytes t br.remap (items br.recs) (v.table_fits t e) written,
            ap (λ n. n * t.layout.width) (length-items br.recs v.recs_blocks),
          ),
          tt,
        ),
      )

exc-IsSized : (bs : List Boundary6) → All IsSized (exc_sections bs)
unfolding exc_sections exc_idx_bytes exc_lo_bytes
exc-IsSized bs = elim (Bool-cases (ltb 0 (count_exceptions bs))) [
  | inl t ↦ rw t (
    omega (arith, length-le_table 4 (exc_idx_words bs 0), length-exc_idx_words bs 0),
    (omega (arith, length-le_table 8 (exc_lo_words bs), length-exc_lo_words bs), tt),
  )
  | inr f ↦ rw f tt
]

lang-IsSized : (ls : List ℕ) → All IsSized (lang_sections ls)
unfolding lang_sections
lang-IsSized [] = tt
lang-IsSized (l ∷ ls) = (omega (arith, length-le_table 4 (l ∷ ls)), tt)

sections_of-IsLayable :
    (profile : ℕ) (br : BuildResult) (ss : List Section)
    → IsResult profile br
    → sections_of profile br ≡ some ss
    → IsLayable ss
unfolding sections_of
sections_of-IsLayable profile br ss v h =
    let (xs, found, same) = map-some _ (x_sections br br.x) h in
    let base = base_sections profile br in
    let exc = exc_sections (items br.v6b) in
    let langs = lang_sections br.langs in
    let x = x-IsSized profile br v br.x xs refl found in
    subst IsLayable same (record {
      ascending = Between-Ascends 0 _ (
          Between-append 0 9 14 base _ (base-Between profile br) (
            Between-append 9 11 14 exc _ (exc-Between (items br.v6b)) (
              Between-append 11 13 14 xs langs (x-Between br br.x xs found)
                (lang-Between br.langs))));
      required = λ i lo hi. base-lists profile i br (exc ++ (xs ++ langs)) lo hi;
      sized = All-append IsSized base _ (base-IsSized profile br v) (
          All-append IsSized exc _ (exc-IsSized (items br.v6b))
            (All-append IsSized xs langs x (lang-IsSized br.langs)));
    })

-- A build result that is well formed is encoded, unless the file would pass `max_int` bytes or a
-- record has no extension entry; the reader accepts the file's header, directory and checksums and
-- reads back from it each section that the builder's tables make.
pub encode-IsFile :
    (max_int profile lat_scale : ℕ) (br : BuildResult) (ss : List Section)
    → IsResult profile br
    → lat_scale ≤ 7
    → sections_of profile br ≡ some ss
    → 32 + length ss * 24 + room ss ≤ max_int
    → max_int < 2 ^ 64
    → (file : List ℕ) × (encode max_int profile lat_scale br ≡ ok file)
      × IsFile
          (record {
            profile = profile;
            lat_scale = lat_scale;
            id_width = id_width br.recs.n;
            section_count = 0;
          })
          ss
          file
unfolding encode
encode-IsFile max_int profile lat_scale br ss v scale listed fits small =
    let (lo, hi) = id_width_range br.recs.n in
    let hdr : Header = record {
      profile = profile;
      lat_scale = lat_scale;
      id_width = id_width br.recs.n;
      section_count = 0;
    } in
    let (file, run, is_file) =
      assemble-IsFile max_int hdr ss
        (record {
          profile_known = v.profile_known;
          scale_fits = scale;
          width_pos = lo;
          width_le = hi;
          count_fits = omega arith;
        })
        (sections_of-IsLayable profile br ss v listed) fits small in
    (file, rw listed run, is_file)
