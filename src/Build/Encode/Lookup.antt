-- ===== src/Build/Encode/Lookup.antt =====
-- From networks to lookups through a whole file: what `encode` writes, opened and searched.
use ip2geo.Base.{
  ℕ, ◌+◌, ◌*◌, ◌^◌, ◌≤◌, ◌<◌, ◌≡◌, refl, sym, ap, subst, some, List, length, All, map-some, ok,
  arith,
}
use ip2geo.Format.Header.{Header, parse_header}
use ip2geo.Format.RecordId.{id_width}
use ip2geo.Build.Blocks.Laws.{items, length-items}
use ip2geo.Build.Merge4.{Range4, Merger4, new_merger4, add_all, finish}
use ip2geo.Build.Merge4.Answer.{record_of, IsRange4, IsDisjoint, starts_of, length-recs_of}
use ip2geo.Build.Encode4.{v4_idx_bytes, v4_starts_bytes, v4_ids_bytes}
use ip2geo.Build.Encode4.EndToEnd.{tables_of, search4-record_of}
use ip2geo.Build.Encode.{BuildResult, base_sections, x_sections, sections_of, encode}
use ip2geo.Build.Encode.File.{IsResult, encode-IsFile}
use ip2geo.Build.Assemble.{Section}
use ip2geo.Build.Assemble.Placed.{room}
use ip2geo.Build.Assemble.Recorded.{Reads}
use ip2geo.Geo2.CheckDirectory.{Sections, section_bytes, check_directory}
use ip2geo.Geo2.Parse.{Geo2, tables4_of}
use ip2geo.Reader.Search4.{Tables4, build_index4, search4}
use ip2geo.Reader.Search4.Lookup.{length-starts_of}

-- The IPv4 sections of an encoded file are those of the boundaries.
record ReadsV4 (br : BuildResult) (file : List ℕ) (table : Sections) : Type 0 where
  idx : section_bytes file table 5 ≡ some (v4_idx_bytes br.v4b)
  starts : section_bytes file table 6 ≡ some (v4_starts_bytes br.v4b)
  ids : section_bytes file table 7 ≡ some (v4_ids_bytes (id_width br.recs.n) br.v4b)

Reads-ReadsV4 :
    (profile : ℕ) (br : BuildResult) (ss : List Section) (file : List ℕ) (table : Sections)
    → sections_of profile br ≡ some ss
    → Reads file table ss
    → ReadsV4 br file table
unfolding sections_of base_sections
Reads-ReadsV4 profile br ss file table listed reads =
    let (xs, found, same) = map-some _ (x_sections br br.x) listed in
    let r = subst (Reads file table) (sym same) reads in
    let after = r.1.1.1.1 in record { idx = after.0; starts = after.1.0; ids = after.1.1.0 }

opened :
    (br : BuildResult) (file : List ℕ) (g : Geo2)
    → ReadsV4 br file g.secs
    → g.hdr.id_width ≡ id_width br.recs.n
    → tables4_of file g ≡ ok (tables_of br.v4b br.recs.n)
unfolding tables4_of
opened br file g r w = rw (r.idx, r.starts, r.ids, w) refl

-- Separate networks whose records are below the record count, merged in whatever order they come and
-- encoded with the rest of a well-formed build result: the file is written, the reader takes a header
-- and a section table from it, and with these its IPv4 tables are indexed, and `search4` returns the
-- record of the network that holds the address, and 0 for an address in none.
pub encode-search4 :
    (max_int profile lat_scale : ℕ) (br : BuildResult) (ss : List Section) (rs : List Range4)
    {m : Merger4}
    → IsResult profile br
    → lat_scale ≤ 7
    → sections_of profile br ≡ some ss
    → 32 + length ss * 24 + room ss ≤ max_int
    → max_int < 2 ^ 64
    → All IsRange4 rs
    → IsDisjoint rs
    → All (λ r. r.rec < br.recs.n) rs
    → 0 < br.recs.n
    → br.recs.n ≤ 2 ^ 32
    → add_all new_merger4 rs ≡ some m
    → br.v4b ≡ finish m
    → br.v4b.n < 2 ^ 32
    → (file : List ℕ) × (encode max_int profile lat_scale br ≡ ok file)
      × (hdr : Header) × (parse_header file ≡ ok hdr)
      × (secs : Sections) × (check_directory file hdr.section_count ≡ ok secs)
      × ((g : Geo2)
          → g.hdr ≡ hdr
          → g.secs ≡ secs
          → (t0 : Tables4) × (tables4_of file g ≡ ok t0)
            × (t : Tables4) × (build_index4 t0 ≡ some t)
            × ((key : ℕ) → key < 2 ^ 32 → search4 t key ≡ some (record_of rs key)))
encode-search4 max_int profile lat_scale br ss rs {m} v scale listed fits small valid separate below
      pos many e same few =
    let (file, run, is_file) =
      encode-IsFile max_int profile lat_scale br ss v scale listed fits small in
    let count : length (starts_of (items (finish m))) < 2 ^ 32 =
      subst (λ l. length (starts_of (items l)) < 2 ^ 32) same
        (omega (
          arith,
          length-starts_of (items br.v4b),
          length-recs_of (items br.v4b),
          length-items br.v4b v.v4_blocks,
        )) in
    let (t, built, found) = search4-record_of rs br.recs.n valid separate below pos many e count in
    (
      file,
      run,
      _,
      is_file.header,
      is_file.table,
      is_file.directory,
      λ g hdr table.
          let reads =
            Reads-ReadsV4 profile br ss file g.secs listed
              (subst (λ s. Reads file s ss) (sym table) is_file.reads) in
          (
            tables_of br.v4b br.recs.n,
            opened br file g reads (ap (λ h. h.id_width) hdr),
            t,
            subst (λ l. build_index4 (tables_of l br.recs.n) ≡ some t) (sym same) built,
            found,
          ),
    )
