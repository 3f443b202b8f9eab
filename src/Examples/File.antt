-- ===== src/Examples/File.antt =====
-- internal/build/encode.go at a concrete input: three networks in a file of their own.
use ip2geo.Base.{
  ℕ, ◌+◌, ◌-◌, ◌*◌, ◌^◌, ◌<◌, ◌≤◌, ◌≡◌, refl, true, none, some, List, [], ◌∷◌, length, arith, ok,
}
use ip2geo.Format.Header.{Header, parse_header}
use ip2geo.Format.Layout.{record_width}
use ip2geo.Format.RecordId.{id_width}
use ip2geo.Build.Blocks.{BlockList, no_blocks, push, append_last}
use ip2geo.Build.Record.{zero_key}
use ip2geo.Build.Merge4.{
  Boundary4, finish, sort, insert, step_all, close_last, step, open_run, close_gap,
}
use ip2geo.Build.Merge4.Answer.{record_of}
use ip2geo.Build.Encode6.{count_exceptions}
use ip2geo.Build.Encode.{
  BuildResult, blob_len, section, base_sections, exc_sections, x_sections, lang_sections,
  sections_of, encode,
}
use ip2geo.Build.Encode.File.{IsResult, encode-IsFile}
use ip2geo.Build.Encode.Lookup.{encode-search4}
use ip2geo.Build.Assemble.{Section, assemble}
use ip2geo.Build.Assemble.Placed.{room}
use ip2geo.Build.Assemble.Directory.{lists}
use ip2geo.Build.Assemble.Accepted.{IsFile, assemble-IsFile}
use ip2geo.Geo2.CheckDirectory.{Sections, check_directory}
use ip2geo.Geo2.Parse.{Geo2, tables4_of}
use ip2geo.Reader.Search4.{Tables4, build_index4, search4}
use ip2geo.Examples.Merge.{shuffled, merged_shuffled, shuffled_added, boundaries}

abbrev merged : BlockList Boundary4
merged = record { blocks = boundaries ∷ []; n = 4 }

merged_of : merged ≡ finish merged_shuffled
unfolding finish sort insert step_all close_last step open_run close_gap push append_last
merged_of = refl

-- A country build with two records besides that of the gaps.
abbrev small : BuildResult
small = record {
  strs = [] ∷ [];
  recs = record { blocks = (zero_key ∷ zero_key ∷ zero_key ∷ []) ∷ []; n = 3 };
  v4b = merged;
  v6b = no_blocks;
  meta = record {
    build_time = 1;
    source_time = 0;
    networks = 3;
    source_type = 0;
    language = 0;
    description = 0;
    builder = 0;
    distinct_records = 3;
  };
  x = none;
  remap = 0 ∷ [];
  langs = [];
}

small-IsResult : IsResult 0 small
small-IsResult = record {
  profile_known = omega arith;
  recs_blocks = (refl, omega arith, omega arith);
  v4_blocks = (refl, omega arith, omega arith);
  v6_blocks = refl;
  v4_ascending = omega arith;
  v4_fits = omega arith;
  table_fits = λ t e. absurd (ground arith);
}

small_sections : sections_of 0 small ≡ some (base_sections 0 small)
unfolding sections_of base_sections x_sections exc_sections count_exceptions lang_sections
small_sections = refl

abbrev max_int : ℕ
max_int = 2 ^ 63 - 1

small_fits : 32 + length (base_sections 0 small) * 24 + room (base_sections 0 small) ≤ max_int
unfolding base_sections room blob_len record_width id_width
small_fits = omega arith

encode-search4_example :
    (file : List ℕ) × (encode max_int 0 0 small ≡ ok file)
    × (hdr : Header) × (parse_header file ≡ ok hdr)
    × (secs : Sections) × (check_directory file hdr.section_count ≡ ok secs)
    × ((g : Geo2)
        → g.hdr ≡ hdr
        → g.secs ≡ secs
        → (t0 : Tables4) × (tables4_of file g ≡ ok t0)
          × (t : Tables4) × (build_index4 t0 ≡ some t)
          × ((key : ℕ) → key < 2 ^ 32 → search4 t key ≡ some (record_of shuffled key)))
encode-search4_example =
    encode-search4 max_int 0 0 small (base_sections 0 small) shuffled small-IsResult (omega arith)
      small_sections small_fits (omega arith) (omega arith) (omega arith) (omega arith)
      (omega arith) (omega arith) shuffled_added merged_of (omega arith)

encode-IsFile_example :
    (file : List ℕ) × (encode max_int 0 0 small ≡ ok file)
    × IsFile
        (record { profile = 0; lat_scale = 0; id_width = id_width 3; section_count = 0 })
        (base_sections 0 small)
        file
encode-IsFile_example =
    encode-IsFile max_int 0 0 small (base_sections 0 small) small-IsResult (omega arith)
      small_sections small_fits (omega arith)

-- Nine sections, of which the second and the third are three bytes.
abbrev nine : List Section
nine =
    section 1 0 []
    ∷ section 2 1 (7 ∷ [])
    ∷ section 3 2 (8 ∷ 9 ∷ [])
    ∷ section 4 0 []
    ∷ section 5 0 []
    ∷ section 6 0 []
    ∷ section 7 0 []
    ∷ section 8 0 []
    ∷ section 9 0 []
    ∷ []

nine_listed : (i : ℕ) → 1 ≤ i → i ≤ 9 → lists nine i ≡ true
unfolding lists
nine_listed i lo hi = ground arith

nine_fits : 32 + length nine * 24 + room nine ≤ max_int
unfolding room
nine_fits = omega arith

assemble-IsFile_example :
    (file : List ℕ) × (assemble max_int
        (record { profile = 1; lat_scale = 0; id_width = 2; section_count = 0 })
        nine
      ≡ ok file)
    × IsFile (record { profile = 1; lat_scale = 0; id_width = 2; section_count = 0 }) nine file
assemble-IsFile_example =
    assemble-IsFile max_int (record { profile = 1; lat_scale = 0; id_width = 2; section_count = 0 })
      nine
      (record {
        profile_known = omega arith;
        scale_fits = omega arith;
        width_pos = omega arith;
        width_le = omega arith;
        count_fits = omega arith;
      })
      (record { ascending = omega arith; required = nine_listed; sized = omega arith }) nine_fits
      (omega arith)
