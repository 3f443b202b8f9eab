-- ===== src/Examples/Lookup.antt =====
-- The reader's IPv4 searches and checks over the sections built from three networks.
use ip2geo.Base.{ℕ, ◌*◌, ◌^◌, ◌<◌, ◌≡◌, ◌↔◌, refl, some, List, [], ◌∷◌, arith, All, length, ok}
use ip2geo.Bytes.{IsByte, le_bytes}
use ip2geo.Bytes.Table.{length-le_table, le_table-IsByte}
use ip2geo.Format.RecordId.{id_table, id_bytes, id_width}
use ip2geo.Format.RecordId.RoundTrip.{read_id-id_width}
use ip2geo.Build.Blocks.{BlockList}
use ip2geo.Build.Merge4.{Boundary4}
use ip2geo.Build.Merge4.Answer.{answer, starts_of, recs_of}
use ip2geo.Build.Encode4.{low_halves, v4_starts_bytes, v4_ids_bytes}
use ip2geo.Build.Encode4.Holds.{v4_sections-HoldsStarts}
use ip2geo.Build.Encode4.EndToEnd.{tables_of}
use ip2geo.Geo2.CheckIpv4.{check_ipv4}
use ip2geo.Geo2.CheckIpv4.Holds.{check_ipv4_iff}
use ip2geo.Geo2.CheckIpv4.Safe.{IsSafe, check_ipv4-search4}
use ip2geo.Reader.Search4.{Tables4, build_index4, search4, start4}
use ip2geo.Reader.Search4.Sections.{HoldsStarts, HoldsIds}
use ip2geo.Reader.Search4.Lookup.{search4-answer, start4-start}
use ip2geo.Reader.Range4.{Answer4, range4}
use ip2geo.Reader.Range4.Same.{IsRange, range4-IsRange}
use ip2geo.Reader.Search6.{Tables6}
use ip2geo.Reader.Lookup.{v4, v6, lookup_id}
use ip2geo.Reader.Lookup.Forms.{mapped, compatible, six_to_four, teredo, lookup_id_forms}
use ip2geo.Examples.Merge.{boundaries}

abbrev built : BlockList Boundary4
built = record { blocks = boundaries ∷ []; n = 4 }

abbrev tables : Tables4
tables = tables_of built 3

built-HoldsStarts : HoldsStarts tables.v4idx tables.v4starts (starts_of boundaries)
built-HoldsStarts = v4_sections-HoldsStarts built (omega arith) (omega arith) (omega arith)

built-HoldsIds : HoldsIds tables.v4ids tables.id_width (recs_of boundaries)
unfolding v4_ids_bytes
built-HoldsIds = λ i lt. read_id-id_width 3 (recs_of boundaries) i (omega arith) (omega arith) lt

search4-answer_example :
    (t : Tables4) × (build_index4 tables ≡ some t)
    × ((key : ℕ) → key < 2 ^ 32 → search4 t key ≡ some (answer boundaries key))
search4-answer_example =
    search4-answer tables boundaries (omega arith) built-HoldsStarts built-HoldsIds

start4-start_example : start4 tables 1 7 ≡ some 0x0a000200
start4-start_example =
    start4-start tables (starts_of boundaries) built-HoldsStarts 1 7 (omega arith) (omega arith)

built-IsByte : All IsByte tables.v4starts
unfolding v4_starts_bytes
built-IsByte = le_table-IsByte 2 (low_halves boundaries)

built_size : length tables.v4starts ≡ 4 * 2
unfolding v4_starts_bytes
built_size = length-le_table 2 (low_halves boundaries)

check_ipv4_iff_example :
    (check_ipv4 tables.v4idx tables.v4starts 4 ≡ ok tt)
    ↔ ((xs : List ℕ) × (length xs ≡ 4) × HoldsStarts tables.v4idx tables.v4starts xs)
check_ipv4_iff_example = check_ipv4_iff tables.v4idx tables.v4starts 4 built-IsByte built_size

built_ids : length tables.v4ids ≡ 4 * tables.id_width
unfolding v4_ids_bytes id_table id_bytes id_width le_bytes
built_ids = refl

check_ipv4-search4_example : (bs : List Boundary4) × (t : Tables4) × IsSafe tables 4 bs t
unfolding id_width
check_ipv4-search4_example =
    check_ipv4-search4 tables 4 built-IsByte built_size built_ids (omega arith) (omega arith)
      (check_ipv4_iff_example.1 (starts_of boundaries, refl, built-HoldsStarts))

indexed :
    (t : Tables4) × (build_index4 tables ≡ some t)
    × ((key : ℕ) → key < 2 ^ 32 → search4 t key ≡ some (answer boundaries key))
indexed = search4-answer tables boundaries (omega arith) built-HoldsStarts built-HoldsIds

range4-IsRange_example :
    (a : Answer4) × (range4 indexed.0 0x0a000105 ≡ some a) × IsRange boundaries 0x0a000105 a
range4-IsRange_example =
    range4-IsRange tables indexed.0 boundaries (omega arith) built-HoldsStarts built-HoldsIds
      indexed.1 0x0a000105 (omega arith)

abbrev no_tables6 : Tables6
no_tables6 = record {
  id_width = 1;
  v6hi = [];
  v6ids = [];
  v6exc_idx = [];
  v6exc_lo = [];
  v6exc = [];
  v6dir = [];
  v6l2 = [];
}

lookup_id_forms_example :
    (lookup_id indexed.0 no_tables6 (v6 (mapped 0x0a000105))
      ≡ lookup_id indexed.0 no_tables6 (v4 0x0a000105))
    × (lookup_id indexed.0 no_tables6 (v6 (compatible 0x0a000105))
        ≡ lookup_id indexed.0 no_tables6 (v4 0x0a000105))
    × ((subnet lo : ℕ)
        → subnet < 2 ^ 16
        → lookup_id indexed.0 no_tables6 (v6 (six_to_four 0x0a000105 subnet lo))
          ≡ lookup_id indexed.0 no_tables6 (v4 0x0a000105))
    × ((lo : ℕ)
        → lookup_id indexed.0 no_tables6 (v6 (teredo 0x0a000105 lo))
          ≡ lookup_id indexed.0 no_tables6 (v4 0x0a000105))
lookup_id_forms_example = lookup_id_forms indexed.0 no_tables6 0x0a000105 (omega arith)
