-- ===== src/Examples/Format.antt =====
-- internal/format/format.go at concrete inputs.
use ip2geo.Base.{
  ℕ, ◌^◌, ◌≤◌, ◌<◌, ◌≡◌, refl, List, [], ◌∷◌, ◌++◌, arith, take, ok, err, ◌≢◌, ◌⊎◌, some, replicate,
  All,
}
use ip2geo.Bytes.{IsByte, le_bytes}
use ip2geo.Format.Header.{Header, IsHeader, header_bytes, parse_header}
use ip2geo.Format.Header.RoundTrip.{parse_header-header_bytes, parse_header_canonical}
use ip2geo.Format.Directory.{DirEntry}
use ip2geo.Format.Meta.{Meta, IsMeta, meta_bytes, parse_meta}
use ip2geo.Format.Meta.Canonical.{parse_meta_canonical}
use ip2geo.Format.Header.{meta_err}
use ip2geo.Format.RecordId.{id_width, read_id, id_table}
use ip2geo.Format.RecordId.RoundTrip.{id_width_minimal, read_id-id_width}

abbrev city_header : Header
city_header = record { profile = 2; lat_scale = 4; id_width = 3; section_count = 9 }

parse_header-header_bytes_example :
    parse_header (header_bytes city_header ++ (7 ∷ [])) ≡ ok city_header
parse_header-header_bytes_example = parse_header-header_bytes city_header (7 ∷ []) (omega arith)

abbrev city_bytes : List ℕ
city_bytes = b'G' ∷ b'E' ∷ b'O' ∷ b'2' ∷ 2 ∷ 2 ∷ 4 ∷ 3 ∷ 9 ∷ 0 ∷ 0 ∷ 0 ∷ replicate 20 0

city_parsed : parse_header city_bytes ≡ ok city_header
unfolding header_bytes le_bytes
city_parsed = parse_header-header_bytes city_header [] (omega arith)

parse_header_canonical_example :
    IsHeader city_header × (take 32 city_bytes ≡ header_bytes city_header)
parse_header_canonical_example = parse_header_canonical city_bytes (omega arith) city_parsed

abbrev first_entry : DirEntry
first_entry = record { id = 1; crc = 0xdeadbeef; offset = 248; len = 64 }

abbrev small_meta : Meta
small_meta = record {
  build_time = 1_790_000_000;
  source_time = 0;
  networks = 2;
  source_type = 1;
  language = 2;
  description = 0;
  builder = 3;
  distinct_records = 2;
}

id_width_minimal_example :
    (257 ≤ 256 ^ id_width 257) × ((w : ℕ) → 1 ≤ w → w < id_width 257 → 256 ^ w < 257)
id_width_minimal_example = id_width_minimal 257 (omega arith)

read_id-id_width_example :
    read_id (id_table (id_width 257) (0 ∷ 256 ∷ [])) (id_width 257) 1 ≡ some 256
read_id-id_width_example =
    read_id-id_width 257 (0 ∷ 256 ∷ []) 1 (omega arith) (omega arith) (omega arith)

id_width_257 : id_width 257 ≡ 2
unfolding id_width
id_width_257 = refl

small_bytes-IsByte : All IsByte (meta_bytes small_meta)
unfolding meta_bytes le_bytes
small_bytes-IsByte = omega arith

parse_meta_canonical_example :
    ((m : Meta) × IsMeta m
      × (meta_bytes small_meta ≡ meta_bytes m)
      × (parse_meta (meta_bytes small_meta) ≡ ok m))
    ⊎ (((m : Meta) → meta_bytes small_meta ≢ meta_bytes m)
        × (parse_meta (meta_bytes small_meta) ≡ err meta_err))
parse_meta_canonical_example = parse_meta_canonical (meta_bytes small_meta) small_bytes-IsByte
