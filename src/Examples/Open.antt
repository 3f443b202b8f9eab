-- ===== src/Examples/Open.antt =====
-- The checks of geo2.go and the IPv6 aliases at concrete inputs.
use ip2geo.Base.{
  ℕ, ◌+◌, ◌*◌, ◌≤◌, ◌<◌, ◌≡◌, refl, true, none, some, Option, List, [], ◌∷◌, ◌++◌, arith, ok,
  length, get_elem?, replicate,
}
use mathlib.Core.Option
use ip2geo.Bytes.{le_at, le_bytes, le_uint}
use ip2geo.Format.Header.{Header, all_zero}
use ip2geo.Format.Directory.{dir_entry_bytes, parse_dir_entry}
use ip2geo.Format.Meta.{Meta}
use ip2geo.Format.RecordId.{read_id, id_width}
use ip2geo.Format.Layout.{record_width}
use ip2geo.Format.XLayout.{check_fields, has_field, new_x_layout, blocks, kinds_of}
use ip2geo.Geo2.CheckDirectory.{
  Span, Sections, has, sec, slice, check_entry, record_section, check_entries, check_required,
  check_directory,
}
use ip2geo.Geo2.CheckDirectory.Accepts.{IsLaidOut, check_directory-IsLaidOut}
use ip2geo.Geo2.CheckLengths.{
  Counts, HasSizes, check_sizes, counts_of, check_lengths, check_lengths-HasSizes,
}
use ip2geo.Geo2.CheckStrings.{
  check_offsets, check_first, check_meta_ids, check_strings, str, heap_strings,
}
use ip2geo.Geo2.CheckStrings.Slices.{check_strings-str}
use ip2geo.Geo2.CheckRecords.{
  check_records, check_fields_from, check_ids_from, check_u16_ids, check_u24_id, u16_offs, u24_off,
}
use ip2geo.Geo2.CheckRecords.Ids.{IdsBelow, check_records-IdsBelow}
use ip2geo.Geo2.CheckIpv6.{check_ipv6, check_exceptions, check_above_last, check_starts6, low_half}
use ip2geo.Geo2.CheckIpv6.Lows.{HasLows}
use ip2geo.Geo2.CheckIpv6.Ascends.{IsUp, HasTops, check_ipv6-IsUp}
use ip2geo.Geo2.CheckExtensions.{
  Extensions, is_present, bytes_of, lang_count, check_present, check_extensions, check_x_records,
  check_x_entries, check_x_ids, check_x_flags, x_offs, x_flags, block_offs, lang_offs, flag_byte,
  field_off,
}
use ip2geo.Geo2.CheckExtensions.Sizes.{IsExtension, check_extensions-width}
use ip2geo.Reader.Words128.{Addr, less128}

-- META takes 8 bytes, and the eight sections after it are empty.
abbrev entry : ℕ → ℕ → ℕ → List ℕ
entry id offset len = dir_entry_bytes (record { id = id; crc = 0; offset = offset; len = len })

abbrev directory : List ℕ
directory =
    replicate 32 0
    ++ entry 1 248 8
    ++ entry 2 256 0
    ++ entry 3 256 0
    ++ entry 4 256 0
    ++ entry 5 256 0
    ++ entry 6 256 0
    ++ entry 7 256 0
    ++ entry 8 256 0
    ++ entry 9 256 0
    ++ replicate 8 0

abbrev at_end : Option Span
at_end = some (record { off = 256; n = 0 })

abbrev listed : Sections
listed =
    none
    ∷ some (record { off = 248; n = 8 })
    ∷ at_end
    ∷ at_end
    ∷ at_end
    ∷ at_end
    ∷ at_end
    ∷ at_end
    ∷ at_end
    ∷ at_end
    ∷ none
    ∷ none
    ∷ none
    ∷ none
    ∷ none
    ∷ []

directory_passes : check_directory directory 9 ≡ ok listed
unfolding check_directory check_entries check_entry record_section check_required has
    parse_dir_entry dir_entry_bytes le_bytes le_at le_uint Option.bind
directory_passes = refl

check_directory-IsLaidOut_example :
    (32 + 9 * 24 ≤ length directory)
    × IsLaidOut (32 + 9 * 24) (length directory) listed
    × ((id : ℕ) → 1 ≤ id → id ≤ 9 → has listed id ≡ true)
check_directory-IsLaidOut_example = check_directory-IsLaidOut directory 9 listed directory_passes

abbrev country_header : Header
country_header = record { profile = 0; lat_scale = 4; id_width = 1; section_count = 9 }

abbrev span : ℕ → Option Span
span n = some (record { off = 0; n = n })

abbrev sized : Sections
sized =
    none
    ∷ span 64
    ∷ span 12
    ∷ span 2
    ∷ span 20
    ∷ span 262_148
    ∷ span 4
    ∷ span 2
    ∷ span 8
    ∷ span 1
    ∷ none
    ∷ none
    ∷ none
    ∷ none
    ∷ none
    ∷ []

abbrev counted : Counts
counted = record { n_strings = 2; n_records = 2; n_v4 = 2; n_v6 = 1; n_exc = 0 }

lengths_pass : check_lengths country_header sized ≡ ok counted
unfolding check_lengths check_sizes counts_of sec record_width
lengths_pass = refl

check_lengths-HasSizes_example : HasSizes country_header sized counted
check_lengths-HasSizes_example = check_lengths-HasSizes country_header sized counted lengths_pass

abbrev meta : Meta
meta = record {
  build_time = 0;
  source_time = 0;
  networks = 2;
  source_type = 1;
  language = 0;
  description = 0;
  builder = 0;
  distinct_records = 2;
}

abbrev str_idx : List ℕ
str_idx = 0 ∷ 0 ∷ 0 ∷ 0 ∷ 0 ∷ 0 ∷ 0 ∷ 0 ∷ 2 ∷ 0 ∷ 0 ∷ 0 ∷ []

abbrev str_blob : List ℕ
str_blob = b'F' ∷ b'R' ∷ []

strings_pass : check_strings str_idx (length str_blob) 2 meta ≡ ok tt
unfolding check_strings check_offsets check_first check_meta_ids le_at le_uint
strings_pass = refl

check_strings-str_example :
    (ss : List (List ℕ)) × (heap_strings str_idx str_blob ≡ some ss)
    × (length ss ≡ 2)
    × ((id : ℕ) → id < 2 → str str_idx str_blob id ≡ get_elem? ss id)
check_strings-str_example = check_strings-str str_idx str_blob 2 meta refl strings_pass

records_pass : check_records country_header counted (replicate 20 0) (1 ∷ 0 ∷ []) (1 ∷ []) ≡ ok tt
unfolding check_records check_fields_from check_ids_from check_u16_ids check_u24_id u16_offs u24_off
    slice record_width all_zero id_width read_id le_at le_uint
records_pass = refl

check_records-IdsBelow_example :
    (0 < 2) × (1 ≡ id_width 2) × IdsBelow (1 ∷ 0 ∷ []) 1 2 2 × IdsBelow (1 ∷ []) 1 2 1
check_records-IdsBelow_example =
    check_records-IdsBelow country_header counted (replicate 20 0) (1 ∷ 0 ∷ []) (1 ∷ [])
      records_pass

-- Two starts of one top half; the second is an exception.
abbrev pub tops : List ℕ
tops = 1 ∷ 0 ∷ 0 ∷ 0 ∷ 0 ∷ 0 ∷ 0 ∷ 0x20 ∷ 1 ∷ 0 ∷ 0 ∷ 0 ∷ 0 ∷ 0 ∷ 0 ∷ 0x20 ∷ []

abbrev pub exceptions : List ℕ
exceptions = 1 ∷ 0 ∷ 0 ∷ 0 ∷ []

abbrev pub lows : List ℕ
lows = 5 ∷ 0 ∷ 0 ∷ 0 ∷ 0 ∷ 0 ∷ 0 ∷ 0 ∷ []

ipv6_passes : check_ipv6 tops exceptions lows 2 1 ≡ ok tt
unfolding check_ipv6 check_exceptions check_above_last check_starts6 low_half less128 le_at le_uint
ipv6_passes = refl

check_ipv6-IsUp_example :
    (ss : List Addr) × (length ss ≡ 2)
    × IsUp 0 ss
    × HasTops tops 0 ss
    × HasLows exceptions lows 1 0 ss
check_ipv6-IsUp_example =
    check_ipv6-IsUp tops exceptions lows 2 1 (omega arith) (omega arith) ipv6_passes

-- The European Union flag of one record beside record 0.
abbrev eu_flags : Extensions
eu_flags = record {
  x_fields = some (1 ∷ replicate 7 0);
  x_records = some (0 ∷ 1 ∷ []);
  langs = none;
}

extensions_pass : check_extensions 0 2 2 0 str_idx str_blob eu_flags ≡ ok (1, new_x_layout 0 1 1)
unfolding check_extensions check_present is_present bytes_of lang_count check_fields has_field
    new_x_layout blocks kinds_of check_x_records check_x_entries check_x_ids check_x_flags x_offs
    x_flags block_offs lang_offs flag_byte field_off all_zero slice le_at le_uint
extensions_pass = refl

check_extensions-width_example : IsExtension 0 2 eu_flags 1 (new_x_layout 0 1 1)
check_extensions-width_example =
    check_extensions-width 0 2 2 0 str_idx str_blob eu_flags 1 (new_x_layout 0 1 1)
      (unfold is_present in refl) extensions_pass
