-- ===== src/Examples/Builder.antt =====
-- The builder of internal/build and its IPv6 addresses at concrete inputs.
use ip2geo.Base.{
  ◌+◌, ◌<◌, ◌≡◌, ◌↔◌, refl, sym, subst, true, none, some, [], ◌∷◌, replicate, arith, ◌++◌,
}
use ip2geo.Format.Meta.{Meta}
use ip2geo.Format.XLayout.{new_x_layout, blocks, has_field, kinds_of}
use ip2geo.Geo2.CheckExtensions.{x_offs, add_to_all}
use ip2geo.Build.Blocks.{no_blocks, push}
use ip2geo.Build.Blocks.Laws.{push-IsBlocks}
use ip2geo.Build.Strings.{new_interner, finish_strings}
use ip2geo.Build.Record.{RecKey, zero_key}
use ip2geo.Build.XTable.{XTable, new_x_table, block_str_offs, field_at}
use ip2geo.Build.XTable.{name_offs}
use ip2geo.Build.XTable.Entries.{new_x_table-x_offs}
use ip2geo.Build.Options.{since_epoch}
use ip2geo.Build.Merge4.{new_merger4}
use ip2geo.Build.Merge6.{Addr16, new_merger6, less16}
use ip2geo.Build.Merge6.Bytes16.{num16, less16-num16}
use ip2geo.Build.Builder.{Builder, full_key, add_record}
use ip2geo.Build.Builder.Records.{
  IsBuilder, IsNumbering, new-IsNumbering, IsRecorded, add_record-IsRecorded,
}
use ip2geo.Build.FinishBuild.{renumber_key}
use ip2geo.Build.FinishBuild.Strings.{SameNames, renumber_key-SameNames}
use ip2geo.Examples.Build.{source_record, two_strings}

abbrev three : Addr16
three = replicate 14 0 ++ (3 ∷ 255 ∷ [])

less16-num16_example :
    (less16 three (replicate 16 1) ≡ true) ↔ (num16 three < num16 (replicate 16 1))
less16-num16_example = less16-num16 three (replicate 16 1) (omega arith) (omega arith) refl

abbrev zero_meta : Meta
zero_meta = record {
  build_time = 0;
  source_time = 0;
  networks = 0;
  source_type = 0;
  language = 0;
  description = 0;
  builder = 0;
  distinct_records = 0;
}

-- A city build without extension sets, before its first record.
abbrev pub fresh : Builder
fresh = record {
  opts = record {
    profile = 2;
    fields = 0;
    languages = (b'e' ∷ b'n' ∷ []) ∷ [];
    lat_scale = 4;
    build_time = since_epoch 0 0;
    description = [];
  };
  strs = new_interner;
  meta = zero_meta;
  keys = [];
  recs = push no_blocks zero_key;
  x = none;
  langs = [];
  v4m = new_merger4;
  v6m = new_merger6;
  networks = 0;
  distinct = 0;
}

pub fresh-IsBuilder : IsBuilder fresh
fresh-IsBuilder =
    let (blocks, added) = push-IsBlocks no_blocks zero_key refl in
    record { blocks = blocks; numbering = subst (IsNumbering []) (sym added) new-IsNumbering }

add_record-IsRecorded_example :
    IsRecorded fresh
      (full_key (λ x. x) source_record (record fresh { distinct = fresh.distinct + 1 })).0
      (add_record (λ x. x) source_record fresh).0
      (add_record (λ x. x) source_record fresh).1
add_record-IsRecorded_example = add_record-IsRecorded (λ x. x) source_record fresh fresh-IsBuilder

abbrev french : RecKey
french = record zero_key { country_iso = 2; city_name = 1; country_geo = 3_017_382 }

renumber_key-SameNames_example :
    (k' : RecKey) × (renumber_key (finish_strings two_strings).remap french ≡ some k')
    × SameNames (finish_strings two_strings).strs two_strings.strings k' french
    × (record k' {
      country_iso = french.country_iso;
      country_name = french.country_name;
      continent = french.continent;
      region_iso = french.region_iso;
      region_name = french.region_name;
      city_name = french.city_name;
      tz = french.tz;
    }
        ≡ french)
renumber_key-SameNames_example = renumber_key-SameNames two_strings refl french (record {
  country_iso = omega arith;
  country_name = omega arith;
  continent = omega arith;
  region_iso = omega arith;
  region_name = omega arith;
  city_name = omega arith;
  tz = omega arith;
})

-- A country table with the continent and the postal code, in two languages.
abbrev country_table : XTable
country_table = record {
  fields = 18;
  n_langs = 2;
  layout = new_x_layout 0 18 2;
  str_offs = 0 ∷ 7 ∷ 10 ∷ 13 ∷ [];
  ids = (replicate 16 0, 0) ∷ [];
  entries = replicate 16 0 ∷ [];
}

country_table_made : new_x_table 0 18 2 ≡ some country_table
unfolding new_x_table block_str_offs field_at new_x_layout blocks has_field kinds_of name_offs
    add_to_all
country_table_made = refl

new_x_table-x_offs_example : country_table.str_offs ≡ x_offs (new_x_layout 0 18 2) 18
new_x_table-x_offs_example = new_x_table-x_offs 0 18 2 country_table country_table_made
