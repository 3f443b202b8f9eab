-- ===== src/Examples/Build.antt =====
-- internal/build and the string and name tables at concrete inputs.
use ip2geo.Base.{ℕ, ◌≤◌, ◌≡◌, refl, true, false, some, List, [], ◌∷◌, ◌++◌, arith, ok, replicate}
use ip2geo.Format.Layout.{record_width}
use ip2geo.Format.XLayout.{new_x_layout, name_off, blocks, has_field, kinds_of, index_of}
use ip2geo.Build.Strings.{
  Str, Interner, new_interner, id, finish_strings, check_string_table, blob_size,
  check_string_counts,
}
use ip2geo.Build.Strings.Finish.{IsRenumbered, finish_strings-IsRenumbered}
use ip2geo.Build.Strings.Ids.{IsNumbered, new_interner-IsInterner, id-IsNumbered}
use ip2geo.Build.EncodeStrings.{str_idx_bytes, str_blob_bytes}
use ip2geo.Build.EncodeStrings.RoundTrip.{heap_strings-str_idx_bytes}
use ip2geo.Build.Record.{RecKey, zero_key, Record, Country, Subdivision, key}
use ip2geo.Build.Record.Key.{IsGrown, NamesCountry, NamesRegion, NamesCity, key-Names}
use ip2geo.Build.PackRecord.{append_records}
use ip2geo.Build.PackRecord.RoundTrip.{record_of_key, decode-append_records}
use ip2geo.Reader.Lookup.{decode}
use ip2geo.Geo2.CheckStrings.{heap_strings}

abbrev paris : Str
paris = b'P' ∷ b'a' ∷ b'r' ∷ b'i' ∷ b's' ∷ []

abbrev fr : Str
fr = b'F' ∷ b'R' ∷ []

id-IsNumbered_example :
    IsNumbered new_interner paris (id new_interner paris).0 (id new_interner paris).1
id-IsNumbered_example = id-IsNumbered new_interner paris new_interner-IsInterner

-- The city name is numbered before the country code.
abbrev pub two_strings : Interner
two_strings = record {
  m = (fr, 2) ∷ (paris, 1) ∷ ([], 0) ∷ [];
  strings = [] ∷ paris ∷ fr ∷ [];
  u16 = true ∷ false ∷ true ∷ [];
}

finish_strings-IsRenumbered_example : IsRenumbered two_strings (finish_strings two_strings)
finish_strings-IsRenumbered_example = finish_strings-IsRenumbered two_strings refl

abbrev table : List Str
table = [] ∷ fr ∷ paris ∷ []

table_passes : check_string_table table 2 ≡ ok tt
unfolding check_string_table blob_size check_string_counts
table_passes = refl

heap_strings-str_idx_bytes_example :
    heap_strings (str_idx_bytes table) (str_blob_bytes table) ≡ some table
heap_strings-str_idx_bytes_example = heap_strings-str_idx_bytes table 2 table_passes

-- A country layout with the continent set and three languages.
country_name_at : name_off (new_x_layout 0 2 3) 2 0 ≡ some 13
unfolding name_off new_x_layout blocks has_field kinds_of index_of
country_name_at = refl

continent_name_at : name_off (new_x_layout 0 2 3) 1 3 ≡ some 10
unfolding name_off new_x_layout blocks has_field kinds_of index_of
continent_name_at = refl

abbrev france : RecKey
france = record zero_key {
  country_iso = 2;
  country_name = 3;
  continent = 4;
  country_geo = 3_017_382;
}

abbrev europe : RecKey
europe = record zero_key {
  country_iso = 1;
  country_name = 2;
  continent = 3;
  country_geo = 3_017_382;
}

decode-append_records_example :
    decode
      (λ v. v)
      (table ++ (paris ∷ []))
      0
      (record_width 0)
      (append_records 0 (zero_key ∷ europe ∷ []) (replicate 33 0))
      1
    ≡ some (record_of_key (λ v. v) (table ++ (paris ∷ [])) 0 europe)
decode-append_records_example =
    decode-append_records (λ v. v) (table ++ (paris ∷ [])) 0 1 (zero_key ∷ europe ∷ []) europe
      (replicate 33 0) (omega arith) refl refl
      (record {
        country_iso = omega arith;
        country_name = omega arith;
        continent = omega arith;
        country_geo = omega arith;
        region_iso = omega arith;
        region_name = omega arith;
        city_name = omega arith;
        city_geo = omega arith;
        lat = omega arith;
        lon = omega arith;
        acc = omega arith;
        tz = omega arith;
      })
      (record {
        country_iso = omega arith;
        country_name = omega arith;
        continent = omega arith;
        region_iso = omega arith;
        region_name = omega arith;
        city_name = omega arith;
        tz = omega arith;
      })

abbrev no_country : Country
no_country = record { iso_code = []; names = []; geo_name_id = 0; is_in_european_union = false }

abbrev no_region : Subdivision
no_region = record { iso_code = []; names = []; geo_name_id = 0 }

-- Coordinates are whole degrees here.
abbrev pub source_record : Record ℕ
source_record = record {
  continent = record { code = b'E' ∷ b'U' ∷ []; names = []; geo_name_id = 6_255_148 };
  country = record {
    iso_code = fr;
    names = fr ∷ [];
    geo_name_id = 3_017_382;
    is_in_european_union = true;
  };
  subdivision0 = no_region;
  subdivision1 = no_region;
  city = record { names = paris ∷ []; geo_name_id = 2_988_507 };
  location = record {
    latitude = 48;
    longitude = 2;
    accuracy_radius = 20;
    time_zone = [];
    metro_code = 0;
    has_coordinates = true;
    has_accuracy_radius = true;
  };
  postal_code = [];
  registered_country = no_country;
  represented_country = no_country;
  represented_type = [];
  traits = record { is_anycast = false; is_anonymous_proxy = false; is_satellite_provider = false };
  asn = record { number = 0; organization = [] };
}

key-Names_example :
    IsGrown new_interner (key (λ x. x) source_record 2 new_interner).1
    × NamesCountry
        (λ x. x)
        source_record
        (key (λ x. x) source_record 2 new_interner).1
        (key (λ x. x) source_record 2 new_interner).0
    × (1 ≤ 2
        → NamesRegion
            (λ x. x)
            source_record
            (key (λ x. x) source_record 2 new_interner).1
            (key (λ x. x) source_record 2 new_interner).0)
    × (2 ≤ 2
        → NamesCity
            (λ x. x)
            source_record
            (key (λ x. x) source_record 2 new_interner).1
            (key (λ x. x) source_record 2 new_interner).0)
key-Names_example =
    key-Names (λ x. x) source_record 2 new_interner (omega arith) new_interner-IsInterner
