-- ===== src/Csv/Layout.antt =====
-- csvdb/layout.go: the formats and their names, and the column layouts; csvdb/csvdb.go: `checkLayout`.
pub mod Columns
use ip2geo.Base.{
  ℕ, zero, suc, ◌+◌, ◌*◌, ◌-◌, ◌/◌, ◌%◌, ◌^◌, Bool, true, false, ◌&&◌, ◌||◌, not, Option, none,
  some, List, [], ◌∷◌, get_elem?, ltb, leb, ◌==◌, Result, ok, err, if◌then◌else◌,
}
use mathlib.Core.Option
use Prim.Native.Char.{code}
use Prim.Native.String.{String}
use ip2geo.Format.Header.{bytes_eq}
use ip2geo.Build.Strings.{Str}

-- The bytes of an ASCII text.
abbrev pub codes : String → Str
codes String.[] = []
codes (String.◌∷◌ c s) = code c ∷ codes s

abbrev pub dbip_city_format : ℕ
dbip_city_format = 1

abbrev pub dbip_country_format : ℕ
dbip_country_format = 2

abbrev pub dbip_asn_format : ℕ
dbip_asn_format = 3

abbrev pub ip2location_format : ℕ
ip2location_format = 4

abbrev pub ip2location_asn_format : ℕ
ip2location_asn_format = 5

-- `formatNames`, whose entry 0 is empty.
unfoldable pub format_names : List Str
format_names =
    []
    ∷ codes "dbip-city"
    ∷ codes "dbip-country"
    ∷ codes "dbip-asn"
    ∷ codes "ip2location"
    ∷ codes "ip2location-asn"
    ∷ []

-- `Format.String` of a valid format; of others it is their number, which no format is named by.
unfoldable pub format_name : ℕ → Option Str
format_name f = if f == 0 then none else get_elem? format_names f

unfoldable pub valid_format : ℕ → Bool
valid_format f = leb dbip_city_format f && ltb f 6

-- `for f, name := range formatNames`, from `f` on; `none` is ErrOptions.
unfoldable pub parse_from : List Str → ℕ → Str → Option ℕ
parse_from [] f s = none
parse_from ([] ∷ names) f s = parse_from names (f + 1) s
parse_from ((c ∷ name) ∷ names) f s =
    let rest = parse_from names (f + 1) s in if bytes_eq (c ∷ name) s then some f else rest

unfoldable pub parse_format : Str → Option ℕ
parse_format s = parse_from format_names 0 s

-- `layout`, its type apart; a column of 0 is one that the layout does not have.
pub record Layout : Type 0 where
  pub cols : ℕ
  pub decimal : Bool
  pub asn : Bool
  pub max_profile : ℕ
  pub fields : ℕ
  pub none_key : Str
  pub dash : Bool
  pub continent : ℕ
  pub country : ℕ
  pub country_name : ℕ
  pub region : ℕ
  pub city : ℕ
  pub lat : ℕ
  pub lon : ℕ
  pub postal : ℕ
  pub as_num : ℕ
  pub as_org : ℕ

-- `layout{}`.
abbrev pub no_layout : Layout
no_layout = record {
  cols = 0;
  decimal = false;
  asn = false;
  max_profile = 0;
  fields = 0;
  none_key = [];
  dash = false;
  continent = 0;
  country = 0;
  country_name = 0;
  region = 0;
  city = 0;
  lat = 0;
  lon = 0;
  postal = 0;
  as_num = 0;
  as_org = 0;
}

-- FieldLocation and FieldPostal.
abbrev pub location_set : ℕ
location_set = 2 ^ 7

abbrev pub postal_set : ℕ
postal_set = 2 ^ 4

unfoldable pub dbip_city : Layout
dbip_city = record no_layout {
  cols = 8;
  max_profile = 2;
  fields = location_set;
  none_key = codes "ZZ";
  continent = 2;
  country = 3;
  region = 4;
  city = 5;
  lat = 6;
  lon = 7;
}

unfoldable pub dbip_country : Layout
dbip_country = record no_layout { cols = 3; none_key = codes "ZZ"; country = 2 }

unfoldable pub dbip_asn : Layout
dbip_asn = record no_layout { cols = 4; asn = true; as_num = 2; as_org = 3 }

-- What the IP2Location layouts with geo data share.
abbrev pub ip2l_geo : Layout
ip2l_geo = record no_layout {
  decimal = true;
  none_key = codes "-";
  dash = true;
  country = 2;
  country_name = 3;
}

unfoldable pub ip2l_db1 : Layout
ip2l_db1 = record ip2l_geo { cols = 4 }

unfoldable pub ip2l_db3 : Layout
ip2l_db3 = record ip2l_geo { cols = 6; max_profile = 2; region = 4; city = 5 }

unfoldable pub ip2l_db5 : Layout
ip2l_db5 = record ip2l_geo {
  cols = 8;
  max_profile = 2;
  fields = location_set;
  region = 4;
  city = 5;
  lat = 6;
  lon = 7;
}

unfoldable pub ip2l_db9 : Layout
ip2l_db9 = record ip2l_geo {
  cols = 9;
  max_profile = 2;
  fields = location_set + postal_set;
  region = 4;
  city = 5;
  lat = 6;
  lon = 7;
  postal = 8;
}

unfoldable pub ip2l_db11 : Layout
unfolding ip2l_db9
ip2l_db11 = record ip2l_db9 { cols = 10 }

unfoldable pub ip2l_asn : Layout
ip2l_asn = record no_layout {
  cols = 5;
  decimal = true;
  asn = true;
  none_key = codes "-";
  dash = true;
  as_num = 3;
  as_org = 4;
}

unfoldable pub layout_of : ℕ → Layout
layout_of f =
    if f == dbip_city_format
    then dbip_city
    else if f == dbip_country_format
    then dbip_country
    else if f == dbip_asn_format
    then dbip_asn
    else if f == ip2location_format
    then ip2l_db11
    else ip2l_asn

unfoldable pub find_layout : List Layout → ℕ → Option Layout
find_layout [] cols = none
find_layout (l ∷ ls) cols = if l.cols == cols then some l else find_layout ls cols

-- `ip2lLayout`.
unfoldable pub ip2l_layout : ℕ → Option Layout
ip2l_layout cols = find_layout (ip2l_db1 ∷ ip2l_db3 ∷ ip2l_db5 ∷ ip2l_db9 ∷ ip2l_db11 ∷ []) cols

-- ErrDatabaseType and ErrOptions.
pub data LayoutError : Type 0 where
  database_type unfilled_fields : LayoutError

-- `x & y` on 8-bit field sets, from bit `b` on.
unfoldable pub common_from : ℕ → ℕ → ℕ → ℕ
common_from zero x y = 0
common_from (suc left) x y = (x % 2) * (y % 2) + 2 * common_from left (x / 2) (y / 2)

abbrev pub common_fields : ℕ → ℕ → ℕ
common_fields x y = common_from 32 x y

-- The field sets after the check; those of an ASN build are left alone but for the last test.
unfoldable pub check_layout : Layout → ℕ → ℕ → Bool → Result LayoutError ℕ
check_layout l profile fields all =
    let fill : Result LayoutError ℕ =
      if all
      then ok (common_fields fields l.fields)
      else if common_fields fields l.fields == fields
      then ok fields
      else err unfilled_fields in
    if profile == 3 && not l.asn
    then err database_type
    else if profile == 3
    then fill
    else if l.asn
    then err database_type
    else if ltb l.max_profile profile
    then err database_type
    else fill
