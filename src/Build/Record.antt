-- ===== src/Build/Record.antt =====
-- internal/build/record.go: the source record, its key, and `key`, which interns the strings.
pub mod Key
use ip2geo.Base.{
  ℕ, zero, suc, ◌+◌, Bool, true, false, List, [], ◌∷◌, get_or, leb, ◌==◌, if◌then◌else◌,
}
use ip2geo.Format.Layout.{profile_asn}
use ip2geo.Build.Strings.{Str, Interner, id, id16}

pub record Continent : Type 0 where
  pub code : Str
  pub names : List Str
  pub geo_name_id : ℕ

pub record Country : Type 0 where
  pub iso_code : Str
  pub names : List Str
  pub geo_name_id : ℕ
  pub is_in_european_union : Bool

pub record Subdivision : Type 0 where
  pub iso_code : Str
  pub names : List Str
  pub geo_name_id : ℕ

pub record City : Type 0 where
  pub names : List Str
  pub geo_name_id : ℕ

-- `F` is float64.
pub record Location (F : Type 0) : Type 0 where
  pub latitude : F
  pub longitude : F
  pub accuracy_radius : ℕ
  pub time_zone : Str
  pub metro_code : ℕ
  pub has_coordinates : Bool
  pub has_accuracy_radius : Bool

pub record Traits : Type 0 where
  pub is_anycast : Bool
  pub is_anonymous_proxy : Bool
  pub is_satellite_provider : Bool

pub record Asn : Type 0 where
  pub number : ℕ
  pub organization : Str

-- The array of two subdivisions is two fields.
pub record Record (F : Type 0) : Type 0 where
  pub continent : Continent
  pub country : Country
  pub subdivision0 : Subdivision
  pub subdivision1 : Subdivision
  pub city : City
  pub location : Location F
  pub postal_code : Str
  pub registered_country : Country
  pub represented_country : Country
  pub represented_type : Str
  pub traits : Traits
  pub asn : Asn

unfoldable pub name : List Str → ℕ → Str
name names j = get_or names j []

-- `lat` and `lon` are int32, here the 32 bits of two's complement.
pub record RecKey : Type 0 where
  pub country_iso : ℕ
  pub country_name : ℕ
  pub continent : ℕ
  pub region_iso : ℕ
  pub region_name : ℕ
  pub city_name : ℕ
  pub tz : ℕ
  pub country_geo : ℕ
  pub city_geo : ℕ
  pub lat : ℕ
  pub lon : ℕ
  pub acc : ℕ
  pub ext : ℕ

abbrev pub zero_key : RecKey
zero_key = record {
  country_iso = 0;
  country_name = 0;
  continent = 0;
  region_iso = 0;
  region_name = 0;
  city_name = 0;
  tz = 0;
  country_geo = 0;
  city_geo = 0;
  lat = 0;
  lon = 0;
  acc = 0;
  ext = 0;
}

-- `rounded` is `int32(math.Round(x * scale))`.
module _ {F : Type 0} (rounded : F → ℕ) where
  unfoldable pub country_part : Record F → RecKey → Interner → RecKey × Interner
  country_part r k strs =
      let (iso, s1) = id16 strs r.country.iso_code in
      let (nm, s2) = id16 s1 (name r.country.names 0) in
      let (cont, s3) = id16 s2 r.continent.code in
      (
        record k {
          country_iso = iso;
          country_name = nm;
          continent = cont;
          country_geo = r.country.geo_name_id;
        },
        s3,
      )

  unfoldable pub region_part : Record F → RecKey → Interner → RecKey × Interner
  region_part r k strs =
      let (iso, s1) = id16 strs r.subdivision0.iso_code in
      let (nm, s2) = id16 s1 (name r.subdivision0.names 0) in
      (record k { region_iso = iso; region_name = nm }, s2)

  unfoldable pub city_part : Record F → RecKey → Interner → RecKey × Interner
  city_part r k strs =
      let (nm, s1) = id strs (name r.city.names 0) in
      let (zone, s2) = id16 s1 r.location.time_zone in
      (
        record k {
          city_name = nm;
          city_geo = r.city.geo_name_id;
          lat = rounded r.location.latitude;
          lon = rounded r.location.longitude;
          acc = r.location.accuracy_radius;
          tz = zone;
        },
        s2,
      )

  unfoldable pub asn_part : Record F → RecKey → Interner → RecKey × Interner
  asn_part r k strs =
      let (org, s1) = id strs r.asn.organization in
      (record k { country_geo = r.asn.number; city_name = org }, s1)

  -- `if c { … }`.
  abbrev pub part_if :
      Bool → (RecKey → Interner → RecKey × Interner) → RecKey × Interner → RecKey × Interner
  part_if true part p = part p.0 p.1
  part_if false part p = p

  unfoldable pub key : Record F → ℕ → Interner → RecKey × Interner
  key r p strs =
      if p == profile_asn
      then asn_part r zero_key strs
      else part_if (leb 2 p) (city_part r)
          (part_if (leb 1 p) (region_part r) (country_part r zero_key strs))
