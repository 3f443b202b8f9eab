-- ===== src/Reader/Lookup.antt =====
-- reader.go: the dispatch of `Lookup` to the two tables, and `decode`.
pub mod Forms
use ip2geo.Base.{
  ℕ, zero, suc, ◌+◌, ◌*◌, ◌/◌, ◌%◌, ◌^◌, Bool, true, false, Option, none, some, List, get_elem?,
  drop, leb, ◌==◌, if◌then◌else◌,
}
use mathlib.Core.Option
use ip2geo.Bytes.{le_at}
use ip2geo.Format.RecordId.{uint24}
use ip2geo.Format.Layout.{
  rec_country_iso, rec_country_name, rec_continent, rec_country_geo, rec_region_iso,
  rec_region_name, rec_city_name, rec_city_geo, rec_lat, rec_lon, rec_accuracy, rec_time_zone,
  rec_width_country, rec_width_region, rec_width_city,
}
use ip2geo.Geo2.CheckDirectory.{slice}
use ip2geo.Reader.Words128.{Addr}
use ip2geo.Reader.Aliases.{embedded_v4, is_4_in_6}
use ip2geo.Reader.Search4.{Tables4, search4}
use ip2geo.Reader.Search6.{Tables6, search6}

-- netip.Addr: the zero value, an IPv4 address or an IPv6 one.
pub data Ip : Type 0 where
  zero_ip : Ip
  v4 : ℕ → Ip
  v6 : Addr → Ip

-- The IPv6 branch: an alias goes to the IPv4 table.
unfoldable pub lookup_v6 : Tables4 → Tables6 → Addr → Option ℕ
lookup_v6 r4 r6 k = go (embedded_v4 k)
  where
    go : Option ℕ → Option ℕ
    go (some a) = search4 r4 a
    go none = search6 r6 k

-- The record id of an address, 0 for none.
unfoldable pub lookup_id : Tables4 → Tables6 → Ip → Option ℕ
lookup_id r4 r6 zero_ip = some 0
lookup_id r4 r6 (v4 a) = search4 r4 a
lookup_id r4 r6 (v6 k) = if is_4_in_6 k then search4 r4 (k.lo % 2 ^ 32) else lookup_v6 r4 r6 k

-- A Record; `F` is float64. A field that the profile does not store is `none`, Go's zero value.
pub record CountryPart : Type 0 where
  pub country_iso : List ℕ
  pub country_name : List ℕ
  pub continent : List ℕ
  pub country_geo_name_id : ℕ

pub record RegionPart : Type 0 where
  pub region_iso : List ℕ
  pub region_name : List ℕ

pub record CityPart (F : Type 0) : Type 0 where
  pub city : List ℕ
  pub city_geo_name_id : ℕ
  pub latitude : F
  pub longitude : F
  pub accuracy_radius : ℕ
  pub time_zone : List ℕ

pub record Decoded (F : Type 0) : Type 0 where
  pub country : CountryPart
  pub region : Option RegionPart
  pub city : Option (CityPart F)

-- `r.strings[le.Uint16(b[off:])]`.
abbrev pub string16 : List (List ℕ) → List ℕ → ℕ → Option (List ℕ)
string16 strings b off = Option.bind (le_at 2 b off) λ id. get_elem? strings id

-- `degrees` is `float64(int32(v)) / r.latDiv`.
module _ {F : Type 0} (degrees : ℕ → F) (strings : List (List ℕ)) where
  unfoldable pub decode_country : List ℕ → Option CountryPart
  unfolding Option.bind
  decode_country c = Option.bind (string16 strings c rec_country_iso) λ iso.
      Option.bind (string16 strings c rec_country_name) λ nm.
        Option.bind (string16 strings c rec_continent) λ cont.
          Option.map
            (λ geo. record {
              country_iso = iso;
              country_name = nm;
              continent = cont;
              country_geo_name_id = geo;
            })
            (le_at 4 c rec_country_geo)

  unfoldable pub decode_region : List ℕ → Option RegionPart
  unfolding Option.bind
  decode_region g = Option.bind (string16 strings g rec_region_iso) λ iso.
      Option.map (λ nm. record { region_iso = iso; region_name = nm })
        (string16 strings g rec_region_name)

  unfoldable pub decode_city : List ℕ → Option (CityPart F)
  unfolding Option.bind
  decode_city y = Option.bind (uint24 (drop rec_city_name y)) λ id.
      Option.bind (get_elem? strings id) λ nm. Option.bind (le_at 4 y rec_city_geo) λ geo.
        Option.bind (le_at 4 y rec_lat) λ lat. Option.bind (le_at 4 y rec_lon) λ lon.
          Option.bind (le_at 2 y rec_accuracy) λ acc.
            Option.map
              (λ tz. record {
                city = nm;
                city_geo_name_id = geo;
                latitude = degrees lat;
                longitude = degrees lon;
                accuracy_radius = acc;
                time_zone = tz;
              })
              (string16 strings y rec_time_zone)

  -- `if c { … }`.
  abbrev pub part : {A : Type 0} → Bool → Option A → Option (Option A)
  part true x = Option.map some x
  part false x = some none

  -- Record `id` of the section `records`, whose records are `rec_width` bytes.
  unfoldable pub decode : ℕ → ℕ → List ℕ → ℕ → Option (Decoded F)
  unfolding Option.bind
  decode profile rec_width records id =
      let off = id * rec_width in
      Option.bind (slice records off rec_width_country) λ c.
        Option.bind (decode_country c) λ country.
          Option.bind
            (part (leb 1 profile) (Option.bind (slice records off rec_width_region) decode_region))
            λ region.
              Option.map (λ city. record { country = country; region = region; city = city })
                (part (leb 2 profile) (Option.bind (slice records off rec_width_city) decode_city))
