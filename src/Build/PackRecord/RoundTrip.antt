-- ===== src/Build/PackRecord/RoundTrip.antt =====
-- reader.go's `decode` on the records that the builder packed.
use ip2geo.Base.{
  ℕ, zero, suc, ◌*◌, ◌%◌, ◌^◌, ◌≤◌, ◌<◌, ◌≡◌, refl, sym, ap, ◌∙◌, none, some, List, [], length,
  get_elem?, get_or, get_elem?-eq-get_or, arith,
}
use mathlib.Core.Option
use mathlib.Core.List.{append-nil}
use ip2geo.Bytes.{le_at, le_bytes}
use ip2geo.Bytes.Words.{le_words, word_offset, le_at-le_words}
use ip2geo.Format.RecordId.{uint24}
use ip2geo.Format.Layout.{record_width}
use ip2geo.Build.Strings.{Str}
use ip2geo.Build.Record.{RecKey}
use ip2geo.Build.PackRecord.{append_records}
use ip2geo.Build.PackRecord.Packed.{country_words, record_words}
use ip2geo.Build.FinishBuild.Strings.{IsNamed}
use ip2geo.Reader.Lookup.{
  CountryPart, RegionPart, CityPart, Decoded, string16, decode_country, decode_region, decode_city,
  decode,
}
use ip2geo.Build.PackRecord.Places.{record_at, slice_at}

-- The fields fit their places.
pub record IsPackable (k : RecKey) : Type 0 where
  pub country_iso : k.country_iso < 2 ^ 16
  pub country_name : k.country_name < 2 ^ 16
  pub continent : k.continent < 2 ^ 16
  pub country_geo : k.country_geo < 2 ^ 32
  pub region_iso : k.region_iso < 2 ^ 16
  pub region_name : k.region_name < 2 ^ 16
  pub city_name : k.city_name < 2 ^ 24
  pub city_geo : k.city_geo < 2 ^ 32
  pub lat : k.lat < 2 ^ 32
  pub lon : k.lon < 2 ^ 32
  pub acc : k.acc < 2 ^ 16
  pub tz : k.tz < 2 ^ 16

read_word :
    (ws : List (ℕ × ℕ)) (i w v : ℕ)
    → get_elem? ws i ≡ some (w, v)
    → v < 256 ^ w
    → le_at w (le_words ws) (word_offset ws i) ≡ some v
read_word ws i w v e lt =
    ap (λ b. le_at w b (word_offset ws i)) (sym (append-nil (le_words ws)))
    ∙ le_at-le_words ws [] i w v e lt

read_word16 :
    (ws : List (ℕ × ℕ)) (i v : ℕ)
    → get_elem? ws i ≡ some (2, v % 2 ^ 16)
    → v < 2 ^ 16
    → le_at 2 (le_words ws) (word_offset ws i) ≡ some v
read_word16 ws i v e lt =
    let same : v % 2 ^ 16 ≡ v = omega arith in
    read_word ws i 2 (v % 2 ^ 16) e (omega arith) ∙ ap some same

module _ (strings : List Str) where
  read_string16 :
      (ws : List (ℕ × ℕ)) (i v : ℕ)
      → get_elem? ws i ≡ some (2, v % 2 ^ 16)
      → v < 2 ^ 16
      → v < length strings
      → string16 strings (le_words ws) (word_offset ws i) ≡ some (get_or strings v [])
  unfolding Option.bind
  read_string16 ws i v e lt known =
      rw (read_word16 ws i v e lt) (get_elem?-eq-get_or strings v [] known)

-- The record that the key of a geo profile stands for.
module _ {F : Type 0} (degrees : ℕ → F) (strings : List Str) where
  abbrev pub country_of : RecKey → CountryPart
  country_of k = record {
    country_iso = get_or strings k.country_iso [];
    country_name = get_or strings k.country_name [];
    continent = get_or strings k.continent [];
    country_geo_name_id = k.country_geo;
  }

  abbrev pub region_of : RecKey → RegionPart
  region_of k = record {
    region_iso = get_or strings k.region_iso [];
    region_name = get_or strings k.region_name [];
  }

  abbrev pub city_of : RecKey → CityPart F
  city_of k = record {
    city = get_or strings k.city_name [];
    city_geo_name_id = k.city_geo;
    latitude = degrees k.lat;
    longitude = degrees k.lon;
    accuracy_radius = k.acc;
    time_zone = get_or strings k.tz [];
  }

  unfoldable pub record_of_key : ℕ → RecKey → Decoded F
  record_of_key zero k = record { country = country_of k; region = none; city = none }
  record_of_key (suc zero) k = record {
    country = country_of k;
    region = some (region_of k);
    city = none;
  }
  record_of_key _ k = record {
    country = country_of k;
    region = some (region_of k);
    city = some (city_of k);
  }

  module _ (k : RecKey) (fit : IsPackable k) (named : IsNamed (length strings) k) where
    decode_country-words :
        decode_country degrees strings (le_words (country_words k)) ≡ some (country_of k)
    unfolding decode_country
    decode_country-words =
        let ws = country_words k in
        rw
          (
            read_string16 strings ws 0 k.country_iso refl fit.country_iso named.country_iso,
            read_string16 strings ws 1 k.country_name refl fit.country_name named.country_name,
            read_string16 strings ws 2 k.continent refl fit.continent named.continent,
            read_word ws 3 4 k.country_geo refl fit.country_geo,
          )
          refl

    decode_region-words :
        decode_region degrees strings (le_words (record_words 1 k)) ≡ some (region_of k)
    unfolding decode_region
    decode_region-words =
        let ws = record_words 1 k in
        rw
          (
            read_string16 strings ws 4 k.region_iso refl fit.region_iso named.region_iso,
            read_string16 strings ws 5 k.region_name refl fit.region_name named.region_name,
          )
          refl

    decode_city-words : decode_city degrees strings (le_words (record_words 2 k)) ≡ some (city_of k)
    unfolding decode_city uint24 le_at
    decode_city-words =
        let ws = record_words 2 k in
        rw
          (
            read_word ws 6 3 k.city_name refl fit.city_name,
            get_elem?-eq-get_or strings k.city_name [] named.city_name,
            read_word ws 7 4 k.city_geo refl fit.city_geo,
            read_word ws 8 4 k.lat refl fit.lat,
            read_word ws 9 4 k.lon refl fit.lon,
            read_word16 ws 10 k.acc refl fit.acc,
            read_string16 strings ws 11 k.tz refl fit.tz named.tz,
          )
          refl

  -- `decode` on the records of a geo profile that the builder packed returns, for each of them, the
  -- strings that its ids name and its numbers, coordinates by `degrees`; its fields fit their places
  -- and its ids are those of strings.
  pub decode-append_records :
      (p i : ℕ) (ks : List RecKey) (k : RecKey) (rec : List ℕ)
      → p ≤ 2
      → length rec ≡ 33
      → get_elem? ks i ≡ some k
      → IsPackable k
      → IsNamed (length strings) k
      → decode degrees strings p (record_width p) (append_records p ks rec) i
        ≡ some (record_of_key p k)
  unfolding decode record_width record_of_key le_bytes Option.bind
  decode-append_records zero i ks k rec le size e fit named =
      let (rest, at) = record_at 0 i ks k rec (omega arith) size e in
      let all = append_records 0 ks rec in
      rw
        (
          slice_at all (i * 10) 10 (le_words (record_words 0 k)) rest at (omega arith)
              (omega arith),
          decode_country-words k fit named,
        )
        refl
  decode-append_records (suc zero) i ks k rec le size e fit named =
      let (rest, at) = record_at 1 i ks k rec (omega arith) size e in
      let all = append_records 1 ks rec in
      let ws = le_words (record_words 1 k) in
      rw
        (
          slice_at all (i * 14) 10 ws rest at (omega arith) (omega arith),
          slice_at all (i * 14) 14 ws rest at (omega arith) (omega arith),
          decode_country-words k fit named,
          decode_region-words k fit named,
        )
        refl
  decode-append_records (suc (suc zero)) i ks k rec le size e fit named =
      let (rest, at) = record_at 2 i ks k rec (omega arith) size e in
      let all = append_records 2 ks rec in
      let ws = le_words (record_words 2 k) in
      rw
        (
          slice_at all (i * 33) 10 ws rest at (omega arith) (omega arith),
          slice_at all (i * 33) 14 ws rest at (omega arith) (omega arith),
          slice_at all (i * 33) 33 ws rest at (omega arith) (omega arith),
          decode_country-words k fit named,
          decode_region-words k fit named,
          decode_city-words k fit named,
        )
        refl
  decode-append_records (suc (suc (suc p))) i ks k rec le size e fit named = absurd (omega arith)
