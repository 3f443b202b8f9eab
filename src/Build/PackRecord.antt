-- ===== src/Build/PackRecord.antt =====
-- internal/build/encode.go: `packRecord` and `appendRecords`.
pub mod Places
pub mod Packed
pub mod RoundTrip
use ip2geo.Base.{
  ℕ, suc, ◌+◌, ◌%◌, ◌^◌, Bool, List, [], ◌∷◌, ◌++◌, length, take, drop, leb, ◌==◌, if◌then◌else◌,
}
use ip2geo.Bytes.{le_bytes}
use ip2geo.Format.RecordId.{put_uint24}
use ip2geo.Format.Layout.{
  profile_asn, record_width, rec_asn_number, rec_asn_org, rec_country_iso, rec_country_name,
  rec_continent, rec_country_geo, rec_region_iso, rec_region_name, rec_city_name, rec_city_geo,
  rec_lat, rec_lon, rec_accuracy, rec_time_zone,
}
use ip2geo.Build.Record.{RecKey}

-- The bytes stored over `rec` from `off` on.
unfoldable pub put : ℕ → List ℕ → List ℕ → List ℕ
put off bytes rec = take off rec ++ (bytes ++ drop (off + length bytes) rec)

-- `le.PutUint16(rec[off:], uint16(v))` and `le.PutUint32(rec[off:], v)`.
abbrev pub put16 : ℕ → ℕ → List ℕ → List ℕ
put16 off v rec = put off (le_bytes 2 (v % 2 ^ 16)) rec

abbrev pub put32 : ℕ → ℕ → List ℕ → List ℕ
put32 off v rec = put off (le_bytes 4 v) rec

unfoldable pub pack_country : RecKey → List ℕ → List ℕ
pack_country k rec = put32 rec_country_geo k.country_geo (
    put16 rec_continent k.continent
      (put16 rec_country_name k.country_name (put16 rec_country_iso k.country_iso rec)))

unfoldable pub pack_region : RecKey → List ℕ → List ℕ
pack_region k rec = put16 rec_region_name k.region_name (put16 rec_region_iso k.region_iso rec)

unfoldable pub pack_city : RecKey → List ℕ → List ℕ
pack_city k rec = put16 rec_time_zone k.tz (
    put16 rec_accuracy k.acc (
      put32 rec_lon k.lon (
        put32 rec_lat k.lat
          (put32 rec_city_geo k.city_geo (put rec_city_name (put_uint24 k.city_name) rec)))))

unfoldable pub pack_record : ℕ → RecKey → List ℕ → List ℕ
pack_record p k rec =
    if p == profile_asn
    then put rec_asn_org (put_uint24 k.city_name) (put32 rec_asn_number k.country_geo rec)
    else let country = pack_country k rec in
      let region = if leb 1 p then pack_region k country else country in
      if leb 2 p then pack_city k region else region

-- The loops over the blocks and their records are one; the array `rec` is not cleared in between.
unfoldable pub append_records : ℕ → List RecKey → List ℕ → List ℕ
append_records p [] rec = []
append_records p (k ∷ ks) rec =
    let packed = pack_record p k rec in take (record_width p) packed ++ append_records p ks packed
