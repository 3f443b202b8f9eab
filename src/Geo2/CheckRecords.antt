-- ===== src/Geo2/CheckRecords.antt =====
-- geo2.go: `checkRecords`, the record half of rule 5 and rules 6 and 13 of the reader requirements.
pub mod Ids
use ip2geo.Base.{
  ℕ, zero, suc, ◌+◌, ◌-◌, ◌*◌, ◌^◌, Bool, true, false, not, Option, none, some, List, [], ◌∷◌, ◌++◌,
  take, drop, ltb, leb, ◌==◌, Result, ok, ◌>>=◌, ◌>>◌, refuse_if, or_panic, if◌then◌else◌,
}
use ip2geo.Bytes.{le_at}
use ip2geo.Format.Header.{Header, all_zero}
use ip2geo.Format.RecordId.{id_width, read_id, uint24}
use ip2geo.Format.Layout.{
  profile_asn, record_width, rec_asn_org, rec_country_iso, rec_country_name, rec_continent,
  rec_region_iso, rec_region_name, rec_city_name, rec_time_zone,
}
use ip2geo.Geo2.Errors.{OpenError, corrupt}
use ip2geo.Geo2.CheckDirectory.{slice}
use ip2geo.Geo2.CheckLengths.{Counts}

-- `offs`, the u16 string fields of the profile.
unfoldable pub u16_offs : ℕ → List ℕ
u16_offs p =
    if p == profile_asn
    then []
    else (rec_country_iso ∷ rec_country_name ∷ rec_continent ∷ [])
      ++ (if leb 1 p then rec_region_iso ∷ rec_region_name ∷ [] else [])
      ++ (if p == 2 then rec_time_zone ∷ [] else [])

-- `u24`, the u24 string field of the profile; `none` is -1.
unfoldable pub u24_off : ℕ → Option ℕ
u24_off p =
    if p == profile_asn then some rec_asn_org else if p == 2 then some rec_city_name else none

-- The u16 ids of record `r`.
unfoldable pub check_u16_ids : List ℕ → List ℕ → ℕ → Result OpenError (Unit {0})
check_u16_ids r [] ns = ok tt
check_u16_ids r (o ∷ offs) ns = do
  id ← or_panic (le_at 2 r o)
  refuse_if (leb ns id) corrupt
  check_u16_ids r offs ns

-- Its u24 id.
unfoldable pub check_u24_id : List ℕ → Option ℕ → ℕ → Result OpenError (Unit {0})
check_u24_id r none ns = ok tt
check_u24_id r (some o) ns = or_panic (uint24 (drop o r)) >>= λ id. refuse_if (leb ns id) corrupt

-- `for i := 1; i < g.nRecords; i++`, from `i` on with `left` rounds to go; `w` is the record width.
unfoldable pub check_fields_from :
    List ℕ → ℕ → List ℕ → Option ℕ → ℕ → ℕ → ℕ → Result OpenError (Unit {0})
check_fields_from recs w offs u24 ns zero i = ok tt
check_fields_from recs w offs u24 ns (suc left) i = do
  r ← or_panic (slice recs (i * w) w)
  check_u16_ids r offs ns
  check_u24_id r u24 ns
  check_fields_from recs w offs u24 ns left (i + 1)

-- `for i := range t.n`, from `i` on with `left` rounds to go.
unfoldable pub check_ids_from : List ℕ → ℕ → ℕ → ℕ → ℕ → Result OpenError (Unit {0})
check_ids_from ids width nr zero i = ok tt
check_ids_from ids width nr (suc left) i = do
  id ← or_panic (read_id ids width i)
  refuse_if (leb nr id) corrupt
  check_ids_from ids width nr left (i + 1)

-- The sections RECORDS, V4IDS and V6IDS. With more than 65535 strings no u16 id is checked.
unfoldable pub check_records :
    Header → Counts → List ℕ → List ℕ → List ℕ → Result OpenError (Unit {0})
check_records h c recs v4ids v6ids = do
  refuse_if (c.n_records == 0) corrupt
  first ← or_panic (slice recs 0 (record_width h.profile))
  refuse_if (not (all_zero first)) corrupt
  check_fields_from recs (record_width h.profile)
      (if ltb (2 ^ 16 - 1) c.n_strings then [] else u16_offs h.profile) (u24_off h.profile)
      c.n_strings (c.n_records - 1) 1
  refuse_if (not (h.id_width == id_width c.n_records)) corrupt
  check_ids_from v4ids h.id_width c.n_records c.n_v4 0
  check_ids_from v6ids h.id_width c.n_records c.n_v6 0
