-- ===== src/Geo2/CheckRecords/Ids.antt =====
-- The ids that `checkRecords` accepts are those of records, and their width is the smallest.
use ip2geo.Base.{
  ℕ, zero, suc, ◌+◌, ◌-◌, ◌≤◌, ◌<◌, ◌≡◌, sym, ap, ◌∙◌, not, some, List, ltb, leb, ◌==◌, ◌^◌, [], ok,
  >>-ok, or_panic-ok, refuse_if-ok, arith, if◌then◌else◌,
}
use native.Mathlib.Decide.{ℕ_discrete}
use ip2geo.Format.Header.{Header, all_zero}
use ip2geo.Format.RecordId.{id_width, read_id}
use ip2geo.Format.Layout.{record_width}
use ip2geo.Geo2.Errors.{corrupt}
use ip2geo.Geo2.CheckDirectory.{slice}
use ip2geo.Geo2.CheckLengths.{Counts}
use ip2geo.Geo2.CheckRecords.{u16_offs, u24_off, check_fields_from, check_ids_from, check_records}

-- Each of the `n` ids is below `nr`.
abbrev pub IdsBelow : List ℕ → ℕ → ℕ → ℕ → Type 0
IdsBelow ids width nr n = (i : ℕ) → i < n → (id : ℕ) × (read_id ids width i ≡ some id) × (id < nr)

check_ids_from-lt :
    (ids : List ℕ) (width nr left i : ℕ)
    → check_ids_from ids width nr left i ≡ ok tt
    → (j : ℕ) → i ≤ j
    → j < i + left
    → (id : ℕ) × (read_id ids width j ≡ some id) × (id < nr)
unfolding check_ids_from
check_ids_from-lt ids width nr zero i e j lo hi = absurd (omega arith)
check_ids_from-lt ids width nr (suc left) i e j lo hi =
    let (id, p, e1) = or_panic-ok (read_id ids width i) _ e in
    let (a, e2) = refuse_if-ok (leb nr id) corrupt _ e1 in
    elim (ℕ_discrete i j) [
      | yes same ↦ (id, ap (read_id ids width) (sym same) ∙ p, ground arith)
      | no ne ↦ check_ids_from-lt ids width nr left (i + 1) e2 j (omega arith) (omega arith)
    ]

-- In records that are accepted, every id of both families is that of a record, there is a record 0, and
-- the header's id width is the one of the record count.
pub check_records-IdsBelow :
    (h : Header) (c : Counts) (recs v4ids v6ids : List ℕ)
    → check_records h c recs v4ids v6ids ≡ ok tt
    → (0 < c.n_records)
      × (h.id_width ≡ id_width c.n_records)
      × IdsBelow v4ids h.id_width c.n_records c.n_v4
      × IdsBelow v6ids h.id_width c.n_records c.n_v6
unfolding check_records
check_records-IdsBelow h c recs v4ids v6ids e =
    let (a, e1) = refuse_if-ok (c.n_records == 0) corrupt _ e in
    let (first, p, e2) = or_panic-ok (slice recs 0 (record_width h.profile)) _ e1 in
    let (b, e3) = refuse_if-ok (not (all_zero first)) corrupt _ e2 in
    let (f, e4) =
      >>-ok
        (check_fields_from recs (record_width h.profile)
          (if ltb (2 ^ 16 - 1) c.n_strings then [] else u16_offs h.profile) (u24_off h.profile)
          c.n_strings (c.n_records - 1) 1)
        _ e3 in
    let (d, e5) = refuse_if-ok (not (h.id_width == id_width c.n_records)) corrupt _ e4 in
    let (v4, v6) = >>-ok (check_ids_from v4ids h.id_width c.n_records c.n_v4 0) _ e5 in
    (
      ground arith,
      ground arith,
      λ i lt.
          check_ids_from-lt v4ids h.id_width c.n_records c.n_v4 0 v4 i (omega arith) (omega arith),
      λ i lt.
          check_ids_from-lt v6ids h.id_width c.n_records c.n_v6 0 v6 i (omega arith) (omega arith),
    )
