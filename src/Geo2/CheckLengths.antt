-- ===== src/Geo2/CheckLengths.antt =====
-- geo2.go: `checkLengths`, the lengths and counts of rule 3 of the reader requirements.
use ip2geo.Base.{
  ℕ, ◌+◌, ◌-◌, ◌*◌, ◌/◌, ◌%◌, ◌≡◌, sym, ◌∙◌, subst, not, ltb, ◌==◌, ◌||◌, false, Result, ok, panic,
  ◌>>◌, >>-ok, refuse_if-ok, refuse_if, arith, if◌then◌else◌,
}
use native.Mathlib.Nat.{mod-add-div'}
use ip2geo.Format.Header.{Header}
use ip2geo.Format.Meta.{meta_size}
use ip2geo.Format.Layout.{
  record_width, sec_meta, sec_str_idx, sec_records, sec_v4_idx, sec_v4_starts, sec_v4_ids,
  sec_v6_starts, sec_v6_ids, sec_v6_exc_idx, sec_v6_exc_lo,
}
use ip2geo.Build.Encode4.{v4_idx_entries}
use ip2geo.Geo2.Errors.{OpenError, corrupt}
use ip2geo.Geo2.CheckDirectory.{Sections, sec}

-- The counts of `geo2`.
pub record Counts : Type 0 where
  pub n_strings : ℕ
  pub n_records : ℕ
  pub n_v4 : ℕ
  pub n_v6 : ℕ
  pub n_exc : ℕ

-- The length of section `id`.
abbrev pub size_of : Sections → ℕ → ℕ
size_of secs id = (sec secs id).n

-- A remainder by 0 panics.
unfoldable pub check_sizes : Header → Sections → Result OpenError (Unit {0})
check_sizes h secs = do
  refuse_if (not (size_of secs sec_meta == meta_size)) corrupt
  refuse_if (ltb (size_of secs sec_str_idx) 4 || not (size_of secs sec_str_idx % 4 == 0)) corrupt
  (if record_width h.profile == 0 then panic else ok tt)
  refuse_if (not (size_of secs sec_records % record_width h.profile == 0)) corrupt
  refuse_if (not (size_of secs sec_v4_idx == v4_idx_entries * 4)) corrupt
  refuse_if (not (size_of secs sec_v4_starts % 2 == 0)) corrupt
  refuse_if (not (size_of secs sec_v4_ids == size_of secs sec_v4_starts / 2 * h.id_width)) corrupt
  refuse_if (not (size_of secs sec_v6_starts % 8 == 0)) corrupt
  refuse_if (not (size_of secs sec_v6_ids == size_of secs sec_v6_starts / 8 * h.id_width)) corrupt
  refuse_if (not (size_of secs sec_v6_exc_idx % 4 == 0)) corrupt
  refuse_if (not (size_of secs sec_v6_exc_lo == size_of secs sec_v6_exc_idx / 4 * 8)) corrupt

unfoldable pub counts_of : Header → Sections → Counts
counts_of h secs = record {
  n_strings = size_of secs sec_str_idx / 4 - 1;
  n_records = size_of secs sec_records / record_width h.profile;
  n_v4 = size_of secs sec_v4_starts / 2;
  n_v6 = size_of secs sec_v6_starts / 8;
  n_exc = size_of secs sec_v6_exc_idx / 4;
}

unfoldable pub check_lengths : Header → Sections → Result OpenError Counts
check_lengths h secs = check_sizes h secs >> ok (counts_of h secs)

-- The lengths of the sections in terms of the counts.
pub record HasSizes (h : Header) (secs : Sections) (c : Counts) : Type 0 where
  pub meta : size_of secs sec_meta ≡ 64
  pub str_idx : size_of secs sec_str_idx ≡ c.n_strings * 4 + 4
  pub records : size_of secs sec_records ≡ c.n_records * record_width h.profile
  pub v4_idx : size_of secs sec_v4_idx ≡ 65537 * 4
  pub v4_starts : size_of secs sec_v4_starts ≡ c.n_v4 * 2
  pub v4_ids : size_of secs sec_v4_ids ≡ c.n_v4 * h.id_width
  pub v6_starts : size_of secs sec_v6_starts ≡ c.n_v6 * 8
  pub v6_ids : size_of secs sec_v6_ids ≡ c.n_v6 * h.id_width
  pub exc_idx : size_of secs sec_v6_exc_idx ≡ c.n_exc * 4
  pub exc_lo : size_of secs sec_v6_exc_lo ≡ c.n_exc * 8

-- Section lengths that are accepted are whole tables of the counts that come back, one record id for
-- each start and one low half for each exception.
pub check_lengths-HasSizes :
    (h : Header) (secs : Sections) (c : Counts) → check_lengths h secs ≡ ok c → HasSizes h secs c
unfolding check_lengths check_sizes counts_of
check_lengths-HasSizes h secs c e =
    let (e0, ec) = >>-ok (check_sizes h secs) (ok (counts_of h secs)) e in
    let (a1, e1) = refuse_if-ok (not (size_of secs sec_meta == meta_size)) corrupt _ e0 in
    let (a2, e2) =
      refuse_if-ok (ltb (size_of secs sec_str_idx) 4 || not (size_of secs sec_str_idx % 4 == 0))
        corrupt _ e1 in
    let (_, e3) = >>-ok (if record_width h.profile == 0 then panic else ok tt) _ e2 in
    let (a3, e4) =
      refuse_if-ok (not (size_of secs sec_records % record_width h.profile == 0)) corrupt _ e3 in
    let (a4, e5) =
      refuse_if-ok (not (size_of secs sec_v4_idx == v4_idx_entries * 4)) corrupt _ e4 in
    let (a5, e6) = refuse_if-ok (not (size_of secs sec_v4_starts % 2 == 0)) corrupt _ e5 in
    let (a6, e7) =
      refuse_if-ok (not (size_of secs sec_v4_ids == size_of secs sec_v4_starts / 2 * h.id_width))
        corrupt _ e6 in
    let (a7, e8) = refuse_if-ok (not (size_of secs sec_v6_starts % 8 == 0)) corrupt _ e7 in
    let (a8, e9) =
      refuse_if-ok (not (size_of secs sec_v6_ids == size_of secs sec_v6_starts / 8 * h.id_width))
        corrupt _ e8 in
    let (a9, e10) = refuse_if-ok (not (size_of secs sec_v6_exc_idx % 4 == 0)) corrupt _ e9 in
    let a10 : not (size_of secs sec_v6_exc_lo == size_of secs sec_v6_exc_idx / 4 * 8) ≡ false =
      ground arith in
    let same : counts_of h secs ≡ c = ground arith in
    let z : size_of secs sec_records % record_width h.profile ≡ 0 = ground arith in
    let whole : size_of secs sec_records
        ≡ size_of secs sec_records / record_width h.profile * record_width h.profile =
      sym (mod-add-div' (size_of secs sec_records) (record_width h.profile)) ∙ omega (arith, z) in
    subst (HasSizes h secs) same (record {
      meta = ground arith;
      str_idx = ground arith;
      records = whole;
      v4_idx = ground arith;
      v4_starts = ground arith;
      v4_ids = ground arith;
      v6_starts = ground arith;
      v6_ids = ground arith;
      exc_idx = ground arith;
      exc_lo = ground arith;
    })
