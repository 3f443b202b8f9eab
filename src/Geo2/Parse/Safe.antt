-- ===== src/Geo2/Parse/Safe.antt =====
-- A file that `parseGEO2` accepts is safe to look IPv4 addresses up in.
use ip2geo.Base.{
  ℕ, ◌≡◌, refl, sym, ap, ◌∙◌, Bool, some, err, panic, subst, ok_injective, take, drop, All-take,
  All-drop, List, [], All, Result, ok, >>=-ok, >>-ok, or_panic-ok, arith, if◌then◌else◌,
}
use ip2geo.Bytes.{IsByte}
use ip2geo.Format.Header.{Header, FormatError, parse_header}
use ip2geo.Format.Header.RoundTrip.{parse_header_canonical}
use ip2geo.Format.Layout.{sec_meta, sec_v4_idx, sec_v4_starts, sec_v4_ids}
use ip2geo.Build.Merge4.{Boundary4}
use ip2geo.Geo2.CheckDirectory.{Sections, sec, slice, section_bytes, check_directory}
use ip2geo.Geo2.CheckDirectory.Reads.{check_directory-section_bytes}
use ip2geo.Geo2.CheckLengths.{check_lengths, HasSizes, check_lengths-HasSizes}
use ip2geo.Geo2.CheckIpv4.{check_ipv4}
use ip2geo.Geo2.CheckIpv4.Safe.{IsSafe, check_ipv4-search4}
use ip2geo.Geo2.Parse.{
  Geo2, header_of, meta_of, check_sums, check_strings_of, check_records_of, check_ipv4_of,
  check_ipv6_of, check_extensions_of, parse_geo2, tables4_of,
}
use ip2geo.Reader.Search4.{Tables4}

-- What an accepted file went through, as far as the IPv4 tables are concerned.
record IsChecked (b : List ℕ) (g : Geo2) : Type 0 where
  header : header_of b ≡ ok g.hdr
  directory : check_directory b g.hdr.section_count ≡ ok g.secs
  lengths : check_lengths g.hdr g.secs ≡ ok g.counts
  ipv4 : check_ipv4_of b g.secs g.counts ≡ ok tt

parse_geo2-IsChecked :
    (b : List ℕ) (skip : Bool) (g : Geo2) → parse_geo2 b skip ≡ ok g → IsChecked b g
unfolding parse_geo2
parse_geo2-IsChecked b skip g e =
    let (h, p1, e1) = >>=-ok (header_of b) _ e in
    let (secs, p2, e2) = >>=-ok (check_directory b h.section_count) _ e1 in
    let (c, p3, e3) = >>=-ok (check_lengths h secs) _ e2 in
    let (_, e4) = >>-ok (if skip then ok tt else check_sums b h.section_count 0) _ e3 in
    let (ms, _, e5) = or_panic-ok (section_bytes b secs sec_meta) _ e4 in
    let (m, _, e6) = >>=-ok (meta_of ms) _ e5 in
    let (_, e7) = >>-ok (check_strings_of b secs c m) _ e6 in
    let (_, e8) = >>-ok (check_records_of b h secs c) _ e7 in
    let (p4, e9) = >>-ok (check_ipv4_of b secs c) _ e8 in
    let (_, e10) = >>-ok (check_ipv6_of b secs c) _ e9 in
    let (x, _, e11) = >>=-ok (check_extensions_of b h secs c m) _ e10 in
    subst (IsChecked b) (ok_injective e11)
      (record { header = p1; directory = p2; lengths = p3; ipv4 = p4 })

header_of-parse_header : (b : List ℕ) (h : Header) → header_of b ≡ ok h → parse_header b ≡ ok h
unfolding header_of
header_of-parse_header b h e = go (parse_header b) refl
  where
    go : (x : Result FormatError Header) → parse_header b ≡ x → parse_header b ≡ ok h
    go (ok h') p = p ∙ ground (arith, p, e)
    go (err z) p = absurd (ground (arith, p, e))
    go panic p = absurd (ground (arith, p, e))

section_bytes-IsByte :
    (b : List ℕ) (secs : Sections) (id : ℕ) (s : List ℕ)
    → All IsByte b
    → section_bytes b secs id ≡ some s
    → All IsByte s
unfolding section_bytes slice
section_bytes-IsByte b secs id s bytes e =
    let sp = sec secs id in
    let same : take sp.n (drop sp.off b) ≡ s = ground arith in
    subst (All IsByte) same (All-take IsByte sp.n (drop sp.off b) (All-drop IsByte sp.off b bytes))

some_injective : {a b : List ℕ} → some a ≡ some b → a ≡ b
some_injective e = ground arith

ipv4_checked :
    (b : List ℕ) (g : Geo2) (idx starts : List ℕ)
    → check_ipv4_of b g.secs g.counts ≡ ok tt
    → section_bytes b g.secs sec_v4_idx ≡ some idx
    → section_bytes b g.secs sec_v4_starts ≡ some starts
    → check_ipv4 idx starts g.counts.n_v4 ≡ ok tt
unfolding check_ipv4_of
ipv4_checked b g idx starts e p0 p1 =
    let (i, q0, e1) = or_panic-ok (section_bytes b g.secs sec_v4_idx) _ e in
    let (s, q1, e2) = or_panic-ok (section_bytes b g.secs sec_v4_starts) _ e1 in
    let same0 : i ≡ idx = some_injective (sym q0 ∙ p0) in
    let same1 : s ≡ starts = some_injective (sym q1 ∙ p1) in
    sym (ap (λ l. check_ipv4 l starts g.counts.n_v4) same0)
    ∙ sym (ap (λ l. check_ipv4 i l g.counts.n_v4) same1)
    ∙ e2

-- In a file of bytes that is accepted the IPv4 tables are bound and indexed without a panic, `search4`
-- answers every IPv4 address from the file's ascending boundaries, and `start4` returns their starts.
pub parse_geo2-search4 :
    (b : List ℕ) (skip : Bool) (g : Geo2)
    → All IsByte b
    → parse_geo2 b skip ≡ ok g
    → (r : Tables4) × (tables4_of b g ≡ ok r)
      × ((bs : List Boundary4) × (t : Tables4) × IsSafe r g.counts.n_v4 bs t)
unfolding tables4_of
parse_geo2-search4 b skip g bytes e =
    let c = parse_geo2-IsChecked b skip g e in
    let sizes : HasSizes g.hdr g.secs g.counts =
      check_lengths-HasSizes g.hdr g.secs g.counts c.lengths in
    let slices = check_directory-section_bytes b g.hdr.section_count g.secs c.directory in
    let (idx, p0, n0) = slices sec_v4_idx in
    let (starts, p1, n1) = slices sec_v4_starts in
    let (ids, p2, n2) = slices sec_v4_ids in
    let r : Tables4 = record {
      id_width = g.hdr.id_width;
      v4idx = idx;
      v4starts = starts;
      v4ids = ids;
      lo4 = [];
    } in
    let (valid, _) = parse_header_canonical b bytes (header_of-parse_header b g.hdr c.header) in
    (
      r,
      rw (p0, p1, p2),
      check_ipv4-search4 r g.counts.n_v4
          (section_bytes-IsByte b g.secs sec_v4_starts starts bytes p1) (n1 ∙ sizes.v4_starts)
          (n2 ∙ sizes.v4_ids) valid.width_pos valid.width_le
          (ipv4_checked b g idx starts c.ipv4 p0 p1),
    )
