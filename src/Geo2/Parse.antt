-- ===== src/Geo2/Parse.antt =====
-- geo2.go: `parseGEO2`, which runs every check of the reader requirements, and the IPv4 part of
-- `geo2.reader`.
pub mod Safe
use ip2geo.Base.{
  ℕ, zero, suc, ◌+◌, ◌*◌, Bool, true, false, not, Option, none, some, List, [], length, get_elem?,
  drop, ltb, ◌==◌, Result, ok, err, panic, ◌>>=◌, ◌>>◌, refuse_if, or_panic, if◌then◌else◌,
}
use ip2geo.Format.Header.{Header, FormatError, magic_err, version_err, header_size, parse_header}
use ip2geo.Format.Directory.{DirEntry, parse_dir_entry}
use ip2geo.Format.Checksum.{checksum}
use ip2geo.Format.Meta.{Meta, parse_meta}
use ip2geo.Format.XLayout.{XLayout}
use ip2geo.Format.Layout.{
  dir_entry_size, sec_meta, sec_str_idx, sec_str_blob, sec_records, sec_v4_idx, sec_v4_starts,
  sec_v4_ids, sec_v6_starts, sec_v6_ids, sec_v6_exc_idx, sec_v6_exc_lo, sec_x_fields, sec_x_records,
  sec_langs,
}
use ip2geo.Geo2.Errors.{OpenError, bad_magic, unsupported_version, corrupt}
use ip2geo.Geo2.CheckDirectory.{Sections, has, slice, section_bytes, check_directory}
use ip2geo.Geo2.CheckLengths.{Counts, check_lengths, size_of}
use ip2geo.Geo2.CheckStrings.{check_strings}
use ip2geo.Geo2.CheckRecords.{check_records}
use ip2geo.Geo2.CheckIpv4.{check_ipv4}
use ip2geo.Geo2.CheckIpv6.{check_ipv6}
use ip2geo.Geo2.CheckExtensions.{Extensions, check_extensions}
use ip2geo.Reader.Search4.{Tables4}

pub record Geo2 : Type 0 where
  pub hdr : Header
  pub secs : Sections
  pub meta : Meta
  pub counts : Counts
  pub fields : ℕ
  pub xl : XLayout

-- `headerError`, without the texts: every case but the magic and the version is corrupt.
unfoldable pub header_error : List ℕ → FormatError → OpenError
header_error b magic_err = bad_magic
header_error b version_err = if ltb (length b) header_size then corrupt else unsupported_version
header_error b e = corrupt

-- The call of ParseHeader, and what becomes of its error.
unfoldable pub header_of : List ℕ → Result OpenError Header
header_of b = go (parse_header b)
  where
    go : Result FormatError Header → Result OpenError Header
    go (ok h) = ok h
    go (err e) = err (header_error b e)
    go panic = panic

unfoldable pub meta_of : List ℕ → Result OpenError Meta
meta_of s = go (parse_meta s)
  where
    go : Result FormatError Meta → Result OpenError Meta
    go (ok m) = ok m
    go (err e) = err corrupt
    go panic = panic

-- `for k := range int(h.SectionCount)`, from entry `k` on with `left` to go.
unfoldable pub check_sums : List ℕ → ℕ → ℕ → Result OpenError (Unit {0})
check_sums b zero k = ok tt
check_sums b (suc left) k = do
  e ← or_panic (parse_dir_entry (drop (header_size + k * dir_entry_size) b))
  s ← or_panic (slice b e.offset e.len)
  refuse_if (not (checksum s == e.crc)) corrupt
  check_sums b left (k + 1)

-- The bytes of a section of `b`.
abbrev pub bytes : List ℕ → Sections → ℕ → Result OpenError (List ℕ)
bytes b secs id = or_panic (section_bytes b secs id)

-- The bytes of a section that may be absent.
unfoldable pub bytes_if : List ℕ → Sections → ℕ → Result OpenError (Option (List ℕ))
bytes_if b secs id = if has secs id then (bytes b secs id >>= λ s. ok (some s)) else ok none

unfoldable pub extensions_of : List ℕ → Sections → Result OpenError Extensions
extensions_of b secs = do
  xf ← bytes_if b secs sec_x_fields
  xr ← bytes_if b secs sec_x_records
  ls ← bytes_if b secs sec_langs
  ok (record { x_fields = xf; x_records = xr; langs = ls })

-- The content checks, in the order of the source; each reads its sections first.
unfoldable pub check_strings_of : List ℕ → Sections → Counts → Meta → Result OpenError (Unit {0})
check_strings_of b secs c m = do
  idx ← bytes b secs sec_str_idx
  check_strings idx (size_of secs sec_str_blob) c.n_strings m

unfoldable pub check_records_of : List ℕ → Header → Sections → Counts → Result OpenError (Unit {0})
check_records_of b h secs c = do
  recs ← bytes b secs sec_records
  v4ids ← bytes b secs sec_v4_ids
  v6ids ← bytes b secs sec_v6_ids
  check_records h c recs v4ids v6ids

unfoldable pub check_ipv4_of : List ℕ → Sections → Counts → Result OpenError (Unit {0})
check_ipv4_of b secs c = do
  idx ← bytes b secs sec_v4_idx
  starts ← bytes b secs sec_v4_starts
  check_ipv4 idx starts c.n_v4

unfoldable pub check_ipv6_of : List ℕ → Sections → Counts → Result OpenError (Unit {0})
check_ipv6_of b secs c = do
  exc_idx ← bytes b secs sec_v6_exc_idx
  exc_lo ← bytes b secs sec_v6_exc_lo
  hi ← bytes b secs sec_v6_starts
  check_ipv6 hi exc_idx exc_lo c.n_v6 c.n_exc

unfoldable pub check_extensions_of :
    List ℕ → Header → Sections → Counts → Meta → Result OpenError (ℕ × XLayout)
check_extensions_of b h secs c m = do
  idx ← bytes b secs sec_str_idx
  blob ← bytes b secs sec_str_blob
  x ← extensions_of b secs
  check_extensions h.profile c.n_strings c.n_records m.language idx blob x

unfoldable pub parse_geo2 : List ℕ → Bool → Result OpenError Geo2
parse_geo2 b skip_crc = do
  h ← header_of b
  secs ← check_directory b h.section_count
  c ← check_lengths h secs
  (if skip_crc then ok tt else check_sums b h.section_count 0)
  ms ← bytes b secs sec_meta
  m ← meta_of ms
  check_strings_of b secs c m
  check_records_of b h secs c
  check_ipv4_of b secs c
  check_ipv6_of b secs c
  x ← check_extensions_of b h secs c m
  ok (record { hdr = h; secs = secs; meta = m; counts = c; fields = x.0; xl = x.1 })

-- The IPv4 tables that `reader` binds, before their index is built.
unfoldable pub tables4_of : List ℕ → Geo2 → Result OpenError Tables4
tables4_of b g = do
  idx ← bytes b g.secs sec_v4_idx
  starts ← bytes b g.secs sec_v4_starts
  ids ← bytes b g.secs sec_v4_ids
  ok (record { id_width = g.hdr.id_width; v4idx = idx; v4starts = starts; v4ids = ids; lo4 = [] })
