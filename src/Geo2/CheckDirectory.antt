-- ===== src/Geo2/CheckDirectory.antt =====
-- geo2.go: `span`, the section table of `geo2`, and `checkDirectory`, rule 2 of the reader
-- requirements.
pub mod Accepts
pub mod Reads
use ip2geo.Base.{
  ℕ, zero, suc, ◌+◌, ◌-◌, ◌*◌, ◌%◌, Bool, true, false, ◌||◌, not, Option, none, some, List, [], ◌∷◌,
  length, get_elem?, set, take, drop, replicate, ltb, leb, ◌==◌, Result, ok, err, panic, ◌>>=◌,
  ◌>>◌, refuse_if, or_panic, if◌then◌else◌,
}
use ip2geo.Format.Header.{header_size}
use ip2geo.Format.Directory.{DirEntry, parse_dir_entry}
use ip2geo.Format.Layout.{dir_entry_size, sec_meta, sec_v6_exc_idx, sec_langs}
use ip2geo.Geo2.Errors.{OpenError, corrupt}

pub record Span : Type 0 where
  pub off : ℕ
  pub n : ℕ

-- `sec` and `has` of `geo2` in one: entry `id` is the span of the section, `none` while the
-- directory has not listed it.
abbrev pub Sections : Type 0
Sections = List (Option Span)

abbrev pub num_sections : ℕ
num_sections = sec_langs + 1

abbrev pub no_sections : Sections
no_sections = replicate num_sections none

unfoldable pub has : Sections → ℕ → Bool
has secs id = go (get_elem? secs id)
  where
    go : Option (Option Span) → Bool
    go (some (some s)) = true
    go _ = false

-- An absent section is empty, at offset 0.
unfoldable pub sec : Sections → ℕ → Span
sec secs id = go (get_elem? secs id)
  where
    go : Option (Option Span) → Span
    go (some (some s)) = s
    go _ = record { off = 0; n = 0 }

-- `b[off : off+n]`.
unfoldable pub slice : List ℕ → ℕ → ℕ → Option (List ℕ)
slice b off n = if ltb (length b) (off + n) then none else some (take n (drop off b))

-- `geo2.bytes`.
unfoldable pub section_bytes : List ℕ → Sections → ℕ → Option (List ℕ)
section_bytes b secs id = slice b (sec secs id).off (sec secs id).n

-- The cases of the switch: the two on `e.Offset < end` differ in their messages only.
unfoldable pub check_entry : ℕ → ℕ → DirEntry → Result OpenError (Unit {0})
check_entry size end e = do
  refuse_if (not (e.offset % 8 == 0)) corrupt
  refuse_if (ltb e.offset end) corrupt
  refuse_if (ltb size e.len || ltb (size - e.len) e.offset) corrupt

-- A known section listed for the first time is recorded, an unknown one passed over.
unfoldable pub record_section : Sections → DirEntry → Result OpenError Sections
record_section secs e =
    if e.id == 0 || leb num_sections e.id
    then ok secs
    else if has secs e.id
    then err corrupt
    else ok (set secs e.id (some (record { off = e.offset; n = e.len })))

-- `for k := range int(n)`, from entry `k` on with `left` entries to go.
unfoldable pub check_entries : List ℕ → ℕ → ℕ → ℕ → Sections → Result OpenError Sections
check_entries b zero k end secs = ok secs
check_entries b (suc left) k end secs = do
  e ← or_panic (parse_dir_entry (drop (header_size + k * dir_entry_size) b))
  check_entry (length b) end e
  secs' ← record_section secs e
  check_entries b left (k + 1) (e.offset + e.len) secs'

-- `for id := format.SecMeta; id < format.SecV6ExcIdx; id++`.
unfoldable pub check_required : Sections → ℕ → ℕ → Result OpenError (Unit {0})
check_required secs zero id = ok tt
check_required secs (suc left) id =
    refuse_if (not (has secs id)) corrupt >> check_required secs left (id + 1)

-- `n` is the section count of the header.
unfoldable pub check_directory : List ℕ → ℕ → Result OpenError Sections
check_directory b n = do
  refuse_if (ltb (length b) (header_size + n * dir_entry_size)) corrupt
  secs ← check_entries b n 0 (header_size + n * dir_entry_size) no_sections
  check_required secs (sec_v6_exc_idx - sec_meta) sec_meta
  ok secs
