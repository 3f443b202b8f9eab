-- ===== src/Geo2/CheckDirectory/Reads.antt =====
-- `checkDirectory` reads only entries that are in the input, and the sections it accepts can be sliced.
use ip2geo.Base.{
  ℕ, zero, suc, ◌+◌, ◌-◌, ◌*◌, ◌≤◌, ◌≡◌, ◌≢◌, refl, Bool-cases, false, Option, none, some, List,
  length, length-drop, length-take, get_elem?, take, drop, ltb, Result, ok, err, panic, ◌>>=◌, ◌>>◌,
  arith, inl, inr,
}
use mathlib.Core.Option
use ip2geo.Bytes.Laws.{le_at_total}
use ip2geo.Format.Header.{header_size}
use ip2geo.Format.Directory.{DirEntry, parse_dir_entry}
use ip2geo.Format.Layout.{dir_entry_size, sec_meta, sec_v6_exc_idx}
use ip2geo.Geo2.Errors.{OpenError}
use ip2geo.Geo2.CheckDirectory.{
  Span, Sections, sec, slice, section_bytes, no_sections, check_entry, record_section,
  check_entries, check_required, check_directory,
}
use ip2geo.Geo2.CheckDirectory.Accepts.{check_directory-IsLaidOut}

parse_dir_entry_total : (b : List ℕ) → 24 ≤ length b → (e : DirEntry) × (parse_dir_entry b ≡ some e)
unfolding parse_dir_entry Option.bind
parse_dir_entry_total b len =
    let (i, e0) = le_at_total 4 b 0 (omega arith) in
    let (c, e1) = le_at_total 4 b 4 (omega arith) in
    let (o, e2) = le_at_total 8 b 8 (omega arith) in
    let (n, e3) = le_at_total 8 b 16 (omega arith) in
    (record { id = i; crc = c; offset = o; len = n }, rw (e0, e1, e2, e3))

check_entry-ne-panic : (size end : ℕ) (e : DirEntry) → check_entry size end e ≢ panic
unfolding check_entry
check_entry-ne-panic size end e = ground arith

record_section-ne-panic : (secs : Sections) (e : DirEntry) → record_section secs e ≢ panic
unfolding record_section
record_section-ne-panic secs e = ground arith

check_entries-ne-panic :
    (b : List ℕ) (left k end : ℕ) (secs : Sections)
    → 32 + (k + left) * 24 ≤ length b
    → check_entries b left k end secs ≢ panic
unfolding check_entries
check_entries-ne-panic b zero k end secs le = ground arith
check_entries-ne-panic b (suc left) k end secs le =
    let (d, p) =
      parse_dir_entry_total (drop (header_size + k * dir_entry_size) b)
        (omega (arith, length-drop {0} (header_size + k * dir_entry_size) b)) in
    rw p (
      after (check_entry (length b) end d) (record_section secs d)
        (λ next. check_entries-ne-panic b left (k + 1) (d.offset + d.len) next (omega arith))
        (check_entry-ne-panic (length b) end d) (record_section-ne-panic secs d))
  where
    after :
        {A : Type 0} {rest : A → Result OpenError A} (x : Result OpenError (Unit {0}))
        (y : Result OpenError A)
        → ((next : A) → rest next ≢ panic)
        → x ≢ panic
        → y ≢ panic
        → (x >> (y >>= rest)) ≢ panic
    after (ok tt) (ok next) h nx ny = h next
    after (ok tt) (err e) h nx ny = ground arith
    after (ok tt) panic h nx ny = λ e. ny refl
    after (err e) y h nx ny = ground arith
    after panic y h nx ny = λ e. nx refl

check_required-ne-panic : (secs : Sections) (left id : ℕ) → check_required secs left id ≢ panic
unfolding check_required
check_required-ne-panic secs zero id = ground arith
check_required-ne-panic secs (suc left) id =
    ground (arith, check_required-ne-panic secs left (id + 1))

-- The check of a directory of any number of entries reads nothing past the input.
pub check_directory-ne-panic : (b : List ℕ) (n : ℕ) → check_directory b n ≢ panic
unfolding check_directory
check_directory-ne-panic b n =
    elim (Bool-cases (ltb (length b) (header_size + n * dir_entry_size))) [
      | inl t ↦ rw t (ground arith)
      | inr f ↦ rw f (
          after (check_entries b n 0 (header_size + n * dir_entry_size) no_sections) (
            check_entries-ne-panic b n 0 (header_size + n * dir_entry_size) no_sections
              (ground arith)))
    ]
  where
    after :
        (x : Result OpenError Sections)
        → x ≢ panic
        → (x >>= λ secs. check_required secs (sec_v6_exc_idx - sec_meta) sec_meta >> ok secs)
          ≢ panic
    after (ok secs) h = ground (arith, check_required-ne-panic secs 9 1)
    after (err e) h = ground arith
    after panic h = λ e. h refl

-- Every section of a directory that is accepted is sliced without a panic, with the length listed for
-- it; an absent one is empty.
pub check_directory-section_bytes :
    (b : List ℕ) (n : ℕ) (secs : Sections)
    → check_directory b n ≡ ok secs
    → (id : ℕ) → (s : List ℕ) × (section_bytes b secs id ≡ some s) × (length s ≡ (sec secs id).n)
unfolding section_bytes slice sec
check_directory-section_bytes b n secs e id =
    let fits : (sec secs id).off + (sec secs id).n ≤ length b = within (get_elem? secs id) refl in
    let t : ltb (length b) ((sec secs id).off + (sec secs id).n) ≡ false = ground arith in
    (
      take (sec secs id).n (drop (sec secs id).off b),
      rw t,
      omega (
        arith,
        length-take {0} (sec secs id).n (drop (sec secs id).off b),
        length-drop {0} (sec secs id).off b,
      ),
    )
  where
    within :
        (x : Option (Option Span))
        → get_elem? secs id ≡ x
        → (sec secs id).off + (sec secs id).n ≤ length b
    within none e' = rw e' (omega arith)
    within (some none) e' = rw e' (omega arith)
    within (some (some s)) e' =
        let (fits, laid, req) = check_directory-IsLaidOut b n secs e in
        let (x, y, z) = laid.placed id s e' in rw e' z
