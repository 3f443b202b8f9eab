-- ===== src/Build/Assemble/Directory.antt =====
-- What `checkDirectory` and the checksum check make of the directory that `assemble` writes.
use ip2geo.Base.{
  ℕ, ◌+◌, ◌*◌, ◌%◌, ◌≤◌, ◌<◌, ◌≡◌, refl, sym, ap, subst, ◌∙◌, Bool, false, ◌||◌, ◌==◌, Option, none,
  some, List, [], ◌∷◌, ◌++◌, length, get_elem?, set, length-set, get_elem?-set_other, drop,
  drop-append, All, ok, arith,
}
use mathlib.Core.List.{append_assoc}
use ip2geo.Bytes.{le_bytes}
use ip2geo.Format.Directory.{
  DirEntry, IsDirEntry, dir_entry_bytes, parse_dir_entry, parse_dir_entry-dir_entry_bytes,
}
use ip2geo.Geo2.CheckDirectory.{Span, Sections, has, check_entry, record_section, check_entries}
use ip2geo.Build.Assemble.{Section, dir_bytes}
use ip2geo.Build.Assemble.Write.{drop-drop}
use ip2geo.Build.Assemble.Placed.{Placed, Placed-le}

-- Entry `k` on of the directory of `b` are `es`.
abbrev pub Lists : List ℕ → ℕ → List DirEntry → Type 0
Lists b k [] = Unit
Lists b k (e ∷ es) = (parse_dir_entry (drop (32 + k * 24) b) ≡ some e) × Lists b (k + 1) es

pub length-dir_entry_bytes : (e : DirEntry) → length (dir_entry_bytes e) ≡ 24
unfolding dir_entry_bytes le_bytes
length-dir_entry_bytes e = refl

pub dir_bytes-Lists :
    (b rest : List ℕ) (k : ℕ) (es : List DirEntry)
    → All IsDirEntry es
    → drop (32 + k * 24) b ≡ dir_bytes es ++ rest
    → Lists b k es
unfolding dir_bytes
dir_bytes-Lists b rest k [] fit e = tt
dir_bytes-Lists b rest k (x ∷ es) fit e =
    let e' : drop (32 + k * 24) b ≡ dir_entry_bytes x ++ (dir_bytes es ++ rest) =
      e ∙ append_assoc (dir_entry_bytes x) (dir_bytes es) rest in
    (
      ap parse_dir_entry e' ∙ parse_dir_entry-dir_entry_bytes x (dir_bytes es ++ rest) fit.0,
      dir_bytes-Lists b rest (k + 1) es fit.1 (
          sym (drop-drop (32 + k * 24) 24 (32 + (k + 1) * 24) b (omega arith))
          ∙ ap (drop 24) e'
          ∙ drop-append (dir_entry_bytes x) (dir_bytes es ++ rest) 24
              (sym (length-dir_entry_bytes x))),
    )

-- The section ids ascend from above `prev`, and all are known.
abbrev pub Ascends : ℕ → List Section → Type 0
Ascends prev [] = Unit
Ascends prev (s ∷ ss) = (prev < s.id) × (s.id ≤ 14) × Ascends s.id ss

-- Whether a section with this id is among the sections.
unfoldable pub lists : List Section → ℕ → Bool
lists [] i = false
lists (s ∷ ss) i = s.id == i || lists ss i

abbrev pub span_of : DirEntry → Option Span
span_of e = some (record { off = e.offset; n = e.len })

-- The table after the entries are recorded.
unfoldable pub record_all : Sections → List DirEntry → Sections
record_all secs [] = secs
record_all secs (e ∷ es) = record_all (set secs e.id (span_of e)) es

-- Nothing is recorded above `prev`.
abbrev pub IsOpen : ℕ → Sections → Type 0
IsOpen prev secs = (length secs ≡ 15) × ((i : ℕ) → prev < i → i ≤ 14 → get_elem? secs i ≡ some none)

pub IsOpen-set :
    (prev : ℕ) (secs : Sections) (e : DirEntry)
    → prev < e.id
    → IsOpen prev secs
    → IsOpen e.id (set secs e.id (span_of e))
IsOpen-set prev secs e lt h = (
  length-set secs e.id (span_of e) ∙ h.0,
  λ i above le.
      get_elem?-set_other secs e.id i (span_of e) (λ same. absurd (omega (arith, same)))
      ∙ h.1 i (omega arith) le,
)

check_entry_placed :
    (size end : ℕ) (e : DirEntry)
    → end ≤ e.offset
    → e.offset % 8 ≡ 0
    → e.offset + e.len ≤ size
    → check_entry size end e ≡ ok tt
unfolding check_entry
check_entry_placed size end e low aligned fits = ground arith

record_section_new :
    (prev : ℕ) (secs : Sections) (e : DirEntry)
    → prev < e.id
    → e.id ≤ 14
    → IsOpen prev secs
    → record_section secs e ≡ ok (set secs e.id (span_of e))
unfolding record_section has
record_section_new prev secs e above le h = ground (arith, h.1 e.id above le)

-- Entries that lie one after another, with ascending known ids, are accepted and recorded.
pub check_entries-ok :
    (b : List ℕ) (k prev end last : ℕ) (ss : List Section) (es : List DirEntry) (secs : Sections)
    → Placed end ss es last
    → last ≤ length b
    → Ascends prev ss
    → Lists b k es
    → IsOpen prev secs
    → check_entries b (length es) k end secs ≡ ok (record_all secs es)
unfolding check_entries record_all
check_entries-ok b k prev end last ss [] secs p fits asc ls h = refl
check_entries-ok b k prev end last [] (e ∷ es) secs p fits asc ls h = absurd p
check_entries-ok b k prev end last (s ∷ ss) (e ∷ es) secs p fits asc ls h =
    let low = Placed-le (e.offset + e.len) last ss es p.4 in
    let above : prev < e.id = omega (arith, p.0, asc.0) in
    rw
      (
        ls.0,
        check_entry_placed (length b) end e p.2 p.3 (omega arith),
        record_section_new prev secs e above (omega (arith, p.0, asc.1)) h,
      )
      (check_entries-ok b (k + 1) e.id (e.offset + e.len) last ss es (set secs e.id (span_of e)) p.4
        fits (subst (λ i. Ascends i ss) (sym p.0) asc.2) ls.1 (IsOpen-set prev secs e above h))
