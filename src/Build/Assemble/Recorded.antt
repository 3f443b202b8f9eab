-- ===== src/Build/Assemble/Recorded.antt =====
-- The section table that the check of an assembled directory leaves, and the checksum check.
use ip2geo.Base.{
  ℕ, zero, suc, ◌+◌, ◌≤◌, ◌<◌, ◌≡◌, refl, sym, ap, subst, ◌∙◌, true, false, ltb, ◌==◌, none, some,
  List, [], ◌∷◌, length, get_elem?, set, get_elem?-set_same, get_elem?-set_other, take, drop, ok,
  arith,
}
use native.Mathlib.Decide.{dec_lt, ℕ_discrete}
use ip2geo.Format.Checksum.{checksum}
use ip2geo.Format.Directory.{DirEntry}
use ip2geo.Geo2.CheckDirectory.{Sections, has, sec, slice, section_bytes, check_required}
use ip2geo.Geo2.Parse.{check_sums}
use ip2geo.Build.Assemble.{Section}
use ip2geo.Build.Assemble.Placed.{Placed, Placed-le, Filled}
use ip2geo.Build.Assemble.Directory.{Lists, Ascends, lists, span_of, record_all, IsOpen, IsOpen-set}

-- Ids at most `prev` keep what is recorded for them.
record_all_below :
    (prev end last i : ℕ) (ss : List Section) (es : List DirEntry) (secs : Sections)
    → Placed end ss es last
    → Ascends prev ss
    → i ≤ prev
    → get_elem? (record_all secs es) i ≡ get_elem? secs i
unfolding record_all
record_all_below prev end last i ss [] secs p asc le = refl
record_all_below prev end last i [] (e ∷ es) secs p asc le = absurd p
record_all_below prev end last i (s ∷ ss) (e ∷ es) secs p asc le =
    record_all_below s.id (e.offset + e.len) last i ss es (set secs e.id (span_of e)) p.4 asc.2
      (omega arith)
    ∙ get_elem?-set_other secs e.id i (span_of e) (λ same. absurd (omega (arith, p.0, same)))

-- The table holds the span of every entry.
abbrev pub Holds : Sections → List DirEntry → Type 0
Holds secs [] = Unit
Holds secs (e ∷ es) = (get_elem? secs e.id ≡ some (span_of e)) × Holds secs es

pub record_all-Holds :
    (prev end last : ℕ) (ss : List Section) (es : List DirEntry) (secs : Sections)
    → Placed end ss es last
    → Ascends prev ss
    → IsOpen prev secs
    → Holds (record_all secs es) es
unfolding record_all
record_all-Holds prev end last ss [] secs p asc h = tt
record_all-Holds prev end last [] (e ∷ es) secs p asc h = absurd p
record_all-Holds prev end last (s ∷ ss) (e ∷ es) secs p asc h =
    let next = set secs e.id (span_of e) in
    let asc' = subst (λ i. Ascends i ss) (sym p.0) asc.2 in
    (
      record_all_below e.id (e.offset + e.len) last e.id ss es next p.4 asc' (omega arith)
          ∙ get_elem?-set_same secs e.id (span_of e) (omega (arith, p.0, h.0, asc.1)),
      record_all-Holds e.id (e.offset + e.len) last ss es next p.4 asc'
          (IsOpen-set prev secs e (omega (arith, p.0, asc.0)) h),
    )

lists_below : (prev i : ℕ) (ss : List Section) → Ascends prev ss → i ≤ prev → lists ss i ≡ false
unfolding lists
lists_below prev i [] asc le = refl
lists_below prev i (s ∷ ss) asc le =
    let t : (s.id == i) ≡ false = ground arith in rw t (lists_below s.id i ss asc.2 (omega arith))

-- Above `prev`, the table has the ids of the sections and no others.
pub record_all-has :
    (prev end last i : ℕ) (ss : List Section) (es : List DirEntry) (secs : Sections)
    → Placed end ss es last
    → Ascends prev ss
    → IsOpen prev secs
    → prev < i
    → i ≤ 14
    → has (record_all secs es) i ≡ lists ss i
unfolding record_all lists has
record_all-has prev end last i [] [] secs p asc h lt le = rw (h.1 i lt le)
record_all-has prev end last i (s ∷ ss) [] secs p asc h lt le = absurd p
record_all-has prev end last i [] (e ∷ es) secs p asc h lt le = absurd p
record_all-has prev end last i (s ∷ ss) (e ∷ es) secs p asc h lt le =
    let next = set secs e.id (span_of e) in
    let asc' = subst (λ j. Ascends j ss) (sym p.0) asc.2 in
    let below =
      λ (le' : i ≤ e.id). record_all_below e.id (e.offset + e.len) last i ss es next p.4 asc' le' in
    elim (ℕ_discrete i e.id) [
      | yes same ↦
          let t : (s.id == i) ≡ true = ground arith in
          let found : get_elem? (record_all next es) i ≡ some (span_of e) =
            below (omega arith)
            ∙ ap (get_elem? next) same
            ∙ get_elem?-set_same secs e.id (span_of e) (omega (arith, p.0, h.0, asc.1)) in
          rw (t, found) refl
      | no ne ↦
          let t : (s.id == i) ≡ false = ground arith in
          elim (dec_lt i e.id) [
            | yes under ↦
                let missing : get_elem? (record_all next es) i ≡ some none =
                  below (omega arith)
                  ∙ get_elem?-set_other secs e.id i (span_of e) (λ q. ne (sym q))
                  ∙ h.1 i lt le in
                rw (t, missing, lists_below s.id i ss asc.2 (omega arith)) refl
            | no over ↦ rw t (
                record_all-has e.id (e.offset + e.len) last i ss es next p.4 asc'
                  (IsOpen-set prev secs e (omega (arith, p.0, asc.0)) h) (omega (arith, ne)) le)
          ]
    ]

pub check_required-ok :
    (secs : Sections) (left id : ℕ)
    → ((i : ℕ) → id ≤ i → i < id + left → has secs i ≡ true)
    → check_required secs left id ≡ ok tt
unfolding check_required
check_required-ok secs zero id h = refl
check_required-ok secs (suc left) id h =
    rw (h id (omega arith) (omega arith))
      (check_required-ok secs left (id + 1) (λ i lo hi. h i (omega arith) (omega arith)))

-- The recorded checksums are those of the sections.
pub check_sums-ok :
    (b : List ℕ) (k end last : ℕ) (ss : List Section) (es : List DirEntry)
    → Placed end ss es last
    → last ≤ length b
    → Lists b k es
    → Filled b ss es
    → check_sums b (length es) k ≡ ok tt
unfolding check_sums slice
check_sums-ok b k end last ss [] p fits ls f = refl
check_sums-ok b k end last [] (e ∷ es) p fits ls f = absurd p
check_sums-ok b k end last (s ∷ ss) (e ∷ es) p fits ls f =
    let low = Placed-le (e.offset + e.len) last ss es p.4 in
    let inside : ltb (length b) (e.offset + e.len) ≡ false = ground arith in
    let sum : checksum (take e.len (drop e.offset b)) ≡ e.crc = ap checksum f.0 ∙ sym f.1 in
    rw (ls.0, inside, sum)
      (ground (arith, check_sums-ok b (k + 1) (e.offset + e.len) last ss es p.4 fits ls.1 f.2))

-- Every section can be sliced out of the file, and is the content it was given.
abbrev pub Reads : List ℕ → Sections → List Section → Type 0
Reads b secs [] = Unit
Reads b secs (s ∷ ss) = (section_bytes b secs s.id ≡ some s.content) × Reads b secs ss

pub Holds-Reads :
    (b : List ℕ) (secs : Sections) (end last : ℕ) (ss : List Section) (es : List DirEntry)
    → Placed end ss es last
    → last ≤ length b
    → Holds secs es
    → Filled b ss es
    → Reads b secs ss
unfolding section_bytes slice sec
Holds-Reads b secs end last [] es p fits h f = tt
Holds-Reads b secs end last (s ∷ ss) [] p fits h f = absurd p
Holds-Reads b secs end last (s ∷ ss) (e ∷ es) p fits h f =
    let low = Placed-le (e.offset + e.len) last ss es p.4 in
    let inside : ltb (length b) (e.offset + e.len) ≡ false = ground arith in
    (
      rw (sym p.0, h.0, inside) (ap some f.0),
      Holds-Reads b secs (e.offset + e.len) last ss es p.4 fits h.1 f.2,
    )
