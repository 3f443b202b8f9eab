-- ===== src/Geo2/CheckDirectory/Accepts.antt =====
-- The sections of a directory that `checkDirectory` accepts lie apart, in the file, after the directory.
use ip2geo.Base.{
  ℕ, zero, suc, ◌+◌, ◌-◌, ◌*◌, ◌%◌, ◌≤◌, ◌<◌, ◌≡◌, ◌≢◌, ◌⊎◌, inl, inr, refl, sym, subst, ap, ◌∙◌,
  true, not, Option, none, some, List, length, get_elem?, length-set, get_elem?-set_same,
  get_elem?-set_other, set, drop, replicate, ltb, ◌==◌, ok, >>=-ok, >>-ok, or_panic-ok,
  refuse_if-ok, arith,
}
use native.Mathlib.Decide.{ℕ_discrete}
use ip2geo.Format.Header.{header_size}
use ip2geo.Format.Directory.{DirEntry, parse_dir_entry}
use ip2geo.Format.Layout.{dir_entry_size, sec_meta, sec_v6_exc_idx}
use ip2geo.Geo2.Errors.{corrupt}
use ip2geo.Geo2.CheckDirectory.{
  Span, Sections, num_sections, no_sections, has, check_entry, record_section, check_entries,
  check_required, check_directory,
}

-- The recorded sections start on multiples of 8, at `front` or above, end at `end` or below, and no
-- two of them overlap.
pub record IsLaidOut (front end : ℕ) (secs : Sections) : Type 0 where
  pub size : length secs ≡ num_sections
  pub placed :
      (i : ℕ) (s : Span)
      → get_elem? secs i ≡ some (some s)
      → (front ≤ s.off) × (s.off % 8 ≡ 0) × (s.off + s.n ≤ end)
  pub apart :
      (i j : ℕ) (s t : Span)
      → i ≢ j
      → get_elem? secs i ≡ some (some s)
      → get_elem? secs j ≡ some (some t)
      → (s.off + s.n ≤ t.off) ⊎ (t.off + t.n ≤ s.off)

IsLaidOut-grow :
    (front end end' : ℕ) (secs : Sections)
    → end ≤ end'
    → IsLaidOut front end secs
    → IsLaidOut front end' secs
IsLaidOut-grow front end end' secs le h = record {
  size = h.size;
  placed = λ i s e. let (a, b, c) = h.placed i s e in (a, b, omega arith);
  apart = h.apart;
}

module _ (front end : ℕ) (secs : Sections) (h : IsLaidOut front end secs) (id : ℕ)
    (new : Span) where
  module _ (low : front ≤ end) (above : end ≤ new.off) (known : id < num_sections) where
    found :
        (i : ℕ) (s : Span)
        → get_elem? (set secs id (some new)) i ≡ some (some s)
        → ((i ≡ id) × (s ≡ new)) ⊎ (get_elem? secs i ≡ some (some s))
    found i s e = elim (ℕ_discrete id i) [
      | yes same ↦
          let e1 : get_elem? (set secs id (some new)) i ≡ some (some new) =
            ap (get_elem? (set secs id (some new))) (sym same)
            ∙ get_elem?-set_same secs id (some new) (omega (arith, h.size)) in
          inl (sym same, ground (arith, sym e1 ∙ e))
      | no ne ↦ inr (sym (get_elem?-set_other secs id i (some new) ne) ∙ e)
    ]

    IsLaidOut-set : new.off % 8 ≡ 0 → IsLaidOut front (new.off + new.n) (set secs id (some new))
    IsLaidOut-set aligned = record {
      size = length-set secs id (some new) ∙ h.size;
      placed = λ i s e. elim (found i s e) [
        | inl (a, b) ↦ rw b (omega arith, aligned, omega arith)
        | inr e' ↦ let (a, b, c) = h.placed i s e' in (a, b, omega arith)
      ];
      apart = λ i j s t ne e e'. elim (found i s e) [
        | inl (a, b) ↦ elim (found j t e') [
          | inl (c, d) ↦ absurd (ne (a ∙ sym c))
          | inr r ↦ inr (let (x, y, z) = h.placed j t r in rw b (omega arith))
        ]
        | inr l ↦ elim (found j t e') [
          | inl (c, d) ↦ inl (let (x, y, z) = h.placed i s l in rw d (omega arith))
          | inr r ↦ h.apart i j s t ne l r
        ]
      ];
    }

check_entry-ok :
    (size end : ℕ) (e : DirEntry)
    → check_entry size end e ≡ ok tt
    → (e.offset % 8 ≡ 0) × (end ≤ e.offset) × (e.offset + e.len ≤ size)
unfolding check_entry
check_entry-ok size end e h =
    let (a, h1) = refuse_if-ok (not (e.offset % 8 == 0)) corrupt _ h in
    let (b, h2) = refuse_if-ok (ltb e.offset end) corrupt _ h1 in
    (ground arith, ground arith, ground arith)

record_section_cases :
    (secs secs' : Sections) (e : DirEntry)
    → record_section secs e ≡ ok secs'
    → (secs ≡ secs')
      ⊎ ((e.id < num_sections)
          × (set secs e.id (some (record { off = e.offset; n = e.len })) ≡ secs'))
unfolding record_section
record_section_cases secs secs' e r = ground arith

record_section-IsLaidOut :
    (front end : ℕ) (secs secs' : Sections) (e : DirEntry)
    → IsLaidOut front end secs
    → front ≤ end
    → end ≤ e.offset
    → e.offset % 8 ≡ 0
    → record_section secs e ≡ ok secs'
    → IsLaidOut front (e.offset + e.len) secs'
record_section-IsLaidOut front end secs secs' e h low above aligned r =
    elim (record_section_cases secs secs' e r) [
      | inl same ↦
          subst (IsLaidOut front (e.offset + e.len)) same
            (IsLaidOut-grow front end (e.offset + e.len) secs (omega arith) h)
      | inr (known, same) ↦ subst (IsLaidOut front (e.offset + e.len)) same (
          IsLaidOut-set front end secs h e.id (record { off = e.offset; n = e.len }) low above known
            aligned)
    ]

check_entries-IsLaidOut :
    (b : List ℕ) (left k front end : ℕ) (secs secs' : Sections)
    → IsLaidOut front end secs
    → front ≤ end
    → end ≤ length b
    → check_entries b left k end secs ≡ ok secs'
    → IsLaidOut front (length b) secs'
unfolding check_entries
check_entries-IsLaidOut b zero k front end secs secs' h low le e =
    let same : secs ≡ secs' = ground arith in
    subst (IsLaidOut front (length b)) same (IsLaidOut-grow front end (length b) secs le h)
check_entries-IsLaidOut b (suc left) k front end secs secs' h low le e =
    let (d, p, e1) =
      or_panic-ok (parse_dir_entry (drop (header_size + k * dir_entry_size) b)) _ e in
    let (checked, e2) = >>-ok (check_entry (length b) end d) _ e1 in
    let (next, q, e3) = >>=-ok (record_section secs d) _ e2 in
    let (aligned, above, within) = check_entry-ok (length b) end d checked in
    check_entries-IsLaidOut b left (k + 1) front (d.offset + d.len) next secs'
      (record_section-IsLaidOut front end secs next d h low above aligned q) (omega arith) within e3

check_required-has :
    (secs : Sections) (left id i : ℕ)
    → check_required secs left id ≡ ok tt
    → id ≤ i
    → i < id + left
    → has secs i ≡ true
unfolding check_required
check_required-has secs zero id i e lo hi = absurd (omega arith)
check_required-has secs (suc left) id i e lo hi =
    let (a, rest) = refuse_if-ok (not (has secs id)) corrupt _ e in
    elim (ℕ_discrete id i) [
      | yes same ↦ ap (has secs) (sym same) ∙ ground arith
      | no ne ↦ check_required-has secs left (id + 1) i rest (omega arith) (omega arith)
    ]

no_sections-IsLaidOut : (front : ℕ) → IsLaidOut front front no_sections
no_sections-IsLaidOut front = record {
  size = refl;
  placed = λ i s e. absurd (none_listed num_sections i s e);
  apart = λ i j s t ne e e'. absurd (none_listed num_sections i s e);
}
  where
    none_listed :
        (n i : ℕ) (s : Span) → get_elem? (replicate {A = Option Span} n none) i ≡ some (some s) → ⊥
    none_listed zero i s e = ground arith
    none_listed (suc n) zero s e = ground arith
    none_listed (suc n) (suc i) s e = none_listed n i s e

-- A directory that is accepted lies in the input, and so do its known sections, which start after
-- it on multiples of 8 and do not overlap; META to V6IDS are among them.
pub check_directory-IsLaidOut :
    (b : List ℕ) (n : ℕ) (secs : Sections)
    → check_directory b n ≡ ok secs
    → (32 + n * 24 ≤ length b)
      × IsLaidOut (32 + n * 24) (length b) secs
      × ((id : ℕ) → 1 ≤ id → id ≤ 9 → has secs id ≡ true)
unfolding check_directory
check_directory-IsLaidOut b n secs e =
    let front = header_size + n * dir_entry_size in
    let (a, e1) = refuse_if-ok (ltb (length b) front) corrupt _ e in
    let (secs', q, e2) = >>=-ok (check_entries b n 0 front no_sections) _ e1 in
    let (req, e3) = >>-ok (check_required secs' (sec_v6_exc_idx - sec_meta) sec_meta) _ e2 in
    let same : secs' ≡ secs = ground arith in
    let fits : front ≤ length b = ground arith in
    let laid =
      check_entries-IsLaidOut b n 0 front front no_sections secs' (no_sections-IsLaidOut front)
        (omega arith) fits q in
    (
      fits,
      subst (IsLaidOut front (length b)) same laid,
      λ id lo hi.
          ap (λ t. has t id) (sym same) ∙ check_required-has secs' 9 1 id req lo (omega arith),
    )
