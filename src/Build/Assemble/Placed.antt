-- ===== src/Build/Assemble/Placed.antt =====
-- Where `lay_out` places the sections, and that `fill_sections` leaves each in its place.
use ip2geo.Base.{
  ℕ, ◌+◌, ◌%◌, ◌^◌, ◌≤◌, ◌<◌, ◌≡◌, refl, sym, ap, ◌∙◌, false, ltb, List, [], ◌∷◌, length, take,
  drop, All, ok, arith,
}
use ip2geo.Format.Checksum.{checksum}
use ip2geo.Format.Directory.{DirEntry}
use ip2geo.Geo2.CheckDirectory.{slice}
use ip2geo.Build.Assemble.{Section, align8, lay_out, write, fill_sections}
use ip2geo.Build.Assemble.Write.{length-write, write_written, write_before, window_of_take}

-- The entries `es` are those of the sections `ss`, one after another from `end` to `last`, each on
-- a multiple of 8.
abbrev pub Placed : ℕ → List Section → List DirEntry → ℕ → Type 0
Placed end [] [] last = end ≡ last
Placed end (s ∷ ss) (e ∷ es) last =
    (e.id ≡ s.id)
    × (e.len ≡ s.len)
    × (end ≤ e.offset)
    × (e.offset % 8 ≡ 0)
    × Placed (e.offset + e.len) ss es last
Placed end [] (e ∷ es) last = ⊥
Placed end (s ∷ ss) [] last = ⊥

-- The sections' sizes, each with the padding before it.
unfoldable pub room : List Section → ℕ
room [] = 0
room (s ∷ ss) = 7 + s.len + room ss

pub Placed-le :
    (end last : ℕ) (ss : List Section) (es : List DirEntry) → Placed end ss es last → end ≤ last
Placed-le end last [] [] p = omega arith
Placed-le end last (s ∷ ss) (e ∷ es) p = omega (arith, Placed-le (e.offset + e.len) last ss es p.4)
Placed-le end last [] (e ∷ es) p = absurd p
Placed-le end last (s ∷ ss) [] p = absurd p

align8_bounds : (n : ℕ) → n + 7 < 2 ^ 64 → (n ≤ align8 n) × (align8 n ≤ n + 7) × (align8 n % 8 ≡ 0)
unfolding align8
align8_bounds n lt = (omega arith, omega arith, omega arith)

pub lay_out-Placed :
    (end : ℕ) (ss : List Section)
    → end + room ss < 2 ^ 64
    → Placed end ss (lay_out end ss).0 (lay_out end ss).1 × ((lay_out end ss).1 ≤ end + room ss)
unfolding lay_out room
lay_out-Placed end [] lt = (refl, omega arith)
lay_out-Placed end (s ∷ ss) lt =
    let (above, near, aligned) = align8_bounds end (omega arith) in
    let e : (align8 end + s.len) % 2 ^ 64 ≡ align8 end + s.len = omega arith in
    let (placed, fits) = lay_out-Placed (align8 end + s.len) ss (omega arith) in
    rw e ((refl, refl, above, aligned, placed), omega arith)

-- Each section's content stands at its entry, which holds its checksum.
abbrev pub Filled : List ℕ → List Section → List DirEntry → Type 0
Filled b (s ∷ ss) (e ∷ es) =
    (take e.len (drop e.offset b) ≡ s.content) × (e.crc ≡ checksum s.content) × Filled b ss es
Filled b [] es = Unit
Filled b (s ∷ ss) [] = Unit

-- The length that is computed for a section is that of its content.
abbrev pub IsSized : Section → Type 0
IsSized s = s.len ≡ length s.content

pub Filled-same :
    (end last : ℕ) (ss : List Section) (es : List DirEntry) (a b : List ℕ)
    → Placed end ss es last
    → ((off n : ℕ) → end ≤ off → take n (drop off a) ≡ take n (drop off b))
    → Filled a ss es
    → Filled b ss es
Filled-same end last [] es a b p same f = tt
Filled-same end last (s ∷ ss) [] a b p same f = tt
Filled-same end last (s ∷ ss) (e ∷ es) a b p same f = (
  sym (same e.offset e.len p.2) ∙ f.0,
  f.1,
  Filled-same (e.offset + e.len) last ss es a b p.4 (λ off n le. same off n (omega arith)) f.2,
)

-- What `fill_sections` makes of the entries `es` and the buffer.
pub record IsWritten (end last : ℕ) (ss : List Section) (es : List DirEntry) (buf : List ℕ)
    : Type 0 where
  pub entries : List DirEntry
  pub buf' : List ℕ
  pub run : fill_sections ss es buf ≡ ok (entries, buf')
  pub placed : Placed end ss entries last
  pub size : length buf' ≡ last
  pub front : take end buf' ≡ take end buf
  pub filled : Filled buf' ss entries

pub fill_sections-IsWritten :
    (end last : ℕ) (ss : List Section) (es : List DirEntry) (buf : List ℕ)
    → Placed end ss es last
    → All IsSized ss
    → length buf ≡ last
    → IsWritten end last ss es buf
unfolding fill_sections slice
fill_sections-IsWritten end last [] [] buf p sized size = record {
  entries = [];
  buf' = buf;
  run = refl;
  placed = p;
  size = size;
  front = refl;
  filled = tt;
}
fill_sections-IsWritten end last [] (e ∷ es) buf p sized size = absurd p
fill_sections-IsWritten end last (s ∷ ss) [] buf p sized size = absurd p
fill_sections-IsWritten end last (s ∷ ss) (e ∷ es) buf p sized size =
    let next = write e.offset s.content buf in
    let len : e.len ≡ length s.content = omega (arith, sized.0) in
    let fits : e.offset + e.len ≤ length buf =
      omega (arith, Placed-le (e.offset + e.len) last ss es p.4) in
    let after =
      fill_sections-IsWritten (e.offset + e.len) last ss es next p.4 sized.1
        (length-write e.offset s.content buf ∙ size) in
    let there : take e.len (drop e.offset next) ≡ s.content =
      ap (λ n. take n (drop e.offset next)) len
      ∙ write_written e.offset s.content buf (omega arith) in
    let inside : ltb (length next) (e.offset + e.len) ≡ false =
      ground (arith, length-write e.offset s.content buf) in
    record {
      entries = record e { crc = checksum s.content } ∷ after.entries;
      buf' = after.buf';
      run = rw (sym len, inside, there, after.run) (ground arith);
      placed = (p.0, p.1, p.2, p.3, after.placed);
      size = after.size;
      front =
          window_of_take (e.offset + e.len) 0 end after.buf' next (omega arith) after.front
          ∙ write_before e.offset s.content buf end p.2;
      filled = (
        window_of_take (e.offset + e.len) e.offset e.len after.buf' next (omega arith) after.front
            ∙ there,
        refl,
        after.filled,
      );
    }
