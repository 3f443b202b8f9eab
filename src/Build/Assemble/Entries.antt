-- ===== src/Build/Assemble/Entries.antt =====
-- The directory entries of a file that `encode` of internal/build/encode.go lays out.
use ip2geo.Base.{
  ℕ, suc, ◌+◌, ◌*◌, ◌^◌, ◌≤◌, ◌<◌, ◌≡◌, refl, sym, ap, subst, List, [], ◌∷◌, length, length-append,
  All, arith,
}
use ip2geo.Bytes.{le_bytes}
use ip2geo.Format.Checksum.{checksum-lt}
use ip2geo.Format.Directory.{DirEntry, IsDirEntry, dir_entry_bytes}
use ip2geo.Format.Header.{Header, header_bytes}
use ip2geo.Build.Assemble.{Section, dir_bytes}
use ip2geo.Build.Assemble.Placed.{Placed, Placed-le, Filled}
use ip2geo.Build.Assemble.Directory.{length-dir_entry_bytes, Ascends}

pub length-header_bytes : (h : Header) → length (header_bytes h) ≡ 32
unfolding header_bytes le_bytes
length-header_bytes h = refl

pub length-dir_bytes :
    (end last : ℕ) (ss : List Section) (es : List DirEntry)
    → Placed end ss es last
    → (length (dir_bytes es) ≡ length ss * 24) × (length es ≡ length ss)
unfolding dir_bytes
length-dir_bytes end last [] [] p = (omega arith, refl)
length-dir_bytes end last [] (e ∷ es) p = absurd p
length-dir_bytes end last (s ∷ ss) [] p = absurd p
length-dir_bytes end last (s ∷ ss) (e ∷ es) p =
    let (bytes, n) = length-dir_bytes (e.offset + e.len) last ss es p.4 in
    (
      omega (
        arith,
        bytes,
        length-append {0} (dir_entry_bytes e) (dir_bytes es),
        length-dir_entry_bytes e,
      ),
      ap suc n,
    )

pub entries_fit :
    (prev end last : ℕ) (b : List ℕ) (ss : List Section) (es : List DirEntry)
    → Placed end ss es last
    → last < 2 ^ 64
    → Ascends prev ss
    → Filled b ss es
    → All IsDirEntry es
entries_fit prev end last b ss [] p lt asc f = tt
entries_fit prev end last b [] (e ∷ es) p lt asc f = absurd p
entries_fit prev end last b (s ∷ ss) (e ∷ es) p lt asc f =
    let low = Placed-le (e.offset + e.len) last ss es p.4 in
    (
      record {
        id_fits = omega (arith, p.0, asc.1);
        crc_fits = subst (λ c. c < 2 ^ 32) (sym f.1) (checksum-lt s.content);
        offset_fits = omega arith;
        length_fits = omega arith;
      },
      entries_fit s.id (e.offset + e.len) last b ss es p.4 lt asc.2 f.2,
    )

pub length-le : (prev : ℕ) (ss : List Section) → Ascends prev ss → prev ≤ 14 → prev + length ss ≤ 14
length-le prev [] asc le = omega arith
length-le prev (s ∷ ss) asc le = omega (arith, length-le s.id ss asc.2 asc.1)
