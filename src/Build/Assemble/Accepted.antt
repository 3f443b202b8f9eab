-- ===== src/Build/Assemble/Accepted.antt =====
-- The second half of `encode` (internal/build/encode.go) against the header, directory and checksum
-- checks of geo2.go.
use ip2geo.Base.{
  ℕ, zero, suc, ◌+◌, ◌*◌, ◌%◌, ◌^◌, ◌≤◌, ◌<◌, ◌≡◌, refl, sym, ap, ◌∙◌, true, false, ltb, ◌==◌,
  Option, none, some, List, ◌++◌, length, get_elem?, length-replicate, take, drop, replicate, All,
  ok, arith,
}
use ip2geo.Format.Directory.{DirEntry}
use ip2geo.Format.Header.{Header, IsHeader, header_bytes, parse_header}
use ip2geo.Format.Header.RoundTrip.{parse_header-header_bytes}
use ip2geo.Geo2.CheckDirectory.{Span, Sections, no_sections, has, check_entries, check_directory}
use ip2geo.Geo2.Parse.{check_sums}
use ip2geo.Build.Assemble.{Section, lay_out, write, fill_sections, dir_bytes, assemble}
use ip2geo.Build.Assemble.Write.{
  length-write, write_written, write_before, write_after, window_of_take, take-drop,
}
use ip2geo.Build.Assemble.Placed.{
  Placed, Placed-le, room, lay_out-Placed, Filled, Filled-same, IsSized, fill_sections-IsWritten,
}
use ip2geo.Build.Assemble.Directory.{
  Lists, dir_bytes-Lists, Ascends, lists, record_all, IsOpen, check_entries-ok,
}
use ip2geo.Build.Assemble.Recorded.{
  record_all-Holds, record_all-has, check_required-ok, check_sums-ok, Reads, Holds-Reads,
}
use ip2geo.Build.Assemble.Entries.{length-header_bytes, length-dir_bytes, entries_fit, length-le}

-- What `encode` lays out: the sections in the order of their ids, META to V6IDS among them, each
-- with its length computed right.
pub record IsLayable (ss : List Section) : Type 0 where
  pub ascending : Ascends 0 ss
  pub required : (i : ℕ) → 1 ≤ i → i ≤ 9 → lists ss i ≡ true
  pub sized : All IsSized ss

no_sections-IsOpen : IsOpen 0 no_sections
no_sections-IsOpen = (refl, λ i lo hi. none_at 15 i (omega arith))
  where
    none_at : (n i : ℕ) → i < n → get_elem? (replicate {A = Option Span} n none) i ≡ some none
    none_at zero i lt = absurd (omega arith)
    none_at (suc n) zero lt = refl
    none_at (suc n) (suc i) lt = none_at n i (omega arith)

-- What the reader makes of a file with this header and these sections.
pub record IsFile (hdr : Header) (ss : List Section) (file : List ℕ) : Type 0 where
  pub header : parse_header file ≡ ok (record hdr { section_count = length ss })
  pub table : Sections
  pub directory : check_directory file (length ss) ≡ ok table
  pub sums : check_sums file (length ss) 0 ≡ ok tt
  pub listed : (i : ℕ) → 1 ≤ i → i ≤ 14 → has table i ≡ lists ss i
  pub reads : Reads file table ss

module _ (hdr : Header) (ss : List Section) (es : List DirEntry) (last : ℕ) (buf : List ℕ) where
  abbrev dir_end : ℕ
  dir_end = 32 + length ss * 24

  abbrev file : List ℕ
  file = write 32 (dir_bytes es) buf

  module _ (valid : IsHeader hdr) (layable : IsLayable ss) (small : last < 2 ^ 64)
      (placed : Placed dir_end ss es last) (size : length buf ≡ last)
      (front : take 32 buf ≡ header_bytes (record hdr { section_count = length ss }))
      (filled : Filled buf ss es) where
    dir_len : length (dir_bytes es) ≡ length ss * 24
    dir_len = (length-dir_bytes dir_end last ss es placed).0

    fits : dir_end ≤ length buf
    fits = omega (arith, Placed-le dir_end last ss es placed, size)

    file_size : last ≤ length file
    file_size = omega (arith, length-write 32 (dir_bytes es) buf, size)

    file_contents : Filled file ss es
    file_contents =
        Filled-same dir_end last ss es buf file placed
          (λ off n le.
            ap (take n) (sym (write_after 32 (dir_bytes es) buf off (omega (arith, dir_len)))))
          filled

    file_listed : Lists file 0 es
    file_listed =
        dir_bytes-Lists file (drop (length (dir_bytes es)) (drop 32 file)) 0 es
          (entries_fit 0 dir_end last buf ss es placed small layable.ascending filled)
          (sym (take-drop (length (dir_bytes es)) (drop 32 file))
            ∙ ap (λ l. l ++ drop (length (dir_bytes es)) (drop 32 file))
                (write_written 32 (dir_bytes es) buf (omega (arith, dir_len, fits))))

    file_header : parse_header file ≡ ok (record hdr { section_count = length ss })
    file_header =
        let n : length ss ≤ 14 = omega (arith, length-le 0 ss layable.ascending (omega arith)) in
        let split : file ≡ header_bytes (record hdr { section_count = length ss }) ++ drop 32 file =
          sym (take-drop 32 file)
          ∙ ap (λ l. l ++ drop 32 file)
              (write_before 32 (dir_bytes es) buf 32 (omega arith) ∙ front) in
        ap parse_header split
        ∙ parse_header-header_bytes (record hdr { section_count = length ss }) (drop 32 file)
            (record {
              profile_known = valid.profile_known;
              scale_fits = valid.scale_fits;
              width_pos = valid.width_pos;
              width_le = valid.width_le;
              count_fits = omega arith;
            })

    table_at : (i : ℕ) → 1 ≤ i → i ≤ 14 → has (record_all no_sections es) i ≡ lists ss i
    table_at i lo hi =
        record_all-has 0 dir_end last i ss es no_sections placed layable.ascending
          no_sections-IsOpen (omega arith) hi

    file_directory : check_directory file (length ss) ≡ ok (record_all no_sections es)
    unfolding check_directory
    file_directory =
        let inside : ltb (length file) dir_end ≡ false =
          ground (arith, file_size, Placed-le dir_end last ss es placed) in
        let count = (length-dir_bytes dir_end last ss es placed).1 in
        let run : check_entries file (length ss) 0 dir_end no_sections
            ≡ ok (record_all no_sections es) =
          ap (λ n. check_entries file n 0 dir_end no_sections) (sym count)
          ∙ check_entries-ok file 0 0 dir_end last ss es no_sections placed file_size
              layable.ascending file_listed no_sections-IsOpen in
        let required =
          check_required-ok (record_all no_sections es) 9 1
            (λ i lo hi. table_at i lo (omega arith) ∙ layable.required i lo (omega arith)) in
        rw (inside, run, required) refl

    file-IsFile : IsFile hdr ss file
    file-IsFile = record {
      header = file_header;
      table = record_all no_sections es;
      directory = file_directory;
      sums =
          ap (λ n. check_sums file n 0) (sym (length-dir_bytes dir_end last ss es placed).1)
          ∙ check_sums-ok file 0 dir_end last ss es placed file_size file_listed file_contents;
      listed = table_at;
      reads =
          Holds-Reads file (record_all no_sections es) dir_end last ss es placed file_size
            (record_all-Holds 0 dir_end last ss es no_sections placed layable.ascending
              no_sections-IsOpen)
            file_contents;
    }

assemble_run :
    (max_int : ℕ) (hdr : Header) (ss : List Section) (es : List DirEntry) (buf : List ℕ)
    → ltb max_int (lay_out (32 + length ss * 24) ss).1 ≡ false
    → length ss % 2 ^ 32 ≡ length ss
    → fill_sections ss (lay_out (32 + length ss * 24) ss).0 (
        write 0
          (header_bytes (record hdr { section_count = length ss }))
          (replicate (lay_out (32 + length ss * 24) ss).1 0))
      ≡ ok (es, buf)
    → (32 + length (dir_bytes es) == 32 + length ss * 24) ≡ true
    → assemble max_int hdr ss ≡ ok (write 32 (dir_bytes es) buf)
unfolding assemble
assemble_run max_int hdr ss es buf within count run whole =
    rw (within, count, length-header_bytes (record hdr { section_count = length ss }), run, whole)
      refl

-- Sections that are laid out with ascending known ids, META to V6IDS among them and their lengths
-- computed right, are written to a file unless it would pass `max_int` bytes; its header, directory
-- and checksums pass the reader's checks, which record exactly those sections, and each section
-- is read back as it was filled.
pub assemble-IsFile :
    (max_int : ℕ) (hdr : Header) (ss : List Section)
    → IsHeader hdr
    → IsLayable ss
    → 32 + length ss * 24 + room ss ≤ max_int
    → max_int < 2 ^ 64
    → (file : List ℕ) × (assemble max_int hdr ss ≡ ok file) × IsFile hdr ss file
assemble-IsFile max_int hdr ss valid layable room_le small =
    let dir_end = 32 + length ss * 24 in
    let hdr' : Header = record hdr { section_count = length ss } in
    let n : length ss ≤ 14 = omega (arith, length-le 0 ss layable.ascending (omega arith)) in
    let count : length ss % 2 ^ 32 ≡ length ss = omega arith in
    let (placed, end_le) = lay_out-Placed dir_end ss (omega arith) in
    let last = (lay_out dir_end ss).1 in
    let zeros : List ℕ = replicate last 0 in
    let buf = write 0 (header_bytes hdr') zeros in
    let low = Placed-le dir_end last ss (lay_out dir_end ss).0 placed in
    let fill =
      fill_sections-IsWritten dir_end last ss (lay_out dir_end ss).0 buf placed layable.sized
        (length-write 0 (header_bytes hdr') zeros ∙ length-replicate {A = ℕ} last 0) in
    let len : length (dir_bytes fill.entries) ≡ length ss * 24 =
      (length-dir_bytes dir_end last ss fill.entries fill.placed).0 in
    let front : take 32 fill.buf' ≡ header_bytes hdr' =
      window_of_take dir_end 0 32 fill.buf' buf (omega arith) fill.front
      ∙ ap (λ m. take m buf) (sym (length-header_bytes hdr'))
      ∙ write_written 0 (header_bytes hdr') zeros
          (omega (arith, length-header_bytes hdr', length-replicate {A = ℕ} last 0)) in
    let within : ltb max_int last ≡ false = ground arith in
    let whole : (32 + length (dir_bytes fill.entries) == dir_end) ≡ true = ground arith in
    (
      write 32 (dir_bytes fill.entries) fill.buf',
      assemble_run max_int hdr ss fill.entries fill.buf' within count fill.run whole,
      file-IsFile hdr ss fill.entries last fill.buf' valid layable (omega arith) fill.placed
          fill.size front fill.filled,
    )
