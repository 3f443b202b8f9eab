-- ===== src/Build/Assemble.antt =====
-- internal/build/encode.go: the second half of `encode`, which lays the sections out after the
-- directory and writes the file into one buffer.
pub mod Entries
mod Write
pub mod Placed
pub mod Directory
pub mod Recorded
pub mod Accepted
use ip2geo.Base.{
  ℕ, zero, suc, ◌+◌, ◌*◌, ◌/◌, ◌%◌, ◌^◌, not, List, [], ◌∷◌, ◌++◌, length, replicate, ltb, ◌==◌,
  Result, ok, ◌>>=◌, ◌>>◌, refuse_if, or_panic,
}
use ip2geo.Format.Checksum.{checksum}
use ip2geo.Format.Directory.{DirEntry, dir_entry_bytes}
use ip2geo.Format.Header.{Header, header_size, header_bytes}
use ip2geo.Format.Layout.{dir_entry_size}
use ip2geo.Geo2.CheckDirectory.{slice}

-- `section`: `content` is what `fill` appends to an empty slice.
pub record Section : Type 0 where
  pub id : ℕ
  pub len : ℕ
  pub content : List ℕ

pub data EncodeError : Type 0 where
  too_large wrong_header wrong_section wrong_directory : EncodeError

-- `format.Align8`.
unfoldable pub align8 : ℕ → ℕ
align8 n = (n + 7) % 2 ^ 64 / 8 * 8

-- The directory, its checksums still 0, and the end of the last section.
unfoldable pub lay_out : ℕ → List Section → List DirEntry × ℕ
lay_out end [] = ([], end)
lay_out end (s ∷ ss) =
    let (dir, last) = lay_out ((align8 end + s.len) % 2 ^ 64) ss in
    (record { id = s.id; crc = 0; offset = align8 end; len = s.len } ∷ dir, last)

-- `copy(buf[off:], s)`: an append to `buf[off:off]` within its capacity.
unfoldable pub write : ℕ → List ℕ → List ℕ → List ℕ
write off s [] = []
write (suc off) s (x ∷ b) = x ∷ write off s b
write zero [] (x ∷ b) = x ∷ b
write zero (y ∷ s) (x ∷ b) = y ∷ write zero s b

-- `for i, s := range secs`: the sections are written and their checksums taken.
unfoldable pub fill_sections :
    List Section → List DirEntry → List ℕ → Result EncodeError (List DirEntry × List ℕ)
fill_sections (s ∷ ss) (e ∷ es) buf = do
  refuse_if (not (length s.content == e.len)) wrong_section
  let buf' = write e.offset s.content buf
  b ← or_panic (slice buf' e.offset e.len)
  rest ← fill_sections ss es buf'
  ok (record e { crc = checksum b } ∷ rest.0, rest.1)
fill_sections _ _ buf = ok ([], buf)

-- `for _, e := range dir { d = e.AppendTo(d) }`.
unfoldable pub dir_bytes : List DirEntry → List ℕ
dir_bytes [] = []
dir_bytes (e ∷ es) = dir_entry_bytes e ++ dir_bytes es

-- `max_int` is math.MaxInt; the section count of `hdr` is set here.
unfoldable pub assemble : ℕ → Header → List Section → Result EncodeError (List ℕ)
assemble max_int hdr secs = do
  let dir_end = header_size + length secs * dir_entry_size
  let laid = lay_out dir_end secs
  refuse_if (ltb max_int laid.1) too_large
  let h = header_bytes (record hdr { section_count = length secs % 2 ^ 32 })
  refuse_if (not (length h == header_size)) wrong_header
  filled ← fill_sections secs laid.0 (write 0 h (replicate laid.1 0))
  let d = dir_bytes filled.0
  refuse_if (not (header_size + length d == dir_end)) wrong_directory
  ok (write header_size d filled.1)
