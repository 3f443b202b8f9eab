-- ===== src/Format/Directory.antt =====
-- internal/format/format.go: the 24-byte directory entries, `DirEntry.AppendTo`, `ParseDirEntry`.
use ip2geo.Base.{ℕ, ◌^◌, ◌<◌, ◌≡◌, refl, Option, some, List, [], ◌∷◌, ◌++◌}
use ip2geo.Bytes.{le_at}
use ip2geo.Bytes.Words.{le_words, le_at-le_words}
use mathlib.Core.Option

pub record DirEntry : Type 0 where
  pub id : ℕ
  pub crc : ℕ
  pub offset : ℕ
  pub len : ℕ

-- `b[0:]`, `b[4:]`, `b[8:]` and `b[16:]`.
unfoldable pub parse_dir_entry : List ℕ → Option DirEntry
parse_dir_entry b = Option.bind (le_at 4 b 0) λ i. Option.bind (le_at 4 b 4) λ c.
    Option.bind (le_at 8 b 8)
      λ o. Option.map (λ n. record { id = i; crc = c; offset = o; len = n }) (le_at 8 b 16)

abbrev dir_entry_words : DirEntry → List (ℕ × ℕ)
dir_entry_words e = (4, e.id) ∷ (4, e.crc) ∷ (8, e.offset) ∷ (8, e.len) ∷ []

unfoldable pub dir_entry_bytes : DirEntry → List ℕ
dir_entry_bytes e = le_words (dir_entry_words e)

-- The field widths of the entry, as Go's types give them.
pub record IsDirEntry (e : DirEntry) : Type 0 where
  pub id_fits : e.id < 2 ^ 32
  pub crc_fits : e.crc < 2 ^ 32
  pub offset_fits : e.offset < 2 ^ 64
  pub length_fits : e.len < 2 ^ 64

-- An entry whose fields fit their words is read back as it was written, whatever follows it.
pub parse_dir_entry-dir_entry_bytes :
    (e : DirEntry) (rest : List ℕ)
    → IsDirEntry e
    → parse_dir_entry (dir_entry_bytes e ++ rest) ≡ some e
unfolding parse_dir_entry dir_entry_bytes Option.bind
parse_dir_entry-dir_entry_bytes e rest v = rw (
  le_at-le_words (dir_entry_words e) rest 0 4 e.id refl v.id_fits,
  le_at-le_words (dir_entry_words e) rest 1 4 e.crc refl v.crc_fits,
  le_at-le_words (dir_entry_words e) rest 2 8 e.offset refl v.offset_fits,
  le_at-le_words (dir_entry_words e) rest 3 8 e.len refl v.length_fits,
)
