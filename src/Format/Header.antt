-- ===== src/Format/Header.antt =====
-- internal/format/format.go: the 32-byte file header, `Header.AppendTo` and `ParseHeader`.
pub mod RoundTrip
use ip2geo.Base.{
  ℕ, zero, suc, ◌+◌, ◌^◌, ◌≤◌, ◌<◌, Bool, true, false, ◌&&◌, ◌||◌, not, List, [], ◌∷◌, ◌++◌, length,
  take, drop, replicate, get_elem?, ltb, ◌==◌, Result, ok, err, ◌>>=◌, ◌>>◌, refuse_if, or_panic,
}
use ip2geo.Bytes.{le_bytes, le_at}

pub record Header : Type 0 where
  pub profile : ℕ
  pub lat_scale : ℕ
  pub id_width : ℕ
  pub section_count : ℕ

pub data FormatError : Type 0 where
  magic_err version_err header_err meta_err : FormatError

-- "GEO2".
abbrev pub magic : List ℕ
magic = b'G' ∷ b'E' ∷ b'O' ∷ b'2' ∷ []

abbrev pub version : ℕ
version = 2

abbrev pub header_size : ℕ
header_size = 32

abbrev pub max_profile : ℕ
max_profile = 3

abbrev pub max_lat_scale : ℕ
max_lat_scale = 7

-- `for _, c := range b { if c != 0 { return … } }`.
unfoldable pub all_zero : List ℕ → Bool
all_zero [] = true
all_zero (c ∷ b) = c == 0 && all_zero b

unfoldable pub bytes_eq : List ℕ → List ℕ → Bool
bytes_eq [] [] = true
bytes_eq (x ∷ a) (y ∷ b) = x == y && bytes_eq a b
bytes_eq _ _ = false

-- `Header.AppendTo`, appending to an empty slice.
unfoldable pub header_bytes : Header → List ℕ
header_bytes h =
    magic
    ++ (version
        ∷ h.profile
        ∷ h.lat_scale
        ∷ h.id_width
        ∷ (le_bytes 4 h.section_count ++ replicate 20 0))

-- The test on the decoded fields.
abbrev out_of_range : Header → Bool
out_of_range h =
    ltb max_profile h.profile
    || (ltb max_lat_scale h.lat_scale || (ltb h.id_width 1 || ltb 4 h.id_width))

unfoldable pub parse_header : List ℕ → Result FormatError Header
unfolding all_zero bytes_eq
parse_header b = do
  refuse_if (ltb (length b) 4 || not (bytes_eq (take 4 b) magic)) magic_err
  refuse_if (ltb (length b) header_size) header_err
  v ← or_panic (get_elem? b 4)
  refuse_if (not (v == version)) version_err
  p ← or_panic (get_elem? b 5)
  s ← or_panic (get_elem? b 6)
  w ← or_panic (get_elem? b 7)
  n ← or_panic (le_at 4 b 8)
  let h : Header = record { profile = p; lat_scale = s; id_width = w; section_count = n }
  refuse_if (out_of_range h) header_err
  refuse_if (not (all_zero (take 20 (drop 12 b)))) header_err
  ok h

-- What `ParseHeader` accepts, and what the writer is given.
pub record IsHeader (h : Header) : Type 0 where
  pub profile_known : h.profile ≤ max_profile
  pub scale_fits : h.lat_scale ≤ max_lat_scale
  pub width_pos : 1 ≤ h.id_width
  pub width_le : h.id_width ≤ 4
  pub count_fits : h.section_count < 2 ^ 32
