-- ===== src/Geo2/CheckExtensions.antt =====
-- geo2.go: `checkExtensions`, `checkLangs` and `checkXRecords`, rules 9 to 12 of the reader
-- requirements, and `FlagByte` of internal/format/format.go.
pub mod Sizes
use ip2geo.Base.{
  ℕ, zero, suc, ◌+◌, ◌-◌, ◌*◌, ◌/◌, ◌%◌, ◌^◌, Bool, true, false, ◌&&◌, ◌||◌, not, Option, none,
  some, List, [], ◌∷◌, ◌++◌, length, get_elem?, take, drop, ltb, leb, ◌==◌, Result, ok, err, ◌>>=◌,
  ◌>>◌, refuse_if, or_panic, if◌then◌else◌,
}
use ip2geo.Bytes.{le_at}
use ip2geo.Format.Header.{all_zero, bytes_eq}
use ip2geo.Format.RecordId.{uint24}
use ip2geo.Format.Layout.{profile_asn}
use ip2geo.Format.XLayout.{
  XLayout, new_x_layout, check_fields, has_field, num_fields, field_eu, field_continent,
  field_registered, field_subdivisions, field_postal, field_traits, field_location,
}
use ip2geo.Geo2.Errors.{OpenError, corrupt, unsupported_version}
use ip2geo.Geo2.CheckDirectory.{slice}
use ip2geo.Geo2.CheckStrings.{str}

-- The offset and the defined bits of the flags byte of a field set.
unfoldable pub flag_byte : ℕ → Option (ℕ × ℕ)
flag_byte f =
    if f == field_eu
    then some (0, 1)
    else if f == field_registered
    then some (23, 1 + 2)
    else if f == field_traits
    then some (0, 1 + 2 + 4)
    else if f == field_location
    then some (0, 1 + 2)
    else none

-- The u24 string ids in the blocks of each field set.
abbrev pub string_offs : List (ℕ × List ℕ)
string_offs =
    (field_continent, 0 ∷ [])
    ∷ (field_registered, 0 ∷ 3 ∷ 10 ∷ 13 ∷ 20 ∷ [])
    ∷ (field_subdivisions, 4 ∷ 7 ∷ [])
    ∷ (field_postal, 0 ∷ [])
    ∷ []

-- `l.Field[f]`, which is -1, an offset of no use, for a set that is absent.
unfoldable pub field_off : XLayout → ℕ → ℕ
field_off l f = go (get_elem? l.field f)
  where
    go : Option (Option ℕ) → ℕ
    go (some (some o)) = o
    go _ = 0

unfoldable pub add_to_all : ℕ → List ℕ → List ℕ
add_to_all o [] = []
add_to_all o (x ∷ xs) = (o + x) ∷ add_to_all o xs

unfoldable pub block_offs : XLayout → ℕ → List (ℕ × List ℕ) → List ℕ
block_offs l fields [] = []
block_offs l fields ((f, offs) ∷ rest) =
    (if has_field fields f then add_to_all (field_off l f) offs else []) ++ block_offs l fields rest

-- `for o := l.LangOff; o < w; o += 3`, with `left` rounds to go.
unfoldable pub lang_offs : ℕ → ℕ → List ℕ
lang_offs zero o = []
lang_offs (suc left) o = o ∷ lang_offs left (o + 3)

unfoldable pub x_offs : XLayout → ℕ → List ℕ
x_offs l fields =
    block_offs l fields string_offs ++ lang_offs ((l.width - l.lang_off + 2) / 3) l.lang_off

-- The flags bytes of the field sets from bit `b` on: offset and mask.
unfoldable pub x_flags : XLayout → ℕ → ℕ → ℕ → List (ℕ × ℕ)
x_flags l fields zero b = []
x_flags l fields (suc left) b =
    (if has_field fields b then go (flag_byte b) else []) ++ x_flags l fields left (b + 1)
  where
    go : Option (ℕ × ℕ) → List (ℕ × ℕ)
    go none = []
    go (some (off, mask)) = (field_off l b + off, mask) ∷ []

unfoldable pub check_x_ids : List ℕ → List ℕ → ℕ → Result OpenError (Unit {0})
check_x_ids e [] ns = ok tt
check_x_ids e (o ∷ offs) ns = do
  id ← or_panic (uint24 (drop o e))
  refuse_if (leb ns id) corrupt
  check_x_ids e offs ns

-- Each mask is all bits below some bit: a byte has another bit set when it is above the mask.
unfoldable pub check_x_flags : List ℕ → List (ℕ × ℕ) → Result OpenError (Unit {0})
check_x_flags e [] = ok tt
check_x_flags e ((off, mask) ∷ flags) = do
  c ← or_panic (get_elem? e off)
  refuse_if (ltb mask c) corrupt
  check_x_flags e flags

-- `for i := 1; i < g.nRecords; i++`, from `i` on with `left` rounds to go.
unfoldable pub check_x_entries :
    List ℕ → ℕ → List ℕ → List (ℕ × ℕ) → ℕ → ℕ → ℕ → Result OpenError (Unit {0})
check_x_entries xr w offs flags ns zero i = ok tt
check_x_entries xr w offs flags ns (suc left) i = do
  e ← or_panic (slice xr (i * w) w)
  check_x_ids e offs ns
  check_x_flags e flags
  check_x_entries xr w offs flags ns left (i + 1)

unfoldable pub check_x_records : XLayout → ℕ → ℕ → ℕ → List ℕ → Result OpenError (Unit {0})
check_x_records l fields ns n_records xr = if l.width == 0 then ok tt else (do
  first ← or_panic (slice xr 0 l.width)
  refuse_if (not (all_zero first)) corrupt
  check_x_entries xr l.width (x_offs l fields) (x_flags l fields num_fields 0) ns (n_records - 1) 1)

-- `seen[s]`, with the map's keys as a list.
unfoldable pub seen : List (List ℕ) → List ℕ → Bool
seen [] s = false
seen (t ∷ ts) s = bytes_eq t s || seen ts s

-- `for j := range len(langs) / 4`, from `j` on with `left` rounds to go.
unfoldable pub check_lang_ids :
    List ℕ → List ℕ → List ℕ → ℕ → ℕ → ℕ → List (List ℕ) → Result OpenError (Unit {0})
check_lang_ids idx blob langs ns zero j names = ok tt
check_lang_ids idx blob langs ns (suc left) j names = do
  id ← or_panic (le_at 4 langs (j * 4))
  refuse_if (leb ns id) corrupt
  s ← or_panic (str idx blob id)
  refuse_if (bytes_eq s []) corrupt
  refuse_if (seen names s) corrupt
  check_lang_ids idx blob langs ns left (j + 1) (s ∷ names)

-- `language` is the string id of META's language.
unfoldable pub check_langs : List ℕ → List ℕ → List ℕ → ℕ → ℕ → Result OpenError (Unit {0})
check_langs idx blob langs ns language = do
  check_lang_ids idx blob langs ns (length langs / 4) 0 []
  first ← or_panic (le_at 4 langs 0)
  l0 ← or_panic (str idx blob first)
  m ← or_panic (str idx blob language)
  refuse_if (not (bytes_eq l0 m)) corrupt

-- What the extension sections hold; `none` is an absent section.
pub record Extensions : Type 0 where
  pub x_fields : Option (List ℕ)
  pub x_records : Option (List ℕ)
  pub langs : Option (List ℕ)

unfoldable pub is_present : Option (List ℕ) → Bool
is_present none = false
is_present (some s) = true

-- The bytes of a section, none of an absent one.
unfoldable pub bytes_of : Option (List ℕ) → List ℕ
bytes_of none = []
bytes_of (some s) = s

-- The number of languages that LANGS lists, 1 without it.
unfoldable pub lang_count : Option (List ℕ) → Result OpenError ℕ
lang_count none = ok 1
lang_count (some langs) = do
  refuse_if (not (length langs % 4 == 0)) corrupt
  refuse_if (ltb (length langs / 4) 2) corrupt
  ok (length langs / 4)

-- The checks once XFIELDS and XRECORDS are there.
unfoldable pub check_present :
    ℕ → ℕ → ℕ → ℕ → List ℕ → List ℕ → Extensions → Result OpenError (ℕ × XLayout)
check_present p ns n_records language idx blob x = do
  let xf = bytes_of x.x_fields
  refuse_if (not (length xf == 8)) corrupt
  fields ← or_panic (le_at 4 xf 0)
  reserved ← or_panic (le_at 4 xf 4)
  refuse_if (not (reserved == 0)) corrupt
  refuse_if (not (fields / 2 ^ num_fields == 0)) unsupported_version
  refuse_if (not (check_fields p fields)) corrupt
  n_langs ← lang_count x.langs
  let xr = bytes_of x.x_records
  let base = new_x_layout p fields 1
  refuse_if (not (length xr == (base.width + (n_langs - 1) * 3 * length base.kinds) * n_records))
      corrupt
  let l = new_x_layout p fields n_langs
  (if is_present x.langs then check_langs idx blob (bytes_of x.langs) ns language else ok tt)
  check_x_records l fields ns n_records xr
  ok (fields, l)

-- The field set bits and the layout of the XRECORDS entries.
unfoldable pub check_extensions :
    ℕ → ℕ → ℕ → ℕ → List ℕ → List ℕ → Extensions → Result OpenError (ℕ × XLayout)
check_extensions p ns n_records language idx blob x =
    if p == profile_asn && (is_present x.x_fields || is_present x.x_records || is_present x.langs)
    then err corrupt
    else if (if is_present x.x_fields then not (is_present x.x_records) else is_present x.x_records)
    then err corrupt
    else if is_present x.langs && not (is_present x.x_fields)
    then err corrupt
    else if not (is_present x.x_fields)
    then ok (0, new_x_layout p 0 1)
    else check_present p ns n_records language idx blob x
