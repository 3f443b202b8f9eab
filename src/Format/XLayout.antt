-- ===== src/Format/XLayout.antt =====
-- internal/format/format.go: the field sets of XFIELDS and the layout of an XRECORDS entry,
-- `CheckFields`, `NewXLayout` and `NameOff`.
pub mod Names
use ip2geo.Base.{
  ℕ, zero, suc, ◌+◌, ◌-◌, ◌*◌, ◌/◌, ◌%◌, ◌^◌, Bool, true, false, ◌&&◌, ◌||◌, not, Option, none,
  some, List, [], ◌∷◌, ◌++◌, length, ltb, leb, ◌==◌, if◌then◌else◌,
}
use ip2geo.Format.Layout.{profile_asn}

-- The bit numbers of the field sets.
abbrev pub field_eu : ℕ
field_eu = 0

abbrev pub field_continent : ℕ
field_continent = 1

abbrev pub field_registered : ℕ
field_registered = 2

abbrev pub field_subdivisions : ℕ
field_subdivisions = 3

abbrev pub field_postal : ℕ
field_postal = 4

abbrev pub field_metro : ℕ
field_metro = 5

abbrev pub field_traits : ℕ
field_traits = 6

abbrev pub field_location : ℕ
field_location = 7

abbrev pub num_fields : ℕ
num_fields = 8

abbrev pub field_width : List ℕ
field_width = 1 ∷ 7 ∷ 24 ∷ 14 ∷ 3 ∷ 2 ∷ 1 ∷ 1 ∷ []

-- `fields&(1<<b) != 0`.
unfoldable pub has_field : ℕ → ℕ → Bool
has_field fields b = fields / 2 ^ b % 2 == 1

abbrev pub name_country : ℕ
name_country = 0

abbrev pub name_region : ℕ
name_region = 1

abbrev pub name_city : ℕ
name_city = 2

abbrev pub name_continent : ℕ
name_continent = 3

abbrev pub name_region2 : ℕ
name_region2 = 4

abbrev pub name_registered : ℕ
name_registered = 5

abbrev pub name_represented : ℕ
name_represented = 6

-- `fields&^KnownFields != 0` is a bit from bit 8 on.
unfoldable pub check_fields : ℕ → ℕ → Bool
check_fields profile fields =
    if not (fields / 2 ^ num_fields == 0)
    then false
    else if profile == profile_asn
    then fields == 0
    else if has_field fields field_subdivisions && ltb profile 1
    then false
    else not (
        (has_field fields field_postal
          || has_field fields field_metro
          || has_field fields field_location)
        && ltb profile 2)

pub record XLayout : Type 0 where
  pub width : ℕ
  pub field : List (Option ℕ)
  pub kinds : List ℕ
  pub lang_off : ℕ

-- The blocks of the field sets from bit `b` on, `width` being the width so far.
unfoldable pub blocks : ℕ → List ℕ → ℕ → ℕ → List (Option ℕ) × ℕ
blocks fields [] b width = ([], width)
blocks fields (w ∷ ws) b width =
    if has_field fields b
    then (let (rest, end) = blocks fields ws (b + 1) (width + w) in (some width ∷ rest, end))
    else (let (rest, end) = blocks fields ws (b + 1) width in (none ∷ rest, end))

-- `if c { kinds = append(kinds, k…) }`.
abbrev pub when : Bool → List ℕ → List ℕ
when true ks = ks
when false ks = []

unfoldable pub kinds_of : ℕ → ℕ → List ℕ
kinds_of profile fields =
    (name_country ∷ [])
    ++ when (leb 1 profile) (name_region ∷ [])
    ++ when (leb 2 profile) (name_city ∷ [])
    ++ when (has_field fields field_continent) (name_continent ∷ [])
    ++ when (has_field fields field_subdivisions) (name_region2 ∷ [])
    ++ when (has_field fields field_registered) (name_registered ∷ name_represented ∷ [])

unfoldable pub new_x_layout : ℕ → ℕ → ℕ → XLayout
new_x_layout profile fields n_langs =
    let (field, width) = blocks fields field_width 0 0 in
    if profile == profile_asn
    then record { width = width; field = field; kinds = []; lang_off = width }
    else record {
      width = width + (n_langs - 1) * 3 * length (kinds_of profile fields);
      field = field;
      kinds = kinds_of profile fields;
      lang_off = width;
    }

-- The index of kind `k`, counted from `i`.
unfoldable pub index_of : List ℕ → ℕ → ℕ → Option ℕ
index_of [] k i = none
index_of (kind ∷ kinds) k i = if kind == k then some i else index_of kinds k (i + 1)

-- `none` is the -1 of a kind that the layout does not store.
unfoldable pub name_off : XLayout → ℕ → ℕ → Option ℕ
name_off l j k = go (index_of l.kinds k 0)
  where
    go : Option ℕ → Option ℕ
    go none = none
    go (some i) = some (l.lang_off + (j - 1) * 3 * length l.kinds + 3 * i)
