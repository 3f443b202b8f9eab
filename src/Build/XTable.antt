-- ===== src/Build/XTable.antt =====
-- internal/build/xrec.go: the extension entries of a build, `newXTable`, `add` and `appendEntry`.
pub mod Growth
pub mod Entries
use ip2geo.Base.{
  ℕ, zero, suc, ◌+◌, ◌-◌, ◌*◌, ◌/◌, ◌%◌, Bool, true, false, ◌&&◌, ◌||◌, Option, none, some, List,
  [], ◌∷◌, ◌++◌, length, get_elem?, get_or, drop, set, replicate, ltb, ◌==◌, if◌then◌else◌,
}
use mathlib.Core.Option
use ip2geo.Bytes.{le_bytes}
use ip2geo.Format.Layout.{profile_asn}
use ip2geo.Format.RecordId.{put_uint24, uint24}
use ip2geo.Format.XLayout.{
  XLayout, new_x_layout, name_off, field_eu, field_continent, field_registered, field_subdivisions,
  field_postal, field_metro, field_traits, field_location, name_country, name_region, name_city,
  name_continent, name_region2, name_registered, name_represented,
}
use ip2geo.Geo2.CheckExtensions.{add_to_all}
use ip2geo.Build.Strings.{Str, Interner, id, lookup}
use ip2geo.Build.PackRecord.{put}
use ip2geo.Build.Record.{Record, name}

-- `ids` is the map from entries to their indices, the last one added first.
pub record XTable : Type 0 where
  pub fields : ℕ
  pub n_langs : ℕ
  pub layout : XLayout
  pub str_offs : List ℕ
  pub ids : List (Str × ℕ)
  pub entries : List Str

-- `l.Field[f]`, `none` for the -1 of a set that is absent.
unfoldable pub field_at : XLayout → ℕ → Option ℕ
field_at l f = go (get_elem? l.field f)
  where
    go : Option (Option ℕ) → Option ℕ
    go (some o) = o
    go none = none

-- The field sets with strings, in the order of the source, with the offsets of the strings in the
-- block of the set.
abbrev pub set_strings : List (ℕ × List ℕ)
set_strings =
    (field_continent, 0 ∷ [])
    ∷ (field_registered, 0 ∷ 3 ∷ 10 ∷ 13 ∷ 20 ∷ [])
    ∷ (field_subdivisions, 4 ∷ 7 ∷ [])
    ∷ (field_postal, 0 ∷ [])
    ∷ []

-- `for o := l.LangOff; o < l.Width; o += 3`, with `left` rounds to go.
unfoldable pub name_offs : ℕ → ℕ → List ℕ
name_offs zero o = []
name_offs (suc left) o = o ∷ name_offs left (o + 3)

-- `if o := l.Field[…]; o >= 0 { t.strOffs = append(t.strOffs, …) }` for each set with strings.
unfoldable pub block_str_offs : XLayout → List (ℕ × List ℕ) → List ℕ
block_str_offs l [] = []
block_str_offs l ((f, offs) ∷ rest) = go (field_at l f) ++ block_str_offs l rest
  where
    go : Option ℕ → List ℕ
    go none = []
    go (some o) = add_to_all o offs

-- The loop from `l.LangOff` in steps of 3 has so many rounds as steps fit below the width.
unfoldable pub new_x_table : ℕ → ℕ → ℕ → Option XTable
new_x_table profile fields n_langs =
    let l = new_x_layout profile fields n_langs in
    if profile == profile_asn || fields == 0 && ltb n_langs 2
    then none
    else some (record {
      fields = fields;
      n_langs = n_langs;
      layout = l;
      str_offs =
          block_str_offs l set_strings ++ name_offs ((l.width - l.lang_off + 2) / 3) l.lang_off;
      ids = (replicate l.width 0, 0) ∷ [];
      entries = replicate l.width 0 ∷ [];
    })

-- The entry under construction and the interner.
abbrev pub Filling : Type 0
Filling = List ℕ × Interner

unfoldable pub put24 : ℕ → Str → Filling → Filling
put24 off s (e, strs) = let (v, strs') = id strs s in (put off (put_uint24 v) e, strs')

abbrev pub put_le : ℕ → ℕ → ℕ → Filling → Filling
put_le w off v (e, strs) = (put off (le_bytes w v) e, strs)

-- `if set { e[off] |= bit }`, where `bit` is a power of two.
unfoldable pub flag : ℕ → ℕ → Bool → Filling → Filling
flag off bit false p = p
flag off bit true (e, strs) =
    let c = get_or e off 0 in (set e off (if c / bit % 2 == 1 then c else c + bit), strs)

-- `if o := l.Field[…]; o >= 0 { … }`.
abbrev pub at_field : XLayout → ℕ → (ℕ → Filling → Filling) → Filling → Filling
at_field l f k p = elim (field_at l f) [ none ↦ p | some o ↦ k o p ]

module _ {F : Type 0} (r : Record F) where
  unfoldable pub fill_registered : ℕ → Filling → Filling
  fill_registered o p =
      let reg = r.registered_country in
      let rep = r.represented_country in
      let p1 = put24 (o + 3) (name reg.names 0) (put24 o reg.iso_code p) in
      let p2 = put24 (o + 10) rep.iso_code (put_le 4 (o + 6) reg.geo_name_id p1) in
      let p3 = put_le 4 (o + 16) rep.geo_name_id (put24 (o + 13) (name rep.names 0) p2) in
      flag (o + 23) 2 rep.is_in_european_union
        (flag (o + 23) 1 reg.is_in_european_union (put24 (o + 20) r.represented_type p3))

  unfoldable pub fill_subdivisions : ℕ → Filling → Filling
  fill_subdivisions o p =
      let s2 = r.subdivision1 in
      put_le 4 (o + 10) s2.geo_name_id (
        put24 (o + 7) (name s2.names 0)
          (put24 (o + 4) s2.iso_code (put_le 4 o r.subdivision0.geo_name_id p)))

  unfoldable pub fill_continent : ℕ → Filling → Filling
  fill_continent o p =
      put_le 4 (o + 3) r.continent.geo_name_id (put24 o (name r.continent.names 0) p)

  unfoldable pub fill_traits : ℕ → Filling → Filling
  fill_traits o p =
      flag o 4 r.traits.is_satellite_provider
        (flag o 2 r.traits.is_anonymous_proxy (flag o 1 r.traits.is_anycast p))

  unfoldable pub fill_location : ℕ → Filling → Filling
  fill_location o p =
      flag o 2 r.location.has_accuracy_radius (flag o 1 r.location.has_coordinates p)

  -- The field sets, in the order of the source.
  unfoldable pub fill_fields : XLayout → Filling → Filling
  fill_fields l p =
      let p1 = at_field l field_eu (λ o. flag o 1 r.country.is_in_european_union) p in
      let p2 = at_field l field_continent fill_continent p1 in
      let p3 = at_field l field_registered fill_registered p2 in
      let p4 = at_field l field_subdivisions fill_subdivisions p3 in
      let p5 = at_field l field_postal (λ o. put24 o r.postal_code) p4 in
      let p6 = at_field l field_metro (λ o. put_le 2 o r.location.metro_code) p5 in
      at_field l field_location fill_location (at_field l field_traits fill_traits p6)

  -- `names`.
  unfoldable pub names_of : ℕ → List Str
  names_of k =
      if k == name_country
      then r.country.names
      else if k == name_region
      then r.subdivision0.names
      else if k == name_city
      then r.city.names
      else if k == name_continent
      then r.continent.names
      else if k == name_region2
      then r.subdivision1.names
      else if k == name_registered
      then r.registered_country.names
      else if k == name_represented
      then r.represented_country.names
      else []

  -- `for _, k := range l.Kinds`; every kind of the layout has an offset.
  unfoldable pub fill_kinds : XLayout → ℕ → List ℕ → Filling → Filling
  fill_kinds l j [] p = p
  fill_kinds l j (k ∷ ks) p = fill_kinds l j ks (go (name_off l j k))
    where
      go : Option ℕ → Filling
      go none = p
      go (some o) = put24 o (name (names_of k) j) p

  -- `for j := 1; j < t.nLangs; j++`, from `j` on with `left` rounds to go.
  unfoldable pub fill_langs : XLayout → ℕ → ℕ → Filling → Filling
  fill_langs l zero j p = p
  fill_langs l (suc left) j p = fill_langs l left (j + 1) (fill_kinds l j l.kinds p)

  -- The entry of `r`, and the interner behind its strings.
  unfoldable pub entry_of : XTable → Interner → Filling
  entry_of t strs =
      fill_langs t.layout (t.n_langs - 1) 1
        (fill_fields t.layout (replicate t.layout.width 0, strs))

-- The entry's index, adding the entry if it is new.
unfoldable pub index_entry : XTable → Str → ℕ × XTable
index_entry t e = go (lookup t.ids e)
  where
    go : Option ℕ → ℕ × XTable
    go (some i) = (i, t)
    go none =
        let i = length t.entries in
        (i, record t { ids = (e, i) ∷ t.ids; entries = t.entries ++ (e ∷ []) })

-- `add`.
unfoldable pub add_entry : {F : Type 0} → Record F → XTable → Interner → ℕ × XTable × Interner
add_entry r t strs =
    let (e, strs') = entry_of r t strs in let (i, t') = index_entry t e in (i, t', strs')

-- `for _, o := range t.strOffs`: the string ids renumbered; `none` is an index out of range.
unfoldable pub renumber : List ℕ → List ℕ → List ℕ → Option (List ℕ)
unfolding Option.bind
renumber [] remap e = some e
renumber (o ∷ offs) remap e =
    Option.bind (uint24 (drop o e))
      λ v. Option.bind (get_elem? remap v) λ final. renumber offs remap (put o (put_uint24 final) e)

unfoldable pub entry_bytes : XTable → ℕ → List ℕ → Option (List ℕ)
unfolding Option.bind
entry_bytes t i remap = Option.bind (get_elem? t.entries i) λ e. renumber t.str_offs remap e
