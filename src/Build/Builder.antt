-- ===== src/Build/Builder.antt =====
-- internal/build/build.go: `Builder`, `New`, `Record`, `AddPrefix`, `AddRange` and `Finish`.
pub mod Ranges
pub mod Records
pub mod Growth
use ip2geo.Base.{
  ℕ, zero, suc, ◌+◌, ◌-◌, ◌*◌, ◌/◌, ◌^◌, Bool, true, false, ◌&&◌, ◌||◌, not, Option, none, some,
  List, [], ◌∷◌, ◌++◌, length, get_elem?, take, drop, ltb, ◌==◌, Result, ok, err, panic, ◌>>=◌,
  or_panic, if◌then◌else◌,
}
use mathlib.Core.Option
use native.Mathlib.Decide.{ℕ_discrete}
use ip2geo.Format.Header.{all_zero}
use ip2geo.Format.Meta.{Meta}
use ip2geo.Build.Blocks.{BlockList, no_blocks, push}
use ip2geo.Build.Blocks.Laws.{items}
use ip2geo.Build.Strings.{
  Str, Interner, new_interner, id, Finished, finish_strings, StringError, check_string_table,
}
use ip2geo.Build.Record.{Record, RecKey, zero_key, key}
use ip2geo.Build.XTable.{XTable, new_x_table, add_entry}
use ip2geo.Build.Options.{Time, since_epoch, Options, OptionsError, normalize}
use ip2geo.Build.Merge4.{Merger4, new_merger4, add, finish}
use ip2geo.Build.Merge6.{Merger6, new_merger6, add6, finish6, Addr16, be_uint, less16, last_v6}
use ip2geo.Build.Assemble.{EncodeError}
use ip2geo.Build.Encode.{BuildResult, encode}

-- `netip.Addr`: an IPv4 address, an IPv6 address, or the zero value.
pub data NetAddr : Type 0 where
  invalid : NetAddr
  v4 : ℕ → NetAddr
  v6 : Addr16 → NetAddr

-- `Is4In6`: ::ffff:0:0/96.
unfoldable pub is_4_in_6 : Addr16 → Bool
is_4_in_6 a = all_zero (take 10 a) && be_uint (take 2 (drop 10 a)) 0 == 0xffff

-- `As4` of such an address, as a number.
abbrev pub as_4 : Addr16 → ℕ
as_4 a = be_uint (drop 12 a) 0

unfoldable pub unmap : NetAddr → NetAddr
unmap (v6 a) = if is_4_in_6 a then v4 (as_4 a) else v6 a
unmap a = a

pub record Source : Type 0 where
  pub typ : Str
  pub build_epoch : ℕ

-- The map `keys` as an association list, the last entry added first.
pub record Builder : Type 0 where
  pub opts : Options
  pub strs : Interner
  pub meta : Meta
  pub keys : List (RecKey × ℕ)
  pub recs : BlockList RecKey
  pub x : Option XTable
  pub langs : List ℕ
  pub v4m : Merger4
  pub v6m : Merger6
  pub networks : ℕ
  pub distinct : ℕ

-- `a == b` on keys.
unfoldable pub key_eq : RecKey → RecKey → Bool
key_eq a b =
    (a.country_iso == b.country_iso && a.country_name == b.country_name)
    && (a.continent == b.continent && a.region_iso == b.region_iso)
    && (a.region_name == b.region_name && a.city_name == b.city_name)
    && (a.tz == b.tz && a.country_geo == b.country_geo)
    && (a.city_geo == b.city_geo && a.lat == b.lat)
    && (a.lon == b.lon && a.acc == b.acc)
    && a.ext == b.ext

unfoldable pub find_key : List (RecKey × ℕ) → RecKey → Option ℕ
find_key [] k = none
find_key ((j, v) ∷ m) k = if key_eq j k then some v else find_key m k

-- `for _, l := range opts.Languages { b.langs = append(b.langs, b.strs.id(l)) }`.
unfoldable pub lang_ids : List Str → Interner → List ℕ × Interner
lang_ids [] strs = ([], strs)
lang_ids (l ∷ ls) strs = let (v, s1) = id strs l in let (vs, s2) = lang_ids ls s1 in (v ∷ vs, s2)

abbrev pub unix : Time → ℕ
unix (since_epoch s ns) = s
unix _ = 0

-- The META block and the interner after its strings; `builder` is BuilderName().
unfoldable pub new_meta : Options → Source → Str → Str → Meta × Interner
new_meta o src lang builder =
    let (ty, s1) = id new_interner src.typ in
    let (la, s2) = id s1 lang in
    let (de, s3) = id s2 o.description in
    let (bu, s4) = id s3 builder in
    (
      record {
        build_time = unix o.build_time;
        source_time = src.build_epoch;
        networks = 0;
        source_type = ty;
        language = la;
        description = de;
        builder = bu;
        distinct_records = 0;
      },
      s4,
    )

-- `New`, on normal options; `opts.Languages[0]` is there.
unfoldable pub new_builder : Time → Str → Options → Source → Result OptionsError Builder
new_builder now builder opts src = do
  o ← normalize now opts
  lang ← or_panic (get_elem? o.languages 0)
  let m = new_meta o src lang builder
  let l : List ℕ × Interner =
      if ltb 1 (length o.languages) then lang_ids o.languages m.1 else ([], m.1)
  ok (record {
    opts = o;
    strs = l.1;
    meta = m.0;
    keys = [];
    recs = push no_blocks zero_key;
    x = new_x_table o.profile o.fields (length o.languages);
    langs = l.0;
    v4m = new_merger4;
    v6m = new_merger6;
    networks = 0;
    distinct = 0;
  })

-- The id of a key, numbering it if it is new.
unfoldable pub intern_key : Builder → RecKey → ℕ × Builder
intern_key b k = go (find_key b.keys k)
  where
    go : Option ℕ → ℕ × Builder
    go (some i) = (i, b)
    go none = (b.recs.n, record b { keys = (k, b.recs.n) ∷ b.keys; recs = push b.recs k })

-- `rounded` is `int32(math.Round(x * scale))`.
module _ {F : Type 0} (rounded : F → ℕ) where
  -- The key of a record, its extension entry included.
  unfoldable pub full_key : Record F → Builder → RecKey × Builder
  full_key r b = let (k, strs) = key rounded r b.opts.profile b.strs in go b.x k strs
    where
      go : Option XTable → RecKey → Interner → RecKey × Builder
      go none k strs = (k, record b { strs = strs })
      go (some t) k strs =
          let (i, t', strs') = add_entry r t strs in
          (record k { ext = i }, record b { strs = strs'; x = some t' })

  -- `Record`.
  unfoldable pub add_record : Record F → Builder → ℕ × Builder
  add_record r b =
      let (k, b') = full_key r (record b { distinct = b.distinct + 1 }) in intern_key b' k

-- `start | uint32((uint64(1)<<k)-1)`: the low `k` bits are set.
unfoldable pub last_v4 : ℕ → ℕ → ℕ
last_v4 start k = let n = 2 ^ (if ltb 32 k then 32 else k) in start / n * n + (n - 1)

-- The prefix `addr`/`bits`; `none` is a panic.
unfoldable pub add_prefix : Builder → NetAddr → ℕ → ℕ → Option Builder
add_prefix b invalid bits rec = none
add_prefix b (v4 a) bits rec =
    Option.map (λ m. record b { v4m = m; networks = b.networks + 1 })
      (add b.v4m (record { start = a; last = last_v4 a (32 - bits); rec = rec }))
add_prefix b (v6 a) bits rec =
    if is_4_in_6 a
    then Option.map (λ m. record b { v4m = m; networks = b.networks + 1 })
        (add b.v4m (record { start = as_4 a; last = last_v4 (as_4 a) (128 - bits); rec = rec }))
    else Option.map (λ m. record b { v6m = m; networks = b.networks + 1 })
        (add6 b.v6m (record { start = a; last = last_v6 a bits; rec = rec }))

pub data RangeError : Type 0 where
  different_families first_above_last : RangeError

-- `AddRange` behind the two calls of `Unmap`.
unfoldable pub add_unmapped : Builder → NetAddr → NetAddr → ℕ → Result RangeError Builder
add_unmapped b (v4 f) (v4 l) rec =
    if ltb l f
    then err first_above_last
    else or_panic (
        Option.map (λ m. record b { v4m = m; networks = b.networks + 1 })
          (add b.v4m (record { start = f; last = l; rec = rec })))
add_unmapped b (v6 f) (v6 l) rec =
    if less16 l f
    then err first_above_last
    else or_panic (
        Option.map (λ m. record b { v6m = m; networks = b.networks + 1 })
          (add6 b.v6m (record { start = f; last = l; rec = rec })))
add_unmapped b f l rec = err different_families

unfoldable pub add_range : Builder → NetAddr → NetAddr → ℕ → Result RangeError Builder
add_range b first last rec = add_unmapped b (unmap first) (unmap last) rec
