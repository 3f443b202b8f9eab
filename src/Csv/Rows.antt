-- ===== src/Csv/Rows.antt =====
-- csvdb/reader.go: `reader`, which turns the rows of a CSV source into records and ranges of a build.
pub mod Separate
pub mod Bounds
pub mod Keys
pub mod Data
pub mod Ids
pub mod Fed
pub mod Lines
use ip2geo.Base.{
  ℕ, zero, suc, ◌+◌, ◌-◌, ◌*◌, ◌/◌, ◌%◌, ◌^◌, Bool, true, false, ◌&&◌, ◌||◌, not, Option, none,
  some, List, [], ◌∷◌, ◌++◌, length, get_elem?, leb, ltb, ◌==◌, Result, ok, err, panic, ◌>>=◌, ◌>>◌,
  refuse_if, or_panic, if◌then◌else◌,
}
use ip2geo.Format.Header.{bytes_eq}
use ip2geo.Format.XLayout.{has_field, field_postal}
use ip2geo.Build.Strings.{Str, lookup}
use ip2geo.Build.Record.{Record}
use ip2geo.Build.Merge6.{be_bytes}
use ip2geo.Build.Builder.{Builder, NetAddr, v4, v6, RangeError, add_record, add_range}
use ip2geo.Csv.Number.{parse_uint32, parse_uint128}
use ip2geo.Csv.Scan.{SplitError, split, trim_line}
use ip2geo.Csv.Layout.{Layout}
use ip2geo.Csv.Ranges.{IpAddr, ipv4, ipv6, less_addr, is_4, unread, IpRange, parts_of}

-- ErrSyntax, by what is wrong with the row.
pub data RowError : Type 0 where
  bad_line : SplitError → RowError
  bad_range : RangeError → RowError
  wrong_columns bad_address bad_number number_above_v4 mixed_families descending : RowError
  out_of_order bad_as_number half_location bad_latitude bad_longitude overlapping : RowError

-- `reader` without the scanner; `prev4` and `prev6` are `prev`, and an address that is not set yet is
-- `none`. `rec` and `key` do not outlive a row.
pub record Rows : Type 0 where
  pub l : Layout
  pub b : Builder
  pub v6_file : Bool
  pub profile : ℕ
  pub fields : ℕ
  pub key_cols : List ℕ
  pub ids : List (Str × ℕ)
  pub prev4 : Option IpAddr
  pub prev6 : Option IpAddr
  pub end4 : Option IpAddr
  pub end6 : Option IpAddr

-- `add` of `newReader`, and its list of columns.
unfoldable pub present_cols : List ℕ → List ℕ
present_cols [] = []
present_cols (c ∷ cs) = let rest = present_cols cs in if c == 0 then rest else c ∷ rest

unfoldable pub key_cols_of : Layout → ℕ → ℕ → List ℕ
key_cols_of l profile fields =
    if profile == 3
    then present_cols (l.as_num ∷ l.as_org ∷ [])
    else present_cols (l.continent ∷ l.country ∷ l.country_name ∷ [])
      ++ ((if leb 1 profile then present_cols (l.region ∷ []) else [])
          ++ (if leb 2 profile
              then present_cols (l.city ∷ l.lat ∷ l.lon ∷ [])
                ++ (if has_field fields field_postal then present_cols (l.postal ∷ []) else [])
              else []))

-- `newReader`.
unfoldable pub new_rows : Layout → Builder → Bool → Rows
new_rows l b v6_file = record {
  l = l;
  b = b;
  v6_file = v6_file;
  profile = b.opts.profile;
  fields = b.opts.fields;
  key_cols = key_cols_of l b.opts.profile b.opts.fields;
  ids = [];
  prev4 = none;
  prev6 = none;
  end4 = none;
  end6 = none;
}

-- `r.sc.row[c]`.
abbrev pub cell : List Str → ℕ → Result RowError Str
cell row c = or_panic (get_elem? row c)

-- `endsAboveV4`.
unfoldable pub ends_above_v4 : List Str → Result RowError Bool
ends_above_v4 row = cell row 1 >>= λ f. ok (go (parse_uint128 f))
  where
    go : Option (ℕ × ℕ) → Bool
    go none = false
    go (some (hi, lo)) = not (hi == 0) || ltb (2 ^ 32 - 1) lo

-- `value`; `none` is nil.
unfoldable pub value_of : Layout → Str → Option Str
value_of l [] = none
value_of l (c ∷ v) = if l.dash && bytes_eq (c ∷ v) (b'-' ∷ []) then none else some (c ∷ v)

unfoldable pub value : Layout → List Str → ℕ → Result RowError (Option Str)
value l row c = if c == 0 then ok none else (cell row c >>= λ v. ok (value_of l v))

-- `str` of `fill`.
abbrev pub str_of : Option Str → Str
str_of none = []
str_of (some v) = v

abbrev pub text : Layout → List Str → ℕ → Result RowError Str
text l row c = value l row c >>= λ v. ok (str_of v)

unfoldable pub decimal_addr : Bool → Str → Result RowError IpAddr
decimal_addr v6_file f = go (parse_uint128 f)
  where
    go : Option (ℕ × ℕ) → Result RowError IpAddr
    go none = err bad_number
    go (some (hi, lo)) =
        if v6_file
        then ok (ipv6 (hi * 2 ^ 64 + lo))
        else if not (hi == 0) || ltb (2 ^ 32 - 1) lo
        then err number_above_v4
        else ok (ipv4 lo)

-- `parse_addr` is netip.ParseAddr, with a zone refused.
module _ (parse_addr : Str → Option IpAddr) where
  unfoldable pub text_addr : Str → Result RowError IpAddr
  text_addr f = go (parse_addr f)
    where
      go : Option IpAddr → Result RowError IpAddr
      go none = err bad_address
      go (some a) = ok a

  -- `addr`.
  unfoldable pub row_addr : Rows → List Str → ℕ → Result RowError IpAddr
  row_addr r row c =
      cell row c >>= λ f. if r.l.decimal then decimal_addr r.v6_file f else text_addr f

  -- `bounds`.
  unfoldable pub bounds : Rows → List Str → Result RowError IpRange
  bounds r row = do
    first ← row_addr r row 0
    last ← row_addr r row 1
    refuse_if (not (is_4 first && is_4 last) && (is_4 first || is_4 last)) mixed_families
    refuse_if (less_addr last first) descending
    ok (record { first = first; last = last })

-- The test of an address that is set: `p.IsValid() && !p.Less(first)`.
abbrev pub not_below : Option IpAddr → IpAddr → Bool
not_below none first = false
not_below (some p) first = not (less_addr p first)

abbrev pub to_net : IpAddr → NetAddr
to_net (ipv4 a) = v4 a
to_net (ipv6 a) = v6 (be_bytes 16 a)

abbrev pub added : Result RangeError Builder → Result RowError Builder
added (ok b) = ok b
added (err e) = err (bad_range e)
added panic = panic

-- `addRange`.
unfoldable pub add_part : Rows → IpRange → ℕ → Result RowError Rows
add_part r part rec = do
  refuse_if (not_below (if is_4 part.first then r.end4 else r.end6) part.first) overlapping
  b ← added (add_range r.b (to_net part.first) (to_net part.last) rec)
  ok (
      if is_4 part.first
      then record r { b = b; end4 = some part.last }
      else record r { b = b; end6 = some part.last })

-- `add`, over the ranges that it passes on.
unfoldable pub add_parts : Rows → List IpRange → ℕ → Result RowError Rows
add_parts r [] rec = ok r
add_parts r (part ∷ parts) rec = add_part r part rec >>= λ r'. add_parts r' parts rec

-- `binary.AppendUvarint`: seven bits a byte, the lowest first, ten bytes at most.
unfoldable pub uvarint : ℕ → ℕ → List ℕ
uvarint zero v = []
uvarint (suc left) v =
    let rest = uvarint left (v / 2 ^ 7) in if ltb v 0x80 then v ∷ [] else (v % 2 ^ 7 + 2 ^ 7) ∷ rest

-- `r.key`.
unfoldable pub row_key : List ℕ → List Str → Result RowError Str
row_key [] row = ok []
row_key (c ∷ cs) row = do
  f ← cell row c
  rest ← row_key cs row
  ok (uvarint 10 (length f) ++ (f ++ rest))

-- `keyCol`, and `none` of the layout in it.
unfoldable pub without_data : Layout → List Str → Result RowError Bool
without_data l row =
    if length l.none_key == 0
    then ok false
    else cell row (if l.asn then l.as_num else l.country) >>= λ f. ok (bytes_eq f l.none_key)

-- `F` is float64; `parse_float` is strconv.ParseFloat, `within` is `math.Abs(x) <= bound`, and `empty`
-- is build.Record{}.
module _ {F : Type 0} (parse_float : Str → Option F) (within : F → ℕ → Bool)
    (empty : Record F) where
  unfoldable pub degrees_of : RowError → ℕ → Str → Result RowError F
  degrees_of e bound s = go (parse_float s)
    where
      go : Option F → Result RowError F
      go none = err e
      go (some x) = if within x bound then ok x else err e

  -- The coordinates, when the row has both.
  unfoldable pub fill_location : Option Str → Option Str → Record F → Result RowError (Record F)
  fill_location none none rec = ok rec
  fill_location none (some lon) rec = err half_location
  fill_location (some lat) none rec = err half_location
  fill_location (some lat) (some lon) rec = do
    y ← degrees_of bad_latitude 90 lat
    x ← degrees_of bad_longitude 180 lon
    ok (record rec {
      location = record (rec.location) { latitude = y; longitude = x; has_coordinates = true };
    })

  -- The AS number of no text fails like an empty one.
  unfoldable pub fill_asn : Layout → List Str → Result RowError (Record F)
  fill_asn l row = do n ← text l row l.as_num; go (parse_uint32 n)
    where
      go : Option ℕ → Result RowError (Record F)
      go none = err bad_as_number
      go (some v) = text l row l.as_org >>= λ org.
          ok (record empty { asn = record { number = v; organization = org } })

  unfoldable pub fill_country : Layout → List Str → Result RowError (Record F)
  fill_country l row = do
    nm ← text l row l.country_name
    cont ← text l row l.continent
    iso ← text l row l.country
    ok (record empty {
      continent = record (empty.continent) { code = cont };
      country = record (empty.country) { iso_code = iso; names = nm ∷ [] };
    })

  unfoldable pub fill_region : Layout → List Str → Record F → Result RowError (Record F)
  fill_region l row rec = do
    nm ← text l row l.region
    ok (record rec { subdivision0 = record (rec.subdivision0) { names = nm ∷ [] } })

  unfoldable pub fill_city : Rows → List Str → Record F → Result RowError (Record F)
  fill_city r row rec = do
    nm ← text r.l row r.l.city
    postal ←
        (if has_field r.fields field_postal then text r.l row r.l.postal else ok rec.postal_code)
    lat ← value r.l row r.l.lat
    lon ← value r.l row r.l.lon
    fill_location lat lon
        (record rec { city = record (rec.city) { names = nm ∷ [] }; postal_code = postal })

  -- `fill`.
  unfoldable pub fill : Rows → List Str → Result RowError (Record F)
  fill r row = if r.profile == 3 then fill_asn r.l row else do
    rec ← fill_country r.l row
    rec' ← (if leb 1 r.profile then fill_region r.l row rec else ok rec)
    (if leb 2 r.profile then fill_city r row rec' else ok rec')

  module _ (parse_addr : Str → Option IpAddr) (rounded : F → ℕ) where
    -- The record id of the row's key, recording its data when the key is new.
    unfoldable pub id_of : Rows → List Str → Result RowError (ℕ × Rows)
    id_of r row = row_key r.key_cols row >>= λ k. go k (lookup r.ids k)
      where
        go : Str → Option ℕ → Result RowError (ℕ × Rows)
        go k (some id) = ok (id, r)
        go k none = fill r row >>= λ rec. ok (
            let (id, b) = add_record rounded rec r.b in
            (id, record r { b = b; ids = (k, id) ∷ r.ids }))

    -- `row`.
    unfoldable pub add_row : Rows → List Str → Result RowError Rows
    add_row r row = do
      refuse_if (not (length row == r.l.cols)) wrong_columns
      rg ← bounds parse_addr r row
      refuse_if (not_below (if is_4 rg.first then r.prev4 else r.prev6) rg.first) out_of_order
      let r1 : Rows =
          if is_4 rg.first
          then record r { prev4 = some rg.last }
          else record r { prev6 = some rg.last }
      skip ← without_data r.l row
      (if skip || unread rg.first rg.last
          then ok r1
          else (id_of r1 row >>= λ p. add_parts p.1 (parts_of rg.first rg.last) p.0))

    -- The loop of `readSource`, over the lines of the file; a blank line is skipped.
    unfoldable pub add_line : Rows → Str → Result RowError Rows
    add_line r [] = ok r
    add_line r (c ∷ line) = go (split (c ∷ line))
      where
        go : Result SplitError (List Str) → Result RowError Rows
        go (ok row) = add_row r row
        go (err e) = err (bad_line e)
        go panic = panic

    unfoldable pub add_lines : Rows → List Str → Result RowError Rows
    add_lines r [] = ok r
    add_lines r (line ∷ lines) = add_line r (trim_line line) >>= λ r'. add_lines r' lines
