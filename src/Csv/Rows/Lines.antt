-- ===== src/Csv/Rows/Lines.antt =====
-- The loop of `readSource` (csvdb/csvdb.go) over the lines of a CSV source.
use ip2geo.Base.{
  ℕ, ◌≡◌, refl, sym, ap, Bool, Option, some, List, [], ◌∷◌, ◌++◌, ok, arith, ◌||◌, false,
  if◌then◌else◌,
}
use ip2geo.Build.Strings.{Str, lookup}
use ip2geo.Build.Strings.Ids.{IsInterner}
use ip2geo.Build.Record.{Record}
use ip2geo.Build.Merge4.{Range4, new_merger4, add_all}
use ip2geo.Build.Builder.{Builder}
use ip2geo.Build.Builder.Records.{IsBuilder}
use ip2geo.Csv.Scan.{split, trim_line}
use ip2geo.Csv.Layout.{Layout}
use ip2geo.Csv.Ranges.{IpAddr, IpRange, unread, parts_of}
use ip2geo.Csv.Rows.{Rows, new_rows, bounds, without_data}
use ip2geo.Csv.Rows.Bounds.{InFamily}
use ip2geo.Csv.Rows.Separate.{frame, networks_of}
use ip2geo.Csv.Rows.Ids.{KeepsIds, IsReading, IsRowId}

module _ {F : Type 0} (parse_float : Str → Option F) (within : F → ℕ → Bool) (empty : Record F)
    (rounded : F → ℕ) where
  pub new_rows-IsReading :
      (l : Layout) (b : Builder) (v6_file : Bool)
      → IsBuilder b
      → IsInterner b.strs
      → b.v4m ≡ new_merger4
      → IsReading parse_float within empty rounded (new_rows l b v6_file)
  unfolding new_rows add_all lookup
  new_rows-IsReading l b v6_file h strings e = record {
    fed = record {
      networks = [];
      merged = ap some (sym e);
      valid = tt;
      separate = tt;
      below = refl;
    };
    builder = h;
    strings = strings;
    profile = refl;
    cols = refl;
    issued = λ k v found. absurd (ground arith);
  }

  module _ (parse_addr : Str → Option IpAddr) where
    -- The networks `ns` of a line for the reader `r`: none of a blank line, of a row without data or of
    -- one in an unread block, else the IPv4 ranges of the row, for the id of the row's data.
    pub record IsRowOf (r : Rows) (line : Str) (ns : List Range4) : Type 0 where
      pub row : List Str
      pub fields : split line ≡ ok row
      pub range : IpRange
      pub bounded : bounds parse_addr r row ≡ ok range
      pub skip : Bool
      pub tested : without_data r.l row ≡ ok skip
      pub id : ℕ
      pub identified :
          (skip || unread range.first range.last) ≡ false
          → IsRowId parse_float within empty rounded r row id
      pub networks : ns ≡ (
          if skip || unread range.first range.last
          then []
          else networks_of (parts_of range.first range.last) id)

    abbrev pub LineNetworks : Rows → Str → List Range4 → Type 0
    LineNetworks r [] ns = ns ≡ []
    LineNetworks r (c ∷ line) ns = IsRowOf r (c ∷ line) ns

    -- The networks of a file are those of its lines, in order.
    abbrev pub FileNetworks : Rows → List Str → List Range4 → Type 0
    FileNetworks r [] rs = rs ≡ []
    FileNetworks r (line ∷ lines) rs =
        (ns : List Range4) × (rest : List Range4) × (rs ≡ ns ++ rest)
        × LineNetworks r (trim_line line) ns
        × FileNetworks r lines rest

    -- What a later reader keeps of this one.
    record Later (r r' : Rows) : Type 0 where
      same_frame : frame r' ≡ frame r
      kept_ids : KeepsIds r r'

    module _ (in_family : (s : Str) (a : IpAddr) → parse_addr s ≡ some a → InFamily a) where
      -- A line leaves the reader with its networks after those that it had, whatever comes later.
      record IsLine (r : Rows) (old : List Range4) (line : Str) (r' : Rows) : Type 0 where
        reading : IsReading parse_float within empty rounded r'
        later : Later r r'
        ns : List Range4
        appended : reading.fed.networks ≡ old ++ ns
        lined :
            (last : Rows)
            → IsReading parse_float within empty rounded last
            → Later r' last
            → LineNetworks last line ns

      record IsRead (r : Rows) (old : List Range4) (lines : List Str) (r' : Rows) : Type 0 where
        reading : IsReading parse_float within empty rounded r'
        later : Later r r'
        rs : List Range4
        appended : reading.fed.networks ≡ old ++ rs
        file : FileNetworks r' lines rs
