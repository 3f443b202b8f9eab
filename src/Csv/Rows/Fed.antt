-- ===== src/Csv/Rows/Fed.antt =====
-- `add_row` on the networks, records and keys of the reader (csvdb/reader.go).
use ip2geo.Base.{
  ℕ, ◌≡◌, refl, sym, ap, subst, ◌∙◌, Bool, true, false, ◌&&◌, ◌||◌, not, Option, some, List, [],
  ◌++◌, get_elem?, ok, if◌then◌else◌,
}
use ip2geo.Build.Blocks.Laws.{items, IsBlocks}
use ip2geo.Build.Strings.{Str, lookup}
use ip2geo.Build.Strings.Ids.{IsInterner}
use ip2geo.Build.Record.{Record}
use ip2geo.Build.Record.Key.{Names}
use ip2geo.Build.Merge4.{Range4}
use ip2geo.Build.Merge4.Answer.{record_of}
use ip2geo.Csv.Ranges.Covered.{holds4}
use ip2geo.Build.Builder.Records.{IsNumbering}
use ip2geo.Csv.Ranges.{IpAddr, unread, IpRange, parts_of}
use ip2geo.Csv.Rows.{Rows, key_cols_of, bounds, without_data}
use ip2geo.Csv.Rows.Bounds.{InFamily}
use ip2geo.Csv.Rows.Separate.{IsStep, networks_of, frame}
use ip2geo.Csv.Rows.Ids.{Moves, KeepsIds, IsReading, IsRowId, IsIssued-Moves}

module _ (parse_addr : Str → Option IpAddr)
    (in_family : (s : Str) (a : IpAddr) → parse_addr s ≡ some a → InFamily a) where
  module _ {F : Type 0} (parse_float : Str → Option F) (within : F → ℕ → Bool) (empty : Record F)
      (rounded : F → ℕ) where
    -- What an accepted row does. Unless it is one without data or in an unread block, its IPv4
    -- ranges, whole, are the networks added after those of `old`, for the id of the row's data.
    pub record IsRow (r : Rows) (old : List Range4) (row : List Str) (r' : Rows) : Type 0 where
      pub reading : IsReading parse_float within empty rounded r'
      pub same_frame : frame r' ≡ frame r
      pub kept_ids : KeepsIds r r'
      pub range : IpRange
      pub bounded : bounds parse_addr r row ≡ ok range
      pub skip : Bool
      pub tested : without_data r.l row ≡ ok skip
      pub id : ℕ
      pub identified :
          (skip || unread range.first range.last) ≡ false
          → IsRowId parse_float within empty rounded r' row id
      pub networks :
          reading.fed.networks
          ≡ old
            ++ (if skip || unread range.first range.last
                then []
                else networks_of (parts_of range.first range.last) id)
      pub answers :
          (key : ℕ)
          → record_of reading.fed.networks key ≡ (
              if not (skip || unread range.first range.last)
                && holds4 (parts_of range.first range.last) key
              then id
              else record_of old key)

    advanced :
        (r : Rows) (c : Bool) (last : IpAddr) (h : IsReading parse_float within empty rounded r)
        → IsReading parse_float within empty rounded
            (if c then record r { prev4 = some last } else record r { prev6 = some last })
    advanced r true last h =
        let next : Rows = record r { prev4 = some last } in
        let moves : Moves r next = record {
          same_frame = refl;
          kept_strings = λ i t e. e;
          kept_records = λ i t e. e;
        } in
        record {
          fed = record {
            networks = h.fed.networks;
            merged = h.fed.merged;
            valid = h.fed.valid;
            separate = h.fed.separate;
            below = h.fed.below;
          };
          builder = h.builder;
          strings = h.strings;
          profile = h.profile;
          cols = h.cols;
          issued = λ k v e.
              IsIssued-Moves parse_float within empty rounded r next k v moves (h.issued k v e);
        }
    advanced r false last h =
        let next : Rows = record r { prev6 = some last } in
        let moves : Moves r next = record {
          same_frame = refl;
          kept_strings = λ i t e. e;
          kept_records = λ i t e. e;
        } in
        record {
          fed = record {
            networks = h.fed.networks;
            merged = h.fed.merged;
            valid = h.fed.valid;
            separate = h.fed.separate;
            below = h.fed.below;
          };
          builder = h.builder;
          strings = h.strings;
          profile = h.profile;
          cols = h.cols;
          issued = λ k v e.
              IsIssued-Moves parse_float within empty rounded r next k v moves (h.issued k v e);
        }

    abbrev set_prev : Rows → Bool → IpAddr → Rows
    set_prev r c last = if c then record r { prev4 = some last } else record r { prev6 = some last }

    stepped :
        {old : List Range4} {parts : List IpRange} {rec : ℕ} (a c : Rows)
        → IsReading parse_float within empty rounded a
        → IsStep old parts rec a c
        → IsReading parse_float within empty rounded c
    stepped a c ra st =
        let moves : Moves a c = record {
          same_frame = st.same_frame;
          kept_strings = λ i t e. subst (λ strs. Names strs i t) (sym st.same_strs) e;
          kept_records = λ i t e. ap (λ l. get_elem? (items l) i) st.same_recs ∙ e;
        } in
        record {
          fed = st.fed;
          builder = record {
            blocks = subst IsBlocks (sym st.same_recs) ra.builder.blocks;
            numbering =
                subst (λ l. IsNumbering l (items c.b.recs)) (sym st.same_keys)
                  (subst (λ l. IsNumbering a.b.keys (items l)) (sym st.same_recs)
                    ra.builder.numbering);
          };
          strings = subst IsInterner (sym st.same_strs) ra.strings;
          profile =
              ap (λ o. o.profile) st.same_opts ∙ ra.profile ∙ sym (ap (λ f. f.2) st.same_frame);
          cols =
              ap (λ f. f.4) st.same_frame
              ∙ ra.cols
              ∙ sym (ap (λ f. key_cols_of f.0 f.2 f.3) st.same_frame);
          issued = λ k v found.
              IsIssued-Moves parse_float within empty rounded a c k v moves
                (ra.issued k v (ap (λ l. lookup l k) (sym st.same_ids) ∙ found));
        }
