-- ===== src/Build/Encode.antt =====
-- internal/build/encode.go: the first half of `encode`, the list of the sections with their lengths
-- and contents, and `buildResult` of build.go.
pub mod Order
pub mod Lengths
pub mod File
pub mod Lookup
use ip2geo.Base.{
  ℕ, suc, ◌+◌, ◌*◌, Bool, true, false, Option, none, some, List, [], ◌∷◌, ◌++◌, length, replicate,
  ltb, Result, ◌>>=◌, or_panic,
}
use mathlib.Core.Option
use ip2geo.Bytes.{le_bytes}
use ip2geo.Bytes.Table.{le_table}
use ip2geo.Format.Header.{Header}
use ip2geo.Format.Layout.{
  record_width, rec_width_city, sec_meta, sec_str_idx, sec_str_blob, sec_records, sec_v4_idx,
  sec_v4_starts, sec_v4_ids, sec_v6_starts, sec_v6_ids, sec_v6_exc_idx, sec_v6_exc_lo, sec_x_fields,
  sec_x_records, sec_langs,
}
use ip2geo.Format.Meta.{Meta, meta_size, meta_bytes}
use ip2geo.Format.RecordId.{id_width}
use ip2geo.Build.Blocks.{BlockList}
use ip2geo.Build.Blocks.Laws.{items}
use ip2geo.Build.Strings.{Str}
use ip2geo.Build.Record.{RecKey}
use ip2geo.Build.PackRecord.{append_records}
use ip2geo.Build.Merge4.{Boundary4}
use ip2geo.Build.Merge6.{Boundary6}
use ip2geo.Build.Encode4.{v4_idx_entries, v4_idx_bytes, v4_starts_bytes, v4_ids_bytes}
use ip2geo.Build.Encode6.{
  count_exceptions, v6_starts_bytes, v6_ids_bytes, exc_idx_bytes, exc_lo_bytes,
}
use ip2geo.Build.EncodeStrings.{str_idx_bytes, str_blob_bytes}
use ip2geo.Build.XTable.{XTable, entry_bytes}
use ip2geo.Build.Assemble.{Section, EncodeError, assemble}

-- `langs` is empty with one language.
pub record BuildResult : Type 0 where
  pub strs : List Str
  pub recs : BlockList RecKey
  pub v4b : BlockList Boundary4
  pub v6b : BlockList Boundary6
  pub meta : Meta
  pub x : Option XTable
  pub remap : List ℕ
  pub langs : List ℕ

-- `for _, s := range br.strs { blob += uint64(len(s)) }`: the strings are in memory.
unfoldable pub blob_len : List Str → ℕ
blob_len [] = 0
blob_len (s ∷ ss) = length s + blob_len ss

-- `appendXRecords`.
unfoldable pub x_records_bytes : XTable → List ℕ → List RecKey → Option (List ℕ)
unfolding Option.bind
x_records_bytes t remap [] = some []
x_records_bytes t remap (k ∷ ks) =
    Option.bind (entry_bytes t k.ext remap)
      λ e. Option.map (λ rest. e ++ rest) (x_records_bytes t remap ks)

abbrev pub section : ℕ → ℕ → List ℕ → Section
section id len content = record { id = id; len = len; content = content }

unfoldable pub base_sections : ℕ → BuildResult → List Section
base_sections profile br =
    let id_w = id_width br.recs.n in
    section sec_meta meta_size (meta_bytes br.meta)
    ∷ section sec_str_idx (4 * (length br.strs + 1)) (str_idx_bytes br.strs)
    ∷ section sec_str_blob (blob_len br.strs) (str_blob_bytes br.strs)
    ∷ section sec_records (br.recs.n * record_width profile)
        (append_records profile (items br.recs) (replicate rec_width_city 0))
    ∷ section sec_v4_idx (4 * v4_idx_entries) (v4_idx_bytes br.v4b)
    ∷ section sec_v4_starts (2 * br.v4b.n) (v4_starts_bytes br.v4b)
    ∷ section sec_v4_ids (br.v4b.n * id_w) (v4_ids_bytes id_w br.v4b)
    ∷ section sec_v6_starts (8 * br.v6b.n) (v6_starts_bytes (items br.v6b))
    ∷ section sec_v6_ids (br.v6b.n * id_w) (v6_ids_bytes id_w (items br.v6b))
    ∷ []

-- `if nExc > 0`.
unfoldable pub exc_sections : List Boundary6 → List Section
exc_sections bs = go (ltb 0 (count_exceptions bs))
  where
    go : Bool → List Section
    go false = []
    go true =
        section sec_v6_exc_idx (4 * count_exceptions bs) (exc_idx_bytes bs)
        ∷ section sec_v6_exc_lo (8 * count_exceptions bs) (exc_lo_bytes bs)
        ∷ []

-- `if x := br.x; x != nil`; `none` is an index out of range.
unfoldable pub x_sections : BuildResult → Option XTable → Option (List Section)
x_sections br none = some []
x_sections br (some t) =
    Option.map
      (λ content.
        section sec_x_fields 8 (le_bytes 4 t.fields ++ le_bytes 4 0)
        ∷ section sec_x_records (br.recs.n * t.layout.width) content
        ∷ [])
      (x_records_bytes t br.remap (items br.recs))

-- `if len(br.langs) > 0`.
unfoldable pub lang_sections : List ℕ → List Section
lang_sections [] = []
lang_sections (l ∷ ls) = section sec_langs (4 * length (l ∷ ls)) (le_table 4 (l ∷ ls)) ∷ []

unfoldable pub sections_of : ℕ → BuildResult → Option (List Section)
sections_of profile br =
    Option.map
      (λ xs.
        base_sections profile br ++ (exc_sections (items br.v6b) ++ (xs ++ lang_sections br.langs)))
      (x_sections br br.x)

-- `profile` and `lat_scale` are those of the options.
unfoldable pub encode : ℕ → ℕ → ℕ → BuildResult → Result EncodeError (List ℕ)
encode max_int profile lat_scale br = do
  secs ← or_panic (sections_of profile br)
  let hdr : Header = record {
    profile = profile;
    lat_scale = lat_scale;
    id_width = id_width br.recs.n;
    section_count = 0;
  }
  assemble max_int hdr secs
