-- ===== src/Build/Encode4.antt =====
-- internal/build/encode.go: the IPv4 sections, `appendV4Idx`, `appendV4Starts` and `appendV4IDs`.
-- The loops over blocks and over the boundaries of a block are one loop over `items`.
pub mod Holds
pub mod EndToEnd
use ip2geo.Base.{
  ℕ, zero, suc, ◌+◌, ◌-◌, ◌*◌, ◌/◌, ◌%◌, ◌^◌, List, [], ◌∷◌, ◌++◌, replicate, ltb, if◌then◌else◌,
}
use ip2geo.Bytes.Table.{le_table}
use ip2geo.Format.RecordId.{id_table}
use ip2geo.Build.Blocks.{BlockList}
use ip2geo.Build.Blocks.Laws.{items}
use ip2geo.Build.Merge4.{Boundary4}
use ip2geo.Build.Merge4.Answer.{recs_of}

abbrev pub v4_idx_entries : ℕ
v4_idx_entries = 0x10001

-- The u32 values that `appendV4Idx` appends: `for ; g <= bd.start>>16; g++ { … i }` is so many
-- rounds as `g` lies below the bucket's end.
unfoldable pub v4_idx_words : ℕ → ℕ → List Boundary4 → List ℕ
v4_idx_words g i [] = replicate (v4_idx_entries - g) i
v4_idx_words g i (bd ∷ bs) =
    let next = bd.start / 2 ^ 16 + 1 in
    replicate (next - g) i ++ v4_idx_words (if ltb g next then next else g) (i + 1) bs

unfoldable pub v4_idx_bytes : BlockList Boundary4 → List ℕ
v4_idx_bytes l = le_table 4 (v4_idx_words 0 0 (items l))

abbrev pub low_halves : List Boundary4 → List ℕ
low_halves [] = []
low_halves (bd ∷ bs) = (bd.start % 2 ^ 16) ∷ low_halves bs

unfoldable pub v4_starts_bytes : BlockList Boundary4 → List ℕ
v4_starts_bytes l = le_table 2 (low_halves (items l))

unfoldable pub v4_ids_bytes : ℕ → BlockList Boundary4 → List ℕ
v4_ids_bytes width l = id_table width (recs_of (items l))
