-- ===== src/Build/EncodeStrings.antt =====
-- internal/build/encode.go: the string sections, `appendStrIdx` and `appendStrBlob`.
pub mod RoundTrip
use ip2geo.Base.{ℕ, ◌+◌, ◌%◌, ◌^◌, List, [], ◌∷◌, ◌++◌, length}
use ip2geo.Bytes.Table.{le_table}
use ip2geo.Build.Strings.{Str}

-- The offsets that the loop appends, from the offset `off` on, which wraps like uint32.
unfoldable pub str_offsets : ℕ → List Str → List ℕ
str_offsets off [] = []
str_offsets off (s ∷ ss) = let next = (off + length s) % 2 ^ 32 in next ∷ str_offsets next ss

unfoldable pub str_idx_bytes : List Str → List ℕ
str_idx_bytes strs = le_table 4 (0 ∷ str_offsets 0 strs)

unfoldable pub str_blob_bytes : List Str → List ℕ
str_blob_bytes [] = []
str_blob_bytes (s ∷ ss) = s ++ str_blob_bytes ss
