-- ===== src/Bytes.antt =====
-- Go's encoding/binary on byte slices: little-endian words of `w` bytes, which the GEO2 sections
-- are made of. `none` is the panic of a read past the slice.
pub mod Laws
pub mod Words
pub mod Table
use ip2geo.Base.{ℕ, zero, suc, ◌+◌, ◌*◌, ◌/◌, ◌%◌, ◌<◌, Option, none, some, List, [], ◌∷◌, drop}
use mathlib.Core.Option

abbrev pub IsByte : ℕ → Type 0
IsByte b = b < 256

-- The bytes that `AppendUint16`, `AppendUint32` and `AppendUint64` append: those of the low `w`
-- bytes of `v`, lowest first.
unfoldable pub le_bytes : ℕ → ℕ → List ℕ
le_bytes zero v = []
le_bytes (suc w) v = (v % 256) ∷ le_bytes w (v / 256)

-- `Uint16(b)`, `Uint32(b)`, `Uint64(b)`: the word in the first `w` bytes.
unfoldable pub le_uint : ℕ → List ℕ → Option ℕ
le_uint zero b = some 0
le_uint (suc w) [] = none
le_uint (suc w) (x ∷ b) = Option.map (λ r. x + 256 * r) (le_uint w b)

-- The word at byte offset `off`: `Uint16(b[off:])`.
unfoldable pub le_at : ℕ → List ℕ → ℕ → Option ℕ
le_at w b off = le_uint w (drop off b)
