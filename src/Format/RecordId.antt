-- ===== src/Format/RecordId.antt =====
-- internal/format/format.go: record ids, `IDWidth`, `Uint24`, `ReadID` and `AppendID`.
pub mod RoundTrip
use ip2geo.Base.{
  ℕ, suc, ◌+◌, ◌-◌, ◌*◌, ◌/◌, ◌%◌, ◌^◌, ◌||◌, Option, List, [], ◌∷◌, ◌++◌, drop, get_elem?, ltb,
  ◌==◌, if◌then◌else◌,
}
use ip2geo.Bytes.{le_bytes, le_uint, le_at}

-- `max := nRecords - 1` wraps only for 0, which is tested first.
unfoldable pub id_width : ℕ → ℕ
id_width n_records =
    let max = n_records - 1 in
    if n_records == 0 || ltb max (2 ^ 8)
    then 1
    else if ltb max (2 ^ 16)
    then 2
    else if ltb max (2 ^ 24)
    then 3
    else 4

-- `b[0] | b[1]<<8 | b[2]<<16`.
unfoldable pub uint24 : List ℕ → Option ℕ
uint24 b = le_uint 3 b

-- The three bytes that `PutUint24` stores.
unfoldable pub put_uint24 : ℕ → List ℕ
put_uint24 v = (v % 256) ∷ (v / 256 % 256) ∷ (v / 65536 % 256) ∷ []

unfoldable pub read_id : List ℕ → ℕ → ℕ → Option ℕ
unfolding uint24
read_id ids width i =
    if width == 1
    then get_elem? ids i
    else if width == 2
    then le_at 2 ids (i * 2)
    else if width == 3
    then uint24 (drop (i * 3) ids)
    else le_at 4 ids (i * 4)

-- What `AppendID` appends.
unfoldable pub id_bytes : ℕ → ℕ → List ℕ
id_bytes width id =
    if width == 1
    then (id % 256) ∷ []
    else if width == 2
    then le_bytes 2 (id % 2 ^ 16)
    else if width == 3
    then (id % 256) ∷ (id / 256 % 256) ∷ (id / 65536 % 256) ∷ []
    else le_bytes 4 id

-- `for … { b = format.AppendID(b, width, rec) }`.
unfoldable pub id_table : ℕ → List ℕ → List ℕ
id_table width [] = []
id_table width (id ∷ ids) = id_bytes width id ++ id_table width ids
