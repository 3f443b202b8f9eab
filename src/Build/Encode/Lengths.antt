-- ===== src/Build/Encode/Lengths.antt =====
-- The length that `encode` computes for each section is that of its content.
use ip2geo.Base.{
  ℕ, zero, suc, ◌+◌, ◌*◌, ◌%◌, ◌^◌, ◌≤◌, ◌≡◌, refl, sym, ap, ◌∙◌, some, List, [], ◌∷◌, length,
  length-append, length-take, get_elem?, take, drop, All, arith, bind-some, map-some,
  some_injective, subst, All-get_elem?,
}
use ip2geo.Bytes.{le_bytes}
use ip2geo.Bytes.Table.{length-le_table}
use ip2geo.Format.Layout.{record_width}
use ip2geo.Format.RecordId.{id_bytes, id_table, put_uint24, uint24}
use ip2geo.Build.Strings.{Str}
use ip2geo.Build.Record.{RecKey}
use ip2geo.Build.PackRecord.{put, pack_record, append_records}
use ip2geo.Build.PackRecord.Packed.{pack_record-record_words, length-put, record_width-le}
use ip2geo.Build.EncodeStrings.{str_offsets, str_idx_bytes, str_blob_bytes}
use ip2geo.Build.XTable.{XTable, renumber, entry_bytes}
use ip2geo.Build.Encode.{blob_len, x_records_bytes}

length-id_bytes : (w id : ℕ) → 1 ≤ w → w ≤ 4 → length (id_bytes w id) ≡ w
unfolding id_bytes le_bytes
length-id_bytes zero id lo hi = absurd (omega arith)
length-id_bytes (suc zero) id lo hi = refl
length-id_bytes (suc (suc zero)) id lo hi = refl
length-id_bytes (suc (suc (suc zero))) id lo hi = refl
length-id_bytes (suc (suc (suc (suc zero)))) id lo hi = refl
length-id_bytes (suc (suc (suc (suc (suc w))))) id lo hi = absurd (omega arith)

pub length-id_table :
    (w : ℕ) (ids : List ℕ) → 1 ≤ w → w ≤ 4 → length (id_table w ids) ≡ length ids * w
unfolding id_table
length-id_table w [] lo hi = omega arith
length-id_table w (id ∷ ids) lo hi = omega (
  arith,
  length-append {0} (id_bytes w id) (id_table w ids),
  length-id_bytes w id lo hi,
  length-id_table w ids lo hi,
)

length-str_offsets : (off : ℕ) (ss : List Str) → length (str_offsets off ss) ≡ length ss
unfolding str_offsets
length-str_offsets off [] = refl
length-str_offsets off (s ∷ ss) = ap suc (length-str_offsets ((off + length s) % 2 ^ 32) ss)

pub length-str_idx_bytes : (ss : List Str) → length (str_idx_bytes ss) ≡ 4 * (length ss + 1)
unfolding str_idx_bytes
length-str_idx_bytes ss =
    omega (arith, length-le_table 4 (0 ∷ str_offsets 0 ss), length-str_offsets 0 ss)

pub length-str_blob_bytes : (ss : List Str) → length (str_blob_bytes ss) ≡ blob_len ss
unfolding str_blob_bytes blob_len
length-str_blob_bytes [] = refl
length-str_blob_bytes (s ∷ ss) =
    omega (arith, length-append {0} s (str_blob_bytes ss), length-str_blob_bytes ss)

pub length-append_records :
    (p : ℕ) (ks : List RecKey) (rec : List ℕ)
    → p ≤ 3
    → length rec ≡ 33
    → length (append_records p ks rec) ≡ length ks * record_width p
unfolding append_records
length-append_records p [] rec le size = omega arith
length-append_records p (k ∷ ks) rec le size =
    let (words, next) = pack_record-record_words p k rec le size in
    omega (
      arith,
      length-append {0} (take (record_width p) (pack_record p k rec))
          (append_records p ks (pack_record p k rec)),
      length-take {0} (record_width p) (pack_record p k rec)
          (omega (arith, next, record_width-le p le)),
      length-append_records p ks (pack_record p k rec) le next,
    )

length-renumber :
    (offs remap e : List ℕ) {e' : List ℕ}
    → All (λ o. o + 3 ≤ length e) offs
    → renumber offs remap e ≡ some e'
    → length e' ≡ length e
unfolding renumber put_uint24
length-renumber [] remap e fit h = ap length (sym (some_injective h))
length-renumber (o ∷ offs) remap e fit h =
    let (v, read, h1) = bind-some (uint24 (drop o e)) _ h in
    let (w, found, h2) = bind-some (get_elem? remap v) _ h1 in
    let same = length-put o (put_uint24 w) e (omega (arith, fit.0)) in
    length-renumber offs remap (put o (put_uint24 w) e)
      (subst (λ n. All (λ o. o + 3 ≤ n) offs) (sym same) fit.1) h2
    ∙ same

-- The entries have the layout's width, in which the string ids lie.
pub record IsXTable (t : XTable) : Type 0 where
  pub entries_fit : All (λ e. length e ≡ t.layout.width) t.entries
  pub offs_fit : All (λ o. o + 3 ≤ t.layout.width) t.str_offs

pub length-x_records_bytes :
    (t : XTable) (remap : List ℕ) (ks : List RecKey) {b : List ℕ}
    → IsXTable t
    → x_records_bytes t remap ks ≡ some b
    → length b ≡ length ks * t.layout.width
unfolding x_records_bytes entry_bytes
length-x_records_bytes t remap [] v h = omega (arith, ap length (sym (some_injective h)))
length-x_records_bytes t remap (k ∷ ks) v h =
    let (e, written, h1) = bind-some (entry_bytes t k.ext remap) _ h in
    let (rest, next, same) = map-some _ (x_records_bytes t remap ks) h1 in
    let (old, found, done) = bind-some (get_elem? t.entries k.ext) _ written in
    let width : length old ≡ t.layout.width =
      All-get_elem? _ t.entries k.ext old v.entries_fit found in
    let len =
      length-renumber t.str_offs remap old
        (subst (λ n. All (λ o. o + 3 ≤ n) t.str_offs) (sym width) v.offs_fit) done in
    omega (
      arith,
      ap length same,
      length-append {0} e rest,
      len,
      width,
      length-x_records_bytes t remap ks v next,
    )
