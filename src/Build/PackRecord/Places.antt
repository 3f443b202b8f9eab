-- ===== src/Build/PackRecord/Places.antt =====
-- Record `i` among the packed records of internal/build/encode.go's `appendRecords`.
use ip2geo.Base.{
  ℕ, zero, suc, ◌+◌, ◌*◌, ◌≤◌, ◌≡◌, refl, sym, ap, ◌∙◌, false, some, some_injective, List, [], ◌∷◌,
  ◌++◌, length, length-append, length-drop, length-take, get_elem?, take, drop, ltb, arith,
}
use native.Mathlib.Nat.{suc-mul}
use ip2geo.Bytes.Words.{le_words, drop_past}
use ip2geo.Format.Layout.{record_width}
use ip2geo.Geo2.CheckDirectory.{slice}
use ip2geo.Build.Record.{RecKey}
use ip2geo.Build.PackRecord.{pack_record, append_records}
use ip2geo.Build.PackRecord.Packed.{record_words, record_width-le, pack_record-record_words}

-- Record `i` stands at its place among the packed ones.
pub record_at :
    (p i : ℕ) (ks : List RecKey) (k : RecKey) (rec : List ℕ)
    → p ≤ 3
    → length rec ≡ 33
    → get_elem? ks i ≡ some k
    → (rest : List ℕ) × (drop (i * record_width p) (append_records p ks rec)
        ≡ le_words (record_words p k) ++ rest)
unfolding append_records
record_at p i [] k rec le size e = absurd (ground arith)
record_at p zero (j ∷ ks) k rec le size e =
    let (words, next) = pack_record-record_words p j rec le size in
    let same : record_words p j ≡ record_words p k = ap (record_words p) (some_injective e) in
    let none_before : 0 * record_width p ≡ 0 = omega arith in
    (
      append_records p ks (pack_record p j rec),
      ap (λ n. drop n (append_records p (j ∷ ks) rec)) none_before
          ∙ ap (λ l. l ++ append_records p ks (pack_record p j rec)) (words ∙ ap le_words same),
    )
record_at p (suc i) (j ∷ ks) k rec le size e =
    let (words, next) = pack_record-record_words p j rec le size in
    let (rest, found) = record_at p i ks k (pack_record p j rec) le next e in
    let w = record_width p in
    let len : length (take w (pack_record p j rec)) ≡ w =
      length-take {0} w (pack_record p j rec) (omega (arith, next, record_width-le p le)) in
    (
      rest,
      drop_past (take w (pack_record p j rec)) (append_records p ks (pack_record p j rec)) w (i * w)
            (suc i * w) (sym len) (suc-mul i w ∙ omega arith)
          ∙ found,
    )

pub slice_at :
    (b : List ℕ) (off n : ℕ) (xs rest : List ℕ)
    → drop off b ≡ xs ++ rest
    → 1 ≤ n
    → n ≤ length xs
    → slice b off n ≡ some (take n (xs ++ rest))
unfolding slice
slice_at b off n xs rest e pos le =
    let size : off + n ≤ length b =
      omega (arith, length-drop {0} off b, ap length e, length-append {0} xs rest) in
    let inside : ltb (length b) (off + n) ≡ false = ground arith in rw (inside, e) refl
