-- ===== src/Build/EncodeStrings/RoundTrip.antt =====
-- The reader's strings are those of the builder.
use ip2geo.Base.{
  ℕ, suc, ◌+◌, ◌-◌, ◌*◌, ◌/◌, ◌%◌, ◌^◌, ◌<◌, ◌≡◌, refl, sym, ap, ◌∙◌, true, false, some, List, [],
  ◌∷◌, ◌++◌, All, length, length-append, get_elem?, drop, drop-append, take-append, ltb, arith, ok,
  >>=-ok, refuse_if-ok,
}
use mathlib.Core.Option
use mathlib.Core.List.{append_assoc}
use ip2geo.Bytes.{le_at}
use ip2geo.Bytes.Table.{le_table, length-le_table, le_at-le_table}
use ip2geo.Build.Strings.{
  Str, too_many_strings, string_too_long, max_u16_strings, max_strings, max_str_blob, blob_size,
  check_string_counts, check_string_table,
}
use ip2geo.Build.EncodeStrings.{str_offsets, str_idx_bytes, str_blob_bytes}
use ip2geo.Geo2.CheckStrings.{slice_from, heap_string, heap_strings_from, heap_strings}

blob_size-length :
    (ss : List Str) (n blob : ℕ) → blob_size ss n ≡ ok blob → blob ≡ n + length (str_blob_bytes ss)
unfolding blob_size str_blob_bytes
blob_size-length [] n blob e = ground arith
blob_size-length (s ∷ ss) n blob e =
    let (a, e1) = refuse_if-ok (ltb 0xffff (length s)) string_too_long _ e in
    omega
      (arith, blob_size-length ss (n + length s) blob e1, length-append {0} s (str_blob_bytes ss))

check_string_table-length :
    (ss : List Str) (n : ℕ) → check_string_table ss n ≡ ok tt → length (str_blob_bytes ss) < 2 ^ 32
unfolding check_string_table check_string_counts
check_string_table-length ss n e =
    let (blob, p, e1) = >>=-ok (blob_size ss 0) _ e in
    let (a, e2) = refuse_if-ok (ltb max_u16_strings n) too_many_strings _ e1 in
    let (b, e3) = refuse_if-ok (ltb max_strings (length ss)) too_many_strings _ e2 in
    let c : ltb max_str_blob blob ≡ false = ground arith in
    ground (arith, blob_size-length ss 0 blob p)

length-str_offsets : (off : ℕ) (ss : List Str) → length (str_offsets off ss) ≡ length ss
unfolding str_offsets
length-str_offsets off [] = refl
length-str_offsets off (s ∷ ss) = ap suc (length-str_offsets ((off + length s) % 2 ^ 32) ss)

str_offsets-IsU32 : (off : ℕ) (ss : List Str) → All (λ v. v < 256 ^ 4) (str_offsets off ss)
unfolding str_offsets
str_offsets-IsU32 off [] = tt
str_offsets-IsU32 off (s ∷ ss) = (omega arith, str_offsets-IsU32 ((off + length s) % 2 ^ 32) ss)

-- A slice of the blob between two offsets of the table.
heap_string-append :
    (front s rest : List ℕ)
    → heap_string (front ++ (s ++ rest)) (length front) (length front + length s) ≡ some s
unfolding heap_string slice_from
heap_string-append front [] rest =
    let t : ltb (length front) (length front + 0) ≡ false = ground arith in rw t
heap_string-append front (c ∷ s) rest =
    let n = length front in
    let m = length {A = ℕ} (c ∷ s) in
    let t : ltb n (n + m) ≡ true = ground arith in
    let u : ltb (n + m) n ≡ false = ground arith in
    let v : ltb (length (front ++ ((c ∷ s) ++ rest))) (n + m) ≡ false =
      ground (arith, length-append {0} front ((c ∷ s) ++ rest), length-append {0} (c ∷ s) rest) in
    let d : drop n (front ++ ((c ∷ s) ++ rest)) ≡ (c ∷ s) ++ rest =
      drop-append front ((c ∷ s) ++ rest) n refl in
    rw (t, u, v, d) (ap some (take-append {0} (c ∷ s) rest (n + m - n) (omega arith)))

heap_strings_from-offsets :
    (idx : List ℕ) (front : List ℕ) (ss : List Str) (i : ℕ)
    → le_at 4 idx (i * 4) ≡ some (length front)
    → ((j : ℕ)
        → j < length ss
        → le_at 4 idx ((i + 1 + j) * 4) ≡ get_elem? (str_offsets (length front) ss) j)
    → length front + length (str_blob_bytes ss) < 2 ^ 32
    → heap_strings_from idx (front ++ str_blob_bytes ss) (length ss) i ≡ some ss
unfolding heap_strings_from str_offsets str_blob_bytes Option.bind
heap_strings_from-offsets idx front [] i here next few = refl
heap_strings_from-offsets idx front (s ∷ ss) i here next few =
    let len = length-append {0} s (str_blob_bytes ss) in
    let small : (length front + length s) % 2 ^ 32 ≡ length (front ++ s) =
      omega (arith, length-append {0} front s) in
    let end : le_at 4 idx (i * 4 + 4) ≡ some (length front + length s) =
      ap (le_at 4 idx) (omega arith) ∙ next 0 (omega arith) ∙ ap some (omega arith) in
    let next' : le_at 4 idx ((i + 1) * 4) ≡ some (length (front ++ s)) =
      ap (le_at 4 idx) (omega arith) ∙ end ∙ ap some (omega (arith, length-append {0} front s)) in
    let rest =
      heap_strings_from-offsets idx (front ++ s) ss (i + 1) next'
        (λ j lt.
          ap (le_at 4 idx) (omega arith)
          ∙ next (suc j) (omega arith)
          ∙ ap (λ o. get_elem? (str_offsets o ss) j) small)
        (omega (arith, length-append {0} front s)) in
    rw (here, end, heap_string-append front s (str_blob_bytes ss))
      (ap (Option.map (λ rest. s ∷ rest)) (
        ap (λ b. heap_strings_from idx b (length ss) (i + 1))
          (sym (append_assoc front s (str_blob_bytes ss)))
        ∙ rest))

-- The reader gets back the strings that the builder wrote, when they pass the builder's limits.
pub heap_strings-str_idx_bytes :
    (ss : List Str) (n_u16 : ℕ)
    → check_string_table ss n_u16 ≡ ok tt
    → heap_strings (str_idx_bytes ss) (str_blob_bytes ss) ≡ some ss
unfolding heap_strings str_idx_bytes
heap_strings-str_idx_bytes ss n_u16 e =
    let ws = str_offsets 0 ss in
    let u32 : All (λ v. v < 256 ^ 4) (0 ∷ ws) = (omega arith, str_offsets-IsU32 0 ss) in
    let k : length (le_table 4 (0 ∷ ws)) / 4 - 1 ≡ length ss =
      omega (arith, length-le_table 4 (0 ∷ ws), length-str_offsets 0 ss) in
    rw k (
      heap_strings_from-offsets (le_table 4 (0 ∷ ws)) [] ss 0
        (le_at-le_table 4 (0 ∷ ws) 0 u32 (omega arith))
        (λ j lt.
          ap (le_at 4 (le_table 4 (0 ∷ ws))) (omega arith)
          ∙ le_at-le_table 4 (0 ∷ ws) (suc j) u32 (omega (arith, length-str_offsets 0 ss)))
        (omega (arith, check_string_table-length ss n_u16 e)))
