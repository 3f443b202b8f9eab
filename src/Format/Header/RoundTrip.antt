-- ===== src/Format/Header/RoundTrip.antt =====
-- `ParseHeader` and `Header.AppendTo` are inverse on the valid headers.
use ip2geo.Base.{
  ℕ, zero, suc, ◌≤◌, true, List, [], ◌∷◌, ◌++◌, length, take, drop, ◌≡◌, refl, ◌≢◌, arith, All,
  All-drop, replicate, ok, panic, some,
}
use ip2geo.Bytes.{IsByte, le_bytes, le_uint, le_at}
use ip2geo.Bytes.Laws.{le_uint-lt, le_uint_total, le_bytes-le_uint}
use ip2geo.Format.Header.{Header, IsHeader, header_bytes, parse_header, all_zero}

-- A header with fields in range is read back as it was written, whatever follows it.
pub parse_header-header_bytes :
    (h : Header) (rest : List ℕ) → IsHeader h → parse_header (header_bytes h ++ rest) ≡ ok h
unfolding parse_header header_bytes le_at le_uint le_bytes
parse_header-header_bytes h rest v = ground arith

all_zero-replicate :
    (n : ℕ) (b : List ℕ) → n ≤ length b → all_zero (take n b) ≡ true → take n b ≡ replicate n 0
unfolding all_zero
all_zero-replicate zero b h e = refl
all_zero-replicate (suc n) [] h e = absurd (omega arith)
all_zero-replicate (suc n) (x ∷ b) h e = ground (arith, all_zero-replicate n b)

module _ (m0 m1 m2 m3 vn p s w n : ℕ) (tail : List ℕ) (count : le_uint 4 tail ≡ some n) where
  abbrev input : List ℕ
  input = m0 ∷ m1 ∷ m2 ∷ m3 ∷ vn ∷ p ∷ s ∷ w ∷ tail

  abbrev decoded : Header
  decoded = record { profile = p; lat_scale = s; id_width = w; section_count = n }

  fixed_bytes :
      {h : Header}
      → parse_header input ≡ ok h
      → (m0 ≡ b'G') × (m1 ≡ b'E') × (m2 ≡ b'O') × (m3 ≡ b'2') × (vn ≡ 2)
  unfolding parse_header le_at
  fixed_bytes e = ground (arith, count)

  checked_fields :
      {h : Header}
      → parse_header input ≡ ok h
      → (h ≡ decoded) × (p ≤ 3) × (s ≤ 7) × (1 ≤ w) × (w ≤ 4)
  unfolding parse_header le_at
  checked_fields e = ground (arith, count)

  zero_tail :
      {h : Header}
      → parse_header input ≡ ok h
      → (24 ≤ length tail) × (all_zero (take 20 (drop 4 tail)) ≡ true)
  unfolding parse_header le_at
  zero_tail e = ground (arith, count)

-- A header that is accepted has fields in range and is 32 bytes, the very bytes written for it.
pub parse_header_canonical :
    (b : List ℕ) {h : Header}
    → All IsByte b
    → parse_header b ≡ ok h
    → IsHeader h × (take 32 b ≡ header_bytes h)
unfolding header_bytes
parse_header_canonical (m0 ∷ m1 ∷ m2 ∷ m3 ∷ vn ∷ p ∷ s ∷ w ∷ n0 ∷ n1 ∷ n2 ∷ n3 ∷ rest) v e =
    let tail : List ℕ = n0 ∷ n1 ∷ n2 ∷ n3 ∷ rest in
    let bytes : All IsByte tail = All-drop IsByte 8 (m0 ∷ m1 ∷ m2 ∷ m3 ∷ vn ∷ p ∷ s ∷ w ∷ tail) v in
    let (n, en) = le_uint_total 4 tail (omega arith) in
    let (e0, e1, e2, e3, e4) = fixed_bytes m0 m1 m2 m3 vn p s w n tail en e in
    let (eh, hp, hs, w1, w4) = checked_fields m0 m1 m2 m3 vn p s w n tail en e in
    let (long, zeros) = zero_tail m0 m1 m2 m3 vn p s w n tail en e in
    let word : le_bytes 4 n ≡ n0 ∷ n1 ∷ n2 ∷ n3 ∷ [] = le_bytes-le_uint 4 tail n bytes en in
    rw eh (
      record {
        profile_known = hp;
        scale_fits = hs;
        width_pos = w1;
        width_le = w4;
        count_fits = le_uint-lt 4 tail n bytes en;
      },
      rw (word, e0, e1, e2, e3, e4, all_zero-replicate 20 rest (omega arith) zeros) refl,
    )
parse_header_canonical _ v e = unfold parse_header le_at le_uint in absurd (ground arith)

-- An input of any length is answered, never with a panic.
pub parse_header-ne-panic : (b : List ℕ) → parse_header b ≢ panic
unfolding parse_header le_at le_uint
parse_header-ne-panic (m0 ∷ m1 ∷ m2 ∷ m3 ∷ vn ∷ p ∷ s ∷ w ∷ n0 ∷ n1 ∷ n2 ∷ n3 ∷ rest) = ground arith
parse_header-ne-panic _ = ground arith
