-- ===== src/Format/RecordId/RoundTrip.antt =====
-- Ids of the minimal width are read back as they were written.
use ip2geo.Base.{
  ℕ, zero, suc, ◌+◌, ◌*◌, ◌^◌, ◌≤◌, ◌<◌, ◌≡◌, refl, ap, ◌∙◌, ◌⊎◌, inl, inr, some, List, [], ◌∷◌,
  arith, All, length, get_elem?,
}
use native.Mathlib.Nat.{mul-one}
use ip2geo.Bytes.{le_bytes, le_uint, le_at}
use ip2geo.Bytes.Laws.{le_at_total}
use ip2geo.Bytes.Table.{le_table, le_at-le_table}
use ip2geo.Format.RecordId.{id_width, read_id, id_bytes, id_table}

pub id_width_range : (n : ℕ) → (1 ≤ id_width n) × (id_width n ≤ 4)
unfolding id_width
id_width_range n = ground arith

id_width-cases :
    (n : ℕ)
    → n ≤ 2 ^ 32
    → ((id_width n ≡ 1) × (n ≤ 256))
      ⊎ ((id_width n ≡ 2) × (256 < n) × (n ≤ 256 ^ 2))
      ⊎ ((id_width n ≡ 3) × (256 ^ 2 < n) × (n ≤ 256 ^ 3))
      ⊎ ((id_width n ≡ 4) × (256 ^ 3 < n))
unfolding id_width
id_width-cases n h = ground arith

pow-lt : (k w n : ℕ) → k ≤ 3 → 256 ^ k < n → 1 ≤ w → w ≤ k → 256 ^ w < n
pow-lt k zero n hk h lo hi = absurd (omega arith)
pow-lt zero (suc w) n hk h lo hi = absurd (omega arith)
pow-lt (suc zero) (suc zero) n hk h lo hi = h
pow-lt (suc (suc zero)) (suc zero) n hk h lo hi = omega arith
pow-lt (suc (suc zero)) (suc (suc zero)) n hk h lo hi = h
pow-lt (suc (suc (suc zero))) (suc zero) n hk h lo hi = omega arith
pow-lt (suc (suc (suc zero))) (suc (suc zero)) n hk h lo hi = omega arith
pow-lt (suc (suc (suc zero))) (suc (suc (suc zero))) n hk h lo hi = h
pow-lt k w n hk h lo hi = absurd (omega arith)

-- The width is enough for every id below `n`, and no smaller width is.
pub id_width_minimal :
    (n : ℕ) → n ≤ 2 ^ 32 → (n ≤ 256 ^ id_width n) × ((w : ℕ) → 1 ≤ w → w < id_width n → 256 ^ w < n)
id_width_minimal n h = elim (id_width-cases n h) [
  | inl (e, le) ↦ rw e (le, λ w lo hi. absurd (omega arith))
  | inr (inl (e, lt, le)) ↦ rw e (le, λ w lo hi. pow-lt 1 w n (omega arith) lt lo (omega arith))
  | inr (inr (inl (e, lt, le))) ↦
      rw e (le, λ w lo hi. pow-lt 2 w n (omega arith) lt lo (omega arith))
  | inr (inr (inr (e, lt))) ↦
      rw e (omega arith, λ w lo hi. pow-lt 3 w n (omega arith) lt lo (omega arith))
]

id_bytes-le_bytes : (w id : ℕ) → 1 ≤ w → w ≤ 4 → id < 256 ^ w → id_bytes w id ≡ le_bytes w id
unfolding id_bytes le_bytes
id_bytes-le_bytes zero id lo hi h = absurd (omega arith)
id_bytes-le_bytes (suc zero) id lo hi h = refl
id_bytes-le_bytes (suc (suc zero)) id lo hi h = ground arith
id_bytes-le_bytes (suc (suc (suc zero))) id lo hi h = ground arith
id_bytes-le_bytes (suc (suc (suc (suc zero)))) id lo hi h = refl
id_bytes-le_bytes (suc (suc (suc (suc (suc w))))) id lo hi h = absurd (omega arith)

le_at_byte : (ids : List ℕ) (i : ℕ) → get_elem? ids i ≡ le_at 1 ids i
unfolding le_at le_uint
le_at_byte [] zero = refl
le_at_byte [] (suc i) = refl
le_at_byte (x ∷ ids) zero = ap some (omega arith)
le_at_byte (x ∷ ids) (suc i) = le_at_byte ids i

pub read_id-le_at : (ids : List ℕ) (w i : ℕ) → 1 ≤ w → w ≤ 4 → read_id ids w i ≡ le_at w ids (i * w)
unfolding read_id
read_id-le_at ids zero i lo hi = absurd (omega arith)
read_id-le_at ids (suc zero) i lo hi = rw (mul-one i) (le_at_byte ids i)
read_id-le_at ids (suc (suc zero)) i lo hi = refl
read_id-le_at ids (suc (suc (suc zero))) i lo hi = unfold le_at in refl
read_id-le_at ids (suc (suc (suc (suc zero)))) i lo hi = refl
read_id-le_at ids (suc (suc (suc (suc (suc w))))) i lo hi = absurd (omega arith)

-- An id within the section is read.
pub read_id_total :
    (ids : List ℕ) (w i : ℕ)
    → 1 ≤ w
    → w ≤ 4
    → i * w + w ≤ length ids
    → (id : ℕ) × (read_id ids w i ≡ some id)
read_id_total ids w i lo hi size =
    let (id, e) = le_at_total w ids (i * w) size in (id, read_id-le_at ids w i lo hi ∙ e)

id_table-le_table :
    (w : ℕ) (ids : List ℕ)
    → 1 ≤ w
    → w ≤ 4
    → All (λ id. id < 256 ^ w) ids
    → id_table w ids ≡ le_table w ids
unfolding id_table le_table
id_table-le_table w [] lo hi h = refl
id_table-le_table w (id ∷ ids) lo hi h =
    rw (id_bytes-le_bytes w id lo hi h.0, id_table-le_table w ids lo hi h.1)

-- Reading id `i` of a section of ids of any width that fits them gives the id that was appended.
pub read_id-id_table :
    (w : ℕ) (ids : List ℕ) (i : ℕ)
    → 1 ≤ w
    → w ≤ 4
    → All (λ id. id < 256 ^ w) ids
    → i < length ids
    → read_id (id_table w ids) w i ≡ get_elem? ids i
read_id-id_table w ids i lo hi h lt =
    read_id-le_at (id_table w ids) w i lo hi
    ∙ rw (id_table-le_table w ids lo hi h) (le_at-le_table w ids i h lt)

All-weaken : (n m : ℕ) (ids : List ℕ) → n ≤ m → All (λ id. id < n) ids → All (λ id. id < m) ids
All-weaken n m [] h a = tt
All-weaken n m (id ∷ ids) h a = (omega (arith, a.0), All-weaken n m ids h a.1)

-- The width that the header records for `n` records serves every id below `n`.
pub read_id-id_width :
    (n : ℕ) (ids : List ℕ) (i : ℕ)
    → n ≤ 2 ^ 32
    → All (λ id. id < n) ids
    → i < length ids
    → read_id (id_table (id_width n) ids) (id_width n) i ≡ get_elem? ids i
read_id-id_width n ids i hn h lt =
    let (lo, hi) = id_width_range n in
    read_id-id_table (id_width n) ids i lo hi
      (All-weaken n (256 ^ id_width n) ids (id_width_minimal n hn).0 h) lt
