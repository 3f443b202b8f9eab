-- ===== src/Build/Encode6.antt =====
-- internal/build/encode.go: the IPv6 sections, `v6Halves`, `countExceptions`, `appendV6Starts`,
-- `appendV6IDs`, `appendExcIdx` and `appendExcLo`, over the boundaries in the order of the blocks.
use ip2geo.Base.{
  ℕ, suc, ◌+◌, ◌%◌, ◌^◌, List, [], ◌∷◌, take, drop, length, ◌==◌, if◌then◌else◌, ◌≡◌, refl, ap,
  arith,
}
use ip2geo.Bytes.Table.{le_table}
use ip2geo.Format.RecordId.{id_table}
use ip2geo.Build.Merge6.{Boundary6, be_uint}

unfoldable pub v6_hi : Boundary6 → ℕ
v6_hi b = be_uint (take 8 b.start) 0

unfoldable pub v6_lo : Boundary6 → ℕ
v6_lo b = be_uint (drop 8 b.start) 0

unfoldable pub count_exceptions : List Boundary6 → ℕ
count_exceptions [] = 0
count_exceptions (b ∷ bs) = let n = count_exceptions bs in if v6_lo b == 0 then n else suc n

abbrev pub high_halves : List Boundary6 → List ℕ
high_halves [] = []
high_halves (b ∷ bs) = v6_hi b ∷ high_halves bs

unfoldable pub v6_starts_bytes : List Boundary6 → List ℕ
v6_starts_bytes bs = le_table 8 (high_halves bs)

abbrev pub recs6_of : List Boundary6 → List ℕ
recs6_of [] = []
recs6_of (b ∷ bs) = b.rec ∷ recs6_of bs

unfoldable pub v6_ids_bytes : ℕ → List Boundary6 → List ℕ
v6_ids_bytes width bs = id_table width (recs6_of bs)

-- The indices of the boundaries with a low half, counted from `n`, which wraps like uint32.
unfoldable pub exc_idx_words : List Boundary6 → ℕ → List ℕ
exc_idx_words [] n = []
exc_idx_words (b ∷ bs) n =
    let rest = exc_idx_words bs ((n + 1) % 2 ^ 32) in if v6_lo b == 0 then rest else n ∷ rest

unfoldable pub exc_idx_bytes : List Boundary6 → List ℕ
exc_idx_bytes bs = le_table 4 (exc_idx_words bs 0)

unfoldable pub exc_lo_words : List Boundary6 → List ℕ
exc_lo_words [] = []
exc_lo_words (b ∷ bs) = let rest = exc_lo_words bs in if v6_lo b == 0 then rest else v6_lo b ∷ rest

unfoldable pub exc_lo_bytes : List Boundary6 → List ℕ
exc_lo_bytes bs = le_table 8 (exc_lo_words bs)

pub length-exc_idx_words :
    (bs : List Boundary6) (n : ℕ) → length (exc_idx_words bs n) ≡ count_exceptions bs
unfolding exc_idx_words count_exceptions
length-exc_idx_words [] n = refl
length-exc_idx_words (b ∷ bs) n = ground (arith, length-exc_idx_words bs ((n + 1) % 2 ^ 32))

pub length-exc_lo_words : (bs : List Boundary6) → length (exc_lo_words bs) ≡ count_exceptions bs
unfolding exc_lo_words count_exceptions
length-exc_lo_words [] = refl
length-exc_lo_words (b ∷ bs) = ground (arith, length-exc_lo_words bs)

pub length-high_halves : (bs : List Boundary6) → length (high_halves bs) ≡ length bs
length-high_halves [] = refl
length-high_halves (b ∷ bs) = ap suc (length-high_halves bs)

pub length-recs6_of : (bs : List Boundary6) → length (recs6_of bs) ≡ length bs
length-recs6_of [] = refl
length-recs6_of (b ∷ bs) = ap suc (length-recs6_of bs)
