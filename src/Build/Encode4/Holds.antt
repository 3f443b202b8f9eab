-- ===== src/Build/Encode4/Holds.antt =====
-- The IPv4 sections that the builder writes hold its boundaries, as the reader wants them.
use ip2geo.Base.{
  ℕ, zero, suc, ◌+◌, ◌-◌, ◌*◌, ◌/◌, ◌%◌, ◌^◌, ◌≤◌, ◌<◌, ◌≡◌, refl, sym, ap, ◌∙◌, subst, some, List,
  [], ◌∷◌, arith, length, length-replicate, get_elem?, replicate, ltb, if◌then◌else◌, All,
  Tabulates, Tabulates-append,
}
use ip2geo.Bytes.Table.{length-le_table, le_at-le_table}
use ip2geo.Build.Blocks.{BlockList}
use ip2geo.Build.Blocks.Laws.{items}
use ip2geo.Build.Merge4.{Boundary4}
use ip2geo.Build.Merge4.Answer.{IsAscending, starts_of}
use ip2geo.Build.Encode4.{v4_idx_entries, v4_idx_words, v4_idx_bytes, low_halves, v4_starts_bytes}
use ip2geo.Reader.Count.{count_below, count_below_zero, count_below-le, ◌!◌}
use ip2geo.Reader.Search4.Sections.{HoldsStarts}
use ip2geo.Reader.Search4.Lookup.{IsAscending-IsRising}

Tabulates-replicate :
    (f : ℕ → ℕ) (n x : ℕ) → ((j : ℕ) → j < n → f j ≡ x) → Tabulates f n (replicate n x)
Tabulates-replicate f n x h = record {
  size = length-replicate n x;
  entry = λ j lt. at_ n j lt ∙ ap some (sym (h j lt));
}
  where
    at_ : (n j : ℕ) → j < n → get_elem? (replicate n x) j ≡ some x
    at_ zero j lt = absurd (omega arith)
    at_ (suc n) zero lt = refl
    at_ (suc n) (suc j) lt = at_ n j (omega arith)

-- Entry `g` counts the boundaries below bucket `g`.
v4_idx_words-count :
    (bs : List Boundary4) (lo g i : ℕ)
    → IsAscending lo bs
    → All (λ b. b.start < 2 ^ 32) bs
    → g ≤ v4_idx_entries
    → Tabulates
        (λ j. i + count_below (starts_of bs) ((g + j) * 2 ^ 16))
        (v4_idx_entries - g)
        (v4_idx_words g i bs)
unfolding v4_idx_words count_below
v4_idx_words-count [] lo g i asc fits hg =
    Tabulates-replicate _ (v4_idx_entries - g) i (λ j lt. omega arith)
v4_idx_words-count (b ∷ bs) lo g i asc fits hg =
    let next = b.start / 2 ^ 16 + 1 in
    let g' : ℕ = if ltb g next then next else g in
    let rest =
      v4_idx_words-count bs (b.start + 1) g' (i + 1) asc.1 fits.1 (ground (arith, fits.0)) in
    let size : (next - g) + (v4_idx_entries - g') ≡ v4_idx_entries - g = ground (arith, fits.0) in
    let f : ℕ → ℕ = λ j. i + count_below (starts_of (b ∷ bs)) ((g + j) * 2 ^ 16) in
    subst (λ (n : ℕ). Tabulates f n (v4_idx_words g i (b ∷ bs))) size
      (Tabulates-append (λ j. i) (λ j. i + 1 + count_below (starts_of bs) ((g' + j) * 2 ^ 16)) f
        (next - g) (v4_idx_entries - g') _ _
        (Tabulates-replicate (λ j. i) (next - g) i (λ j lt. refl)) rest (λ j lt. before j lt)
        (λ j lt. after j))
  where
    before :
        (j : ℕ)
        → j < b.start / 2 ^ 16 + 1 - g
        → i ≡ i + count_below (starts_of (b ∷ bs)) ((g + j) * 2 ^ 16)
    before j lt = ground (
      arith,
      count_below_zero (b.start + 1) (starts_of bs) ((g + j) * 2 ^ 16)
          (IsAscending-IsRising (b.start + 1) bs asc.1),
    )

    same_key :
        (j : ℕ)
        → ((if ltb g (b.start / 2 ^ 16 + 1) then b.start / 2 ^ 16 + 1 else g) + j) * 2 ^ 16
          ≡ (g + (b.start / 2 ^ 16 + 1 - g + j)) * 2 ^ 16
    same_key j = ground arith

    after :
        (j : ℕ)
        → i
            + 1
            + count_below
                (starts_of bs)
                (((if ltb g (b.start / 2 ^ 16 + 1) then b.start / 2 ^ 16 + 1 else g) + j) * 2 ^ 16)
          ≡ i + count_below (starts_of (b ∷ bs)) ((g + (b.start / 2 ^ 16 + 1 - g + j)) * 2 ^ 16)
    after j = rw (same_key j) (ground arith)

All_of_entries :
    (f : ℕ → ℕ) (n m : ℕ) (xs : List ℕ)
    → Tabulates f n xs
    → ((j : ℕ) → f j < m)
    → All (λ v. v < m) xs
All_of_entries f n m [] t h = tt
All_of_entries f n m (x ∷ xs) t h =
    let head : some x ≡ some (f 0) = t.entry 0 (omega (arith, t.size)) in
    (
      ground (arith, h 0),
      All_of_entries (λ j. f (suc j)) (length xs) m xs
          (record { size = refl; entry = λ j lt. t.entry (suc j) (omega (arith, t.size)) })
          (λ j. h (suc j)),
    )

length-low_halves : (bs : List Boundary4) → length (low_halves bs) ≡ length (starts_of bs)
length-low_halves [] = refl
length-low_halves (b ∷ bs) = ap suc (length-low_halves bs)

low_halves-IsU16 : (bs : List Boundary4) → All (λ v. v < 256 ^ 2) (low_halves bs)
low_halves-IsU16 [] = tt
low_halves-IsU16 (b ∷ bs) = (omega arith, low_halves-IsU16 bs)

get_elem?-low_halves :
    (bs : List Boundary4) (i : ℕ)
    → i < length (starts_of bs)
    → get_elem? (low_halves bs) i ≡ some (starts_of bs ! i % 2 ^ 16)
get_elem?-low_halves [] i lt = absurd (omega arith)
get_elem?-low_halves (b ∷ bs) zero lt = refl
get_elem?-low_halves (b ∷ bs) (suc i) lt = get_elem?-low_halves bs i (omega arith)

starts-lt :
    (bs : List Boundary4) (i : ℕ)
    → All (λ b. b.start < 2 ^ 32) bs
    → i < length (starts_of bs)
    → starts_of bs ! i < 2 ^ 32
starts-lt [] i h lt = absurd (omega arith)
starts-lt (b ∷ bs) zero h lt = h.0
starts-lt (b ∷ bs) (suc i) h lt = starts-lt bs i h.1 (omega arith)

-- The sections hold the starts of the boundaries.
pub v4_sections-HoldsStarts :
    (l : BlockList Boundary4)
    → IsAscending 0 (items l)
    → All (λ b. b.start < 2 ^ 32) (items l)
    → length (starts_of (items l)) < 2 ^ 32
    → HoldsStarts (v4_idx_bytes l) (v4_starts_bytes l) (starts_of (items l))
unfolding v4_idx_bytes v4_starts_bytes
v4_sections-HoldsStarts l asc fits many =
    let bs = items l in
    let words = v4_idx_words 0 0 bs in
    let f : ℕ → ℕ = λ j. 0 + count_below (starts_of bs) ((0 + j) * 2 ^ 16) in
    let t : Tabulates f v4_idx_entries words = v4_idx_words-count bs 0 0 0 asc fits (omega arith) in
    let u32 : All (λ v. v < 256 ^ 4) words =
      All_of_entries f v4_idx_entries (256 ^ 4) words t
        (λ j. omega (arith, count_below-le (starts_of bs) ((0 + j) * 2 ^ 16))) in
    record {
      rising = IsAscending-IsRising 0 bs asc;
      fits = λ i lt. starts-lt bs i fits lt;
      size = length-le_table 2 (low_halves bs) ∙ ap (λ n. n * 2) (length-low_halves bs);
      low_half = λ i lt.
          le_at-le_table 2 (low_halves bs) i (low_halves-IsU16 bs)
            (omega (arith, length-low_halves bs))
          ∙ get_elem?-low_halves bs i lt;
      bucket = λ g le.
          le_at-le_table 4 words g u32 (omega (arith, t.size)) ∙ t.entry g (omega arith) ∙ entry g;
    }
  where
    entry :
        (g : ℕ)
        → some (0 + count_below (starts_of (items l)) ((0 + g) * 2 ^ 16))
          ≡ some (count_below (starts_of (items l)) (g * 2 ^ 16))
    entry g = let e : 0 + g ≡ g = omega arith in rw e (ap some (omega arith))

pub length-v4_idx_bytes :
    (l : BlockList Boundary4)
    → IsAscending 0 (items l)
    → All (λ b. b.start < 2 ^ 32) (items l)
    → length (v4_idx_bytes l) ≡ 4 * v4_idx_entries
unfolding v4_idx_bytes
length-v4_idx_bytes l asc fits =
    let t = v4_idx_words-count (items l) 0 0 0 asc fits (omega arith) in
    omega (arith, length-le_table 4 (v4_idx_words 0 0 (items l)), t.size)

pub length-v4_starts_bytes :
    (l : BlockList Boundary4) → length (v4_starts_bytes l) ≡ 2 * length (starts_of (items l))
unfolding v4_starts_bytes
length-v4_starts_bytes l =
    omega (arith, length-le_table 2 (low_halves (items l)), length-low_halves (items l))
