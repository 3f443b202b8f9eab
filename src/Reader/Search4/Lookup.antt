-- ===== src/Reader/Search4/Lookup.antt =====
-- `search4` and `start4` over tables that hold a list of boundaries.
use ip2geo.Base.{
  ℕ, zero, suc, ◌+◌, ◌-◌, ◌*◌, ◌/◌, ◌%◌, ◌^◌, ◌≤◌, ◌<◌, ◌≡◌, refl, sym, ap, ◌∙◌, some, List, [],
  ◌∷◌, arith, length, get_elem?, get_elem?-eq-get_or, ltb, leb, ◌==◌, true, false, if◌then◌else◌,
  Bool-cases, inl, inr,
}
use mathlib.Core.Option
use native.Mathlib.Decide.{dec_le}
use ip2geo.Bytes.{le_at}
use ip2geo.Build.Merge4.{Boundary4}
use ip2geo.Build.Merge4.Answer.{answer, answer_from, answer_below, IsAscending, starts_of, recs_of}
use ip2geo.Reader.Bisect.{bisect_lem}
use ip2geo.Reader.Count.{
  IsRising, count_below, count_below_zero, ◌!◌, below_count, above_count, count_below-le,
  count_below_mono,
}
use ip2geo.Reader.Search4.{Tables4, build_index4, window_search, search4, bucket4, start4}
use ip2geo.Reader.Search4.Sections.{HoldsStarts, HoldsIds}
use ip2geo.Reader.Search4.Index.{index4_table-count}

pub IsAscending-IsRising :
    (lo : ℕ) (bs : List Boundary4) → IsAscending lo bs → IsRising lo (starts_of bs)
IsAscending-IsRising lo [] h = tt
IsAscending-IsRising lo (b ∷ bs) h = (h.0, IsAscending-IsRising (b.start + 1) bs h.1)

pub length-starts_of : (bs : List Boundary4) → length (starts_of bs) ≡ length (recs_of bs)
length-starts_of [] = refl
length-starts_of (b ∷ bs) = ap suc (length-starts_of bs)

-- The answer is the record of the boundary before the first one above the key.
unfoldable pub record_before : ℕ → List Boundary4 → ℕ → ℕ → ℕ
record_before acc bs key c = if c == 0 then acc else recs_of bs ! (c - 1)

record_before_suc :
    (acc : ℕ) (b : Boundary4) (bs : List Boundary4) (key c : ℕ)
    → record_before acc (b ∷ bs) key (1 + c) ≡ record_before b.rec bs key c
unfolding record_before
record_before_suc acc b bs key zero = refl
record_before_suc acc b bs key (suc c) =
    let e : 1 + suc c ≡ suc (suc c) = omega arith in
    let p : suc (suc c) - 1 ≡ suc c = omega arith in
    let q : suc c - 1 ≡ c = omega arith in rw (e, p, q) (ground arith)

pub answer_from-count :
    (acc lo : ℕ) (bs : List Boundary4) (key : ℕ)
    → IsAscending lo bs
    → answer_from acc bs key ≡ record_before acc bs key (count_below (starts_of bs) (key + 1))
unfolding count_below
answer_from-count acc lo [] key h = unfold record_before in refl
answer_from-count acc lo (b ∷ bs) key h = elim (dec_le b.start key) [
  | yes le ↦
      let t : leb b.start key ≡ true = ground arith in
      let u : ltb b.start (key + 1) ≡ true = ground arith in
      rw (t, u)
        (answer_from-count b.rec (b.start + 1) bs key h.1
          ∙ sym (record_before_suc acc b bs key (count_below (starts_of bs) (key + 1))))
  | no gt ↦
      let t : leb b.start key ≡ false = ground arith in
      let u : ltb b.start (key + 1) ≡ false = ground arith in
      let z : count_below (starts_of bs) (key + 1) ≡ 0 =
        count_below_zero (b.start + 1) (starts_of bs) (key + 1)
          (IsAscending-IsRising (b.start + 1) bs h.1) (omega arith) in
      rw (t, u, z)
        (answer_below key acc (b.start + 1) bs h.1 (omega arith) ∙ unfold record_before in refl)
]

module _ (r : Tables4) (bs : List Boundary4) (asc : IsAscending 0 bs) where
  abbrev starts : List ℕ
  starts = starts_of bs

  module _ (h : HoldsStarts r.v4idx r.v4starts starts) where
    -- In the key's window the test on the low halves decides as the whole starts do.
    window_test :
        (key i : ℕ)
        → key < 2 ^ 32
        → count_below starts (key / 2 ^ 12 * 2 ^ 12) ≤ i
        → i < count_below starts ((key / 2 ^ 12 + 1) * 2 ^ 12)
        → Option.map (λ v. ltb (key % 2 ^ 16) v) (le_at 2 r.v4starts (i * 2))
          ≡ some (leb (count_below starts (key + 1)) i)
    window_test key i hk lo hi =
        let len : i < length starts =
          omega (arith, count_below-le starts ((key / 2 ^ 12 + 1) * 2 ^ 12)) in
        let p = above_count 0 starts (key / 2 ^ 12 * 2 ^ 12) i h.rising lo len in
        let q = below_count 0 starts ((key / 2 ^ 12 + 1) * 2 ^ 12) i h.rising hi in
        rw (h.low_half i len) (
          ap some (
            ground (
              arith,
              below_count 0 starts (key + 1) i h.rising,
              above_count 0 starts (key + 1) i h.rising,
            )))

    pub window_search-count :
        (key : ℕ)
        → key < 2 ^ 32
        → ((g : ℕ) → g ≤ 2 ^ 20 → get_elem? r.lo4 g ≡ some (count_below starts (g * 2 ^ 12)))
        → window_search r key ≡ some (count_below starts (key + 1))
    unfolding window_search
    window_search-count key hk table =
        rw (table (key / 2 ^ 12) (omega arith), table (key / 2 ^ 12 + 1) (omega arith))
          (bisect_lem _ (count_below starts (key + 1)) _ _ (λ i lo hi. window_test key i hk lo hi)
            (count_below_mono starts (key / 2 ^ 12 * 2 ^ 12) (key + 1) (omega arith))
            (count_below_mono starts (key + 1) ((key / 2 ^ 12 + 1) * 2 ^ 12) (omega arith)))

    -- `search4` over a table as `buildIndex4` fills it.
    search4-answer_table :
        (key : ℕ)
        → key < 2 ^ 32
        → HoldsIds r.v4ids r.id_width (recs_of bs)
        → ((g : ℕ) → g ≤ 2 ^ 20 → get_elem? r.lo4 g ≡ some (count_below starts (g * 2 ^ 12)))
        → search4 r key ≡ some (answer bs key)
    unfolding search4
    search4-answer_table key hk ids table =
        let c = count_below starts (key + 1) in
        let size : c ≤ length (recs_of bs) =
          omega (arith, count_below-le starts (key + 1), length-starts_of bs) in
        rw (window_search-count key hk table, answer_from-count 0 0 bs key asc)
          (unfold record_before in
            elim (Bool-cases (c == 0)) [
              | inl z ↦ rw z
              | inr z ↦ rw z (
                  ids (c - 1) (ground arith)
                  ∙ get_elem?-eq-get_or (recs_of bs) (c - 1) 0 (ground arith))
            ])

-- On sections that hold the boundaries `bs`, `buildIndex4` finds every index it reads and `search4`
-- returns the record of the last boundary at or below the key, 0 when there is none.
pub search4-answer :
    (r : Tables4) (bs : List Boundary4)
    → IsAscending 0 bs
    → HoldsStarts r.v4idx r.v4starts (starts_of bs)
    → HoldsIds r.v4ids r.id_width (recs_of bs)
    → (t : Tables4) × (build_index4 r ≡ some t)
      × ((key : ℕ) → key < 2 ^ 32 → search4 t key ≡ some (answer bs key))
unfolding build_index4
search4-answer r bs asc h ids =
    let (lo4, e, table) = index4_table-count r.v4idx r.v4starts (starts_of bs) h (2 ^ 16) refl in
    let t : Tables4 = record r { lo4 = lo4 } in
    (t, rw e, λ key hk. search4-answer_table t bs asc h key hk ids table)

module _ (r : Tables4) (xs : List ℕ) (h : HoldsStarts r.v4idx r.v4starts xs) where
  bucket_test :
      (i g : ℕ)
      → i < length xs
      → g ≤ 2 ^ 16
      → Option.map (λ v. ltb i v) (le_at 4 r.v4idx (g * 4)) ≡ some (leb (xs ! i / 2 ^ 16 + 1) g)
  bucket_test i g lt hg = rw (h.bucket g hg) (
      ap some (
        ground (
          arith,
          below_count 0 xs (g * 2 ^ 16) i h.rising,
          above_count 0 xs (g * 2 ^ 16) i h.rising,
        )))

  bucket4-div :
      (i hint : ℕ) → i < length xs → hint < 2 ^ 16 → bucket4 r i hint ≡ some (xs ! i / 2 ^ 16)
  unfolding bucket4
  bucket4-div i hint lt hh =
      let e1 : le_at 4 r.v4idx (hint * 4 + 4) ≡ some (count_below xs ((hint + 1) * 2 ^ 16)) =
        ap (le_at 4 r.v4idx) (omega arith) ∙ h.bucket (hint + 1) (omega arith) in
      let found =
        bisect_lem (λ mid. Option.map (λ v. ltb i v) (le_at 4 r.v4idx (mid * 4)))
          (xs ! i / 2 ^ 16 + 1) 1 (2 ^ 16) (λ g lo hi. bucket_test i g lt (omega arith))
          (omega arith) (omega (arith, h.fits i lt)) in
      rw (h.bucket hint (omega arith), e1, found)
        (ground (
          arith,
          below_count 0 xs (hint * 2 ^ 16) i h.rising,
          above_count 0 xs (hint * 2 ^ 16) i h.rising,
          below_count 0 xs ((hint + 1) * 2 ^ 16) i h.rising,
          above_count 0 xs ((hint + 1) * 2 ^ 16) i h.rising,
        ))

  -- `start4` returns the absolute start of boundary `i`, whatever bucket is tried first.
  pub start4-start : (i hint : ℕ) → i < length xs → hint < 2 ^ 16 → start4 r i hint ≡ some (xs ! i)
  unfolding start4
  start4-start i hint lt hh = rw (bucket4-div i hint lt hh, h.low_half i lt) (ap some (omega arith))
