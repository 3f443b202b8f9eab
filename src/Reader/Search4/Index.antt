-- ===== src/Reader/Search4/Index.antt =====
-- `buildIndex4`: entry `g` of the top-20 table is the index of the first start at or above `g<<12`.
use ip2geo.Base.{
  ℕ, zero, suc, ◌+◌, ◌-◌, ◌*◌, ◌/◌, ◌^◌, ◌≤◌, ◌<◌, ◌≡◌, refl, ap, ◌∙◌, some, List, [], ◌∷◌, ◌++◌,
  arith, length, get_elem?, get_elem?-append_left, get_elem?-append_at, Tabulates, Tabulates-nil,
  Tabulates-cons, Tabulates-append, subst,
}
use native.Mathlib.Decide.{dec_lt}
use ip2geo.Bytes.{le_at}
use ip2geo.Reader.Count.{
  count_below, ◌!◌, below_count, above_count, count_below-eq, count_below-le, count_below_mono,
}
use ip2geo.Reader.Search4.{skip_below, sub_buckets, buckets, index4_table}
use ip2geo.Reader.Search4.Sections.{HoldsStarts}

module _ (idx s starts : List ℕ) (h : HoldsStarts idx s starts) where
  -- The starts of bucket `g` share its top half.
  in_bucket :
      (g i : ℕ)
      → g < 2 ^ 16
      → count_below starts (g * 2 ^ 16) ≤ i
      → i < count_below starts ((g + 1) * 2 ^ 16)
      → (g * 2 ^ 16 ≤ starts ! i)
        × (starts ! i < (g + 1) * 2 ^ 16)
        × (le_at 2 s (i * 2) ≡ some (starts ! i - g * 2 ^ 16))
  in_bucket g i hg lo hi =
      let len : i < length starts = omega (arith, count_below-le starts ((g + 1) * 2 ^ 16)) in
      let p : g * 2 ^ 16 ≤ starts ! i = above_count 0 starts (g * 2 ^ 16) i h.rising lo len in
      let q : starts ! i < (g + 1) * 2 ^ 16 =
        below_count 0 starts ((g + 1) * 2 ^ 16) i h.rising hi in
      (p, q, h.low_half i len ∙ ap some (omega arith))

  -- Within bucket `g`, skipping from before it stops at the first start of sub-bucket `k`.
  skip_below-count :
      (g k end left i c : ℕ)
      → g < 2 ^ 16
      → k ≤ 16
      → end ≡ count_below starts ((g + 1) * 2 ^ 16)
      → c ≡ count_below starts (g * 2 ^ 16 + k * 2 ^ 12)
      → left ≡ end - i
      → count_below starts (g * 2 ^ 16) ≤ i
      → i ≤ c
      → skip_below s (k * 2 ^ 12) left i ≡ some c
  unfolding skip_below
  skip_below-count g k end zero i c hg hk he hc hl lo hi =
      ap some (omega (arith, count_below_mono starts (g * 2 ^ 16 + k * 2 ^ 12) ((g + 1) * 2 ^ 16)))
  skip_below-count g k end (suc left) i c hg hk he hc hl lo hi =
      let (p, q, e) = in_bucket g i hg lo (omega arith) in
      let x = g * 2 ^ 16 + k * 2 ^ 12 in
      rw e (
        ground (
          arith,
          below_count 0 starts x i h.rising,
          above_count 0 starts x i h.rising,
          count_below-le starts ((g + 1) * 2 ^ 16),
          skip_below-count g k end left (i + 1) c hg hk he hc,
        ))

  -- The entries of bucket `g` from sub-bucket `k` on.
  sub_buckets-count :
      (g end count k i : ℕ)
      → g < 2 ^ 16
      → k + count ≡ 16
      → end ≡ count_below starts ((g + 1) * 2 ^ 16)
      → count_below starts (g * 2 ^ 16) ≤ i
      → i ≤ count_below starts (g * 2 ^ 16 + k * 2 ^ 12)
      → (entries : List ℕ) × (sub_buckets s end count k i ≡ some entries)
        × Tabulates (λ j. count_below starts (g * 2 ^ 16 + (k + j) * 2 ^ 12)) count entries
  unfolding sub_buckets
  sub_buckets-count g end zero k i hg hk he lo hi = ([], refl, Tabulates-nil _)
  sub_buckets-count g end (suc count) k i hg hk he lo hi =
      let c = count_below starts (g * 2 ^ 16 + k * 2 ^ 12) in
      let e = skip_below-count g k end (end - i) i c hg (omega arith) he refl refl lo hi in
      let (rest, er, t) =
        sub_buckets-count g end count (k + 1) c hg (omega arith) he
          (count_below_mono starts (g * 2 ^ 16) (g * 2 ^ 16 + k * 2 ^ 12) (omega arith))
          (count_below_mono starts (g * 2 ^ 16 + k * 2 ^ 12) (g * 2 ^ 16 + (k + 1) * 2 ^ 12)
            (omega arith)) in
      (
        c ∷ rest,
        rw (e, er),
        Tabulates-cons _ _ count c rest (ap (count_below starts) (omega arith))
            (λ j lt. ap (count_below starts) (omega arith)) t,
      )

  -- The entries of the buckets from `g` on.
  buckets-count :
      (count g : ℕ)
      → g + count ≤ 2 ^ 16
      → (entries : List ℕ) × (buckets idx s count g ≡ some entries)
        × Tabulates (λ j. count_below starts ((g * 16 + j) * 2 ^ 12)) (count * 16) entries
  unfolding buckets
  buckets-count zero g hg = ([], refl, Tabulates-nil _)
  buckets-count (suc count) g hg =
      let e0 = h.bucket g (omega arith) in
      let e1 : le_at 4 idx (g * 4 + 4) ≡ some (count_below starts ((g + 1) * 2 ^ 16)) =
        ap (le_at 4 idx) (omega arith) ∙ h.bucket (g + 1) (omega arith) in
      let (xs, ex, tx) =
        sub_buckets-count g (count_below starts ((g + 1) * 2 ^ 16)) 16 0
          (count_below starts (g * 2 ^ 16)) (omega arith) refl refl (omega arith)
          (count_below_mono starts (g * 2 ^ 16) (g * 2 ^ 16 + 0 * 2 ^ 12) (omega arith)) in
      let (ys, ey, ty) = buckets-count count (g + 1) (omega arith) in
      let size : 16 + count * 16 ≡ suc count * 16 = omega arith in
      (
        xs ++ ys,
        rw (e0, e1, ex, ey),
        subst (λ n. Tabulates (λ j. count_below starts ((g * 16 + j) * 2 ^ 12)) n (xs ++ ys)) size
            (Tabulates-append _ _ _ 16 (count * 16) xs ys tx ty
              (λ j lt. ap (count_below starts) (omega arith))
              (λ j lt. ap (count_below starts) (omega arith))),
      )

  -- The whole table, its last entry the number of starts.
  pub index4_table-count :
      (top : ℕ)
      → top ≡ 2 ^ 16
      → (t : List ℕ) × (index4_table top idx s ≡ some t)
        × ((g : ℕ) → g ≤ 2 ^ 20 → get_elem? t g ≡ some (count_below starts (g * 2 ^ 12)))
  unfolding index4_table
  index4_table-count top e =
      let (xs, ex, tx) = buckets-count top 0 (omega arith) in
      (
        xs ++ (length s / 2 ∷ []),
        rw ex,
        λ g le. elim (dec_lt g (top * 16)) [
          | yes lt ↦
              get_elem?-append_left xs (length s / 2 ∷ []) g (omega (arith, tx.size))
              ∙ tx.entry g lt
              ∙ ap (λ n. some (count_below starts n)) (omega arith)
          | no ge ↦
              get_elem?-append_at xs (length s / 2) [] g (omega (arith, tx.size))
              ∙ ap some (omega (arith, h.size, all_below g (omega arith)))
        ],
      )
    where
      all_below : (g : ℕ) → 2 ^ 20 ≤ g → count_below starts (g * 2 ^ 12) ≡ length starts
      all_below g le =
          count_below-eq 0 starts (g * 2 ^ 12) (length starts) h.rising (omega arith)
            (λ i lt. omega (arith, h.fits i lt)) (λ i p q. absurd (omega arith))
