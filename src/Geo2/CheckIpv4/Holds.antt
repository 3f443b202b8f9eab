-- ===== src/Geo2/CheckIpv4/Holds.antt =====
-- `checkIPv4` accepts the sections that hold strictly ascending starts, and no others.
use ip2geo.Base.{
  ℕ, zero, suc, ◌+◌, ◌-◌, ◌*◌, ◌%◌, ◌^◌, ◌≤◌, ◌<◌, ◌≡◌, refl, subst, ap, ◌↔◌, some, List, [], ◌∷◌,
  arith, length, leb, ltb, ◌==◌, not, false, ok, All,
}
use ip2geo.Bytes.{le_at, IsByte}
use ip2geo.Geo2.CheckIpv4.{check_starts, check_buckets, check_ipv4_sections, check_ipv4}
use ip2geo.Geo2.CheckIpv4.Accepts.{check_ipv4-HoldsStarts}
use ip2geo.Reader.Count.{
  IsRising, count_below, count_below_zero, count_below_all, ◌!◌, below_count, above_count,
  count_below-le, count_below_mono,
}
use ip2geo.Reader.Search4.Sections.{HoldsStarts}

next_above :
    (lo : ℕ) (xs : List ℕ) (j : ℕ) → IsRising lo xs → j + 1 < length xs → xs ! j < xs ! (j + 1)
next_above lo [] j r lt = absurd (omega arith)
next_above lo (x ∷ []) j r lt = absurd (omega arith)
next_above lo (x ∷ y ∷ xs) zero r lt = omega (arith, r.1.0)
next_above lo (x ∷ y ∷ xs) (suc j) r lt =
    let e : suc j + 1 ≡ suc (j + 1) = omega arith in
    rw e (next_above (x + 1) (y ∷ xs) j r.1 (omega arith))

module _ (idx s xs : List ℕ) (h : HoldsStarts idx s xs) where
  -- Two starts of one bucket ascend in their low halves.
  halves_ascend :
      (g j : ℕ)
      → count_below xs (g * 2 ^ 16) ≤ j
      → j + 1 < count_below xs ((g + 1) * 2 ^ 16)
      → xs ! j % 2 ^ 16 < xs ! (j + 1) % 2 ^ 16
  halves_ascend g j lo hi =
      let len : j + 1 < length xs = omega (arith, count_below-le xs ((g + 1) * 2 ^ 16)) in
      let a = above_count 0 xs (g * 2 ^ 16) j h.rising lo (omega arith) in
      let b = below_count 0 xs ((g + 1) * 2 ^ 16) (j + 1) h.rising hi in
      let c = next_above 0 xs j h.rising len in omega arith

  check_starts-ok :
      (left g i : ℕ)
      → count_below xs (g * 2 ^ 16) < i
      → ((j : ℕ) → j < left → i + j < count_below xs ((g + 1) * 2 ^ 16))
      → check_starts s left i ≡ ok tt
  unfolding check_starts
  check_starts-ok zero g i lo hi = refl
  check_starts-ok (suc left) g i lo hi =
      let here = hi 0 (omega arith) in
      let len : i < length xs = omega (arith, count_below-le xs ((g + 1) * 2 ^ 16)) in
      let e : i * 2 - 2 ≡ (i - 1) * 2 = omega arith in
      let back : i - 1 + 1 ≡ i = omega arith in
      let lt : leb (xs ! i % 2 ^ 16) (xs ! (i - 1) % 2 ^ 16) ≡ false =
        ground
          (arith, halves_ascend g (i - 1) (omega arith) (omega arith), ap (λ k. xs ! k) back) in
      rw (e, h.low_half i len, h.low_half (i - 1) (omega arith), lt)
        (check_starts-ok left g (i + 1) (omega arith)
          (λ j lt. omega (arith, hi (suc j) (omega arith))))

  check_buckets-ok :
      (count g : ℕ) → g + count ≡ 2 ^ 16 → check_buckets idx s (length xs) count g ≡ ok tt
  unfolding check_buckets
  check_buckets-ok zero g e = refl
  check_buckets-ok (suc count) g e =
      let lo = count_below xs (g * 2 ^ 16) in
      let hi = count_below xs ((g + 1) * 2 ^ 16) in
      let next : g * 4 + 4 ≡ (g + 1) * 4 = omega arith in
      let a : ltb hi lo ≡ false =
        ground (arith, count_below_mono xs (g * 2 ^ 16) ((g + 1) * 2 ^ 16)) in
      let b : ltb (length xs) hi ≡ false = ground (arith, count_below-le xs ((g + 1) * 2 ^ 16)) in
      rw
        (
          h.bucket g (omega arith),
          next,
          h.bucket (g + 1) (omega arith),
          a,
          b,
          check_starts-ok (hi - (lo + 1)) g (lo + 1) (omega arith) (λ j lt. omega arith),
        )
        (check_buckets-ok count (g + 1) (omega arith))

  check_ipv4-ok : check_ipv4 idx s (length xs) ≡ ok tt
  unfolding check_ipv4 check_ipv4_sections
  check_ipv4-ok =
      let first : le_at 4 idx 0 ≡ some (count_below xs 0) = h.bucket 0 (omega arith) in
      let none_below : count_below xs 0 ≡ 0 = count_below_zero 0 xs 0 h.rising (omega arith) in
      let all_below : count_below xs (2 ^ 16 * 2 ^ 16) ≡ length xs =
        count_below_all xs (2 ^ 16 * 2 ^ 16) (λ j lt. h.fits j lt) in
      let a : not (length xs == length xs) ≡ false = ground arith in
      rw (h.bucket (2 ^ 16) (omega arith), all_below, a, first, none_below)
        (check_buckets-ok (2 ^ 16) 0 (omega arith))

-- V4STARTS of `n` starts and V4IDX are accepted exactly when they hold `n` strictly ascending starts,
-- each in the top-16 bucket that V4IDX counts it in.
pub check_ipv4_iff :
    (idx s : List ℕ) (n : ℕ)
    → All IsByte s
    → length s ≡ n * 2
    → (check_ipv4 idx s n ≡ ok tt) ↔ ((xs : List ℕ) × (length xs ≡ n) × HoldsStarts idx s xs)
check_ipv4_iff idx s n bytes size = (
  check_ipv4-HoldsStarts idx s n bytes size,
  λ (xs, count, holds).
      subst (λ (k : ℕ). check_ipv4 idx s k ≡ ok tt) count (check_ipv4-ok idx s xs holds),
)
