-- ===== src/Geo2/CheckIpv4/Accepts.antt =====
-- IPv4 sections that `checkIPv4` accepts hold strictly ascending starts, as the searches want them.
use ip2geo.Base.{
  ℕ, zero, suc, ◌+◌, ◌-◌, ◌*◌, ◌%◌, ◌^◌, ◌≤◌, ◌<◌, ◌≡◌, refl, sym, ap, ◌∙◌, subst, some, List, [],
  ◌++◌, arith, length, length-append, ltb, ◌==◌, not, ok, or_panic-ok, refuse_if-ok, >>-ok, All,
}
use ip2geo.Bytes.{le_at, IsByte}
use native.Mathlib.Decide.{dec_lt}
use ip2geo.Geo2.Errors.{corrupt}
use ip2geo.Geo2.CheckIpv4.{check_starts, check_buckets, check_ipv4_sections, check_ipv4}
use ip2geo.Reader.Count.{
  IsRising, count_below, ◌!◌, count_below_zero, count_below_all, count_below-append,
  IsRising-append, !-append_left, !-append_right,
}
use ip2geo.Reader.Search4.Sections.{HoldsStarts}
use ip2geo.Geo2.CheckIpv4.Bucket.{IsPart, bucket_starts}

-- What the buckets from `g` on hold: the boundaries from `lo` on, all of them at `g<<16` or above.
record IsRest (idx s : List ℕ) (n g lo : ℕ) (xs : List ℕ) : Type 0 where
  rising : IsRising (g * 2 ^ 16) xs
  size : lo + length xs ≡ n
  fits : (j : ℕ) → j < length xs → xs ! j < 2 ^ 32
  low_half : (j : ℕ) → j < length xs → le_at 2 s ((lo + j) * 2) ≡ some (xs ! j % 2 ^ 16)
  bucket :
      (k : ℕ) → g ≤ k → k ≤ 2 ^ 16 → le_at 4 idx (k * 4) ≡ some (lo + count_below xs (k * 2 ^ 16))

module _ (idx s : List ℕ) (n g lo hi : ℕ) (ys xs : List ℕ) (small : g < 2 ^ 16) (le : lo ≤ hi) where
  module _ (e : le_at 4 idx (g * 4) ≡ some lo)
      (p : IsPart s (g * 2 ^ 16) lo (hi - lo) (g * 2 ^ 16) ys)
      (r : IsRest idx s n (g + 1) hi xs) where
    below_next : (j : ℕ) → j < length ys → ys ! j < (g + 1) * 2 ^ 16
    below_next j lt = omega (arith, (p.inside j (omega (arith, p.size))).0)

    add_bucket : IsRest idx s n g lo (ys ++ xs)
    add_bucket = record {
      rising =
          IsRising-append (g * 2 ^ 16) ((g + 1) * 2 ^ 16) ys xs p.rising r.rising below_next
            (omega arith);
      size = omega (arith, length-append {0} ys xs, p.size, r.size);
      fits = λ j lt. elim (dec_lt j (length ys)) [
        | yes a ↦ rw (!-append_left ys xs j a) (omega (arith, below_next j a))
        | no a ↦
            rw (!-append_right ys xs j (omega arith))
              (r.fits (j - length ys) (omega (arith, length-append {0} ys xs)))
      ];
      low_half = λ j lt. elim (dec_lt j (length ys)) [
        | yes a ↦ rw (!-append_left ys xs j a) (
            p.low_half j (omega (arith, p.size))
            ∙ ap some (omega (arith, p.inside j (omega (arith, p.size)))))
        | no a ↦ rw (!-append_right ys xs j (omega arith)) (
            ap (le_at 2 s) (omega (arith, p.size))
            ∙ r.low_half (j - length ys) (omega (arith, length-append {0} ys xs)))
      ];
      bucket = λ k ge up. elim (dec_lt g k) [
        | yes a ↦
            r.bucket k (omega arith) up
            ∙ ap some (
                omega (
                  arith,
                  p.size,
                  count_below-append ys xs (k * 2 ^ 16),
                  count_below_all ys (k * 2 ^ 16) (λ j lt. omega (arith, below_next j lt)),
                ))
        | no a ↦
            let same : k ≡ g = omega arith in
            rw same (
              e
              ∙ ap some (
                  omega (
                    arith,
                    count_below-append ys xs (g * 2 ^ 16),
                    count_below_zero (g * 2 ^ 16) ys (g * 2 ^ 16) p.rising (omega arith),
                    count_below_zero ((g + 1) * 2 ^ 16) xs (g * 2 ^ 16) r.rising (omega arith),
                  )))
      ];
    }

-- A bucket that passes.
check_buckets_step :
    (idx s : List ℕ) (n count g : ℕ)
    → check_buckets idx s n (suc count) g ≡ ok tt
    → (lo hi : ℕ) × (le_at 4 idx (g * 4) ≡ some lo)
      × (le_at 4 idx (g * 4 + 4) ≡ some hi)
      × (lo ≤ hi)
      × (hi ≤ n)
      × (check_starts s (hi - (lo + 1)) (lo + 1) ≡ ok tt)
      × (check_buckets idx s n count (g + 1) ≡ ok tt)
unfolding check_buckets
check_buckets_step idx s n count g e =
    let (lo, p, e1) = or_panic-ok (le_at 4 idx (g * 4)) _ e in
    let (hi, q, e2) = or_panic-ok (le_at 4 idx (g * 4 + 4)) _ e1 in
    let (a, e3) = refuse_if-ok (ltb hi lo) corrupt _ e2 in
    let (b, e4) = refuse_if-ok (ltb n hi) corrupt _ e3 in
    let (c, rest) = >>-ok (check_starts s (hi - (lo + 1)) (lo + 1)) _ e4 in
    (lo, hi, p, q, ground arith, ground arith, c, rest)

-- The buckets from `g` on, when all of them pass.
IsRest-starts :
    (idx s : List ℕ) (n count g lo : ℕ)
    → All IsByte s
    → length s ≡ n * 2
    → g + count ≡ 2 ^ 16
    → le_at 4 idx (2 ^ 16 * 4) ≡ some n
    → le_at 4 idx (g * 4) ≡ some lo
    → lo ≤ n
    → check_buckets idx s n count g ≡ ok tt
    → (xs : List ℕ) × IsRest idx s n g lo xs
IsRest-starts idx s n zero g lo bytes size top last here le ok_ =
    let same : lo ≡ n =
      ground (arith, sym here ∙ ap (λ k. le_at 4 idx (k * 4)) {y = 2 ^ 16} (omega arith) ∙ last) in
    (
      [],
      record {
        rising = tt;
        size = omega arith;
        fits = λ j lt. absurd (omega arith);
        low_half = λ j lt. absurd (omega arith);
        bucket = λ k ge up.
            let e : k ≡ 2 ^ 16 = omega arith in
            rw e (last ∙ ap some (unfold count_below in omega arith));
      },
    )
IsRest-starts idx s n (suc count) g lo bytes size top last here le ok_ =
    let (lo', hi, p, q, le_hi, hi_le, passes, rest) = check_buckets_step idx s n count g ok_ in
    let same : lo' ≡ lo = ground (arith, sym p ∙ here) in
    let (ys, part) = bucket_starts s n (g * 2 ^ 16) lo' hi bytes size le_hi hi_le passes in
    let next : le_at 4 idx ((g + 1) * 4) ≡ some hi = ap (le_at 4 idx) (omega arith) ∙ q in
    let (xs, r) =
      IsRest-starts idx s n count (g + 1) hi bytes size (omega arith) last next hi_le rest in
    (
      ys ++ xs,
      subst (λ (l : ℕ). IsRest idx s n g l (ys ++ xs)) same
          (add_bucket idx s n g lo' hi ys xs (omega arith) le_hi p part r),
    )

IsRest-HoldsStarts :
    (idx s : List ℕ) (n : ℕ) (xs : List ℕ)
    → length s ≡ n * 2
    → IsRest idx s n 0 0 xs
    → (length xs ≡ n) × HoldsStarts idx s xs
IsRest-HoldsStarts idx s n xs size r = (
  omega (arith, r.size),
  record {
    rising = r.rising;
    fits = r.fits;
    size = omega (arith, r.size);
    low_half = λ j lt. ap (λ k. le_at 2 s (k * 2)) (omega arith) ∙ r.low_half j lt;
    bucket = λ g le. r.bucket g (omega arith) le ∙ ap some (omega arith);
  },
)

-- Every V4STARTS and V4IDX that `checkIPv4` accepts hold `n` strictly ascending starts.
pub check_ipv4-HoldsStarts :
    (idx s : List ℕ) (n : ℕ)
    → All IsByte s
    → length s ≡ n * 2
    → check_ipv4 idx s n ≡ ok tt
    → (xs : List ℕ) × (length xs ≡ n) × HoldsStarts idx s xs
unfolding check_ipv4 check_ipv4_sections
check_ipv4-HoldsStarts idx s n bytes size e =
    let (last, p, e1) = or_panic-ok (le_at 4 idx (2 ^ 16 * 4)) _ e in
    let (a, e2) = refuse_if-ok (not (last == n)) corrupt _ e1 in
    let (first, q, e3) = or_panic-ok (le_at 4 idx 0) _ e2 in
    let (b, passes) = refuse_if-ok (not (first == 0)) corrupt _ e3 in
    let lastn : last ≡ n = ground arith in
    let first0 : first ≡ 0 = ground arith in
    let (xs, r) =
      IsRest-starts idx s n (2 ^ 16) 0 0 bytes size refl (p ∙ ap some lastn) (q ∙ ap some first0)
        (omega arith) passes in
    let (count, holds) = IsRest-HoldsStarts idx s n xs size r in (xs, count, holds)
