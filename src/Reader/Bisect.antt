-- ===== src/Reader/Bisect.antt =====
-- The binary search that reader.go and ranges.go spell out at each of their tables:
-- `for l < h { mid := (l+h)>>1; if test(mid) { h = mid } else { l = mid + 1 } }`.
use ip2geo.Base.{
  ℕ, zero, suc, ◌+◌, ◌-◌, ◌/◌, ◌≤◌, ◌<◌, ◌≡◌, ap, Bool, Option, some, arith, ltb, leb,
  if◌then◌else◌,
}
use mathlib.Core.Option

-- A round shortens `h - l`, so that many rounds are enough. `none` is a read out of range.
unfoldable pub bisect_loop : (ℕ → Option Bool) → ℕ → ℕ → ℕ → Option ℕ
unfolding Option.bind
bisect_loop test zero l h = some l
bisect_loop test (suc fuel) l h =
    let mid = (l + h) / 2 in
    let lower = bisect_loop test fuel l mid in
    let upper = bisect_loop test fuel (mid + 1) h in
    if ltb l h then Option.bind (test mid) (λ above. if above then lower else upper) else some l

unfoldable pub bisect : (ℕ → Option Bool) → ℕ → ℕ → Option ℕ
bisect test l h = bisect_loop test (h - l) l h

bisect_loop-eq :
    (test : ℕ → Option Bool) (c fuel l h : ℕ)
    → ((i : ℕ) → l ≤ i → i < h → test i ≡ some (leb c i))
    → l ≤ c
    → c ≤ h
    → h - l ≤ fuel
    → bisect_loop test fuel l h ≡ some c
unfolding bisect_loop
bisect_loop-eq test c zero l h t lo hi f = ap some (omega arith)
bisect_loop-eq test c (suc fuel) l h t lo hi f =
    let mid = (l + h) / 2 in
    ground (
      arith,
      t mid,
      bisect_loop-eq test c fuel l mid (λ i p q. t i p (omega arith)),
      bisect_loop-eq test c fuel (mid + 1) h (λ i p q. t i (omega arith) q),
    )

-- If the test passes from `c` on, `c` is found, in no more rounds than there are.
pub bisect_lem :
    (test : ℕ → Option Bool) (c l h : ℕ)
    → ((i : ℕ) → l ≤ i → i < h → test i ≡ some (leb c i))
    → l ≤ c
    → c ≤ h
    → bisect test l h ≡ some c
unfolding bisect
bisect_lem test c l h t lo hi = bisect_loop-eq test c (h - l) l h t lo hi (omega arith)
