-- ===== src/Reader/Search6/Exceptions.antt =====
-- The exception table gives each exception its own low half.
use ip2geo.Base.{ℕ, ◌*◌, ◌/◌, ◌<◌, ◌≡◌, ap, some, List, length, not, ltb, leb, arith}
use mathlib.Core.Option
use native.Mathlib.Decide.{dec_lt, ℕ_discrete}
use ip2geo.Bytes.{le_at}
use ip2geo.Reader.Bisect.{bisect_lem}
use ip2geo.Reader.Count.{IsRising, ◌!◌, IsRising-lt}
use ip2geo.Reader.Search6.{Tables6, v6_exc_lo_of}

-- V6EXCIDX holds the ascending indexes `es`.
pub record HoldsExceptions (idx es : List ℕ) : Type 0 where
  pub rising : IsRising 0 es
  pub size : length idx ≡ length es * 4
  pub index : (j : ℕ) → j < length es → le_at 4 idx (j * 4) ≡ some (es ! j)

-- For the start of exception `j` the low half found is entry `j` of V6EXCLO.
pub v6_exc_lo_of-entry :
    (r : Tables6) (es : List ℕ) (j : ℕ)
    → HoldsExceptions r.v6exc_idx es
    → j < length es
    → v6_exc_lo_of r (es ! j) ≡ le_at 8 r.v6exc_lo (j * 8)
unfolding v6_exc_lo_of
v6_exc_lo_of-entry r es j h lt =
    let i = es ! j in
    let n : length r.v6exc_idx / 4 ≡ length es = omega (arith, h.size) in
    let found =
      bisect_lem (λ mid. Option.map (λ v. not (ltb v i)) (le_at 4 r.v6exc_idx (mid * 4))) j 0
        (length es) (λ k lo hi. rw (h.index k (omega arith)) (ap some (same k hi))) (omega arith)
        (omega arith) in
    rw (n, found)
  where
    same : (k : ℕ) → k < length es → not (ltb (es ! k) (es ! j)) ≡ leb j k
    same k hi = elim (dec_lt k j) [
      | yes before ↦ let p = IsRising-lt 0 es k j h.rising before lt in ground arith
      | no nbefore ↦ elim (ℕ_discrete k j) [
        | yes y ↦ let p : es ! k ≡ es ! j = ap (λ m. es ! m) y in ground arith
        | no n ↦ let p = IsRising-lt 0 es j k h.rising (omega arith) hi in ground arith
      ]
    ]
