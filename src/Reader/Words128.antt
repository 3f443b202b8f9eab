-- ===== src/Reader/Words128.antt =====
-- reader.go and ranges.go: 128-bit addresses as two 64-bit words, `less128`, `inc128` and `dec128`.
use ip2geo.Base.{
  ℕ, ◌+◌, ◌-◌, ◌*◌, ◌%◌, ◌^◌, ◌≤◌, ◌<◌, ◌≡◌, ◌↔◌, Bool, true, false, ◌&&◌, ◌||◌, ltb, ◌==◌, arith,
  if◌then◌else◌,
}

pub record Addr : Type 0 where
  pub hi : ℕ
  pub lo : ℕ

pub record IsAddr (a : Addr) : Type 0 where
  pub hi_fits : a.hi < 2 ^ 64
  pub lo_fits : a.lo < 2 ^ 64

-- The address as one number.
abbrev pub num : Addr → ℕ
num a = a.hi * 2 ^ 64 + a.lo

unfoldable pub less128 : Addr → Addr → Bool
less128 a b = ltb a.hi b.hi || a.hi == b.hi && ltb a.lo b.lo

-- `lo - 1` and `hi - 1` wrap.
unfoldable pub dec128 : Addr → Addr
dec128 a = record {
  hi = if a.lo == 0 then (a.hi + 2 ^ 64 - 1) % 2 ^ 64 else a.hi;
  lo = (a.lo + 2 ^ 64 - 1) % 2 ^ 64;
}

unfoldable pub inc128 : Addr → Addr
inc128 a = record {
  hi = if a.lo == 2 ^ 64 - 1 then (a.hi + 1) % 2 ^ 64 else a.hi;
  lo = (a.lo + 1) % 2 ^ 64;
}

pub less128-lt : (a b : Addr) → IsAddr a → IsAddr b → (less128 a b ≡ true) ↔ (num a < num b)
unfolding less128
less128-lt a b ha hb =
    let p = ha.lo_fits in let q = hb.lo_fits in (λ e. ground arith, λ lt. ground arith)

pub less128-false : (a b : Addr) → IsAddr a → IsAddr b → less128 a b ≡ false → num b ≤ num a
unfolding less128
less128-false a b ha hb e = let p = ha.lo_fits in let q = hb.lo_fits in ground arith

pub less128_ge : (a b : Addr) → IsAddr a → IsAddr b → num b ≤ num a → less128 a b ≡ false
unfolding less128
less128_ge a b ha hb e = let p = ha.lo_fits in let q = hb.lo_fits in ground arith

pub dec128-IsAddr :
    (a : Addr) → IsAddr a → 0 < num a → IsAddr (dec128 a) × (num (dec128 a) + 1 ≡ num a)
unfolding dec128
dec128-IsAddr a h pos =
    let p = h.lo_fits in
    let q = h.hi_fits in (record { hi_fits = ground arith; lo_fits = ground arith }, ground arith)

pub inc128-IsAddr :
    (a : Addr) → IsAddr a → num a + 1 < 2 ^ 128 → IsAddr (inc128 a) × (num (inc128 a) ≡ num a + 1)
unfolding inc128
inc128-IsAddr a h top =
    let p = h.lo_fits in
    let q = h.hi_fits in (record { hi_fits = ground arith; lo_fits = ground arith }, ground arith)
