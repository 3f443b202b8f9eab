-- ===== src/Geo2/CheckIpv4/Bucket.antt =====
-- The starts of one top-16 bucket whose rounds of `checkIPv4` all pass.
use ip2geo.Base.{
  ℕ, zero, suc, ◌+◌, ◌-◌, ◌*◌, ◌^◌, ◌≤◌, ◌<◌, ◌≡◌, refl, sym, ap, ◌∙◌, some, none, Option, List, [],
  ◌∷◌, arith, length, leb, ok, ◌>>=◌, ◌>>◌, refuse_if, or_panic, All,
}
use ip2geo.Bytes.{le_at, IsByte}
use ip2geo.Bytes.Laws.{le_at-lt, le_at_total}
use native.Mathlib.Decide.{dec_lt}
use ip2geo.Geo2.Errors.{OpenError, corrupt}
use ip2geo.Geo2.CheckIpv4.{check_starts}
use ip2geo.Reader.Count.{IsRising, ◌!◌, IsRising-le}

-- The starts of boundaries `i` to `i + k - 1`, which lie in the bucket at `base`, above `prev`.
pub record IsPart (s : List ℕ) (base i k lo : ℕ) (xs : List ℕ) : Type 0 where
  pub rising : IsRising lo xs
  pub inside : (j : ℕ) → j < k → (xs ! j < base + 2 ^ 16) × (base ≤ xs ! j)
  pub size : length xs ≡ k
  pub low_half : (j : ℕ) → j < k → le_at 2 s ((i + j) * 2) ≡ some (xs ! j - base)

-- A round that passes.
check_starts_step :
    (s : List ℕ) (left i : ℕ)
    → check_starts s (suc left) i ≡ ok tt
    → (a b : ℕ) × (le_at 2 s (i * 2) ≡ some a)
      × (le_at 2 s (i * 2 - 2) ≡ some b)
      × (b < a)
      × (check_starts s left (i + 1) ≡ ok tt)
unfolding check_starts
check_starts_step s left i e = go (le_at 2 s (i * 2)) (le_at 2 s (i * 2 - 2)) refl refl e
  where
    go :
        (x y : Option ℕ)
        → le_at 2 s (i * 2) ≡ x
        → le_at 2 s (i * 2 - 2) ≡ y
        → (or_panic {E = OpenError} x >>= λ a.
            or_panic y >>= λ b. refuse_if (leb a b) corrupt >> check_starts s left (i + 1))
          ≡ ok tt
        → (a b : ℕ) × (le_at 2 s (i * 2) ≡ some a)
          × (le_at 2 s (i * 2 - 2) ≡ some b)
          × (b < a)
          × (check_starts s left (i + 1) ≡ ok tt)
    go none y p q e = absurd (ground arith)
    go (some a) none p q e = absurd (ground arith)
    go (some a) (some b) p q e = (a, b, p, q, ground arith, ground arith)

IsPart-nil : (s : List ℕ) (base i lo : ℕ) → IsPart s base i 0 lo []
IsPart-nil s base i lo = record {
  rising = tt;
  inside = λ j l. absurd (omega arith);
  size = refl;
  low_half = λ j l. absurd (omega arith);
}

IsPart-cons :
    (s : List ℕ) (base i k v : ℕ) (ys : List ℕ)
    → le_at 2 s (i * 2) ≡ some v
    → v < 2 ^ 16
    → IsPart s base (i + 1) k (base + v + 1) ys
    → IsPart s base i (suc k) (base + v) ((base + v) ∷ ys)
IsPart-cons s base i k v ys e small p = record {
  rising = (omega arith, p.rising);
  inside = first;
  size = ap suc p.size;
  low_half = half;
}
  where
    first :
        (j : ℕ)
        → j < suc k
        → (((base + v) ∷ ys) ! j < base + 2 ^ 16) × (base ≤ ((base + v) ∷ ys) ! j)
    first zero lt = omega arith
    first (suc j) lt = p.inside j (omega arith)

    half : (j : ℕ) → j < suc k → le_at 2 s ((i + j) * 2) ≡ some (((base + v) ∷ ys) ! j - base)
    half zero lt = ap (le_at 2 s) (omega arith) ∙ e ∙ ap some (omega arith)
    half (suc j) lt = ap (le_at 2 s) (omega arith) ∙ p.low_half j (omega arith)

-- The bucket from boundary `i` on, whose first start has the low half `v`.
bucket-IsPart :
    (s : List ℕ) (base left i v : ℕ)
    → All IsByte s
    → le_at 2 s (i * 2) ≡ some v
    → check_starts s left (i + 1) ≡ ok tt
    → (xs : List ℕ) × IsPart s base i (suc left) (base + v) xs
bucket-IsPart s base zero i v bytes e ok_ = (
  (base + v) ∷ [],
  IsPart-cons s base i 0 v [] e (le_at-lt 2 s (i * 2) v bytes e) (IsPart-nil s base (i + 1) _),
)
bucket-IsPart s base (suc left) i v bytes e ok_ =
    let (a, b, ea, eb, lt, rest) = check_starts_step s left (i + 1) ok_ in
    let same : b ≡ v = ground (arith, sym eb ∙ ap (le_at 2 s) (omega arith) ∙ e) in
    let (ys, p) = bucket-IsPart s base left (i + 1) a bytes ea rest in
    (
      (base + v) ∷ ys,
      IsPart-cons s base i (suc left) v ys e (le_at-lt 2 s (i * 2) v bytes e) (record {
        rising = IsRising-le (base + v + 1) (base + a) ys (omega arith) p.rising;
        inside = p.inside;
        size = p.size;
        low_half = p.low_half;
      }),
    )

-- All the starts of a bucket that passes.
pub bucket_starts :
    (s : List ℕ) (n base lo hi : ℕ)
    → All IsByte s
    → length s ≡ n * 2
    → lo ≤ hi
    → hi ≤ n
    → check_starts s (hi - (lo + 1)) (lo + 1) ≡ ok tt
    → (xs : List ℕ) × IsPart s base lo (hi - lo) base xs
bucket_starts s n base lo hi bytes size le le' ok_ = elim (dec_lt lo hi) [
  | yes lt ↦
      let (v, e) = le_at_total 2 s (lo * 2) (omega arith) in
      let (xs, p) = bucket-IsPart s base (hi - (lo + 1)) lo v bytes e ok_ in
      let k : suc (hi - (lo + 1)) ≡ hi - lo = omega arith in
      (
        xs,
        record {
          rising = IsRising-le base (base + v) xs (omega arith) p.rising;
          inside = λ j l. p.inside j (omega arith);
          size = p.size ∙ k;
          low_half = λ j l. p.low_half j (omega arith);
        },
      )
  | no ge ↦ (
    [],
    record {
      rising = tt;
      inside = λ j l. absurd (omega arith);
      size = omega arith;
      low_half = λ j l. absurd (omega arith);
    },
  )
]
