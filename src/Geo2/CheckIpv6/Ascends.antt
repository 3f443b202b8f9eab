-- ===== src/Geo2/CheckIpv6/Ascends.antt =====
-- The starts of the IPv6 sections that `checkIPv6` of geo2.go accepts.
use ip2geo.Base.{
  ℕ, zero, suc, ◌+◌, ◌*◌, ◌^◌, ◌≤◌, ◌<◌, ◌≡◌, refl, ap, ◌∙◌, true, false, ◌&&◌, not, Option, none,
  some, List, [], ◌∷◌, All, length, get_elem?, map, ltb, ◌==◌, ok, >>=-ok, >>-ok, or_panic-ok,
  refuse_if-ok, or_panic, ◌>>=◌, arith, if◌then◌else◌,
}
use ip2geo.Bytes.{le_at, IsByte}
use ip2geo.Bytes.Laws.{le_at-lt}
use ip2geo.Geo2.Errors.{OpenError, corrupt}
use ip2geo.Reader.Words128.{Addr, IsAddr, num, less128, less128-lt}
use ip2geo.Geo2.CheckIpv6.Lows.{
  IsAscending, Splits, Splits-start, HasLows, low_half-LowOf, check_exceptions-IsAscending,
}
use ip2geo.Geo2.CheckIpv6.{low_half, check_exceptions, check_starts6, check_ipv6}

-- Strictly ascending addresses, from the number `lo` on.
abbrev pub IsUp : ℕ → List Addr → Type 0
IsUp lo [] = Unit
IsUp lo (a ∷ as_) = IsAddr a × (lo ≤ num a) × IsUp (num a + 1) as_

-- The starts from start `i` on have the top halves that the section holds.
abbrev pub HasTops : List ℕ → ℕ → List Addr → Type 0
HasTops hi i ss =
    (k : ℕ) → k < length ss → le_at 8 hi ((i + k) * 8) ≡ get_elem? (map (λ a. a.hi) ss) k

low_half-lt :
    (exc_idx exc_lo : List ℕ) (n_exc i j : ℕ) (r : ℕ × ℕ)
    → All IsByte exc_lo
    → low_half exc_idx exc_lo n_exc i j ≡ ok r
    → r.0 < 2 ^ 64
unfolding low_half
low_half-lt exc_idx exc_lo n_exc i j r bytes e =
    go (le_at 4 exc_idx (j * 4)) (le_at 8 exc_lo (j * 8))
      (λ v p. le_at-lt 8 exc_lo (j * 8) v bytes p) e
  where
    go :
        (x y : Option ℕ)
        → ((v : ℕ) → y ≡ some v → v < 2 ^ 64)
        → (if ltb j n_exc
            then (or_panic {E = OpenError} x >>= λ e.
                (if e == i then (or_panic y >>= λ l. ok (l, j + 1)) else ok (0, j)))
            else ok (0, j))
          ≡ ok r
        → r.0 < 2 ^ 64
    go none y h e = ground arith
    go (some x) none h e = ground arith
    go (some x) (some v) h e = let lt = h v refl in ground arith

step6 :
    (hi exc_idx exc_lo : List ℕ) (n_exc left i j : ℕ) (prev : Addr)
    → All IsByte hi
    → All IsByte exc_lo
    → check_starts6 hi exc_idx exc_lo n_exc (suc left) i j prev ≡ ok tt
    → (a : Addr) × (j' : ℕ) × IsAddr a
      × (le_at 8 hi (i * 8) ≡ some a.hi)
      × (low_half exc_idx exc_lo n_exc i j ≡ ok (a.lo, j'))
      × ((ltb 0 i && not (less128 prev a)) ≡ false)
      × (check_starts6 hi exc_idx exc_lo n_exc left (i + 1) j' a ≡ ok tt)
unfolding check_starts6
step6 hi exc_idx exc_lo n_exc left i j prev bh bl e =
    let (h, p, e1) = or_panic-ok (le_at 8 hi (i * 8)) _ e in
    let (next, q, e2) = >>=-ok (low_half exc_idx exc_lo n_exc i j) _ e1 in
    let (a, e3) = refuse_if-ok (ltb 0 i && ltb h prev.hi) corrupt _ e2 in
    let (b, e4) =
      refuse_if-ok (ltb 0 i && not (less128 prev (record { hi = h; lo = next.0 }))) corrupt _ e3 in
    (
      record { hi = h; lo = next.0 },
      next.1,
      record {
        hi_fits = le_at-lt 8 hi (i * 8) h bh p;
        lo_fits = low_half-lt exc_idx exc_lo n_exc i j next bl q;
      },
      p,
      q,
      b,
      e4,
    )

HasTops-cons :
    (hi : List ℕ) (i : ℕ) (a : Addr) (ss : List Addr)
    → le_at 8 hi (i * 8) ≡ some a.hi
    → HasTops hi (i + 1) ss
    → HasTops hi i (a ∷ ss)
HasTops-cons hi i a ss e h zero lt = ap (le_at 8 hi) (omega arith) ∙ e
HasTops-cons hi i a ss e h (suc k) lt = ap (le_at 8 hi) (omega arith) ∙ h k (omega arith)

check_starts6-IsUp :
    (hi exc_idx exc_lo : List ℕ) (n_exc left i j : ℕ) (prev : Addr)
    → All IsByte hi
    → All IsByte exc_lo
    → 0 < i
    → IsAddr prev
    → IsAscending exc_idx n_exc
    → Splits exc_idx n_exc i j
    → check_starts6 hi exc_idx exc_lo n_exc left i j prev ≡ ok tt
    → (ss : List Addr) × (length ss ≡ left)
      × IsUp (num prev + 1) ss
      × HasTops hi i ss
      × HasLows exc_idx exc_lo n_exc i ss
check_starts6-IsUp hi exc_idx exc_lo n_exc zero i j prev bh bl pos pv asc sp e =
    ([], refl, tt, (λ k lt. absurd (omega arith)), tt)
check_starts6-IsUp hi exc_idx exc_lo n_exc (suc left) i j prev bh bl pos pv asc sp e =
    let (a, j', av, p, q, b, e') = step6 hi exc_idx exc_lo n_exc left i j prev bh bl e in
    let t : less128 prev a ≡ true = ground arith in
    let lt = (less128-lt prev a pv av).0 t in
    let (low, sp') = low_half-LowOf exc_idx exc_lo n_exc i j a.lo j' asc sp q in
    let (ss, n, up, tops, lows) =
      check_starts6-IsUp hi exc_idx exc_lo n_exc left (i + 1) j' a bh bl (omega arith) av asc sp'
        e' in
    (a ∷ ss, ap suc n, (av, omega arith, up), HasTops-cons hi i a ss p tops, (low, lows))

-- IPv6 sections of bytes that are accepted hold `n` strictly ascending 128-bit starts: the top half of
-- each is the word of V6STARTS, and the low half the word of V6EXCLO if V6EXCIDX lists the start, else 0.
pub check_ipv6-IsUp :
    (hi exc_idx exc_lo : List ℕ) (n n_exc : ℕ)
    → All IsByte hi
    → All IsByte exc_lo
    → check_ipv6 hi exc_idx exc_lo n n_exc ≡ ok tt
    → (ss : List Addr) × (length ss ≡ n)
      × IsUp 0 ss
      × HasTops hi 0 ss
      × HasLows exc_idx exc_lo n_exc 0 ss
unfolding check_ipv6
check_ipv6-IsUp hi exc_idx exc_lo zero n_exc bh bl e =
    ([], refl, tt, (λ k lt. absurd (omega arith)), tt)
check_ipv6-IsUp hi exc_idx exc_lo (suc n) n_exc bh bl e =
    let (ok_exc, e1) = >>-ok (check_exceptions exc_idx exc_lo (suc n) n_exc 0) _ e in
    let asc = check_exceptions-IsAscending exc_idx exc_lo (suc n) n_exc ok_exc in
    let (a, j', av, p, q, b, e') =
      step6 hi exc_idx exc_lo n_exc n 0 0 (record { hi = 0; lo = 0 }) bh bl e1 in
    let (low, sp) =
      low_half-LowOf exc_idx exc_lo n_exc 0 0 a.lo j' asc (Splits-start exc_idx n_exc) q in
    let (ss, len, up, tops, lows) =
      check_starts6-IsUp hi exc_idx exc_lo n_exc n (0 + 1) j' a bh bl (omega arith) av asc sp e' in
    (a ∷ ss, ap suc len, (av, omega arith, up), HasTops-cons hi 0 a ss p tops, (low, lows))
