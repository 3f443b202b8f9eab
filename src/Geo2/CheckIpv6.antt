-- ===== src/Geo2/CheckIpv6.antt =====
-- geo2.go: `checkIPv6`, rule 8 of the reader requirements.
pub mod Lows
pub mod Ascends
use ip2geo.Base.{
  ℕ, zero, suc, ◌+◌, ◌-◌, ◌*◌, Bool, true, false, ◌&&◌, not, Option, none, some, List, ltb, leb,
  ◌==◌, Result, ok, ◌>>=◌, ◌>>◌, refuse_if, or_panic, if◌then◌else◌,
}
use ip2geo.Bytes.{le_at}
use ip2geo.Geo2.Errors.{OpenError, corrupt}
use ip2geo.Reader.Words128.{Addr, less128}

-- The case `j > 0 && i <= …`, which reads the entry before.
unfoldable pub check_above_last : List ℕ → ℕ → ℕ → Result OpenError (Unit {0})
check_above_last exc_idx j i =
    if ltb 0 j
    then (or_panic (le_at 4 exc_idx (j * 4 - 4)) >>= λ p. refuse_if (leb i p) corrupt)
    else ok tt

-- `for j := range g.nExc`, from `j` on with `left` rounds to go.
unfoldable pub check_exceptions : List ℕ → List ℕ → ℕ → ℕ → ℕ → Result OpenError (Unit {0})
check_exceptions exc_idx exc_lo n zero j = ok tt
check_exceptions exc_idx exc_lo n (suc left) j = do
  i ← or_panic (le_at 4 exc_idx (j * 4))
  refuse_if (leb n i) corrupt
  check_above_last exc_idx j i
  l ← or_panic (le_at 8 exc_lo (j * 8))
  refuse_if (l == 0) corrupt
  check_exceptions exc_idx exc_lo n left (j + 1)

-- The low half of start `i`, and the next exception: `j` is the next one so far.
unfoldable pub low_half : List ℕ → List ℕ → ℕ → ℕ → ℕ → Result OpenError (ℕ × ℕ)
low_half exc_idx exc_lo n_exc i j =
    if ltb j n_exc
    then (do
      e ← or_panic (le_at 4 exc_idx (j * 4))
      (if e == i then (or_panic (le_at 8 exc_lo (j * 8)) >>= λ l. ok (l, j + 1)) else ok (0, j)))
    else ok (0, j)

-- `for i := range g.nV6`, from `i` on with `left` rounds to go; `prev` is the start before.
unfoldable pub check_starts6 :
    List ℕ → List ℕ → List ℕ → ℕ → ℕ → ℕ → ℕ → Addr → Result OpenError (Unit {0})
check_starts6 hi exc_idx exc_lo n_exc zero i j prev = ok tt
check_starts6 hi exc_idx exc_lo n_exc (suc left) i j prev = do
  h ← or_panic (le_at 8 hi (i * 8))
  next ← low_half exc_idx exc_lo n_exc i j
  refuse_if (ltb 0 i && ltb h prev.hi) corrupt
  refuse_if (ltb 0 i && not (less128 prev (record { hi = h; lo = next.0 }))) corrupt
  check_starts6 hi exc_idx exc_lo n_exc left (i + 1) next.1 (record { hi = h; lo = next.0 })

unfoldable pub check_ipv6 : List ℕ → List ℕ → List ℕ → ℕ → ℕ → Result OpenError (Unit {0})
check_ipv6 hi exc_idx exc_lo n n_exc =
    check_exceptions exc_idx exc_lo n n_exc 0
    >> check_starts6 hi exc_idx exc_lo n_exc n 0 0 (record { hi = 0; lo = 0 })
