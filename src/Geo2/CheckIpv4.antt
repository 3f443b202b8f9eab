-- ===== src/Geo2/CheckIpv4.antt =====
-- geo2.go: `checkIPv4`, rule 7 of the reader requirements.
mod Bucket
pub mod Accepts
pub mod Holds
pub mod Safe
use ip2geo.Base.{
  ℕ, zero, suc, ◌+◌, ◌-◌, ◌*◌, ◌^◌, not, List, ltb, leb, ◌==◌, Result, ok, ◌>>=◌, ◌>>◌, refuse_if,
  or_panic,
}
use ip2geo.Bytes.{le_at}
use ip2geo.Geo2.Errors.{OpenError, corrupt}

-- `for i := int(lo) + 1; i < int(hi); i++`, from `i` on with `left` rounds to go.
unfoldable pub check_starts : List ℕ → ℕ → ℕ → Result OpenError (Unit {0})
check_starts s zero i = ok tt
check_starts s (suc left) i =
    let rest = check_starts s left (i + 1) in
    do
      a ← or_panic (le_at 2 s (i * 2))
      b ← or_panic (le_at 2 s (i * 2 - 2))
      refuse_if (leb a b) corrupt
      rest

-- The top-16 buckets from `g` on, `count` of them.
unfoldable pub check_buckets : List ℕ → List ℕ → ℕ → ℕ → ℕ → Result OpenError (Unit {0})
check_buckets idx s n zero g = ok tt
check_buckets idx s n (suc count) g =
    let rest = check_buckets idx s n count (g + 1) in
    do
      lo ← or_panic (le_at 4 idx (g * 4))
      hi ← or_panic (le_at 4 idx (g * 4 + 4))
      refuse_if (ltb hi lo) corrupt
      refuse_if (ltb n hi) corrupt
      check_starts s (hi - (lo + 1)) (lo + 1)
      rest

-- `top` is V4IdxEntries - 1, and `n` the IPv4 start count.
unfoldable pub check_ipv4_sections : ℕ → List ℕ → List ℕ → ℕ → Result OpenError (Unit {0})
check_ipv4_sections top idx s n = do
  last ← or_panic (le_at 4 idx (top * 4))
  refuse_if (not (last == n)) corrupt
  first ← or_panic (le_at 4 idx 0)
  refuse_if (not (first == 0)) corrupt
  check_buckets idx s n top 0

unfoldable pub check_ipv4 : List ℕ → List ℕ → ℕ → Result OpenError (Unit {0})
check_ipv4 idx s n = check_ipv4_sections (2 ^ 16) idx s n
