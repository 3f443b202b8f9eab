-- ===== src/Csv/Number.antt =====
-- csvdb/scan.go: `parseUint32` and `parseUint128`.
pub mod Values
use ip2geo.Base.{
  ℕ, zero, suc, ◌+◌, ◌-◌, ◌*◌, ◌/◌, ◌%◌, ◌^◌, Bool, true, false, ◌||◌, not, Option, none, some,
  List, [], ◌∷◌, length, ltb, leb, ◌==◌, if◌then◌else◌,
}
use mathlib.Core.Option

-- `c < '0' || c > '9'`.
abbrev pub not_digit : ℕ → Bool
not_digit c = ltb c b'0' || ltb b'9' c

-- `v = v*10 + uint64(c-'0')` for each byte.
unfoldable pub decimal_loop : List ℕ → ℕ → Option ℕ
decimal_loop [] v = some v
decimal_loop (c ∷ b) v =
    let rest = decimal_loop b ((v * 10 + (c - b'0')) % 2 ^ 64) in if not_digit c then none else rest

unfoldable pub parse_uint32 : List ℕ → Option ℕ
unfolding Option.bind
parse_uint32 b =
    if length b == 0 || ltb 10 (length b)
    then none
    else Option.bind (decimal_loop b 0) λ v. if leb v (2 ^ 32 - 1) then some v else none

-- `bits.Mul64`: the high and the low half of the product.
unfoldable pub mul64 : ℕ → ℕ → ℕ × ℕ
mul64 x y = (x * y / 2 ^ 64, x * y % 2 ^ 64)

-- `bits.Add64`: the sum and the carry out.
unfoldable pub add64 : ℕ → ℕ → ℕ → ℕ × ℕ
add64 x y carry = ((x + y + carry) % 2 ^ 64, (x + y + carry) / 2 ^ 64)

-- `(hi, lo) = (hi, lo)*10 + c`; `none` is a carry out of `hi`.
unfoldable pub times_ten : ℕ × ℕ → ℕ → Option (ℕ × ℕ)
times_ten (hi, lo) d =
    let (h1, h0) = mul64 hi 10 in
    let (l1, l0) = mul64 lo 10 in
    let (lo', carry) = add64 l0 d 0 in
    let (hi', c2) = add64 h0 l1 carry in
    if not (h1 == 0) || not (c2 == 0) then none else some (hi', lo')

unfoldable pub uint128_loop : List ℕ → ℕ × ℕ → Option (ℕ × ℕ)
unfolding Option.bind
uint128_loop [] v = some v
uint128_loop (c ∷ b) v =
    if not_digit c then none else Option.bind (times_ten v (c - b'0')) (λ v'. uint128_loop b v')

-- The high and the low 64 bits.
unfoldable pub parse_uint128 : List ℕ → Option (ℕ × ℕ)
parse_uint128 b = if length b == 0 || ltb 39 (length b) then none else uint128_loop b (0, 0)
