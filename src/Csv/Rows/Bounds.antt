-- ===== src/Csv/Rows/Bounds.antt =====
-- The bounds of an accepted row are addresses of one family, in order.
use ip2geo.Base.{
  ℕ, ◌-◌, ◌^◌, ◌<◌, ◌≡◌, subst, Bool, false, Bool-cases, inl, inr, ◌==◌, ◌&&◌, ◌||◌, not, ltb,
  Option, some, Option-cases, List, ok, ok_injective, >>=-ok, refuse_if-ok, arith,
}
use ip2geo.Build.Strings.{Str}
use ip2geo.Csv.Number.{parse_uint128}
use ip2geo.Csv.Number.Values.{parse_uint128_iff}
use ip2geo.Csv.Ranges.{IpAddr, ipv4, ipv6, less_addr, is_4, IpRange}
use ip2geo.Csv.Ranges.Families.{RowRange}
use ip2geo.Csv.Rows.{
  Rows, mixed_families, descending, cell, row_addr, decimal_addr, text_addr, bounds,
}

-- The addresses of a family.
abbrev pub InFamily : IpAddr → Type 0
InFamily (ipv4 a) = a < 2 ^ 32
InFamily (ipv6 a) = a < 2 ^ 128

decimal_addr-InFamily :
    (v6_file : Bool) (f : Str) {a : IpAddr} → decimal_addr v6_file f ≡ ok a → InFamily a
unfolding decimal_addr
decimal_addr-InFamily v6_file f e = elim (Option-cases (parse_uint128 f)) [
  | inl n ↦ absurd (ground (arith, rw n at e))
  | inr ((hi, lo), s) ↦
      let (_, _, _, fh, fl, _) = (parse_uint128_iff f hi lo).0 s in
      elim (Bool-cases v6_file) [
        | inl t ↦ subst InFamily (ok_injective (rw (s, t) at e)) (omega arith)
        | inr n ↦ elim (Bool-cases (not (hi == 0) || ltb (2 ^ 32 - 1) lo)) [
          | inl big ↦ absurd (ground (arith, rw (s, n, big) at e))
          | inr small ↦ subst InFamily (ok_injective (rw (s, n, small) at e)) (ground arith)
        ]
      ]
]

module _ (parse_addr : Str → Option IpAddr)
    (in_family : (s : Str) (a : IpAddr) → parse_addr s ≡ some a → InFamily a) where
  text_addr-InFamily : (f : Str) {a : IpAddr} → text_addr parse_addr f ≡ ok a → InFamily a
  unfolding text_addr
  text_addr-InFamily f e = elim (Option-cases (parse_addr f)) [
    | inl n ↦ absurd (ground (arith, rw n at e))
    | inr (a, s) ↦ subst InFamily (ok_injective (rw s at e)) (in_family f a s)
  ]

  row_addr-InFamily :
      (r : Rows) (row : List Str) (c : ℕ) {a : IpAddr}
      → row_addr parse_addr r row c ≡ ok a
      → InFamily a
  unfolding row_addr
  row_addr-InFamily r row c e =
      let (f, found, rest) = >>=-ok (cell row c) _ e in
      elim (Bool-cases r.l.decimal) [
        | inl t ↦ decimal_addr-InFamily r.v6_file f (rw t at rest)
        | inr n ↦ text_addr-InFamily f (rw n at rest)
      ]

  ordered-RowRange :
      (f l : IpAddr)
      → InFamily f
      → InFamily l
      → (not (is_4 f && is_4 l) && (is_4 f || is_4 l)) ≡ false
      → less_addr l f ≡ false
      → RowRange f l
  unfolding is_4 less_addr
  ordered-RowRange (ipv4 f) (ipv4 l) hf hl same up = (ground arith, hl)
  ordered-RowRange (ipv4 f) (ipv6 l) hf hl same up = absurd (ground arith)
  ordered-RowRange (ipv6 f) (ipv4 l) hf hl same up = absurd (ground arith)
  ordered-RowRange (ipv6 f) (ipv6 l) hf hl same up = (ground arith, hl)

  pub bounds-RowRange :
      (r : Rows) (row : List Str) {rg : IpRange}
      → bounds parse_addr r row ≡ ok rg
      → RowRange rg.first rg.last
  unfolding bounds
  bounds-RowRange r row e =
      let (f, first, e1) = >>=-ok (row_addr parse_addr r row 0) _ e in
      let (l, last, e2) = >>=-ok (row_addr parse_addr r row 1) _ e1 in
      let (same, e3) = refuse_if-ok _ mixed_families _ e2 in
      let (up, e4) = refuse_if-ok (less_addr l f) descending _ e3 in
      subst (λ (rg : IpRange). RowRange rg.first rg.last) (ok_injective e4)
        (ordered-RowRange f l (row_addr-InFamily r row 0 first) (row_addr-InFamily r row 1 last)
          same up)
