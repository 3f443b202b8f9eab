-- ===== src/Reader/Aliases/Cut.antt =====
-- The cut of `range6` keeps the key and drops the alias prefixes, which are the addresses that
-- `embeddedV4` or netip's `Is4In6` maps to IPv4.
use ip2geo.Base.{
  ℕ, ◌+◌, ◌/◌, ◌^◌, ◌≤◌, ◌<◌, ◌≡◌, ◌≢◌, ◌⊎◌, ◌↔◌, inl, inr, Bool-cases, true, false, none, List, [],
  ◌∷◌, arith,
}
use native.Mathlib.Decide.{dec_lt}
use ip2geo.Reader.Words128.{
  Addr, IsAddr, num, less128, less128-lt, less128-false, less128_ge, inc128-IsAddr, dec128-IsAddr,
}
use ip2geo.Reader.Aliases.{Range, v6_aliases, embedded_v4, is_4_in_6, cut, cut_all}
use ip2geo.Reader.Aliases.Run.{In, InSome, IsApart}
use ip2geo.Reader.Aliases.Parts.{v6_aliases-IsApart}

-- A part of `rg` with the key in it.
record IsAround (k : Addr) (rg out : Range) : Type 0 where
  first_fits : IsAddr out.first
  last_fits : IsAddr out.last
  key_in : In out (num k)
  within : (x : ℕ) → In out x → In rg x

module _ (k : Addr) (a rg : Range) (kv : IsAddr k) (fa : IsAddr a.first) (la : IsAddr a.last)
    (f : IsAddr rg.first) (l : IsAddr rg.last) where
  cut-IsAround :
      num a.last + 1 < 2 ^ 128
      → num a.first ≤ num a.last
      → In rg (num k)
      → ¬ In a (num k)
      → IsAround k rg (cut k a rg) × ((x : ℕ) → In (cut k a rg) x → ¬ In a x)
  unfolding cut
  cut-IsAround top up (p, q) n = elim (dec_lt (num a.last) (num k)) [
    | yes lt ↦
        let t : less128 a.last k ≡ true = (less128-lt a.last k la kv).1 lt in
        let u : less128 k a.first ≡ false = less128_ge k a.first kv fa (omega arith) in
        let (v, e) = inc128-IsAddr a.last la top in
        elim (Bool-cases (less128 a.last rg.first)) [
          | inl w ↦
              let lt' = (less128-lt a.last rg.first la f).0 w in
              rw (t, u, w)
                (
                  record { first_fits = f; last_fits = l; key_in = (p, q); within = λ x i. i },
                  λ x i j. omega (arith, i.0, j.1),
                )
          | inr w ↦
              let ge = less128-false a.last rg.first la f w in
              rw (t, u, w)
                (
                  record {
                    first_fits = v;
                    last_fits = l;
                    key_in = (omega arith, q);
                    within = λ x i. (omega (arith, i.0), i.1);
                  },
                  λ x i j. omega (arith, i.0, j.1),
                )
        ]
    | no ge ↦
        let below : num k < num a.first = elim (dec_lt (num k) (num a.first)) [
          | yes lt ↦ lt
          | no ge' ↦ absurd (n (omega arith, omega arith))
        ] in
        let t : less128 a.last k ≡ false = less128_ge a.last k la kv (omega arith) in
        let u : less128 k a.first ≡ true = (less128-lt k a.first kv fa).1 below in
        let (v, e) = dec128-IsAddr a.first fa (omega arith) in
        elim (Bool-cases (less128 rg.last a.first)) [
          | inl w ↦
              let lt' = (less128-lt rg.last a.first l fa).0 w in
              rw (t, u, w)
                (
                  record { first_fits = f; last_fits = l; key_in = (p, q); within = λ x i. i },
                  λ x i j. omega (arith, i.1, j.0),
                )
          | inr w ↦
              let ge' = less128-false rg.last a.first l fa w in
              rw (t, u, w)
                (
                  record {
                    first_fits = f;
                    last_fits = v;
                    key_in = (p, omega arith);
                    within = λ x i. (i.0, omega (arith, i.1));
                  },
                  λ x i j. omega (arith, i.1, j.0),
                )
        ]
  ]

cut_all-IsAround :
    (k : Addr) (as_ : List Range) (lo : ℕ) (rg : Range)
    → IsAddr k
    → IsApart lo as_
    → IsAddr rg.first
    → IsAddr rg.last
    → In rg (num k)
    → ¬ InSome as_ (num k)
    → IsAround k rg (cut_all k as_ rg) × ((x : ℕ) → In (cut_all k as_ rg) x → ¬ InSome as_ x)
unfolding cut_all
cut_all-IsAround k [] lo rg kv apart f l i n =
    (record { first_fits = f; last_fits = l; key_in = i; within = λ x j. j }, λ x j z. z)
cut_all-IsAround k (a ∷ rest) lo rg kv (fa, la, low, up, top, tail) f l i n =
    let (around, clear) = cut-IsAround k a rg kv fa la f l top up i (λ h. n (inl h)) in
    let (around', clear') =
      cut_all-IsAround k rest (num a.last + 1) (cut k a rg) kv tail around.first_fits
        around.last_fits around.key_in (λ h. n (inr h)) in
    (
      record {
        first_fits = around'.first_fits;
        last_fits = around'.last_fits;
        key_in = around'.key_in;
        within = λ x j. around.within x (around'.within x j);
      },
      λ x j h. elim h [ inl h' ↦ clear x (around'.within x j) h' | inr h' ↦ clear' x j h' ],
    )

-- For a key in the range and in no alias prefix, the cut leaves a range that still holds the key, lies
-- in the one given and holds no address of an alias prefix.
pub cut_all-In :
    (k : Addr) (rg : Range)
    → IsAddr k
    → IsAddr rg.first
    → IsAddr rg.last
    → In rg (num k)
    → ¬ InSome v6_aliases (num k)
    → In (cut_all k v6_aliases rg) (num k)
      × ((x : ℕ) → In (cut_all k v6_aliases rg) x → In rg x × ¬ InSome v6_aliases x)
cut_all-In k rg kv f l i n =
    let (around, clear) = cut_all-IsAround k v6_aliases 0 rg kv v6_aliases-IsApart f l i n in
    (around.key_in, λ x j. (around.within x j, clear x j))

mapped :
    (k : Addr)
    → IsAddr k
    → (embedded_v4 k ≡ none)
      ⊎ ((k.hi ≡ 0) × (k.lo / 2 ^ 32 ≡ 0))
      ⊎ (k.hi / 2 ^ 32 ≡ 0x20010000)
      ⊎ (k.hi / 2 ^ 48 ≡ 0x2002)
unfolding embedded_v4
mapped k h = ground arith

-- The alias prefixes hold the addresses that a lookup maps to IPv4, and no others.
pub v6_aliases-embedded_v4 :
    (k : Addr)
    → IsAddr k
    → InSome v6_aliases (num k) ↔ ((embedded_v4 k ≢ none) ⊎ (is_4_in_6 k ≡ true))
unfolding v6_aliases embedded_v4 is_4_in_6
v6_aliases-embedded_v4 k h =
    let p = h.lo_fits in
    let q = h.hi_fits in
    (
      λ e. elim e [
        | inl (a, b) ↦ inl (ground arith)
        | inr (inl (a, b)) ↦ inr (ground arith)
        | inr (inr (inl (a, b))) ↦ inl (ground arith)
        | inr (inr (inr (inl (a, b)))) ↦ inl (ground arith)
        | inr (inr (inr (inr z))) ↦ absurd z
      ],
      λ e. elim e [
        | inl ne ↦ elim (mapped k h) [
          | inl none_ ↦ absurd (ne none_)
          | inr (inl (a, b)) ↦ inl (omega arith, omega arith)
          | inr (inr (inl a)) ↦ inr (inr (inl (omega arith, omega arith)))
          | inr (inr (inr a)) ↦ inr (inr (inr (inl (omega arith, omega arith))))
        ]
        | inr t ↦ inr (inl (ground arith, ground arith))
      ],
    )
