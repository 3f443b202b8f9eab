-- ===== src/Reader/Aliases/Parts.antt =====
-- `yieldUnaliased` yields the parts of a range that no alias prefix covers.
use ip2geo.Base.{
  ℕ, ◌+◌, ◌^◌, ◌≤◌, ◌<◌, ◌≡◌, ◌⊎◌, ◌↔◌, inl, inr, Bool-cases, not, List, [], ◌∷◌, ◌++◌, arith,
  if◌then◌else◌,
}
use native.Mathlib.Decide.{dec_lt}
use ip2geo.Reader.Words128.{
  IsAddr, num, less128, less128-lt, less128-false, inc128, inc128-IsAddr, dec128, dec128-IsAddr,
}
use ip2geo.Reader.Aliases.{Range, v6_aliases, Yield, yield_unaliased}
use ip2geo.Reader.Aliases.Run.{In, InSome, IsApart, yield_all, parts, yield_parts-parts}

module _ (rest : List Range) (lo : ℕ) (x : ℕ) where
  none_below : IsApart lo rest → x < lo → ¬ InSome rest x
  none_below h lt = go lo rest h lt
    where
      go : (lo : ℕ) (rest : List Range) → IsApart lo rest → x < lo → ¬ InSome rest x
      go lo [] h lt = λ e. e
      go lo (r ∷ rest) (f, l, above, up, top, tail) lt = λ e. elim e [
        | inl (p, q) ↦ omega arith
        | inr e' ↦ go (num r.last + 1) rest tail (omega arith) e'
      ]

InSome-append : (ps qs : List Range) (x : ℕ) → InSome (ps ++ qs) x ↔ (InSome ps x ⊎ InSome qs x)
InSome-append [] qs x = (λ e. inr e, λ e. elim e [ inl z ↦ absurd z | inr e' ↦ e' ])
InSome-append (p ∷ ps) qs x =
    let (to, from) = InSome-append ps qs x in
    (
      λ e. elim e [
        | inl a ↦ inl (inl a)
        | inr b ↦ elim (to b) [ inl c ↦ inl (inr c) | inr d ↦ inr d ]
      ],
      λ e. elim e [
        | inl f ↦ elim f [ inl a ↦ inl a | inr c ↦ inr (from (inl c)) ]
        | inr d ↦ inr (from (inr d))
      ],
    )

-- The range and the alias `a` overlap: what is left before `a`, and what `ps` holds after it.
module _ (a rg : Range) (rest ps : List Range) (x : ℕ) (fa : IsAddr a.first) (la : IsAddr a.last)
    (f : IsAddr rg.first) (l : IsAddr rg.last) where
  module _ (above : num rg.first ≤ num a.last) (meets : num a.first ≤ num rg.last)
      (up : num a.first ≤ num a.last) (tail : IsApart (num a.last + 1) rest) where
    before : List Range
    before =
        if less128 rg.first a.first
        then record { first = rg.first; last = dec128 a.first } ∷ []
        else []

    before-InSome : InSome before x ↔ ((num rg.first ≤ x) × (x < num a.first))
    unfolding before
    before-InSome = elim (Bool-cases (less128 rg.first a.first)) [
      | inl t ↦
          let lt = (less128-lt rg.first a.first f fa).0 t in
          let (_, e) = dec128-IsAddr a.first fa (omega arith) in
          rw t (
            λ i. elim i [ inl (p, q) ↦ (p, omega arith) | inr z ↦ absurd z ],
            λ (p, q). inl (p, omega arith),
          )
      | inr t ↦
          let ge = less128-false rg.first a.first f fa t in
          rw t (λ i. absurd i, λ (p, q). absurd (omega arith))
    ]

    around-InSome :
        (InSome ps x ↔ ((num a.last < x) × (x ≤ num rg.last) × ¬ InSome rest x))
        → InSome (before ++ ps) x ↔ (In rg x × ¬ InSome (a ∷ rest) x)
    around-InSome (to, from) =
        let (split, join) = InSome-append before ps x in
        let (into, out_of) = before-InSome in
        (
          λ e. elim (split e) [
            | inl i ↦
                let (p, q) = into i in
                (
                  (p, omega arith),
                  λ h. elim h [
                    | inl (y, z) ↦ omega arith
                    | inr r ↦ none_below rest (num a.last + 1) x tail (omega arith) r
                  ],
                )
            | inr i ↦
                let (p, q, n) = to i in
                ((omega arith, q), λ h. elim h [ inl (y, z) ↦ omega arith | inr r ↦ n r ])
          ],
          λ ((p, q), n). elim (dec_lt x (num a.first)) [
            | yes lt ↦ join (inl (out_of (p, lt)))
            | no ge ↦ elim (dec_lt (num a.last) x) [
              | yes lt ↦ join (inr (from (lt, q, λ r. n (inr r))))
              | no ge' ↦ absurd (n (inl (omega arith, omega arith)))
            ]
          ],
        )

left_after :
    (a rg : Range) (rest ps : List Range) (x : ℕ)
    → IsAddr a.last
    → IsAddr rg.last
    → num a.last + 1 < 2 ^ 128
    → (num (inc128 a.last) ≤ num rg.last
        → InSome ps x ↔ (In (record { first = inc128 a.last; last = rg.last }) x × ¬ InSome rest x))
    → InSome (if not (less128 a.last rg.last) then [] else ps) x
      ↔ ((num a.last < x) × (x ≤ num rg.last) × ¬ InSome rest x)
left_after a rg rest ps x la l top ih = elim (Bool-cases (less128 a.last rg.last)) [
  | inl t ↦
      let lt = (less128-lt a.last rg.last la l).0 t in
      let (v, e) = inc128-IsAddr a.last la top in
      let (to, from) = ih (omega arith) in
      rw t (
        λ i. let ((p, q), n) = to i in (omega arith, q, n),
        λ (p, q, n). from ((omega arith, q), n),
      )
  | inr t ↦
      let ge = less128-false a.last rg.last la l t in
      rw t (λ i. absurd i, λ (p, q, n). absurd (omega arith))
]

parts-InSome :
    (as_ : List Range) (lo : ℕ) (rg : Range) (x : ℕ)
    → IsApart lo as_
    → IsAddr rg.first
    → IsAddr rg.last
    → num rg.first ≤ num rg.last
    → InSome (parts as_ rg) x ↔ (In rg x × ¬ InSome as_ x)
unfolding parts before
parts-InSome [] lo rg x apart f l le =
    (λ e. elim e [ inl i ↦ (i, λ z. z) | inr z ↦ absurd z ], λ (i, n). inl i)
parts-InSome (a ∷ rest) lo rg x (fa, la, low, up, top, tail) f l le =
    elim (Bool-cases (less128 a.last rg.first)) [
      | inl t ↦
          let lt = (less128-lt a.last rg.first la f).0 t in
          let (to, from) = parts-InSome rest (num a.last + 1) rg x tail f l le in
          rw t (
            λ e.
                let (i, n) = to e in
                (i, λ h. elim h [ inl (p, q) ↦ omega (arith, i.0) | inr r ↦ n r ]),
            λ (i, n). from (i, λ r. n (inr r)),
          )
      | inr t ↦ elim (Bool-cases (less128 rg.last a.first)) [
        | inl u ↦
            let lt = (less128-lt rg.last a.first l fa).0 u in
            rw (t, u)
              (
                λ e. elim e [
                  | inl i ↦ (
                    i,
                    λ h. elim h [
                      | inl (p, q) ↦ omega (arith, i.1)
                      | inr r ↦ none_below rest (num a.last + 1) x tail (omega (arith, i.1)) r
                    ],
                  )
                  | inr z ↦ absurd z
                ],
                λ (i, n). inl i,
              )
        | inr u ↦
            rw (t, u)
              (around-InSome a rg rest _ x fa la f l (less128-false a.last rg.first la f t)
                (less128-false rg.last a.first l fa u) up tail
                (left_after a rg rest _ x la l top (λ le'.
                  parts-InSome rest (num a.last + 1)
                    (record { first = inc128 a.last; last = rg.last }) x tail
                    (inc128-IsAddr a.last la top).0 l le')))
      ]
    ]

pub v6_aliases-IsApart : IsApart 0 v6_aliases
unfolding v6_aliases
v6_aliases-IsApart = grind arith

-- Whatever the callback does, it is given, in order and until it asks for no more, ranges that
-- together hold exactly the addresses of the range that are in no alias prefix.
pub yield_unaliased-parts :
    (rg : Range)
    → IsAddr rg.first
    → IsAddr rg.last
    → num rg.first ≤ num rg.last
    → (ps : List Range) × ((S : Type 0) (yield : Yield S) (s : S)
        → yield_unaliased yield s rg ≡ yield_all yield ps s)
      × ((x : ℕ) → InSome ps x ↔ (In rg x × ¬ InSome v6_aliases x))
unfolding yield_unaliased
yield_unaliased-parts rg f l le = (
  parts v6_aliases rg,
  λ S yield s. yield_parts-parts yield v6_aliases s rg,
  λ x. parts-InSome v6_aliases 0 rg x v6_aliases-IsApart f l le,
)
