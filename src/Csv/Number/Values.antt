-- ===== src/Csv/Number/Values.antt =====
-- The number parsers against the value of a decimal numeral.
use ip2geo.Base.{
  ℕ, zero, suc, ◌+◌, ◌-◌, ◌*◌, ◌/◌, ◌%◌, ◌^◌, ◌≤◌, ◌<◌, ◌≡◌, ◌↔◌, ◌⊎◌, inl, inr, refl, sym, ap, ◌∙◌,
  true, false, Bool-cases, none, some, List, [], ◌∷◌, length, All, ltb, ◌==◌, arith, some_injective,
  bind-some, ◌||◌,
}
use mathlib.Core.Option
use native.Mathlib.Nat.{pow-suc, pow-succ', pow-le-pow_right}
use ip2geo.Csv.Number.{
  not_digit, decimal_loop, parse_uint32, mul64, add64, times_ten, uint128_loop, parse_uint128,
}

abbrev pub IsDigit : ℕ → Type 0
IsDigit c = (b'0' ≤ c) × (c ≤ b'9')

-- The value of a numeral: each digit at its power of ten.
unfoldable pub decimal : List ℕ → ℕ
decimal [] = 0
decimal (c ∷ b) = (c - b'0') * 10 ^ length b + decimal b

decimal-lt : (b : List ℕ) → All IsDigit b → decimal b < 10 ^ length b
unfolding decimal
decimal-lt [] h = omega arith
decimal-lt (c ∷ b) h =
    let d : c - b'0' ≤ 9 = omega (arith, h.0.1) in
    grind (arith, decimal-lt b h.1, pow-suc 10 (length b))

pub data View (c : ℕ) : Type 0 where
  digit : IsDigit c → not_digit c ≡ false → View c
  other : (IsDigit c → ⊥) → not_digit c ≡ true → View c

view : (c : ℕ) → View c
view c = elim (Bool-cases (not_digit c)) [
  | inl t ↦ View.other (λ d. absurd (ground arith)) t
  | inr f ↦ View.digit (ground arith, ground arith) f
]

shift : (v d p n : ℕ) → (v * 10 + d) * p + n ≡ v * (10 * p) + (d * p + n)
shift v d p n = grind arith

pow_pos : (k : ℕ) → 1 ≤ 10 ^ k
pow_pos zero = omega arith
pow_pos (suc k) = omega (arith, pow_pos k, pow-suc 10 k)

le_mul_pow : (n k : ℕ) → n ≤ n * 10 ^ k
le_mul_pow n k = let p = pow_pos k in grind arith

-- One more digit, at its power of ten.
shift_digit :
    (v d : ℕ) (b : List ℕ)
    → (v * 10 + d) * 10 ^ length b + decimal b
      ≡ v * 10 ^ suc (length b) + (d * 10 ^ length b + decimal b)
shift_digit v d b =
    shift v d (10 ^ length b) (decimal b)
    ∙ ap (λ (t : ℕ). v * t + (d * 10 ^ length b + decimal b)) (sym (pow-succ' 10 (length b)))

decimal_loop-decimal :
    (b : List ℕ) (v : ℕ)
    → All IsDigit b
    → v * 10 ^ length b + decimal b < 2 ^ 64
    → decimal_loop b v ≡ some (v * 10 ^ length b + decimal b)
unfolding decimal_loop decimal
decimal_loop-decimal [] v h lt = ap some (omega arith)
decimal_loop-decimal (c ∷ b) v h lt = elim (view c) [
  | View.other bad t ↦ absurd (bad h.0)
  | View.digit d f ↦
      let next = v * 10 + (c - b'0') in
      let total : next * 10 ^ length b + decimal b
          ≡ v * 10 ^ suc (length b) + ((c - b'0') * 10 ^ length b + decimal b) =
        shift_digit v (c - b'0') b in
      let small : next < 2 ^ 64 = omega (arith, le_mul_pow next (length b), total, lt) in
      let e : next % 2 ^ 64 ≡ next = omega arith in
      rw (f, e) (decimal_loop-decimal b next h.1 (omega (arith, total, lt)) ∙ ap some total)
]

decimal_loop-digits : (b : List ℕ) (v w : ℕ) → decimal_loop b v ≡ some w → All IsDigit b
unfolding decimal_loop
decimal_loop-digits [] v w e = tt
decimal_loop-digits (c ∷ b) v w e = elim (view c) [
  | View.other bad t ↦ absurd (ground (arith, t, e))
  | View.digit d f ↦
      (d, decimal_loop-digits b ((v * 10 + (c - b'0')) % 2 ^ 64) w (ground (arith, f, e)))
]

times_ten-value :
    (hi lo d : ℕ)
    → hi < 2 ^ 64
    → lo < 2 ^ 64
    → d ≤ 9
    → ((times_ten (hi, lo) d ≡ none) × (2 ^ 128 ≤ (hi * 2 ^ 64 + lo) * 10 + d))
      ⊎ ((h : ℕ) × (l : ℕ) × (times_ten (hi, lo) d ≡ some (h, l))
          × (h < 2 ^ 64)
          × (l < 2 ^ 64)
          × (h * 2 ^ 64 + l ≡ (hi * 2 ^ 64 + lo) * 10 + d))
unfolding times_ten mul64 add64
times_ten-value hi lo d hh hl hd =
    let top = hi * 10 / 2 ^ 64 in
    let carry = (lo * 10 % 2 ^ 64 + d + 0) / 2 ^ 64 in
    let sum = hi * 10 % 2 ^ 64 + lo * 10 / 2 ^ 64 + carry in
    elim (Bool-cases (top == 0)) [
      | inr f ↦ let big : 1 ≤ top = ground arith in inl (rw f refl, omega arith)
      | inl z ↦
          let small : top ≡ 0 = ground arith in
          elim (Bool-cases (sum / 2 ^ 64 == 0)) [
            | inr f ↦ let big : 1 ≤ sum / 2 ^ 64 = ground arith in inl (rw (z, f) refl, omega arith)
            | inl f ↦
                let low : sum / 2 ^ 64 ≡ 0 = ground arith in
                inr (
                  sum % 2 ^ 64,
                  (lo * 10 % 2 ^ 64 + d + 0) % 2 ^ 64,
                  rw (z, f) refl,
                  omega arith,
                  omega arith,
                  omega arith,
                )
          ]
    ]

loop_value : (b : List ℕ) → length b ≤ 10 → All IsDigit b → decimal_loop b 0 ≡ some (decimal b)
loop_value b le h =
    let small : 10 ^ length b ≤ 10 ^ 10 = pow-le-pow_right (omega arith) le in
    decimal_loop-decimal b 0 h (omega (arith, decimal-lt b h, small)) ∙ ap some (omega arith)

-- `parseUint32` accepts the numerals of one to ten digits below 2 ^ 32, and returns their value.
pub parse_uint32_iff :
    (b : List ℕ) (v : ℕ)
    → (parse_uint32 b ≡ some v)
      ↔ ((1 ≤ length b) × (length b ≤ 10) × All IsDigit b × (decimal b ≡ v) × (v < 2 ^ 32))
unfolding parse_uint32
parse_uint32_iff b v = elim (Bool-cases (length b == 0 || ltb 10 (length b))) [
  | inl t ↦ rw t (λ e. absurd (ground arith), λ p. absurd (ground (arith, p.0, p.1)))
  | inr f ↦
      let hi : length b ≤ 10 = ground arith in
      rw f (
        λ e.
            let (w, loop, e1) = bind-some (decimal_loop b 0) _ e in
            let ds = decimal_loop-digits b 0 w loop in
            let same : w ≡ decimal b = some_injective (sym loop ∙ loop_value b hi ds) in
            (ground arith, hi, ds, ground arith, ground arith),
        λ (lo, _, ds, value, lt). rw (loop_value b hi ds) (ground arith),
      )
]

uint128_loop-decimal :
    (b : List ℕ) (hi lo : ℕ)
    → All IsDigit b
    → hi < 2 ^ 64
    → lo < 2 ^ 64
    → ((uint128_loop b (hi, lo) ≡ none)
        × (2 ^ 128 ≤ (hi * 2 ^ 64 + lo) * 10 ^ length b + decimal b))
      ⊎ ((h : ℕ) × (l : ℕ) × (uint128_loop b (hi, lo) ≡ some (h, l))
          × (h < 2 ^ 64)
          × (l < 2 ^ 64)
          × (h * 2 ^ 64 + l ≡ (hi * 2 ^ 64 + lo) * 10 ^ length b + decimal b))
unfolding uint128_loop decimal
uint128_loop-decimal [] hi lo ds hh hl = inr (hi, lo, refl, hh, hl, omega arith)
uint128_loop-decimal (c ∷ b) hi lo ds hh hl = elim (view c) [
  | View.other bad t ↦ absurd (bad ds.0)
  | View.digit d f ↦
      let v = hi * 2 ^ 64 + lo in
      let next = v * 10 + (c - b'0') in
      let total : next * 10 ^ length b + decimal b
          ≡ v * 10 ^ suc (length b) + ((c - b'0') * 10 ^ length b + decimal b) =
        shift_digit v (c - b'0') b in
      elim (times_ten-value hi lo (c - b'0') hh hl (omega (arith, d.1))) [
        | inl (fails, big) ↦
            inl (rw (f, fails) refl, omega (arith, big, le_mul_pow next (length b), total))
        | inr (h, l, goes, fh, fl, same) ↦ elim (uint128_loop-decimal b h l ds.1 fh fl) [
          | inl (fails, big) ↦ inl (
            rw (f, goes) fails,
            omega (arith, big, total, ap (λ (t : ℕ). t * 10 ^ length b) same),
          )
          | inr (h', l', goes', fh', fl', same') ↦ inr (
            h',
            l',
            rw (f, goes) goes',
            fh',
            fl',
            omega (arith, same', total, ap (λ (t : ℕ). t * 10 ^ length b) same),
          )
        ]
      ]
]

uint128_loop-digits : (b : List ℕ) (v w : ℕ × ℕ) → uint128_loop b v ≡ some w → All IsDigit b
unfolding uint128_loop
uint128_loop-digits [] v w e = tt
uint128_loop-digits (c ∷ b) v w e = elim (view c) [
  | View.other bad t ↦ absurd (ground (arith, t, e))
  | View.digit d f ↦
      let e' : Option.bind (times_ten v (c - b'0')) (λ v'. uint128_loop b v') ≡ some w =
        rw f at e in
      let (v', _, next) = bind-some (times_ten v (c - b'0')) _ e' in
      (d, uint128_loop-digits b v' w next)
]

pair_of :
    (h l hi lo : ℕ)
    → h < 2 ^ 64
    → l < 2 ^ 64
    → hi < 2 ^ 64
    → lo < 2 ^ 64
    → h * 2 ^ 64 + l ≡ hi * 2 ^ 64 + lo
    → ◌≡◌ {A = ℕ × ℕ} (h, l) (hi, lo)
pair_of h l hi lo gh gl fh fl e =
    let eh : h ≡ hi = omega arith in let el : l ≡ lo = omega arith in rw (eh, el) refl

-- `parseUint128` accepts the numerals of one to 39 digits below 2 ^ 128, and returns the high and
-- the low 64 bits of their value.
pub parse_uint128_iff :
    (b : List ℕ) (hi lo : ℕ)
    → (parse_uint128 b ≡ some (hi, lo)) ↔ (
        (1 ≤ length b)
        × (length b ≤ 39)
        × All IsDigit b
        × (hi < 2 ^ 64)
        × (lo < 2 ^ 64)
        × (hi * 2 ^ 64 + lo ≡ decimal b))
unfolding parse_uint128
parse_uint128_iff b hi lo = elim (Bool-cases (length b == 0 || ltb 39 (length b))) [
  | inl t ↦ rw t (λ e. absurd (ground arith), λ p. absurd (ground (arith, p.0, p.1)))
  | inr f ↦ rw f (
    λ e.
        let ds = uint128_loop-digits b (0, 0) (hi, lo) e in
        elim (uint128_loop-decimal b 0 0 ds (omega arith) (omega arith)) [
          | inl (fails, _) ↦ absurd (ground (arith, fails, e))
          | inr (h, l, goes, fh, fl, same) ↦
              let pair : ◌≡◌ {A = ℕ × ℕ} (h, l) (hi, lo) = some_injective (sym goes ∙ e) in
              let eh : h ≡ hi = ap (λ p. p.0) pair in
              let el : l ≡ lo = ap (λ p. p.1) pair in
              (
                ground arith,
                ground arith,
                ds,
                ground arith,
                ground arith,
                omega (arith, same, eh, el),
              )
        ],
    λ (_, _, ds, fh, fl, value). elim (uint128_loop-decimal b 0 0 ds (omega arith) (omega arith)) [
      | inl (fails, big) ↦ absurd (omega (arith, big, value, fh, fl))
      | inr (h, l, goes, gh, gl, same) ↦
          goes ∙ ap some (pair_of h l hi lo gh gl fh fl (omega (arith, same, value)))
    ],
  )
]
