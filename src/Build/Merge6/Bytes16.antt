-- ===== src/Build/Merge6/Bytes16.antt =====
-- The byte loops of merge.go against arithmetic on the address as one number.
use ip2geo.Base.{
  ℕ, suc, ◌+◌, ◌*◌, ◌%◌, ◌^◌, ◌≤◌, ◌<◌, ◌≡◌, ◌↔◌, refl, sym, ap, ◌∙◌, ◌==◌, Bool, true, false, [],
  ◌∷◌, length, All, arith, if◌then◌else◌,
}
use native.Mathlib.Decide.{dec_lt, ℕ_discrete}
use native.Mathlib.Nat.{pow-suc, mod-eq_of_lt, mod_self}
use ip2geo.Bytes.{IsByte}
use ip2geo.Build.Merge6.{Addr16, less16, inc16, dec_bytes}

-- The bytes as a big-endian number.
unfoldable pub num16 : Addr16 → ℕ
num16 [] = 0
num16 (x ∷ a) = x * 256 ^ length a + num16 a

pub num16-lt : (a : Addr16) → All IsByte a → num16 a < 256 ^ length a
unfolding num16
num16-lt [] h = omega arith
num16-lt (x ∷ a) h = grind (arith, num16-lt a h.1, pow-suc 256 (length a))

succ_mul : (x n : ℕ) → (x + 1) * n ≡ x * n + n
succ_mul x n = grind arith

-- The byte before counted bytes.
abbrev up : ℕ → Addr16 × Bool → Addr16 × Bool
up x (rest, carry) =
    if carry then (((x + 1) % 256) ∷ rest, (x + 1) % 256 == 0) else (x ∷ rest, false)

-- What a count up from `a` leaves: as many bytes, and the number one higher, less the carry out.
abbrev Counted : Addr16 → Addr16 × Bool → Type 0
Counted a (rest, carry) =
    (length rest ≡ length a)
    × All IsByte rest
    × (num16 rest + (if carry then 256 ^ length a else 0) ≡ num16 a + 1)

inc16-Counted : (a : Addr16) → All IsByte a → Counted a (inc16 a)
unfolding inc16 num16
inc16-Counted [] h = (refl, tt, refl)
inc16-Counted (x ∷ a) h = go (inc16 a) (inc16-Counted a h.1)
  where
    go : (r : Addr16 × Bool) → Counted a r → Counted (x ∷ a) (up x r)
    go (rest, true) c = elim (ℕ_discrete x 255) [
      | yes e ↦
          let z : (x + 1) % 256 ≡ 0 = omega arith in
          rw z (
            ap suc c.0,
            (omega arith, c.1),
            rw c.0
                (omega (arith, c.2, pow-suc 256 (length a), ap (λ (t : ℕ). t * 256 ^ length a) e)),
          )
      | no ne ↦
          let z : (x + 1) % 256 ≡ x + 1 = omega (arith, h.0, ne) in
          let t : (x + 1 == 0) ≡ false = ground arith in
          rw (z, t)
            (
              ap suc c.0,
              (omega (arith, h.0, ne), c.1),
              rw c.0 (omega (arith, c.2, succ_mul x (256 ^ length a))),
            )
    ]
    go (rest, false) c = (ap suc c.0, (h.0, c.1), rw c.0 (omega (arith, c.2)))

-- `inc16` is addition of one to the 128-bit number, and reports the carry out of it.
pub inc16-num16 :
    (a : Addr16)
    → All IsByte a
    → (num16 (inc16 a).0 ≡ (num16 a + 1) % 256 ^ length a)
      × (((inc16 a).1 ≡ true) ↔ (num16 a + 1 ≡ 256 ^ length a))
inc16-num16 a h = go (inc16 a) (inc16-Counted a h)
  where
    go :
        (r : Addr16 × Bool)
        → Counted a r
        → (num16 r.0 ≡ (num16 a + 1) % 256 ^ length a)
          × ((r.1 ≡ true) ↔ (num16 a + 1 ≡ 256 ^ length a))
    go (rest, true) c =
        let full : num16 a + 1 ≡ 256 ^ length a = omega (arith, c.2, num16-lt a h) in
        let none_left : num16 rest ≡ 0 = omega (arith, c.2, full) in
        (
          none_left ∙ sym (ap (λ n. n % 256 ^ length a) full ∙ mod_self (256 ^ length a)),
          (λ _. full, λ _. refl),
        )
    go (rest, false) c =
        let lt : num16 a + 1 < 256 ^ length a =
          omega (arith, c.2, num16-lt rest c.1, ap (λ n. 256 ^ n) c.0) in
        (
          omega (arith, c.2) ∙ sym (mod-eq_of_lt lt),
          (λ e. absurd (ground arith), λ e. absurd (omega arith)),
        )

-- Counting down undoes counting up, and wraps where that did.
pub dec_bytes-inc16 : (a : Addr16) → All IsByte a → dec_bytes (inc16 a).0 ≡ (a, (inc16 a).1)
unfolding inc16 dec_bytes
dec_bytes-inc16 [] h = refl
dec_bytes-inc16 (x ∷ a) h = go (inc16 a) (dec_bytes-inc16 a h.1)
  where
    go : (r : Addr16 × Bool) → dec_bytes r.0 ≡ (a, r.1) → dec_bytes (up x r).0 ≡ (x ∷ a, (up x r).1)
    go (rest, true) e = elim (ℕ_discrete x 255) [
      | yes full ↦
          let z : (x + 1) % 256 ≡ 0 = omega arith in rw (z, e) (ap (λ n. (n ∷ a, true)) (sym full))
      | no ne ↦
          let z : (x + 1) % 256 ≡ x + 1 = omega (arith, h.0, ne) in
          let back : (x + 1 + 255) % 256 ≡ x = omega (arith, h.0, ne) in
          let t : (x + 1 == 0) ≡ false = ground arith in
          let u : (x == 255) ≡ false = ground (arith, ne) in rw (z, e, back, t, u) refl
    ]
    go (rest, false) e = rw e refl

high_byte : (x y n a b : ℕ) → a < n → b < n → x < y → x * n + a < y * n + b
high_byte x y n a b ha hb lt = let m : (x + 1) * n ≤ y * n = grind arith in grind arith

-- `bytes.Compare` on addresses orders them as numbers.
pub less16-num16 :
    (a b : Addr16)
    → All IsByte a
    → All IsByte b
    → length a ≡ length b
    → (less16 a b ≡ true) ↔ (num16 a < num16 b)
unfolding less16 num16
less16-num16 [] [] ha hb e = (λ t. absurd (ground arith), λ lt. absurd (omega arith))
less16-num16 [] (y ∷ b) ha hb e = absurd (omega arith)
less16-num16 (x ∷ a) [] ha hb e = absurd (omega arith)
less16-num16 (x ∷ a) (y ∷ b) ha hb e =
    let n : length a ≡ length b = omega arith in
    let (to, from) = less16-num16 a b ha.1 hb.1 n in
    let la = num16-lt a ha.1 in
    let lb : num16 b < 256 ^ length a = rw n (num16-lt b hb.1) in
    rw (sym n) (elim (ℕ_discrete x y) [
      | yes same ↦
          let t : (x == y) ≡ true = ground arith in
          let m : x * 256 ^ length a ≡ y * 256 ^ length a = ap (λ v. v * 256 ^ length a) same in
          rw t (λ less. omega (arith, to less, m), λ lt. from (omega (arith, m)))
      | no ne ↦
          let t : (x == y) ≡ false = ground (arith, ne) in
          rw t (elim (dec_lt x y) [
            | yes under ↦ (
              λ _. high_byte x y (256 ^ length a) (num16 a) (num16 b) la lb under,
              λ _. ground arith,
            )
            | no over ↦
                let gt : y < x = omega (arith, ne) in
                (
                  λ less. absurd (ground arith),
                  λ lt.
                      absurd (
                        omega (arith, high_byte y x (256 ^ length a) (num16 b) (num16 a) lb la gt)),
                )
          ])
    ])
