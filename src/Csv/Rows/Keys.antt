-- ===== src/Csv/Rows/Keys.antt =====
-- The keys of rows, `row` of csvdb/reader.go, and their uvarints.
use ip2geo.Base.{
  ℕ, zero, suc, ◌*◌, ◌/◌, ◌%◌, ◌^◌, ◌<◌, ◌≡◌, refl, sym, ap, ◌∙◌, false, Bool-cases, inl, inr, ◌⊎◌,
  some, List, [], ◌∷◌, ◌++◌, All, length, get_elem?, ltb, ok, ok_injective, >>=-ok, or_panic-ok,
  arith,
}
use native.Mathlib.Nat.{pow-suc}
use ip2geo.Build.Strings.{Str}
use ip2geo.Csv.Rows.{uvarint, row_key}

-- The lengths of the fields are ints.
abbrev pub IsShortRow : List Str → Type 0
IsShortRow row = (c : ℕ) (f : Str) → get_elem? row c ≡ some f → length f < 2 ^ 63

head_of : {x y : ℕ} {xs ys : List ℕ} → x ∷ xs ≡ y ∷ ys → (x ≡ y) × (xs ≡ ys)
head_of e = (ground (arith, e), ground (arith, e))

pow128 : (k : ℕ) → 128 ^ suc k ≡ 128 * 128 ^ k
pow128 k = omega (arith, pow-suc 128 k)

-- One round of two uvarints: both numbers end, or both go on with equal bytes so far.
uvarint_round :
    (k m n : ℕ) (xs ys : List ℕ)
    → uvarint (suc k) m ++ xs ≡ uvarint (suc k) n ++ ys
    → ((m ≡ n) × (xs ≡ ys))
      ⊎ ((ltb m 0x80 ≡ false)
          × (m % 2 ^ 7 ≡ n % 2 ^ 7)
          × (uvarint k (m / 2 ^ 7) ++ xs ≡ uvarint k (n / 2 ^ 7) ++ ys))
unfolding uvarint
uvarint_round k m n xs ys e = elim (Bool-cases (ltb m 0x80)) [
  | inl a ↦ elim (Bool-cases (ltb n 0x80)) [
    | inl b ↦ inl (head_of (rw (a, b) at e))
    | inr b ↦ let (h, t) = head_of (rw (a, b) at e) in absurd (ground (arith, a, h))
  ]
  | inr a ↦ elim (Bool-cases (ltb n 0x80)) [
    | inl b ↦ let (h, t) = head_of (rw (a, b) at e) in absurd (ground (arith, b, h))
    | inr b ↦ let (h, t) = head_of (rw (a, b) at e) in inr (a, omega (arith, h), t)
  ]
]

-- A number that fits is read back from its uvarint, whatever follows it.
uvarint_injective :
    (k m n : ℕ) (xs ys : List ℕ)
    → m < 128 ^ suc k
    → uvarint (suc k) m ++ xs ≡ uvarint (suc k) n ++ ys
    → (m ≡ n) × (xs ≡ ys)
uvarint_injective zero m n xs ys lt e = elim (uvarint_round zero m n xs ys e) [
  | inl done ↦ done
  | inr (a, h, t) ↦ absurd (ground (arith, a, lt))
]
uvarint_injective (suc k) m n xs ys lt e = elim (uvarint_round (suc k) m n xs ys e) [
  | inl done ↦ done
  | inr (a, h, t) ↦
      let (q, rest) =
        uvarint_injective k (m / 2 ^ 7) (n / 2 ^ 7) xs ys (omega (arith, pow128 (suc k), lt)) t in
      (omega (arith, q, h), rest)
]

append_injective :
    (a b xs ys : List ℕ) → length a ≡ length b → a ++ xs ≡ b ++ ys → (a ≡ b) × (xs ≡ ys)
append_injective [] [] xs ys n e = (refl, e)
append_injective [] (y ∷ b) xs ys n e = absurd (omega arith)
append_injective (x ∷ a) [] xs ys n e = absurd (omega arith)
append_injective (x ∷ a) (y ∷ b) xs ys n e =
    let (h, t) = head_of e in
    let (same, rest) = append_injective a b xs ys (omega arith) t in (ground (arith, h, same), rest)

-- Two rows have the same field in column `c`.
abbrev pub Agree : List Str → List Str → ℕ → Type 0
Agree row other c = get_elem? row c ≡ get_elem? other c

-- Rows with the same key have the same fields in the columns of the key.
pub row_key-Agree :
    (cs : List ℕ) (row other : List Str) (k : Str)
    → IsShortRow row
    → row_key cs row ≡ ok k
    → row_key cs other ≡ ok k
    → All (Agree row other) cs
unfolding row_key
row_key-Agree [] row other k short e f = tt
row_key-Agree (c ∷ cs) row other k short e f =
    let (a, at_a, e1) = or_panic-ok (get_elem? row c) _ e in
    let (b, at_b, f1) = or_panic-ok (get_elem? other c) _ f in
    let (ka, keyed_a, e2) = >>=-ok (row_key cs row) _ e1 in
    let (kb, keyed_b, f2) = >>=-ok (row_key cs other) _ f1 in
    let both = ok_injective e2 ∙ sym (ok_injective f2) in
    let (len, tails) =
      uvarint_injective 9 (length a) (length b) (a ++ ka) (b ++ kb)
        (let s = short c a at_a in omega arith) both in
    let (same, rest) = append_injective a b ka kb len tails in
    (
      at_a ∙ ap some same ∙ sym at_b,
      row_key-Agree cs row other ka short keyed_a (keyed_b ∙ ap ok (sym rest)),
    )
