-- ===== src/Format/XLayout/Names.antt =====
-- The names of the extra languages lie in the XRECORDS entry and do not overlap.
use ip2geo.Base.{
  ℕ, ◌+◌, ◌-◌, ◌*◌, ◌≤◌, ◌<◌, ◌≡◌, ◌≢◌, ◌⊎◌, inl, inr, refl, sym, ap, ◌∙◌, Bool-cases, Option, none,
  some, List, [], ◌∷◌, arith, length, ◌==◌,
}
use native.Mathlib.Nat.{add-mul, mul-le-mul}
use native.Mathlib.Decide.{dec_lt, ℕ_discrete}
use ip2geo.Format.Layout.{profile_asn}
use ip2geo.Format.XLayout.{XLayout, new_x_layout, index_of, name_off}

index_of-lt :
    (kinds : List ℕ) (k i j : ℕ) → index_of kinds k i ≡ some j → (i ≤ j) × (j < i + length kinds)
unfolding index_of
index_of-lt [] k i j e = absurd (ground arith)
index_of-lt (kind ∷ kinds) k i j e = ground (arith, index_of-lt kinds k (i + 1) j)

index_of_apart :
    (kinds : List ℕ) (k k' i j : ℕ)
    → index_of kinds k i ≡ some j
    → index_of kinds k' i ≡ some j
    → k ≡ k'
unfolding index_of
index_of_apart [] k k' i j e e' = absurd (ground arith)
index_of_apart (kind ∷ kinds) k k' i j e e' = ground (
  arith,
  index_of_apart kinds k k' (i + 1) j,
  index_of-lt kinds k (i + 1) j,
  index_of-lt kinds k' (i + 1) j,
)

name_off-index :
    (l : XLayout) (j k o : ℕ)
    → name_off l j k ≡ some o
    → (i : ℕ) × (index_of l.kinds k 0 ≡ some i)
      × (i < length l.kinds)
      × (o ≡ l.lang_off + (j - 1) * 3 * length l.kinds + 3 * i)
unfolding name_off
name_off-index l j k o e = go (index_of l.kinds k 0) refl e
  where
    go :
        (x : Option ℕ)
        → index_of l.kinds k 0 ≡ x
        → name_off l j k ≡ some o
        → (i : ℕ) × (index_of l.kinds k 0 ≡ some i)
          × (i < length l.kinds)
          × (o ≡ l.lang_off + (j - 1) * 3 * length l.kinds + 3 * i)
    go none p e = absurd (ground (arith, p, e))
    go (some i) p e = (i, p, omega (arith, index_of-lt l.kinds k 0 i p), ground (arith, p, e))

-- A row that starts `w` rows later starts past the first one's.
row_after : (a b w n : ℕ) → a + w ≤ b → a * n + w * n ≤ b * n
row_after a b w n le = omega (arith, product, add-mul a w n)
  where
    product : (a + w) * n ≤ b * n
    product = mul-le-mul le (omega arith)

new_x_layout-width :
    (profile fields n_langs : ℕ)
    → let l = new_x_layout profile fields n_langs in
      l.width ≡ l.lang_off + (n_langs - 1) * 3 * length l.kinds
unfolding new_x_layout
new_x_layout-width profile fields n_langs = elim (Bool-cases (profile == profile_asn)) [
  | inl t ↦ rw t (omega arith)
  | inr t ↦ rw t refl
]

-- A name of an extra language, language `j` of the `n_langs`, lies in the entry, past the blocks.
pub name_off-fits :
    (profile fields n_langs j k : ℕ) {o : ℕ}
    → 1 ≤ j
    → j < n_langs
    → name_off (new_x_layout profile fields n_langs) j k ≡ some o
    → ((new_x_layout profile fields n_langs).lang_off ≤ o)
      × (o + 3 ≤ (new_x_layout profile fields n_langs).width)
name_off-fits profile fields n_langs j k {o} lo hi e =
    let l = new_x_layout profile fields n_langs in
    let (i, p, lt, eo) = name_off-index l j k o e in
    let w = new_x_layout-width profile fields n_langs in
    let row = row_after ((j - 1) * 3) ((n_langs - 1) * 3) 3 (length l.kinds) (omega arith) in
    (omega arith, omega arith)

-- Two different names of a layout, by language or by kind, do not share a byte.
pub name_off_apart :
    (l : XLayout) (j k j' k' : ℕ) {o o' : ℕ}
    → 1 ≤ j
    → 1 ≤ j'
    → (j ≢ j') ⊎ (k ≢ k')
    → name_off l j k ≡ some o
    → name_off l j' k' ≡ some o'
    → (o + 3 ≤ o') ⊎ (o' + 3 ≤ o)
name_off_apart l j k j' k' {o} {o'} lo lo' ne e e' =
    let (i, p, lt, eo) = name_off-index l j k o e in
    let (i', p', lt', eo') = name_off-index l j' k' o' e' in
    elim (dec_lt j j') [
      | yes before ↦
          let row = row_after ((j - 1) * 3) ((j' - 1) * 3) 3 (length l.kinds) (omega arith) in
          inl (omega arith)
      | no nbefore ↦ elim (dec_lt j' j) [
        | yes after ↦
            let row = row_after ((j' - 1) * 3) ((j - 1) * 3) 3 (length l.kinds) (omega arith) in
            inr (omega arith)
        | no nafter ↦
            let same : j ≡ j' = omega arith in
            let row : (j - 1) * 3 * length l.kinds ≡ (j' - 1) * 3 * length l.kinds =
              ap (λ x. (x - 1) * 3 * length l.kinds) same in
            elim (ℕ_discrete i i') [
              | yes y ↦ absurd (elim ne [
                | inl n ↦ n same
                | inr n ↦ n (index_of_apart l.kinds k k' 0 i p (p' ∙ ap some (sym y)))
              ])
              | no n ↦ elim (dec_lt i i') [ yes a ↦ inl (omega arith) | no b ↦ inr (omega arith) ]
            ]
      ]
    ]
