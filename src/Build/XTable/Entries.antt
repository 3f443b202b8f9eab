-- ===== src/Build/XTable/Entries.antt =====
-- The string offsets of internal/build/xrec.go and those of geo2.go.
use ip2geo.Base.{
  ℕ, zero, suc, ◌+◌, ◌-◌, ◌/◌, ◌<◌, ◌≡◌, ◌⊎◌, inl, inr, refl, sym, ap, subst, ◌∙◌, Bool-cases, true,
  false, Option, none, some, some_injective, List, [], ◌∷◌, ◌++◌, length, get_elem?, ◌==◌, ◌&&◌,
  ◌||◌, ltb, All, arith,
}
use ip2geo.Format.XLayout.{XLayout, new_x_layout, blocks, has_field, field_width}
use ip2geo.Geo2.CheckExtensions.{string_offs, field_off, block_offs, lang_offs, x_offs}
use ip2geo.Build.XTable.{XTable, field_at, set_strings, block_str_offs, name_offs, new_x_table}

-- Set `k`, entry `i` of `offs`, has an offset if it is in the fields and none if it is not.
abbrev AtField : List (Option ℕ) → ℕ → ℕ → ℕ → Type 0
AtField offs fields i k =
    ((has_field fields k ≡ true) × (o : ℕ) × (get_elem? offs i ≡ some (some o)))
    ⊎ ((has_field fields k ≡ false) × (get_elem? offs i ≡ some none))

blocks-AtField :
    (fields : ℕ) (ws : List ℕ) (b width i k : ℕ)
    → i < length ws
    → k ≡ b + i
    → AtField (blocks fields ws b width).0 fields i k
unfolding blocks
blocks-AtField fields [] b width i k lt e = absurd (omega arith)
blocks-AtField fields (w ∷ ws) b width zero k lt e =
    let same : k ≡ b = omega arith in
    elim (Bool-cases (has_field fields b)) [
      | inl t ↦ rw (same, t) (inl (refl, width, refl))
      | inr f ↦ rw (same, f) (inr (refl, refl))
    ]
blocks-AtField fields (w ∷ ws) b width (suc i) k lt e = elim (Bool-cases (has_field fields b)) [
  | inl t ↦ rw t (blocks-AtField fields ws (b + 1) (width + w) i k (omega arith) (omega arith))
  | inr f ↦ rw f (blocks-AtField fields ws (b + 1) width i k (omega arith) (omega arith))
]

new_x_layout-field :
    (profile fields n : ℕ)
    → (new_x_layout profile fields n).field ≡ (blocks fields field_width 0 0).0
unfolding new_x_layout
new_x_layout-field profile fields n = elim (Bool-cases (profile == 3)) [
  | inl t ↦ rw t refl
  | inr f ↦ rw f refl
]

block_str_offs-block_offs :
    (l : XLayout) (fields : ℕ) (sets : List (ℕ × List ℕ))
    → All (λ s. AtField l.field fields s.0 s.0) sets
    → block_str_offs l sets ≡ block_offs l fields sets
unfolding block_str_offs block_offs field_at field_off
block_str_offs-block_offs l fields [] h = refl
block_str_offs-block_offs l fields ((f, offs) ∷ rest) h =
    let same = block_str_offs-block_offs l fields rest h.1 in
    elim h.0 [ inl (t, o, e) ↦ rw (t, e, same) refl | inr (n, e) ↦ rw (n, e, same) refl ]

name_offs-lang_offs : (left o : ℕ) → name_offs left o ≡ lang_offs left o
unfolding name_offs lang_offs
name_offs-lang_offs zero o = refl
name_offs-lang_offs (suc left) o = ap (λ os. o ∷ os) (name_offs-lang_offs left (o + 3))

-- An extension table renumbers the strings at exactly the offsets at which the reader expects string
-- ids in a file with these fields.
pub new_x_table-x_offs :
    (profile fields n_langs : ℕ) (t : XTable)
    → new_x_table profile fields n_langs ≡ some t
    → t.str_offs ≡ x_offs (new_x_layout profile fields n_langs) fields
unfolding new_x_table x_offs
new_x_table-x_offs profile fields n_langs t e =
    let l = new_x_layout profile fields n_langs in
    let at : (i : ℕ) → i < 8 → AtField l.field fields i i = λ i lt.
      subst (λ offs. AtField offs fields i i) (sym (new_x_layout-field profile fields n_langs))
        (blocks-AtField fields field_width 0 0 i i lt (omega arith)) in
    let same =
      block_str_offs-block_offs l fields string_offs (
        at 1 (omega arith),
        (at 2 (omega arith), (at 3 (omega arith), (at 4 (omega arith), tt))),
      ) in
    elim (Bool-cases (profile == 3 || fields == 0 && ltb n_langs 2)) [
      | inl c ↦ absurd (ground (arith, c))
      | inr c ↦
          let e' = sym (some_injective (rw c at e)) in
          let rounds = (l.width - l.lang_off + 2) / 3 in
          ap (λ u. u.str_offs) e'
          ∙ ap (λ os. block_str_offs l set_strings ++ os) (name_offs-lang_offs rounds l.lang_off)
          ∙ ap (λ bs. bs ++ lang_offs rounds l.lang_off) same
    ]
