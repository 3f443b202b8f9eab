-- ===== src/Reader/Search6/Level2.antt =====
-- `v6L2Bits` is the logarithm that it means to be.
use ip2geo.Base.{
  ℕ, zero, suc, ◌+◌, ◌*◌, ◌^◌, ◌≤◌, ◌<◌, ◌≡◌, ◌⊎◌, inl, inr, subst, Bool-cases, ltb, arith,
}
use native.Mathlib.Decide.{ℕ_discrete}
use ip2geo.Reader.Search6.{l2_bits_from, v6_l2_bits}

l2_bits_from-least :
    (count left k : ℕ)
    → (k ≤ l2_bits_from count left k)
      × (l2_bits_from count left k ≤ k + left)
      × ((count ≤ 8 * 2 ^ l2_bits_from count left k) ⊎ (l2_bits_from count left k ≡ k + left))
      × ((j : ℕ) → k ≤ j → j < l2_bits_from count left k → 8 * 2 ^ j < count)
unfolding l2_bits_from
l2_bits_from-least count zero k =
    (omega arith, omega arith, inr (omega arith), λ j lo hi. absurd (omega arith))
l2_bits_from-least count (suc left) k =
    let (a, b, c, d) = l2_bits_from-least count left (k + 1) in
    elim (Bool-cases (ltb (8 * 2 ^ k) count)) [
      | inl t ↦ rw t (
        omega arith,
        omega arith,
        elim c [ inl x ↦ inl x | inr y ↦ inr (omega arith) ],
        λ j lo hi. elim (ℕ_discrete k j) [
          | yes same ↦ subst (λ (j : ℕ). 8 * 2 ^ j < count) same (ground arith)
          | no ne ↦ d j (omega arith) hi
        ],
      )
      | inr t ↦ rw t (omega arith, omega arith, inl (ground arith), λ j lo hi. absurd (omega arith))
    ]

-- The level-2 bits of a bucket are at most 16, and the least number whose slots hold about 8 starts each,
-- unless 16 are too few.
pub v6_l2_bits_least :
    (count : ℕ)
    → (v6_l2_bits count ≤ 16)
      × ((count ≤ 8 * 2 ^ v6_l2_bits count) ⊎ (v6_l2_bits count ≡ 16))
      × ((j : ℕ) → j < v6_l2_bits count → 8 * 2 ^ j < count)
unfolding v6_l2_bits
v6_l2_bits_least count =
    let (a, b, c, d) = l2_bits_from-least count 16 0 in
    (
      omega arith,
      elim c [ inl x ↦ inl x | inr y ↦ inr (omega arith) ],
      λ j hi. d j (omega arith) hi,
    )
