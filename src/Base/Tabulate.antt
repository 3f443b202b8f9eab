-- ===== src/Base/Tabulate.antt =====
-- A list that holds the values of a function at 0, 1, …: what a loop that fills a table leaves.
use ip2geo.Base.Lists.{
  length, get_elem?, length-append, get_elem?-append_left, get_elem?-append_right,
}
use Prim.Native.Nat.{ℕ, zero, suc, ◌+◌, ◌-◌, ◌<◌}
use mathlib.Core.Path.{◌≡◌, refl, sym, ap, ◌∙◌}
use mathlib.Core.List.{List, [], ◌∷◌, ◌++◌}
use mathlib.Core.Option.{some}
use native.Mathlib.Decide.{dec_lt}
use native.Mathlib.Omega.{arith}

module _ {ℓ} {A : Type ℓ} where
  pub record Tabulates (f : ℕ → A) (n : ℕ) (xs : List A) : Type ℓ where
    pub size : length xs ≡ n
    pub entry : (j : ℕ) → j < n → get_elem? xs j ≡ some (f j)

module _ {ℓ} {A : Type ℓ} where
  pub Tabulates-nil : (f : ℕ → A) → Tabulates f 0 []
  Tabulates-nil f = record { size = refl; entry = λ j lt. absurd (omega arith) }

  pub Tabulates-cons :
      (f g : ℕ → A) (n : ℕ) (x : A) (xs : List A)
      → g 0 ≡ x
      → ((j : ℕ) → j < n → f j ≡ g (suc j))
      → Tabulates f n xs
      → Tabulates g (suc n) (x ∷ xs)
  Tabulates-cons f g n x xs e s t = record { size = ap suc t.size; entry = λ j lt. at_ j lt }
    where
      at_ : (j : ℕ) → j < suc n → get_elem? (x ∷ xs) j ≡ some (g j)
      at_ zero lt = ap some (sym e)
      at_ (suc j) lt = t.entry j (omega arith) ∙ ap some (s j (omega arith))

  pub Tabulates-append :
      (f g h : ℕ → A) (n m : ℕ) (xs ys : List A)
      → Tabulates f n xs
      → Tabulates g m ys
      → ((j : ℕ) → j < n → f j ≡ h j)
      → ((j : ℕ) → j < m → g j ≡ h (n + j))
      → Tabulates h (n + m) (xs ++ ys)
  Tabulates-append f g h n m xs ys s t p q = record {
    size = length-append xs ys ∙ omega (arith, s.size, t.size);
    entry = λ j lt. elim (dec_lt j n) [
      | yes a ↦
          get_elem?-append_left xs ys j (omega (arith, s.size)) ∙ s.entry j a ∙ ap some (p j a)
      | no a ↦
          let e : n + (j - n) ≡ j = omega arith in
          get_elem?-append_right xs ys (j - n) j (omega (arith, s.size))
          ∙ t.entry (j - n) (omega arith)
          ∙ ap some (q (j - n) (omega arith) ∙ ap h e)
    ];
  }
