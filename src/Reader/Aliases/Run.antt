-- ===== src/Reader/Aliases/Run.antt =====
-- `yieldUnaliased` yields a list of ranges in order, until the callback asks for no more.
use ip2geo.Base.{
  ℕ, ◌+◌, ◌^◌, ◌≤◌, ◌<◌, ◌≡◌, ◌⊎◌, inl, inr, refl, Bool, Bool-cases, true, false, not, List, [],
  ◌∷◌, ◌++◌, if◌then◌else◌,
}
use ip2geo.Reader.Words128.{IsAddr, num, less128, inc128, dec128}
use ip2geo.Reader.Aliases.{Range, Yield, yield_if, yield_parts}

-- The address `x`, as a number, is in the range.
abbrev pub In : Range → ℕ → Type 0
In rg x = (num rg.first ≤ x) × (x ≤ num rg.last)

abbrev pub InSome : List Range → ℕ → Type 0
InSome [] x = ⊥
InSome (r ∷ rs) x = In r x ⊎ InSome rs x

-- Ranges of addresses, ascending and apart, from `lo` on, the last address of all in none of them.
abbrev pub IsApart : ℕ → List Range → Type 0
IsApart lo [] = Unit
IsApart lo (r ∷ rs) =
    IsAddr r.first
    × IsAddr r.last
    × (lo ≤ num r.first)
    × (num r.first ≤ num r.last)
    × (num r.last + 1 < 2 ^ 128)
    × IsApart (num r.last + 1) rs

-- Yielding ranges in order until the callback asks for no more.
abbrev pub yield_all : {S : Type 0} → Yield S → List Range → S → Bool × S
yield_all yield [] s = (true, s)
yield_all yield (r ∷ rs) s =
    let (more, s') = yield s r in if more then yield_all yield rs s' else (false, s')

-- The parts of `rg` outside the aliases `rest`.
unfoldable pub parts : List Range → Range → List Range
parts [] rg = rg ∷ []
parts (a ∷ rest) rg =
    if less128 a.last rg.first
    then parts rest rg
    else if less128 rg.last a.first
    then rg ∷ []
    else (if less128 rg.first a.first
        then record { first = rg.first; last = dec128 a.first } ∷ []
        else [])
      ++ (if not (less128 a.last rg.last)
          then []
          else parts rest (record { first = inc128 a.last; last = rg.last }))

module _ {S : Type 0} (yield : Yield S) where
  one_yield : (s : S) (rg : Range) → yield s rg ≡ yield_all yield (rg ∷ []) s
  one_yield s rg = go (yield s rg)
    where
      go : (p : Bool × S) → p ≡ (if p.0 then (true, p.1) else (false, p.1))
      go (true, s) = refl
      go (false, s) = refl

  both :
      (f : S → Bool × S) (ps : List Range) (v w : Bool) (s : S) (r : Range)
      → ((s : S) → f s ≡ yield_all yield ps s)
      → yield_if yield v s r (λ s'. if not w then (true, s') else f s')
        ≡ yield_all yield ((if v then r ∷ [] else []) ++ (if not w then [] else ps)) s
  unfolding yield_if
  both f ps v w s r h = first v
    where
      after :
          (w : Bool) (s : S)
          → (if not w then (true, s) else f s) ≡ yield_all yield (if not w then [] else ps) s
      after true s = h s
      after false s = refl

      go :
          (p : Bool × S)
          → (if p.0 then (if not w then (true, p.1) else f p.1) else (false, p.1))
            ≡ (if p.0 then yield_all yield (if not w then [] else ps) p.1 else (false, p.1))
      go (true, s) = after w s
      go (false, s) = refl

      first :
          (v : Bool)
          → yield_if yield v s r (λ s'. if not w then (true, s') else f s')
            ≡ yield_all yield ((if v then r ∷ [] else []) ++ (if not w then [] else ps)) s
      first true = go (yield s r)
      first false = after w s

  pub yield_parts-parts :
      (as_ : List Range) (s : S) (rg : Range)
      → yield_parts yield as_ s rg ≡ yield_all yield (parts as_ rg) s
  unfolding yield_parts parts yield_if
  yield_parts-parts [] s rg = one_yield s rg
  yield_parts-parts (a ∷ rest) s rg = elim (Bool-cases (less128 a.last rg.first)) [
    | inl t ↦ rw t (yield_parts-parts rest s rg)
    | inr t ↦ elim (Bool-cases (less128 rg.last a.first)) [
      | inl u ↦ rw (t, u) (one_yield s rg)
      | inr u ↦
          rw (t, u)
            (both _ _ (less128 rg.first a.first) (less128 a.last rg.last) s _
              (λ s'. yield_parts-parts rest s' (record { first = inc128 a.last; last = rg.last })))
    ]
  ]
