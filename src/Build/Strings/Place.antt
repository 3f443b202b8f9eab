-- ===== src/Build/Strings/Place.antt =====
-- The placing loop of `interner.finish`: where each string goes, and that none is overwritten.
use ip2geo.Base.{
  ℕ, zero, suc, ◌+◌, ◌≤◌, ◌<◌, ◌≡◌, refl, sym, ap, ◌∙◌, Bool, true, false, List, [], ◌∷◌, length,
  set, get_elem?, get_elem?-set_same, get_elem?-set_other, length-set, get_or, arith,
}
use ip2geo.Build.Strings.{Str, count_used, place}
use ip2geo.Reader.Count.{◌!◌}

-- What a run of `place` over `us` and `ss` did to the positions of `strs`.
pub record IsPlaced (us : List Bool) (ss : List Str) (next16 next n_u16 : ℕ) (strs strs' : List Str)
    (remap : List ℕ) : Type 0 where
  pub size : length strs' ≡ length strs
  pub count : length remap ≡ length ss
  pub kept : (p : ℕ) → p < next16 → get_elem? strs' p ≡ get_elem? strs p
  pub kept_high : (p : ℕ) → n_u16 ≤ p → p < next → get_elem? strs' p ≡ get_elem? strs p
  pub low :
      (i : ℕ)
      → i < length ss
      → get_or us i false ≡ true
      → (next16 ≤ remap ! i) × (remap ! i < n_u16)
  pub high :
      (i : ℕ)
      → i < length ss
      → get_or us i false ≡ false
      → (next ≤ remap ! i) × (remap ! i < length strs)
  pub found : (i : ℕ) → i < length ss → get_elem? strs' (remap ! i) ≡ get_elem? ss i
  pub ordered :
      (i j : ℕ)
      → i < j
      → j < length ss
      → get_or us i false ≡ get_or us j false
      → remap ! i < remap ! j

pub count_used-le : (us : List Bool) → count_used us ≤ length us
unfolding count_used
count_used-le [] = omega arith
count_used-le (true ∷ us) = omega (arith, count_used-le us)
count_used-le (false ∷ us) = omega (arith, count_used-le us)

module _ (us : List Bool) (s : Str) (ss : List Str) (next16 next n_u16 : ℕ) (strs strs' : List Str)
    (remap : List ℕ) (le : n_u16 ≤ next) where
  IsPlaced-low :
      next16 < n_u16
      → next ≤ length strs
      → IsPlaced us ss (next16 + 1) next n_u16 (set strs next16 s) strs' remap
      → IsPlaced (true ∷ us) (s ∷ ss) next16 next n_u16 strs strs' (next16 ∷ remap)
  IsPlaced-low lt len t = record {
    size = t.size ∙ length-set strs next16 s;
    count = ap suc t.count;
    kept = λ p l. t.kept p (omega arith) ∙ get_elem?-set_other strs next16 p s (omega arith);
    kept_high = λ p lo l. t.kept_high p lo l ∙ get_elem?-set_other strs next16 p s (omega arith);
    low = low;
    high = high;
    found = found;
    ordered = ordered;
  }
    where
      low :
          (i : ℕ)
          → i < suc (length ss)
          → get_or (true ∷ us) i false ≡ true
          → (next16 ≤ (next16 ∷ remap) ! i) × ((next16 ∷ remap) ! i < n_u16)
      low zero l u = (omega arith, lt)
      low (suc i) l u = let (a, b) = t.low i (omega arith) u in (omega arith, b)

      high :
          (i : ℕ)
          → i < suc (length ss)
          → get_or (true ∷ us) i false ≡ false
          → (next ≤ (next16 ∷ remap) ! i) × ((next16 ∷ remap) ! i < length strs)
      high zero l u = absurd (ground arith)
      high (suc i) l u =
          let (a, b) = t.high i (omega arith) u in (a, omega (arith, length-set strs next16 s))

      found :
          (i : ℕ)
          → i < suc (length ss)
          → get_elem? strs' ((next16 ∷ remap) ! i) ≡ get_elem? (s ∷ ss) i
      found zero l = t.kept next16 (omega arith) ∙ get_elem?-set_same strs next16 s (omega arith)
      found (suc i) l = t.found i (omega arith)

      ordered :
          (i j : ℕ)
          → i < j
          → j < suc (length ss)
          → get_or (true ∷ us) i false ≡ get_or (true ∷ us) j false
          → (next16 ∷ remap) ! i < (next16 ∷ remap) ! j
      ordered i zero l l' u = absurd (omega arith)
      ordered zero (suc j) l l' u = let (a, b) = t.low j (omega arith) (sym u) in omega arith
      ordered (suc i) (suc j) l l' u = t.ordered i j (omega arith) (omega arith) u

  IsPlaced-high :
      next16 ≤ n_u16
      → next < length strs
      → IsPlaced us ss next16 (next + 1) n_u16 (set strs next s) strs' remap
      → IsPlaced (false ∷ us) (s ∷ ss) next16 next n_u16 strs strs' (next ∷ remap)
  IsPlaced-high le' lt t = record {
    size = t.size ∙ length-set strs next s;
    count = ap suc t.count;
    kept = λ p l. t.kept p l ∙ get_elem?-set_other strs next p s (omega arith);
    kept_high =
        λ p lo l. t.kept_high p lo (omega arith) ∙ get_elem?-set_other strs next p s (omega arith);
    low = low;
    high = high;
    found = found;
    ordered = ordered;
  }
    where
      low :
          (i : ℕ)
          → i < suc (length ss)
          → get_or (false ∷ us) i false ≡ true
          → (next16 ≤ (next ∷ remap) ! i) × ((next ∷ remap) ! i < n_u16)
      low zero l u = absurd (ground arith)
      low (suc i) l u = t.low i (omega arith) u

      high :
          (i : ℕ)
          → i < suc (length ss)
          → get_or (false ∷ us) i false ≡ false
          → (next ≤ (next ∷ remap) ! i) × ((next ∷ remap) ! i < length strs)
      high zero l u = (omega arith, lt)
      high (suc i) l u =
          let (a, b) = t.high i (omega arith) u in
          (omega arith, omega (arith, length-set strs next s))

      found :
          (i : ℕ)
          → i < suc (length ss)
          → get_elem? strs' ((next ∷ remap) ! i) ≡ get_elem? (s ∷ ss) i
      found zero l = t.kept_high next le (omega arith) ∙ get_elem?-set_same strs next s lt
      found (suc i) l = t.found i (omega arith)

      ordered :
          (i j : ℕ)
          → i < j
          → j < suc (length ss)
          → get_or (false ∷ us) i false ≡ get_or (false ∷ us) j false
          → (next ∷ remap) ! i < (next ∷ remap) ! j
      ordered i zero l l' u = absurd (omega arith)
      ordered zero (suc j) l l' u = let (a, b) = t.high j (omega arith) (sym u) in omega arith
      ordered (suc i) (suc j) l l' u = t.ordered i j (omega arith) (omega arith) u

pub place-IsPlaced :
    (us : List Bool) (ss : List Str) (next16 next n_u16 : ℕ) (strs : List Str)
    → length us ≡ length ss
    → next16 + count_used us ≡ n_u16
    → n_u16 ≤ next
    → next16 + next + length ss ≡ length strs + n_u16
    → IsPlaced us ss next16 next n_u16 strs
        (place us ss next16 next strs).0
        (place us ss next16 next strs).1
unfolding place count_used
place-IsPlaced [] [] next16 next n_u16 strs e c le total = record {
  size = refl;
  count = refl;
  kept = λ p lt. refl;
  kept_high = λ p lo lt. refl;
  low = λ i lt u. absurd (omega arith);
  high = λ i lt u. absurd (omega arith);
  found = λ i lt. absurd (omega arith);
  ordered = λ i j lt lt' u. absurd (omega arith);
}
place-IsPlaced [] (s ∷ ss) next16 next n_u16 strs e c le total = absurd (omega arith)
place-IsPlaced (u ∷ us) [] next16 next n_u16 strs e c le total = absurd (omega arith)
place-IsPlaced (true ∷ us) (s ∷ ss) next16 next n_u16 strs e c le total =
    IsPlaced-low us s ss next16 next n_u16 strs _ _ le (omega arith)
      (omega (arith, count_used-le us))
      (place-IsPlaced us ss (next16 + 1) next n_u16 (set strs next16 s) (omega arith) (omega arith)
        le (omega (arith, length-set strs next16 s)))
place-IsPlaced (false ∷ us) (s ∷ ss) next16 next n_u16 strs e c le total =
    IsPlaced-high us s ss next16 next n_u16 strs _ _ le (omega arith)
      (omega (arith, count_used-le us))
      (place-IsPlaced us ss next16 (next + 1) n_u16 (set strs next s) (omega arith) c (omega arith)
        (omega (arith, length-set strs next s)))
