-- ===== src/Build/Strings/Finish.antt =====
-- `interner.finish` renumbers the strings, those of 16-bit fields first, and loses none.
use ip2geo.Base.{
  ℕ, ◌≤◌, ◌<◌, ◌≡◌, ◌≢◌, ◌↔◌, sym, ◌∙◌, Bool-cases, inl, inr, true, false, List, [], length,
  get_elem?, length-replicate, get_or, replicate, arith,
}
use native.Mathlib.Decide.{dec_lt, ℕ_discrete}
use ip2geo.Build.Strings.{Str, Interner, count_used, Finished, finish_strings}
use ip2geo.Reader.Count.{◌!◌}
use ip2geo.Build.Strings.Place.{IsPlaced, place-IsPlaced, count_used-le}

-- What `finish` promises: `remap` sends each provisional id to the place of its string; it is
-- one-to-one within the table, keeps the order of the strings of a group, and gives the first `n_u16`
-- places to those of 16-bit fields.
pub record IsRenumbered (in_ : Interner) (f : Finished) : Type 0 where
  pub strs_size : length f.strs ≡ length in_.strings
  pub remap_size : length f.remap ≡ length in_.strings
  pub found :
      (i : ℕ) → i < length in_.strings → get_elem? f.strs (f.remap ! i) ≡ get_elem? in_.strings i
  pub inside : (i : ℕ) → i < length in_.strings → f.remap ! i < length in_.strings
  pub groups :
      (i : ℕ) → i < length in_.strings → (get_or in_.u16 i false ≡ true) ↔ (f.remap ! i < f.n_u16)
  pub ordered :
      (i j : ℕ)
      → i < j
      → j < length in_.strings
      → get_or in_.u16 i false ≡ get_or in_.u16 j false
      → f.remap ! i < f.remap ! j
  pub one_to_one :
      (i j : ℕ)
      → i < length in_.strings
      → j < length in_.strings
      → f.remap ! i ≡ f.remap ! j
      → i ≡ j

module _ (in_ : Interner) (strs : List Str) (remap : List ℕ)
    (e : length in_.u16 ≡ length in_.strings) where
  module _
      (t : IsPlaced in_.u16 in_.strings 0
        (count_used in_.u16)
        (count_used in_.u16)
        (replicate (length in_.strings) [])
        strs
        remap) where
    high_inside :
        (i : ℕ)
        → i < length in_.strings
        → get_or in_.u16 i false ≡ false
        → (count_used in_.u16 ≤ remap ! i) × (remap ! i < length in_.strings)
    high_inside i lt u =
        let (a, b) = t.high i lt u in
        (a, omega (arith, length-replicate {0} {A = Str} (length in_.strings) []))

    low_inside :
        (i : ℕ)
        → i < length in_.strings
        → get_or in_.u16 i false ≡ true
        → (remap ! i < count_used in_.u16) × (remap ! i < length in_.strings)
    low_inside i lt u = let (a, b) = t.low i lt u in (b, omega (arith, count_used-le in_.u16))

    flag_groups :
        (i : ℕ)
        → i < length in_.strings
        → (get_or in_.u16 i false ≡ true) ↔ (remap ! i < count_used in_.u16)
    flag_groups i lt = elim (Bool-cases (get_or in_.u16 i false)) [
      | inl u ↦ (λ _. (low_inside i lt u).0, λ _. u)
      | inr u ↦ (λ u'. absurd (ground arith), λ l. absurd (omega (arith, (high_inside i lt u).0)))
    ]

    apart_places : (i j : ℕ) → i < j → j < length in_.strings → remap ! i ≢ remap ! j
    apart_places i j lt lt' = elim (Bool-cases (get_or in_.u16 i false)) [
      | inl u ↦ elim (Bool-cases (get_or in_.u16 j false)) [
        | inl v ↦ omega (arith, t.ordered i j lt lt' (u ∙ sym v))
        | inr v ↦ omega (arith, (low_inside i (omega arith) u).0, (high_inside j lt' v).0)
      ]
      | inr u ↦ elim (Bool-cases (get_or in_.u16 j false)) [
        | inl v ↦ omega (arith, (high_inside i (omega arith) u).0, (low_inside j lt' v).0)
        | inr v ↦ omega (arith, t.ordered i j lt lt' (u ∙ sym v))
      ]
    ]

    IsPlaced-IsRenumbered :
        IsRenumbered in_ (record { strs = strs; remap = remap; n_u16 = count_used in_.u16 })
    IsPlaced-IsRenumbered = record {
      strs_size = t.size ∙ length-replicate {0} {A = Str} (length in_.strings) [];
      remap_size = t.count;
      found = t.found;
      inside = λ i lt. elim (Bool-cases (get_or in_.u16 i false)) [
        | inl u ↦ (low_inside i lt u).1
        | inr u ↦ (high_inside i lt u).1
      ];
      groups = flag_groups;
      ordered = t.ordered;
      one_to_one = λ i j lt lt' same. elim (ℕ_discrete i j) [
        | yes y ↦ y
        | no ne ↦ absurd (elim (dec_lt i j) [
          | yes l ↦ apart_places i j l lt' same
          | no l ↦ apart_places j i (omega arith) lt (sym same)
        ])
      ];
    }

-- On an interner with a flag for each string, `finish` renumbers the strings without losing any.
pub finish_strings-IsRenumbered :
    (in_ : Interner) → length in_.u16 ≡ length in_.strings → IsRenumbered in_ (finish_strings in_)
unfolding finish_strings
finish_strings-IsRenumbered in_ e =
    let n = length in_.strings in
    let t =
      place-IsPlaced in_.u16 in_.strings 0 (count_used in_.u16) (count_used in_.u16)
        (replicate n []) e (omega arith) (omega arith)
        (omega (arith, length-replicate {0} {A = Str} n [])) in
    IsPlaced-IsRenumbered in_ _ _ e t
