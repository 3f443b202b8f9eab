-- ===== src/Build/Encode/Order.antt =====
-- The order of the section ids that `encode` of internal/build/encode.go lists.
use ip2geo.Base.{
  ℕ, ◌≤◌, ◌<◌, ◌≡◌, Option, none, some, List, [], ◌∷◌, ◌++◌, map-some, some_injective, subst, arith,
  true, ltb, Bool-cases, inl, inr,
}
use ip2geo.Build.Blocks.Laws.{items}
use ip2geo.Build.Merge6.{Boundary6}
use ip2geo.Build.Encode6.{count_exceptions}
use ip2geo.Build.XTable.{XTable}
use ip2geo.Build.Encode.{
  BuildResult, x_records_bytes, base_sections, exc_sections, x_sections, lang_sections,
}
use ip2geo.Build.Assemble.{Section}
use ip2geo.Build.Assemble.Directory.{Ascends, lists}

-- Ids that ascend from above `lo` to at most `hi`.
abbrev pub Between : ℕ → ℕ → List Section → Type 0
Between lo hi [] = lo ≤ hi
Between lo hi (s ∷ ss) = (lo < s.id) × Between s.id hi ss

pub Between-le : (lo hi : ℕ) (ss : List Section) → Between lo hi ss → lo ≤ hi
Between-le lo hi [] b = b
Between-le lo hi (s ∷ ss) b = omega (arith, b.0, Between-le s.id hi ss b.1)

pub Between-append :
    (lo mid hi : ℕ) (ss ts : List Section)
    → Between lo mid ss
    → Between mid hi ts
    → Between lo hi (ss ++ ts)
Between-append lo mid hi [] [] b c = omega (arith, b, c)
Between-append lo mid hi [] (t ∷ ts) b c = (omega (arith, b, c.0), c.1)
Between-append lo mid hi (s ∷ ss) ts b c = (b.0, Between-append s.id mid hi ss ts b.1 c)

pub Between-Ascends : (lo : ℕ) (ss : List Section) → Between lo 14 ss → Ascends lo ss
Between-Ascends lo [] b = tt
Between-Ascends lo (s ∷ ss) b = (b.0, Between-le s.id 14 ss b.1, Between-Ascends s.id ss b.1)

pub exc-Between : (bs : List Boundary6) → Between 9 11 (exc_sections bs)
unfolding exc_sections
exc-Between bs = elim (Bool-cases (ltb 0 (count_exceptions bs))) [
  | inl t ↦ rw t (omega arith)
  | inr f ↦ rw f (omega arith)
]

pub lang-Between : (ls : List ℕ) → Between 13 14 (lang_sections ls)
unfolding lang_sections
lang-Between [] = omega arith
lang-Between (l ∷ ls) = omega arith

pub x-Between :
    (br : BuildResult) (x : Option XTable) (xs : List Section)
    → x_sections br x ≡ some xs
    → Between 11 13 xs
unfolding x_sections
x-Between br none xs h = subst (Between 11 13) (some_injective h) (omega arith)
x-Between br (some t) xs h =
    let (b, written, same) = map-some _ (x_records_bytes t br.remap (items br.recs)) h in
    subst (Between 11 13) same (omega arith)

pub base-Between : (profile : ℕ) (br : BuildResult) → Between 0 9 (base_sections profile br)
unfolding base_sections
base-Between profile br = omega arith

pub base-lists :
    (profile i : ℕ) (br : BuildResult) (rest : List Section)
    → 1 ≤ i
    → i ≤ 9
    → lists (base_sections profile br ++ rest) i ≡ true
unfolding base_sections lists
base-lists profile i br rest lo hi = ground arith
