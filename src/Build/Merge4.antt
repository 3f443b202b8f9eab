-- ===== src/Build/Merge4.antt =====
-- internal/build/merge.go: `merger4`, which turns IPv4 networks into sorted range boundaries.
pub mod Answer
pub mod Run
pub mod Recover
pub mod Sort
pub mod Collect
pub mod Finish
pub mod Unique
use ip2geo.Base.{
  ℕ, zero, suc, ◌+◌, ◌-◌, ◌%◌, ◌^◌, Bool, true, false, not, ◌&&◌, ◌||◌, Option, none, some, List,
  [], ◌∷◌, ◌++◌, ltb, leb, ◌==◌, if◌then◌else◌,
}
use ip2geo.Build.Blocks.{BlockList, no_blocks, push, at}
use mathlib.Core.Option

-- `range4`: an IPv4 network from its first to its last address, whose data is record `rec`.
pub record Range4 : Type 0 where
  pub start : ℕ
  pub last : ℕ
  pub rec : ℕ

-- `boundary4`: the start of a range of addresses that maps to `rec`, up to the next boundary.
pub record Boundary4 : Type 0 where
  pub start : ℕ
  pub rec : ℕ

pub record Merger4 : Type 0 where
  pub out : BlockList Boundary4
  pub expected : ℕ
  pub last_rec : ℕ
  pub prev : ℕ
  pub started : Bool
  pub unsorted : Option (List Range4)

-- `merger4{}`.
abbrev pub new_merger4 : Merger4
new_merger4 = record {
  out = no_blocks;
  expected = 0;
  last_rec = 0;
  prev = 0;
  started = false;
  unsorted = none;
}

-- The gap before `r`, when the open run ends below it.
unfoldable pub close_gap : Merger4 → ℕ → Merger4
close_gap m start =
    if ltb m.expected start && not (m.last_rec == 0)
    then record m {
      out = push m.out (record { start = m.expected % 2 ^ 32; rec = 0 });
      last_rec = 0;
    }
    else m

-- The boundary that opens a run.
unfoldable pub open_run : Merger4 → Range4 → Merger4
open_run m r =
    if r.rec == m.last_rec
    then m
    else record m { out = push m.out (record { start = r.start; rec = r.rec }); last_rec = r.rec }

unfoldable pub step : Merger4 → Range4 → Merger4
step m r = let m' = open_run (close_gap m r.start) r in record m' { expected = r.last + 1 }

-- `ranges`: boundary `i` on, `count` boundaries are left; `none` is an index out of range.
unfoldable pub ranges_from : Merger4 → ℕ → ℕ → Option (List Range4)
unfolding Option.bind
ranges_from m zero i = some []
ranges_from m (suc count) i = Option.bind (at m.out i) λ b.
    Option.bind (ranges_from m count (i + 1)) λ rest.
      if b.rec == 0
      then some rest
      else Option.map (λ last. record { start = b.start; last = last; rec = b.rec } ∷ rest)
          (if ltb (i + 1) m.out.n
            then Option.map (λ (next : Boundary4). (next.start + 2 ^ 32 - 1) % 2 ^ 32)
                (at m.out (i + 1))
            else some ((m.expected + 2 ^ 64 - 1) % 2 ^ 64 % 2 ^ 32))

unfoldable pub ranges : Merger4 → Option (List Range4)
ranges m = ranges_from m m.out.n 0

unfoldable pub add : Merger4 → Range4 → Option Merger4
add m r = elim m.unsorted [
  | some rs ↦ some (record m { unsorted = some (rs ++ (r ∷ [])) })
  | none ↦
      if m.started && leb r.start m.prev
      then Option.map (λ rs. record m { unsorted = some (rs ++ (r ∷ [])) }) (ranges m)
      else some (step (record m { started = true; prev = r.start }) r)
]

-- `for … { m.add(r) }`.
unfoldable pub add_all : Merger4 → List Range4 → Option Merger4
unfolding Option.bind
add_all m [] = some m
add_all m (r ∷ rs) = Option.bind (add m r) λ m'. add_all m' rs

-- `slices.SortFunc` by the starts. Which sort it is does not matter: starts are distinct.
unfoldable pub insert : Range4 → List Range4 → List Range4
insert r [] = r ∷ []
insert r (s ∷ rs) = if leb r.start s.start then r ∷ s ∷ rs else s ∷ insert r rs

unfoldable pub sort : List Range4 → List Range4
sort [] = []
sort (r ∷ rs) = insert r (sort rs)

unfoldable pub step_all : Merger4 → List Range4 → Merger4
step_all m [] = m
step_all m (r ∷ rs) = step_all (step m r) rs

-- The gap behind the last run.
unfoldable pub close_last : Merger4 → BlockList Boundary4
close_last m =
    if not (m.last_rec == 0) && leb m.expected (2 ^ 32 - 1)
    then push m.out (record { start = m.expected % 2 ^ 32; rec = 0 })
    else m.out

unfoldable pub finish : Merger4 → BlockList Boundary4
finish m = close_last (elim m.unsorted [ some rs ↦ step_all new_merger4 (sort rs) | none ↦ m ])
