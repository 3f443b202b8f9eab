-- ===== src/Build/Merge4/Sort.antt =====
-- The networks of `merger4.finish` in sorted order.
use ip2geo.Base.{
  ℕ, ◌+◌, ◌≤◌, ◌≡◌, refl, ◌∙◌, true, false, ◌&&◌, List, [], ◌∷◌, arith, leb, if◌then◌else◌, All,
  Bool-cases, inl, inr,
}
use ip2geo.Build.Merge4.{Range4, insert, sort}
use ip2geo.Build.Merge4.Answer.{record_from, IsRange4, Apart, IsDisjoint}
use ip2geo.Build.Merge4.Run.{IsChain}

insert-All :
    (P : Range4 → Type 0) (r : Range4) (rs : List Range4) → P r → All P rs → All P (insert r rs)
unfolding insert
insert-All P r [] p h = (p, tt)
insert-All P r (s ∷ rs) p h = elim (Bool-cases (leb r.start s.start)) [
  | inl e ↦ rw e (p, h)
  | inr e ↦ rw e (h.0, insert-All P r rs p h.1)
]

sort-All : (P : Range4 → Type 0) (rs : List Range4) → All P rs → All P (sort rs)
unfolding sort
sort-All P [] h = tt
sort-All P (r ∷ rs) h = insert-All P r (sort rs) h.0 (sort-All P rs h.1)

insert-IsChain :
    (lo : ℕ) (r : Range4) (rs : List Range4)
    → IsChain lo rs
    → lo ≤ r.start
    → IsRange4 r
    → All (Apart r) rs
    → IsChain lo (insert r rs)
unfolding insert
insert-IsChain lo r [] c le range apart = (le, range, tt)
insert-IsChain lo r (s ∷ rs) c le range apart = elim (Bool-cases (leb r.start s.start)) [
  | inl e ↦ rw e (le, range, (before e, c.1, c.2))
  | inr e ↦ rw e (c.0, c.1, insert-IsChain (s.last + 1) r rs c.2 (after e) range apart.1)
]
  where
    before : leb r.start s.start ≡ true → r.last + 1 ≤ s.start
    before e = ground (arith, c.1.ordered, apart.0)

    after : leb r.start s.start ≡ false → s.last + 1 ≤ r.start
    after e = ground (arith, c.1.ordered, range.ordered, apart.0)

insert-record_from :
    (acc : ℕ) (r : Range4) (rs : List Range4) (key : ℕ)
    → All (Apart r) rs
    → record_from acc (insert r rs) key ≡ record_from acc (r ∷ rs) key
unfolding insert
insert-record_from acc r [] key apart = refl
insert-record_from acc r (s ∷ rs) key apart = ground (
  arith,
  insert-record_from (if leb s.start key && leb key s.last then s.rec else acc) r rs key apart.1,
  apart.0,
)

-- Sorted, separate networks form a chain, and they hold what they held before.
pub sort-IsChain : (rs : List Range4) → All IsRange4 rs → IsDisjoint rs → IsChain 0 (sort rs)
unfolding sort
sort-IsChain [] ranges apart = tt
sort-IsChain (r ∷ rs) ranges apart =
    insert-IsChain 0 r (sort rs) (sort-IsChain rs ranges.1 apart.1) (omega arith) ranges.0
      (sort-All (Apart r) rs apart.0)

pub sort-record_from :
    (acc : ℕ) (rs : List Range4) (key : ℕ)
    → IsDisjoint rs
    → record_from acc (sort rs) key ≡ record_from acc rs key
unfolding sort
sort-record_from acc [] key apart = refl
sort-record_from acc (r ∷ rs) key apart =
    insert-record_from acc r (sort rs) key (sort-All (Apart r) rs apart.0)
    ∙ sort-record_from (if leb r.start key && leb key r.last then r.rec else acc) rs key apart.1
