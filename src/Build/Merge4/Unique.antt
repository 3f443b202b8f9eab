-- ===== src/Build/Merge4/Unique.antt =====
-- The boundaries are determined by what they answer: the order of the networks does not show.
use ip2geo.Base.{ℕ, ◌+◌, ◌^◌, ◌≤◌, ◌<◌, ◌≡◌, refl, sym, ◌∙◌, subst, some, List, [], ◌∷◌, arith, All}
use ip2geo.Build.Blocks.Laws.{items}
use ip2geo.Build.Merge4.{Range4, Boundary4, Merger4, new_merger4, add_all, finish}
use ip2geo.Build.Merge4.Answer.{
  answer_from, answer_below, record_of, IsRange4, IsDisjoint, IsAscending, IsCompact, IsMergeOf,
}
use ip2geo.Build.Merge4.Finish.{finish-IsMergeOf}

-- At a boundary's own start its record is the answer.
answer_here :
    (acc lo : ℕ) (b : Boundary4) (bs : List Boundary4)
    → IsAscending lo (b ∷ bs)
    → answer_from acc (b ∷ bs) b.start ≡ b.rec
answer_here acc lo b bs asc = ground (arith, answer_below b.start b.rec (b.start + 1) bs asc.1)

module _ (n : ℕ) where
  same_answers→eq :
      (prev lo : ℕ) (bs cs : List Boundary4)
      → IsAscending lo bs
      → IsAscending lo cs
      → IsCompact prev bs
      → IsCompact prev cs
      → All (λ b. b.start < n) bs
      → All (λ c. c.start < n) cs
      → ((key : ℕ) → lo ≤ key → key < n → answer_from prev bs key ≡ answer_from prev cs key)
      → bs ≡ cs
  same_answers→eq prev lo [] [] ab ac cb cc' fb fc same = refl
  same_answers→eq prev lo [] (c ∷ cs) ab ac cb cc' fb fc same =
      absurd (cc'.0 (same c.start ac.0 fc.0 ∙ answer_here prev lo c cs ac))
  same_answers→eq prev lo (b ∷ bs) [] ab ac cb cc' fb fc same =
      absurd (cb.0 (sym (same b.start ab.0 fb.0) ∙ answer_here prev lo b bs ab))
  same_answers→eq prev lo (b ∷ bs) (c ∷ cs) ab ac cb cc' fb fc same =
      let starts : b.start ≡ c.start = ground (
        arith,
        same b.start ab.0 fb.0,
        same c.start ac.0 fc.0,
        answer_here prev lo b bs ab,
        answer_here prev lo c cs ac,
        answer_below b.start prev c.start (c ∷ cs),
        answer_below c.start prev b.start (b ∷ bs),
      ) in
      let recs : b.rec ≡ c.rec =
        ground (
          arith,
          same b.start ab.0 fb.0,
          answer_here prev lo b bs ab,
          answer_here prev lo c cs ac,
        ) in
      let tails : bs ≡ cs =
        same_answers→eq b.rec (b.start + 1) bs cs ab.1 (rw starts ac.1) cb.1 (rw recs cc'.1) fb.1
          fc.1 (λ key le lt. ground (arith, same key (omega (arith, ab.0)) lt)) in
      cc

IsMergeOf-unique :
    (rs ss : List Range4) (bs cs : List Boundary4)
    → IsMergeOf bs rs
    → IsMergeOf cs ss
    → ((key : ℕ) → record_of rs key ≡ record_of ss key)
    → bs ≡ cs
IsMergeOf-unique rs ss bs cs b c same =
    same_answers→eq (2 ^ 32) 0 0 bs cs b.ascending c.ascending b.compact c.compact b.fits c.fits
      (λ key _ lt. b.answers key lt ∙ same key ∙ sym (c.answers key lt))

pub finish-merged :
    (rs : List Range4) {m : Merger4}
    → All IsRange4 rs
    → IsDisjoint rs
    → add_all new_merger4 rs ≡ some m
    → IsMergeOf (items (finish m)) rs
finish-merged rs {m} valid separate e =
    let (m', e', h) = finish-IsMergeOf rs valid separate in
    let same : m' ≡ m = cc in subst (λ (t : Merger4). IsMergeOf (items (finish t)) rs) same h

-- Two lists of separate networks that give every address the same record, such as one list in two
-- orders, are merged into the same boundaries.
pub finish_order :
    (rs ss : List Range4) {m n : Merger4}
    → All IsRange4 rs
    → IsDisjoint rs
    → All IsRange4 ss
    → IsDisjoint ss
    → ((key : ℕ) → record_of rs key ≡ record_of ss key)
    → add_all new_merger4 rs ≡ some m
    → add_all new_merger4 ss ≡ some n
    → items (finish m) ≡ items (finish n)
finish_order rs ss vr dr vs ds same em en =
    IsMergeOf-unique rs ss _ _ (finish-merged rs vr dr em) (finish-merged ss vs ds en) same
