-- ===== src/Build/Merge4/Collect.antt =====
-- `merger4.add` on networks out of order: what it has collected.
use ip2geo.Base.{
  ℕ, ◌+◌, ◌≤◌, ◌<◌, ◌≡◌, sym, ap, ◌∙◌, ◌&&◌, List, [], ◌∷◌, ◌++◌, arith, leb, if◌then◌else◌, All,
  All-append, inl, ◌⊎◌,
}
use ip2geo.Build.Blocks.Laws.{items}
use ip2geo.Build.Merge4.{Range4, Merger4}
use ip2geo.Build.Merge4.Answer.{
  record_from, record_of, record_from-append, IsRange4, IsDisjoint, Apart,
}
use ip2geo.Build.Merge4.Run.{IsRun, RunAnswers, IsChain}
use ip2geo.Build.Merge4.Recover.{runs_of, runs_of-record_of, runs_of-IsChain}

abbrev Misses : ℕ → Range4 → Type 0
Misses key r = (key < r.start) ⊎ (r.last < key)

-- Where no record is found, no network holds the key.
record_from-zero :
    (acc : ℕ) (rs : List Range4) (key : ℕ)
    → All IsRange4 rs
    → record_from acc rs key ≡ 0
    → (acc ≡ 0) × All (Misses key) rs
record_from-zero acc [] key h e = (e, tt)
record_from-zero acc (r ∷ rs) key h e =
    let (z, miss) =
      record_from-zero (if leb r.start key && leb key r.last then r.rec else acc) rs key h.1 e in
    (ground (arith, h.0.has_record), (ground (arith, h.0.has_record), miss))

-- Two networks with no key in common are apart.
Apart-of :
    (r s : Range4)
    → IsRange4 r
    → IsRange4 s
    → ((key : ℕ) → s.start ≤ key → key ≤ s.last → Misses key r)
    → Apart r s
Apart-of r s hr hs miss = ground (arith, hr.ordered, hs.ordered, miss s.start, miss r.start)

Apart-all :
    (us : List Range4) (s : Range4)
    → All IsRange4 us
    → IsRange4 s
    → ((key : ℕ) → s.start ≤ key → key ≤ s.last → All (Misses key) us)
    → All (λ u. Apart u s) us
Apart-all [] s hu hs miss = tt
Apart-all (u ∷ us) s hu hs miss = (
  Apart-of u s hu.0 hs (λ k p q. (miss k p q).0),
  Apart-all us s hu.1 hs (λ k p q. (miss k p q).1),
)

-- The networks `rs` leave room for `s`.
abbrev pub Free : List Range4 → Range4 → Type 0
Free rs s = (key : ℕ) → s.start ≤ key → key ≤ s.last → record_of rs key ≡ 0

IsChain-IsRange4 : (lo : ℕ) (rs : List Range4) → IsChain lo rs → All IsRange4 rs
IsChain-IsRange4 lo [] c = tt
IsChain-IsRange4 lo (r ∷ rs) c = (c.1, IsChain-IsRange4 (r.last + 1) rs c.2)

chain_above :
    (r : Range4) (lo : ℕ) (rs : List Range4) → r.last < lo → IsChain lo rs → All (Apart r) rs
chain_above r lo [] lt c = tt
chain_above r lo (s ∷ rs) lt c =
    (inl (omega arith), chain_above r (s.last + 1) rs (omega (arith, c.1.ordered)) c.2)

IsChain-IsDisjoint : (lo : ℕ) (rs : List Range4) → IsChain lo rs → IsDisjoint rs
IsChain-IsDisjoint lo [] c = tt
IsChain-IsDisjoint lo (r ∷ rs) c =
    (chain_above r (r.last + 1) rs (omega arith) c.2, IsChain-IsDisjoint (r.last + 1) rs c.2)

IsDisjoint-snoc :
    (us : List Range4) (s : Range4)
    → IsDisjoint us
    → All (λ u. Apart u s) us
    → IsDisjoint (us ++ (s ∷ []))
IsDisjoint-snoc [] s h a = (tt, tt)
IsDisjoint-snoc (u ∷ us) s h a =
    (All-append (Apart u) us (s ∷ []) h.0 (a.0, tt), IsDisjoint-snoc us s h.1 a.1)

-- What `add` has collected of the networks `rs` once they came out of order.
pub record IsCollected (rs us : List Range4) : Type 0 where
  pub ranges : All IsRange4 us
  pub separate : IsDisjoint us
  pub same : (key : ℕ) → record_of us key ≡ record_of rs key

pub collect :
    (rs us : List Range4) (r : Range4)
    → IsCollected rs us
    → IsRange4 r
    → Free rs r
    → IsCollected (rs ++ (r ∷ [])) (us ++ (r ∷ []))
collect rs us r c range free = record {
  ranges = All-append IsRange4 us (r ∷ []) c.ranges (range, tt);
  separate = IsDisjoint-snoc us r c.separate (
      Apart-all us r c.ranges range
        (λ k p q. (record_from-zero 0 us k c.ranges (c.same k ∙ free k p q)).1));
  same = λ k.
      record_from-append 0 us r k
      ∙ ap (λ t. if leb r.start k && leb k r.last then r.rec else t) (c.same k)
      ∙ sym (record_from-append 0 rs r k);
}

pub recovered :
    (m : Merger4) (rs : List Range4)
    → IsRun m
    → ((key : ℕ) → RunAnswers m rs key)
    → IsCollected rs (runs_of m.expected (items m.out))
recovered m rs h a =
    let chain =
      runs_of-IsChain m.expected 0 (items m.out) h.written.ascending h.written.below h.end_fits in
    record {
      ranges = IsChain-IsRange4 0 _ chain;
      separate = IsChain-IsDisjoint 0 _ chain;
      same = λ k. runs_of-record_of m rs k h (a k);
    }
