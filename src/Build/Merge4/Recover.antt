-- ===== src/Build/Merge4/Recover.antt =====
-- `merger4.ranges`: the networks merged so far, recovered from the boundaries.
use ip2geo.Base.{
  ℕ, zero, suc, ◌+◌, ◌-◌, ◌%◌, ◌^◌, ◌≤◌, ◌<◌, ◌≡◌, refl, sym, ap, ◌∙◌, true, false, some, List, [],
  ◌∷◌, ◌++◌, arith, ltb, ◌==◌, if◌then◌else◌, All, Bool-cases, inl, inr, length, length-append,
  get_elem?, get_elem?-append_at,
}
use mathlib.Core.Option
use mathlib.Core.List.{append_assoc}
use ip2geo.Build.Blocks.{BlockList, at}
use ip2geo.Build.Blocks.Laws.{items, IsBlocks, at_lem, length-items}
use ip2geo.Build.Merge4.{Range4, Boundary4, Merger4, ranges_from, ranges}
use ip2geo.Build.Merge4.Answer.{
  answer, answer_from, answer_below, record_of, record_from, IsAscending,
}
use ip2geo.Build.Merge4.Run.{IsRun, RunAnswers, IsChain}

-- Where the run before `bs` ends: at the next boundary, or at `e`.
abbrev pub run_end : ℕ → List Boundary4 → ℕ
run_end e [] = e
run_end e (c ∷ bs) = c.start

-- One network for each run of the boundaries `bs`, the last of which ends below `e`.
unfoldable pub runs_of : ℕ → List Boundary4 → List Range4
runs_of e [] = []
runs_of e (b ∷ bs) =
    if b.rec == 0
    then runs_of e bs
    else record { start = b.start; last = run_end e bs - 1; rec = b.rec } ∷ runs_of e bs

ranges_from_step :
    (m : Merger4) (count i : ℕ) (b : Boundary4) (rest : List Range4) (e : ℕ)
    → at m.out i ≡ some b
    → ranges_from m count (i + 1) ≡ some rest
    → (if ltb (i + 1) m.out.n
        then Option.map
            (λ (next : Boundary4). (next.start + 2 ^ 32 - 1) % 2 ^ 32)
            (at m.out (i + 1))
        else some ((m.expected + 2 ^ 64 - 1) % 2 ^ 64 % 2 ^ 32))
      ≡ some e
    → ranges_from m (suc count) i
      ≡ some (if b.rec == 0 then rest else record { start = b.start; last = e; rec = b.rec } ∷ rest)
unfolding ranges_from
ranges_from_step m count i b rest e p q r = rw (p, q, r) (ground arith)

at_split :
    (out : BlockList Boundary4) (front : List Boundary4) (b : Boundary4) (bs : List Boundary4)
    (i : ℕ)
    → IsBlocks out
    → items out ≡ front ++ (b ∷ bs)
    → i ≡ length front
    → (at out i ≡ some b) × (out.n ≡ i + suc (length bs))
at_split out front b bs i blocks e hi =
    let size : out.n ≡ length front + suc (length bs) =
      sym (length-items out blocks) ∙ ap length e ∙ length-append front (b ∷ bs) in
    (
      at_lem out i blocks (omega arith)
          ∙ ap (λ l. get_elem? l i) e
          ∙ get_elem?-append_at front b bs i hi,
      omega arith,
    )

next_end :
    (m : Merger4) (front : List Boundary4) (b : Boundary4) (bs : List Boundary4) (i : ℕ)
    → IsBlocks m.out
    → items m.out ≡ front ++ (b ∷ bs)
    → i ≡ length front
    → IsAscending (b.start + 1) bs
    → All (λ c. c.start < m.expected) (b ∷ bs)
    → m.expected ≤ 2 ^ 32
    → (if ltb (i + 1) m.out.n
        then Option.map
            (λ (next : Boundary4). (next.start + 2 ^ 32 - 1) % 2 ^ 32)
            (at m.out (i + 1))
        else some ((m.expected + 2 ^ 64 - 1) % 2 ^ 64 % 2 ^ 32))
      ≡ some (run_end m.expected bs - 1)
next_end m front b [] i blocks e hi asc below le =
    let size = (at_split m.out front b [] i blocks e hi).1 in
    let t : ltb (i + 1) m.out.n ≡ false = ground arith in rw t (ap some (omega arith))
next_end m front b (c ∷ bs) i blocks e hi asc below le =
    let size = (at_split m.out front b (c ∷ bs) i blocks e hi).1 in
    let t : ltb (i + 1) m.out.n ≡ true = ground arith in
    let next =
      at_split m.out (front ++ (b ∷ [])) c bs (i + 1) blocks
        (e ∙ sym (append_assoc front (b ∷ []) (c ∷ bs)))
        (omega (arith, length-append {0} front (b ∷ []))) in
    rw (t, next.0) (ap some (omega arith))

ranges_from-runs_of :
    (m : Merger4) (front bs : List Boundary4) (lo count i : ℕ)
    → IsBlocks m.out
    → items m.out ≡ front ++ bs
    → i ≡ length front
    → count ≡ length bs
    → IsAscending lo bs
    → All (λ b. b.start < m.expected) bs
    → m.expected ≤ 2 ^ 32
    → ranges_from m count i ≡ some (runs_of m.expected bs)
ranges_from-runs_of m front [] lo zero i blocks e hi hc asc below le =
    unfold ranges_from runs_of in refl
ranges_from-runs_of m front [] lo (suc count) i blocks e hi hc asc below le = absurd (omega arith)
ranges_from-runs_of m front (b ∷ bs) lo zero i blocks e hi hc asc below le = absurd (omega arith)
ranges_from-runs_of m front (b ∷ bs) lo (suc count) i blocks e hi hc asc below le =
    ranges_from_step m count i b (runs_of m.expected bs) (run_end m.expected bs - 1)
      (at_split m.out front b bs i blocks e hi).0
      (ranges_from-runs_of m (front ++ (b ∷ [])) bs (b.start + 1) count (i + 1) blocks
        (e ∙ sym (append_assoc front (b ∷ []) bs)) (omega (arith, length-append {0} front (b ∷ [])))
        (omega arith) asc.1 below.1 le)
      (next_end m front b bs i blocks e hi asc.1 below le)
    ∙ unfold runs_of in refl

-- `ranges` reads back one network for each run that was merged.
pub ranges-runs_of : (m : Merger4) → IsRun m → ranges m ≡ some (runs_of m.expected (items m.out))
unfolding ranges
ranges-runs_of m h =
    ranges_from-runs_of m [] (items m.out) 0 m.out.n 0 h.written.blocks refl refl
      (sym (length-items m.out h.written.blocks)) h.written.ascending h.written.below h.end_fits

module _ (e key : ℕ) where
  -- Below the first boundary no run holds the key.
  runs_of_below :
      (acc lo : ℕ) (bs : List Boundary4)
      → IsAscending lo bs
      → key < lo
      → record_from acc (runs_of e bs) key ≡ acc
  unfolding runs_of
  runs_of_below acc lo [] asc lt = refl
  runs_of_below acc lo (b ∷ bs) asc lt = ground (arith, runs_of_below acc (b.start + 1) bs asc.1)

  runs_of_above :
      (acc lo : ℕ) (bs : List Boundary4)
      → IsAscending lo bs
      → All (λ b. b.start < e) bs
      → e ≤ key
      → record_from acc (runs_of e bs) key ≡ acc
  unfolding runs_of
  runs_of_above acc lo [] asc below le = refl
  runs_of_above acc lo (b ∷ []) asc below le = ground arith
  runs_of_above acc lo (b ∷ c ∷ bs) asc below le =
      ground (arith, runs_of_above acc (b.start + 1) (c ∷ bs) asc.1)

  -- From the first boundary up to `e` the runs hold what the boundaries answer.
  runs_of_inside :
      (acc lo : ℕ) (b : Boundary4) (bs : List Boundary4)
      → IsAscending lo (b ∷ bs)
      → All (λ b. b.start < e) bs
      → b.start ≤ key
      → key < e
      → record_from 0 (runs_of e (b ∷ bs)) key ≡ answer_from acc (b ∷ bs) key
  unfolding runs_of
  runs_of_inside acc lo b [] asc below le lt = ground arith
  runs_of_inside acc lo b (c ∷ bs) asc below le lt = ground (
    arith,
    runs_of_inside b.rec (b.start + 1) c bs asc.1 below.1,
    runs_of_below b.rec c.start (c ∷ bs),
    runs_of_below 0 c.start (c ∷ bs),
    answer_below key b.rec c.start (c ∷ bs),
  )

-- What `ranges` recovers holds the record that the merged networks hold, at every key.
pub runs_of-record_of :
    (m : Merger4) (rs : List Range4) (key : ℕ)
    → IsRun m
    → RunAnswers m rs key
    → record_of (runs_of m.expected (items m.out)) key ≡ record_of rs key
runs_of-record_of m rs key h a =
    at_items (items m.out) h.written.ascending h.written.below a.inside a.nothing
  where
    at_items :
        (bs : List Boundary4)
        → IsAscending 0 bs
        → All (λ b. b.start < m.expected) bs
        → (key < m.expected → answer bs key ≡ record_of rs key)
        → (m.expected ≤ key → record_of rs key ≡ 0)
        → record_of (runs_of m.expected bs) key ≡ record_of rs key
    at_items [] asc below inside out = unfold runs_of in ground arith
    at_items (b ∷ bs) asc below inside out = ground (
      arith,
      runs_of_inside m.expected key 0 0 b bs asc below.1,
      runs_of_above m.expected key 0 0 (b ∷ bs) asc below,
      runs_of_below m.expected key 0 b.start (b ∷ bs),
      answer_below key 0 b.start (b ∷ bs),
    )

IsChain-le : (lo hi : ℕ) (rs : List Range4) → lo ≤ hi → IsChain hi rs → IsChain lo rs
IsChain-le lo hi [] le c = tt
IsChain-le lo hi (r ∷ rs) le c = (omega arith, c.1, c.2)

-- The recovered networks are a chain again.
pub runs_of-IsChain :
    (e lo : ℕ) (bs : List Boundary4)
    → IsAscending lo bs
    → All (λ b. b.start < e) bs
    → e ≤ 2 ^ 32
    → IsChain lo (runs_of e bs)
unfolding runs_of
runs_of-IsChain e lo [] asc below le = tt
runs_of-IsChain e lo (b ∷ []) asc below le = elim (Bool-cases (b.rec == 0)) [
  | inl z ↦ rw z tt
  | inr z ↦
      rw z
        (asc.0, record { ordered = omega arith; fits = omega arith; has_record = ground arith }, tt)
]
runs_of-IsChain e lo (b ∷ c ∷ bs) asc below le =
    let rest : IsChain c.start (runs_of e (c ∷ bs)) =
      runs_of-IsChain e c.start (c ∷ bs) (omega arith, asc.1.1) below.1 le in
    elim (Bool-cases (b.rec == 0)) [
      | inl z ↦ rw z (IsChain-le lo c.start (runs_of e (c ∷ bs)) (omega arith) rest)
      | inr z ↦ rw z (
        asc.0,
        record { ordered = omega arith; fits = omega arith; has_record = ground arith },
        IsChain-le (c.start - 1 + 1) c.start (runs_of e (c ∷ bs)) (omega arith) rest,
      )
    ]
