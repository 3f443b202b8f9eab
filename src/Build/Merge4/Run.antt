-- ===== src/Build/Merge4/Run.antt =====
-- The invariant of `merger4.step` on networks in ascending order.
use ip2geo.Base.{
  ℕ, ◌+◌, ◌%◌, ◌^◌, ◌≤◌, ◌<◌, ◌≡◌, ◌≢◌, refl, sym, ◌∙◌, subst, true, ◌&&◌, not, List, [], ◌∷◌, ◌++◌,
  arith, leb, ltb, ◌==◌, if◌then◌else◌, All, All-append, Bool-cases, inl, inr,
}
use mathlib.Core.List.{append-nil, append_assoc}
use ip2geo.Build.Blocks.{BlockList, push}
use ip2geo.Build.Blocks.Laws.{items, IsBlocks, push-IsBlocks}
use ip2geo.Build.Merge4.{
  Range4, Boundary4, Merger4, close_gap, open_run, step, step_all, new_merger4,
}
use ip2geo.Build.Merge4.Answer.{
  answer, answer_from-append, record_of, record_from-append, IsRange4, IsAscending, IsCompact,
  last_record, last_record-append, IsAscending-append, IsCompact-append, All-below,
}

-- The boundaries written so far lie below `bound` and end with record `p`.
pub record IsOut (out : BlockList Boundary4) (bound p : ℕ) : Type 0 where
  pub blocks : IsBlocks out
  pub ascending : IsAscending 0 (items out)
  pub below : All (λ b. b.start < bound) (items out)
  pub compact : IsCompact 0 (items out)
  pub ends : last_record 0 (items out) ≡ p

-- At `key` they answer as the networks `rs`, all of which end below `bound`.
pub record AnswersAt (out : BlockList Boundary4) (bound p : ℕ) (rs : List Range4) (key : ℕ)
    : Type 0 where
  pub inside : key < bound → answer (items out) key ≡ record_of rs key
  pub open_end : bound ≤ key → answer (items out) key ≡ p
  pub nothing : bound ≤ key → record_of rs key ≡ 0

module _ {out : BlockList Boundary4} {bound p : ℕ} where
  pub push-IsOut :
      (b : Boundary4) (bound' : ℕ)
      → IsOut out bound p
      → bound ≤ b.start
      → b.start < bound'
      → p ≢ b.rec
      → IsOut (push out b) bound' b.rec
  push-IsOut b bound' h le lt ne =
      let (blocks, e) = push-IsBlocks out b h.blocks in
      let bs : List Boundary4 = items out in
      record {
        blocks = blocks;
        ascending = rw e (
            IsAscending-append 0 bs b h.ascending (All-below bound b.start bs le h.below)
              (omega arith));
        below =
            rw e
              (All-append _ bs (b ∷ []) (All-below bound bound' bs (omega arith) h.below) (lt, tt));
        compact = rw e (IsCompact-append 0 bs b h.compact (λ q. ne (sym h.ends ∙ q)));
        ends = rw e (last_record-append 0 bs b);
      }

  pub weaken-IsOut : (bound' : ℕ) → IsOut out bound p → bound ≤ bound' → IsOut out bound' p
  weaken-IsOut bound' h le = record {
    blocks = h.blocks;
    ascending = h.ascending;
    below = All-below bound bound' (items out) le h.below;
    compact = h.compact;
    ends = h.ends;
  }

pub answer-push :
    (out : BlockList Boundary4) (b : Boundary4) (key : ℕ)
    → IsBlocks out
    → answer (items (push out b)) key ≡ (if leb b.start key then b.rec else answer (items out) key)
answer-push out b key h = rw (push-IsBlocks out b h).1 (answer_from-append 0 (items out) b key)

module _ (m : Merger4) (s : ℕ) (h : IsOut m.out m.expected m.last_rec) (le : m.expected ≤ s) where
  close_gap-IsOut : s < 2 ^ 32 → IsOut (close_gap m s).out s (close_gap m s).last_rec
  unfolding close_gap
  close_gap-IsOut lt = elim (Bool-cases (ltb m.expected s && not (m.last_rec == 0))) [
    | inl gap ↦ rw gap (
        let fits : m.expected % 2 ^ 32 ≡ m.expected = ground arith in
        push-IsOut (record { start = m.expected % 2 ^ 32; rec = 0 }) s h (omega arith)
          (ground arith) (ground arith))
    | inr shut ↦ rw shut (weaken-IsOut s h le)
  ]

  close_gap-AnswersAt :
      (rs : List Range4) (key : ℕ)
      → s < 2 ^ 32
      → AnswersAt m.out m.expected m.last_rec rs key
      → AnswersAt (close_gap m s).out s (close_gap m s).last_rec rs key
  unfolding close_gap
  close_gap-AnswersAt rs key lt a = ground (
    arith,
    answer-push m.out (record { start = m.expected % 2 ^ 32; rec = 0 }) key h.blocks,
    a.inside,
    a.open_end,
    a.nothing,
  )

module _ (m : Merger4) (r : Range4) (range : IsRange4 r) (h : IsOut m.out r.start m.last_rec) where
  same_rec : (r.rec == m.last_rec) ≡ true → m.last_rec ≡ r.rec
  same_rec e = ground arith

  open_run-IsOut : IsOut (open_run m r).out (r.last + 1) r.rec
  unfolding open_run
  open_run-IsOut = elim (Bool-cases (r.rec == m.last_rec)) [
    | inl same ↦ rw same (
        subst (λ p. IsOut m.out (r.last + 1) p) (same_rec same)
          (weaken-IsOut (r.last + 1) h (omega (arith, range.ordered))))
    | inr new ↦ rw new (
        push-IsOut (record { start = r.start; rec = r.rec }) (r.last + 1) h (omega arith)
          (omega (arith, range.ordered)) (ground arith))
  ]

  open_run-AnswersAt :
      (rs : List Range4) (key : ℕ)
      → AnswersAt m.out r.start m.last_rec rs key
      → AnswersAt (open_run m r).out (r.last + 1) r.rec (rs ++ (r ∷ [])) key
  unfolding open_run
  open_run-AnswersAt rs key a = ground (
    arith,
    answer-push m.out (record { start = r.start; rec = r.rec }) key h.blocks,
    record_from-append 0 rs r key,
    a.inside,
    a.open_end,
    a.nothing,
  )

-- The state between two networks: what is written, and the end of the last one.
pub record IsRun (m : Merger4) : Type 0 where
  pub written : IsOut m.out m.expected m.last_rec
  pub end_fits : m.expected ≤ 2 ^ 32

abbrev pub RunAnswers : Merger4 → List Range4 → ℕ → Type 0
RunAnswers m rs key = AnswersAt m.out m.expected m.last_rec rs key

close_gap-expected : (m : Merger4) (s : ℕ) → (close_gap m s).expected ≡ m.expected
unfolding close_gap
close_gap-expected m s = ground arith

open_run-last_rec : (m : Merger4) (r : Range4) → (open_run m r).last_rec ≡ r.rec
unfolding open_run
open_run-last_rec m r = ground arith

module _ (m : Merger4) (r : Range4) (range : IsRange4 r) (h : IsRun m)
    (above : m.expected ≤ r.start) where
  start-lt : r.start < 2 ^ 32
  start-lt = omega (arith, range.ordered, range.fits)

  pub step-IsRun : IsRun (step m r)
  unfolding step
  step-IsRun = record {
    written = rw (open_run-last_rec (close_gap m r.start) r) (
        open_run-IsOut (close_gap m r.start) r range
          (close_gap-IsOut m r.start h.written above start-lt));
    end_fits = omega (arith, range.fits);
  }

  pub step-RunAnswers :
      (rs : List Range4) (key : ℕ)
      → RunAnswers m rs key
      → RunAnswers (step m r) (rs ++ (r ∷ [])) key
  unfolding step
  step-RunAnswers rs key a = rw (open_run-last_rec (close_gap m r.start) r) (
      open_run-AnswersAt (close_gap m r.start) r range
        (close_gap-IsOut m r.start h.written above start-lt) rs key
        (close_gap-AnswersAt m r.start h.written above rs key start-lt a))

-- Networks in ascending order, the first one at `lo` or above, none overlapping another.
abbrev pub IsChain : ℕ → List Range4 → Type 0
IsChain lo [] = Unit
IsChain lo (r ∷ rs) = (lo ≤ r.start) × IsRange4 r × IsChain (r.last + 1) rs

step-expected : (m : Merger4) (r : Range4) → (step m r).expected ≡ r.last + 1
unfolding step
step-expected m r = refl

pub step_all-IsRun :
    (m : Merger4) (todo : List Range4) → IsRun m → IsChain m.expected todo → IsRun (step_all m todo)
unfolding step_all
step_all-IsRun m [] h c = h
step_all-IsRun m (r ∷ todo) h (lo, range, c) =
    step_all-IsRun (step m r) todo (step-IsRun m r range h lo) (rw (step-expected m r) c)

pub step_all-RunAnswers :
    (m : Merger4) (done todo : List Range4) (key : ℕ)
    → IsRun m
    → IsChain m.expected todo
    → RunAnswers m done key
    → RunAnswers (step_all m todo) (done ++ todo) key
unfolding step_all
step_all-RunAnswers m done [] key h c a = rw append-nil a
step_all-RunAnswers m done (r ∷ todo) key h (lo, range, c) a =
    rw (append_assoc done (r ∷ []) todo) at (
      step_all-RunAnswers (step m r) (done ++ (r ∷ [])) todo key (step-IsRun m r range h lo)
        (rw (step-expected m r) c) (step-RunAnswers m r range h lo done key a))

pub new_merger4-IsRun : IsRun new_merger4
new_merger4-IsRun = record {
  written = record { blocks = refl; ascending = tt; below = tt; compact = tt; ends = refl };
  end_fits = omega arith;
}

pub new_merger4-RunAnswers : (key : ℕ) → RunAnswers new_merger4 [] key
new_merger4-RunAnswers key = record {
  inside = λ h. refl;
  open_end = λ h. refl;
  nothing = λ h. refl;
}

pub AnswersAt-same :
    {out : BlockList Boundary4} {bound p : ℕ} (us rs : List Range4) (key : ℕ)
    → AnswersAt out bound p us key
    → record_of us key ≡ record_of rs key
    → AnswersAt out bound p rs key
AnswersAt-same us rs key a e = record {
  inside = λ h. a.inside h ∙ e;
  open_end = a.open_end;
  nothing = λ h. sym e ∙ a.nothing h;
}
