-- ===== src/Build/Merge4/Finish.antt =====
-- `merger4.add` and `merger4.finish` on networks in any order.
use ip2geo.Base.{
  ℕ, ◌+◌, ◌-◌, ◌%◌, ◌^◌, ◌≤◌, ◌<◌, ◌≡◌, refl, ◌∙◌, true, false, ◌&&◌, not, none, some, List, [],
  ◌∷◌, ◌++◌, arith, leb, ◌==◌, All, Bool-cases, inl, inr,
}
use mathlib.Core.List.{append_assoc, append-nil}
use ip2geo.Build.Blocks.Laws.{items}
use ip2geo.Build.Merge4.{
  Range4, Boundary4, Merger4, new_merger4, add, add_all, step, step_all, sort, close_last, finish,
  close_gap, open_run,
}
use ip2geo.Build.Merge4.Answer.{record_from-append, IsRange4, IsDisjoint, Apart, IsMergeOf}
use ip2geo.Build.Merge4.Run.{
  IsRun, RunAnswers, push-IsOut, answer-push, weaken-IsOut, step-IsRun, step-RunAnswers,
  step_all-IsRun, step_all-RunAnswers, new_merger4-IsRun, new_merger4-RunAnswers, AnswersAt-same,
}
use ip2geo.Build.Merge4.Sort.{sort-IsChain, sort-record_from}
use ip2geo.Build.Merge4.Collect.{Free, IsCollected, collect, recovered}
use ip2geo.Build.Merge4.Recover.{ranges-runs_of}

-- A network that starts above the previous one starts above its end.
abbrev Follows : Merger4 → Range4 → Type 0
Follows m s =
    (m.started ≡ true → m.prev < s.start → m.expected ≤ s.start)
    × (m.started ≡ false → m.expected ≡ 0)

-- Every network so far came in ascending order, and was merged.
record IsMerged (m : Merger4) (rs todo : List Range4) : Type 0 where
  merging : m.unsorted ≡ none
  run : IsRun m
  answers : (key : ℕ) → RunAnswers m rs key
  follows : All (Follows m) todo

data Phase (m : Merger4) (rs todo : List Range4) : Type 0 where
  merged : IsMerged m rs todo → Phase m rs todo
  collected : (us : List Range4) → m.unsorted ≡ some us → IsCollected rs us → Phase m rs todo

step_flags :
    (m : Merger4) (r : Range4)
    → ((step m r).unsorted ≡ m.unsorted)
      × ((step m r).started ≡ m.started)
      × ((step m r).prev ≡ m.prev)
      × ((step m r).expected ≡ r.last + 1)
unfolding step open_run close_gap
step_flags m r = ground arith

Follows-step :
    (m : Merger4) (r : Range4) (todo : List Range4)
    → m.started ≡ true
    → m.prev ≡ r.start
    → m.expected ≡ r.last + 1
    → All IsRange4 todo
    → All (Apart r) todo
    → All (Follows m) todo
Follows-step m r [] st pv ex h a = tt
Follows-step m r (s ∷ todo) st pv ex h a = (
  (λ _ lt. ground (arith, h.0.ordered, a.0), λ f. ground arith),
  Follows-step m r todo st pv ex h.1 a.1,
)

add-merged :
    (m : Merger4) (rs : List Range4) (r : Range4) (todo : List Range4)
    → IsMerged m rs (r ∷ todo)
    → IsRange4 r
    → Free rs r
    → All IsRange4 todo
    → All (Apart r) todo
    → (m' : Merger4) × (add m r ≡ some m') × Phase m' (rs ++ (r ∷ [])) todo
unfolding add
add-merged m rs r todo h range free ranges_ apart =
    elim (Bool-cases (m.started && leb r.start m.prev)) [
      | inl t ↦ (
        record m { unsorted = some (_ ++ (r ∷ [])) },
        ground (arith, ranges-runs_of m h.run),
        collected _ refl (collect rs _ r (recovered m rs h.run h.answers) range free),
      )
      | inr t ↦
          let m0 : Merger4 = record m { started = true; prev = r.start } in
          let run0 : IsRun m0 = record { written = h.run.written; end_fits = h.run.end_fits } in
          let above : m.expected ≤ r.start = ground (arith, h.follows.0.0, h.follows.0.1) in
          let flags = step_flags m0 r in
          (
            step m0 r,
            ground arith,
            merged (record {
              merging = flags.0 ∙ h.merging;
              run = step-IsRun m0 r range run0 above;
              answers = λ k. step-RunAnswers m0 r range run0 above rs k (h.answers k);
              follows = Follows-step (step m0 r) r todo flags.1 flags.2 flags.3 ranges_ apart;
            }),
          )
    ]

Free-append : (rs : List Range4) (r s : Range4) → Free rs s → Apart r s → Free (rs ++ (r ∷ [])) s
Free-append rs r s free apart key p q = ground (arith, record_from-append 0 rs r key, free key p q)

Free-all :
    (rs : List Range4) (r : Range4) (todo : List Range4)
    → All (Free rs) todo
    → All (Apart r) todo
    → All (Free (rs ++ (r ∷ []))) todo
Free-all rs r [] f a = tt
Free-all rs r (s ∷ todo) f a = (Free-append rs r s f.0 a.0, Free-all rs r todo f.1 a.1)

add-Phase :
    (m : Merger4) (rs : List Range4) (r : Range4) (todo : List Range4)
    → Phase m rs (r ∷ todo)
    → IsRange4 r
    → Free rs r
    → All IsRange4 todo
    → All (Apart r) todo
    → (m' : Merger4) × (add m r ≡ some m') × Phase m' (rs ++ (r ∷ [])) todo
add-Phase m rs r todo (merged h) range free valid apart =
    add-merged m rs r todo h range free valid apart
add-Phase m rs r todo (collected us e c) range free valid apart = (
  record m { unsorted = some (us ++ (r ∷ [])) },
  unfold add in ground arith,
  collected (us ++ (r ∷ [])) refl (collect rs us r c range free),
)

add_all-Phase :
    (m : Merger4) (rs todo : List Range4)
    → Phase m rs todo
    → All IsRange4 todo
    → IsDisjoint todo
    → All (Free rs) todo
    → (m' : Merger4) × (add_all m todo ≡ some m') × Phase m' (rs ++ todo) []
unfolding add_all
add_all-Phase m rs [] p valid apart free = (m, refl, rw append-nil p)
add_all-Phase m rs (r ∷ todo) p valid apart free =
    let (m1, e1, p1) = add-Phase m rs r todo p valid.0 free.0 valid.1 apart.0 in
    let (m2, e2, p2) =
      add_all-Phase m1 (rs ++ (r ∷ [])) todo p1 valid.1 apart.1
        (Free-all rs r todo free.1 apart.0) in
    (m2, rw e1 e2, rw (append_assoc rs (r ∷ []) todo) at p2)

-- A merged run, answering as the networks `rs`, from either phase.
settled :
    (m : Merger4) (rs : List Range4)
    → Phase m rs []
    → (m' : Merger4) × (finish m ≡ close_last m') × IsRun m' × ((key : ℕ) → RunAnswers m' rs key)
unfolding finish
settled m rs (merged h) = (m, ground (arith, h.merging), h.run, h.answers)
settled m rs (collected us e c) =
    let chain = sort-IsChain us c.ranges c.separate in
    let run = step_all-IsRun new_merger4 (sort us) new_merger4-IsRun chain in
    (
      step_all new_merger4 (sort us),
      ground (arith, e),
      run,
      λ k.
          AnswersAt-same us rs k
            (AnswersAt-same (sort us) us k
              (step_all-RunAnswers new_merger4 [] (sort us) k new_merger4-IsRun chain
                (new_merger4-RunAnswers k))
              (sort-record_from 0 us k c.separate))
            (c.same k),
    )

close_last-IsMergeOf :
    (m : Merger4) (rs : List Range4)
    → IsRun m
    → ((key : ℕ) → RunAnswers m rs key)
    → IsMergeOf (items (close_last m)) rs
unfolding close_last
close_last-IsMergeOf m rs h a =
    elim (Bool-cases (not (m.last_rec == 0) && leb m.expected (2 ^ 32 - 1))) [
      | inl gap ↦ rw gap (
          let end : m.expected % 2 ^ 32 ≡ m.expected = ground arith in
          let b : Boundary4 = record { start = m.expected % 2 ^ 32; rec = 0 } in
          let out = push-IsOut b (2 ^ 32) h.written (omega arith) (ground arith) (ground arith) in
          record {
            ascending = out.ascending;
            fits = out.below;
            compact = out.compact;
            answers = λ k lt. ground (
              arith,
              answer-push m.out b k h.written.blocks,
              (a k).inside,
              (a k).open_end,
              (a k).nothing,
            );
          })
      | inr shut ↦ rw shut (record {
        ascending = h.written.ascending;
        fits = (weaken-IsOut (2 ^ 32) h.written h.end_fits).below;
        compact = h.written.compact;
        answers = λ k lt. ground (arith, (a k).inside, (a k).open_end, (a k).nothing);
      })
    ]

all-Free : (rs : List Range4) → All (Free []) rs
all-Free [] = tt
all-Free (r ∷ rs) = ((λ k p q. refl), all-Free rs)

all_follow : (rs : List Range4) → All (Follows new_merger4) rs
all_follow [] = tt
all_follow (r ∷ rs) = ((λ e. cc, λ e. refl), all_follow rs)

-- Whatever the order in which separate networks are added, no add fails, and the boundaries are
-- those of the networks.
pub finish-IsMergeOf :
    (rs : List Range4)
    → All IsRange4 rs
    → IsDisjoint rs
    → (m : Merger4) × (add_all new_merger4 rs ≡ some m) × IsMergeOf (items (finish m)) rs
finish-IsMergeOf rs valid separate =
    let start : Phase new_merger4 [] rs = merged (record {
      merging = refl;
      run = new_merger4-IsRun;
      answers = new_merger4-RunAnswers;
      follows = all_follow rs;
    }) in
    let (m, e, p) = add_all-Phase new_merger4 [] rs start valid separate (all-Free rs) in
    let (m', f, run, answers) = settled m rs p in
    (m, e, rw f (close_last-IsMergeOf m' rs run answers))
