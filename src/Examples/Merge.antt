-- ===== src/Examples/Merge.antt =====
-- internal/build/merge.go at concrete inputs: three networks, in and out of order.
use ip2geo.Base.{ℕ, ◌≡◌, refl, true, some, List, [], ◌∷◌, arith}
use ip2geo.Build.Blocks.{append_last, push, at}
use ip2geo.Build.Blocks.Laws.{items}
use ip2geo.Build.Merge4.{
  Range4, Boundary4, Merger4, new_merger4, close_gap, open_run, step, step_all, ranges_from, ranges,
  add, add_all, insert, sort, close_last, finish,
}
use ip2geo.Build.Merge4.Answer.{IsMergeOf, record_of}
use ip2geo.Build.Merge4.Finish.{finish-IsMergeOf}
use ip2geo.Build.Merge4.Unique.{finish_order}

-- 10.0.0.0/24 and 10.0.1.0/24 share a record; 10.0.3.0/24 follows a gap.
abbrev low : Range4
low = record { start = 0x0a000000; last = 0x0a0000ff; rec = 1 }

abbrev mid : Range4
mid = record { start = 0x0a000100; last = 0x0a0001ff; rec = 1 }

abbrev high : Range4
high = record { start = 0x0a000300; last = 0x0a0003ff; rec = 2 }

abbrev forward : List Range4
forward = low ∷ mid ∷ high ∷ []

abbrev pub shuffled : List Range4
shuffled = high ∷ low ∷ mid ∷ []

finish-IsMergeOf_example :
    (m : Merger4) × (add_all new_merger4 shuffled ≡ some m) × IsMergeOf (items (finish m)) shuffled
finish-IsMergeOf_example = finish-IsMergeOf shuffled (omega arith) (omega arith)

abbrev merged_forward : Merger4
merged_forward =
    step
      (record (step
        (record (step (record new_merger4 { started = true; prev = low.start }) low) {
          prev = mid.start;
        })
        mid) { prev = high.start })
      high

forward_added : add_all new_merger4 forward ≡ some merged_forward
unfolding add_all add step open_run close_gap push append_last
forward_added = refl

abbrev pub merged_shuffled : Merger4
merged_shuffled = record (step (record new_merger4 { started = true; prev = high.start }) high) {
  unsorted = some (shuffled);
}

pub shuffled_added : add_all new_merger4 shuffled ≡ some merged_shuffled
unfolding add_all add ranges ranges_from step open_run close_gap push at append_last
shuffled_added = refl

same_records : (key : ℕ) → record_of forward key ≡ record_of shuffled key
same_records key = ground arith

finish_order_example : items (finish merged_forward) ≡ items (finish merged_shuffled)
finish_order_example =
    finish_order forward shuffled (omega arith) (omega arith) (omega arith) (omega arith)
      same_records forward_added shuffled_added

abbrev pub boundaries : List Boundary4
boundaries =
    record { start = 0x0a000000; rec = 1 }
    ∷ record { start = 0x0a000200; rec = 0 }
    ∷ record { start = 0x0a000300; rec = 2 }
    ∷ record { start = 0x0a000400; rec = 0 }
    ∷ []

pub shuffled_boundaries : items (finish merged_shuffled) ≡ boundaries
unfolding finish sort insert step_all close_last step open_run close_gap push append_last
shuffled_boundaries = refl
