-- ===== src/Build/Encode4/EndToEnd.antt =====
-- From networks to lookups: the merged networks, encoded as the IPv4 sections, are found again by
-- the reader's search.
use ip2geo.Base.{
  ℕ, ◌+◌, ◌^◌, ◌≤◌, ◌<◌, ◌≡◌, ap, ◌∙◌, some, List, [], ◌∷◌, arith, length, leb, ◌&&◌, if◌then◌else◌,
  All,
}
use ip2geo.Format.RecordId.{id_width}
use ip2geo.Format.RecordId.RoundTrip.{read_id-id_width}
use ip2geo.Build.Blocks.{BlockList}
use ip2geo.Build.Blocks.Laws.{items}
use ip2geo.Build.Merge4.{Range4, Boundary4, Merger4, new_merger4, add_all, finish}
use ip2geo.Build.Merge4.Answer.{
  answer_from, answer_below, record_from, record_of, IsRange4, IsDisjoint, IsAscending, IsMergeOf,
  starts_of, recs_of,
}
use ip2geo.Build.Merge4.Unique.{finish-merged}
use ip2geo.Build.Encode4.{v4_idx_bytes, v4_starts_bytes, v4_ids_bytes}
use ip2geo.Build.Encode4.Holds.{v4_sections-HoldsStarts}
use ip2geo.Reader.Search4.{Tables4, build_index4, search4}
use ip2geo.Reader.Search4.Lookup.{search4-answer}

-- The IPv4 part of a file that `encode` writes for `n` records.
abbrev pub tables_of : BlockList Boundary4 → ℕ → Tables4
tables_of l n = record {
  id_width = id_width n;
  v4idx = v4_idx_bytes l;
  v4starts = v4_starts_bytes l;
  v4ids = v4_ids_bytes (id_width n) l;
  lo4 = [];
}

record_from-lt :
    (acc n : ℕ) (rs : List Range4) (key : ℕ)
    → acc < n
    → All (λ r. r.rec < n) rs
    → record_from acc rs key < n
record_from-lt acc n [] key h a = h
record_from-lt acc n (r ∷ rs) key h a =
    record_from-lt (if leb r.start key && leb key r.last then r.rec else acc) n rs key
      (ground (arith, a.0)) a.1

-- Every record of a boundary is an answer.
recs-lt :
    (acc lo n : ℕ) (bs : List Boundary4)
    → IsAscending lo bs
    → All (λ b. b.start < 2 ^ 32) bs
    → ((key : ℕ) → lo ≤ key → key < 2 ^ 32 → answer_from acc bs key < n)
    → All (λ id. id < n) (recs_of bs)
recs-lt acc lo n [] asc fits h = tt
recs-lt acc lo n (b ∷ bs) asc fits h = (
  ground (arith, h b.start, answer_below b.start b.rec (b.start + 1) bs),
  recs-lt b.rec (b.start + 1) n bs asc.1 fits.1
      (λ key le lt. ground (arith, h key (omega (arith, asc.0)))),
)

-- Separate networks whose records are below `n`, merged in whatever order they come, encoded for `n`
-- records and indexed by the reader: `search4` returns the record of the network that holds the
-- address, and 0 for an address in none, provided that V4IDX can count the boundaries.
pub search4-record_of :
    (rs : List Range4) (n : ℕ) {m : Merger4}
    → All IsRange4 rs
    → IsDisjoint rs
    → All (λ r. r.rec < n) rs
    → 0 < n
    → n ≤ 2 ^ 32
    → add_all new_merger4 rs ≡ some m
    → length (starts_of (items (finish m))) < 2 ^ 32
    → (t : Tables4) × (build_index4 (tables_of (finish m) n) ≡ some t)
      × ((key : ℕ) → key < 2 ^ 32 → search4 t key ≡ some (record_of rs key))
unfolding v4_ids_bytes
search4-record_of rs n {m} valid separate below pos many e few =
    let bs = items (finish m) in
    let h : IsMergeOf bs rs = finish-merged rs valid separate e in
    let ids =
      recs-lt 0 0 n bs h.ascending h.fits
        (λ key _ lt. rw (h.answers key lt) (record_from-lt 0 n rs key pos below)) in
    let (t, built, found) =
      search4-answer (tables_of (finish m) n) bs h.ascending
        (v4_sections-HoldsStarts (finish m) h.ascending h.fits few)
        (λ i lt. read_id-id_width n (recs_of bs) i many ids lt) in
    (t, built, λ key lt. found key lt ∙ ap some (h.answers key lt))
