-- ===== src/Reader/Search4/Sections.antt =====
-- What the IPv4 sections hold: the boundaries of a list of starts and record ids.
use ip2geo.Base.{ℕ, ◌*◌, ◌%◌, ◌^◌, ◌≤◌, ◌<◌, ◌≡◌, some, List, length, get_elem?}
use ip2geo.Bytes.{le_at}
use ip2geo.Format.RecordId.{read_id}
use ip2geo.Reader.Count.{IsRising, count_below, ◌!◌}

-- V4STARTS holds the low halves of the starts, V4IDX the index of the first start of each top-16
-- bucket, and the starts are strictly ascending 32-bit numbers.
pub record HoldsStarts (idx s : List ℕ) (starts : List ℕ) : Type 0 where
  pub rising : IsRising 0 starts
  pub fits : (i : ℕ) → i < length starts → starts ! i < 2 ^ 32
  pub size : length s ≡ length starts * 2
  pub low_half : (i : ℕ) → i < length starts → le_at 2 s (i * 2) ≡ some (starts ! i % 2 ^ 16)
  pub bucket : (g : ℕ) → g ≤ 2 ^ 16 → le_at 4 idx (g * 4) ≡ some (count_below starts (g * 2 ^ 16))

-- V4IDS holds the record ids of the boundaries.
abbrev pub HoldsIds : List ℕ → ℕ → List ℕ → Type 0
HoldsIds ids width recs = (i : ℕ) → i < length recs → read_id ids width i ≡ get_elem? recs i
