-- ===== src/Build/Merge4/Answer.antt =====
-- What a list of boundaries answers, and what a list of networks answers: the specifications that
-- the merger and the reader's search are held against.
use ip2geo.Base.{
  ℕ, suc, ◌+◌, ◌^◌, ◌≤◌, ◌<◌, ◌≡◌, ◌≢◌, refl, ap, length, ◌&&◌, List, [], ◌∷◌, ◌++◌, arith, leb,
  if◌then◌else◌, ◌⊎◌, All,
}
use ip2geo.Build.Merge4.{Range4, Boundary4}

-- The record of the last boundary at or below `key`, `acc` when there is none.
abbrev pub answer_from : ℕ → List Boundary4 → ℕ → ℕ
answer_from acc [] key = acc
answer_from acc (b ∷ bs) key = answer_from (if leb b.start key then b.rec else acc) bs key

abbrev pub answer : List Boundary4 → ℕ → ℕ
answer bs key = answer_from 0 bs key

-- The record of the network that holds `key`, `acc` when none does.
abbrev pub record_from : ℕ → List Range4 → ℕ → ℕ
record_from acc [] key = acc
record_from acc (r ∷ rs) key =
    record_from (if leb r.start key && leb key r.last then r.rec else acc) rs key

abbrev pub record_of : List Range4 → ℕ → ℕ
record_of rs key = record_from 0 rs key

-- A network of IPv4 addresses, whose record is not the gaps' record 0.
pub record IsRange4 (r : Range4) : Type 0 where
  pub ordered : r.start ≤ r.last
  pub fits : r.last < 2 ^ 32
  pub has_record : r.rec ≢ 0

abbrev pub Apart : Range4 → Range4 → Type 0
Apart r s = (r.last < s.start) ⊎ (s.last < r.start)

-- No two networks overlap.
abbrev pub IsDisjoint : List Range4 → Type 0
IsDisjoint [] = Unit
IsDisjoint (r ∷ rs) = All (Apart r) rs × IsDisjoint rs

-- The starts are strictly ascending, from `lo` on.
abbrev pub IsAscending : ℕ → List Boundary4 → Type 0
IsAscending lo [] = Unit
IsAscending lo (b ∷ bs) = (lo ≤ b.start) × IsAscending (b.start + 1) bs

-- No boundary repeats the record of the range before it, which is `prev` at first.
abbrev pub IsCompact : ℕ → List Boundary4 → Type 0
IsCompact prev [] = Unit
IsCompact prev (b ∷ bs) = (prev ≢ b.rec) × IsCompact b.rec bs

pub answer_from-append :
    (acc : ℕ) (bs : List Boundary4) (b : Boundary4) (key : ℕ)
    → answer_from acc (bs ++ (b ∷ [])) key
      ≡ (if leb b.start key then b.rec else answer_from acc bs key)
answer_from-append acc [] b key = refl
answer_from-append acc (c ∷ bs) b key =
    answer_from-append (if leb c.start key then c.rec else acc) bs b key

pub record_from-append :
    (acc : ℕ) (rs : List Range4) (r : Range4) (key : ℕ)
    → record_from acc (rs ++ (r ∷ [])) key
      ≡ (if leb r.start key && leb key r.last then r.rec else record_from acc rs key)
record_from-append acc [] r key = refl
record_from-append acc (s ∷ rs) r key =
    record_from-append (if leb s.start key && leb key s.last then s.rec else acc) rs r key

-- The record that the boundaries end with, `prev` when there are none.
abbrev pub last_record : ℕ → List Boundary4 → ℕ
last_record prev [] = prev
last_record prev (b ∷ bs) = last_record b.rec bs

pub last_record-append :
    (prev : ℕ) (bs : List Boundary4) (b : Boundary4) → last_record prev (bs ++ (b ∷ [])) ≡ b.rec
last_record-append prev [] b = refl
last_record-append prev (c ∷ bs) b = last_record-append c.rec bs b

pub IsAscending-append :
    (lo : ℕ) (bs : List Boundary4) (b : Boundary4)
    → IsAscending lo bs
    → All (λ c. c.start < b.start) bs
    → lo ≤ b.start
    → IsAscending lo (bs ++ (b ∷ []))
IsAscending-append lo [] b h below le = (le, tt)
IsAscending-append lo (c ∷ bs) b h below le =
    (h.0, IsAscending-append (c.start + 1) bs b h.1 below.1 (omega arith))

pub IsCompact-append :
    (prev : ℕ) (bs : List Boundary4) (b : Boundary4)
    → IsCompact prev bs
    → last_record prev bs ≢ b.rec
    → IsCompact prev (bs ++ (b ∷ []))
IsCompact-append prev [] b h ne = (ne, tt)
IsCompact-append prev (c ∷ bs) b h ne = (h.0, IsCompact-append c.rec bs b h.1 ne)

pub All-below :
    (n m : ℕ) (bs : List Boundary4) → n ≤ m → All (λ b. b.start < n) bs → All (λ b. b.start < m) bs
All-below n m [] le h = tt
All-below n m (b ∷ bs) le h = (omega arith, All-below n m bs le h.1)

-- Below the first boundary none answers.
pub answer_below :
    (key acc lo : ℕ) (bs : List Boundary4)
    → IsAscending lo bs
    → key < lo
    → answer_from acc bs key ≡ acc
answer_below key acc lo [] asc lt = refl
answer_below key acc lo (b ∷ bs) asc lt =
    ground (arith, answer_below key acc (b.start + 1) bs asc.1)

-- The starts and the record ids of the boundaries.
abbrev pub starts_of : List Boundary4 → List ℕ
starts_of [] = []
starts_of (b ∷ bs) = b.start ∷ starts_of bs

abbrev pub recs_of : List Boundary4 → List ℕ
recs_of [] = []
recs_of (b ∷ bs) = b.rec ∷ recs_of bs

-- What the builder promises of the boundaries `bs` of the networks `rs`: sorted IPv4 starts, none
-- superfluous, which answer every address as the networks do.
pub record IsMergeOf (bs : List Boundary4) (rs : List Range4) : Type 0 where
  pub ascending : IsAscending 0 bs
  pub fits : All (λ b. b.start < 2 ^ 32) bs
  pub compact : IsCompact 0 bs
  pub answers : (key : ℕ) → key < 2 ^ 32 → answer bs key ≡ record_of rs key

pub length-recs_of : (bs : List Boundary4) → length (recs_of bs) ≡ length bs
length-recs_of [] = refl
length-recs_of (b ∷ bs) = ap suc (length-recs_of bs)
