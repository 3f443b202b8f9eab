-- ===== src/Build/Merge6.antt =====
-- internal/build/merge.go: `merger6`, `cmp16b`, `inc16`, `dec16` and `lastV6`. An address [16]byte is
-- the list of its 16 bytes, the highest first.
pub mod Bytes16
use ip2geo.Base.{
  ℕ, zero, suc, ◌+◌, ◌-◌, ◌*◌, ◌/◌, ◌%◌, ◌^◌, Bool, true, false, not, ◌&&◌, Option, none, some,
  List, [], ◌∷◌, ◌++◌, take, drop, replicate, ltb, leb, ◌==◌, if◌then◌else◌,
}
use ip2geo.Build.Blocks.{BlockList, no_blocks, push, at}
use mathlib.Core.Option

abbrev pub Addr16 : Type 0
Addr16 = List ℕ

-- `bytes.Compare(a, b) < 0` and `<= 0`.
unfoldable pub less16 : Addr16 → Addr16 → Bool
less16 a [] = false
less16 [] (y ∷ b) = true
less16 (x ∷ a) (y ∷ b) = if x == y then less16 a b else ltb x y

abbrev pub less_eq16 : Addr16 → Addr16 → Bool
less_eq16 a b = not (less16 b a)

-- `a == b`.
abbrev pub eq16 : Addr16 → Addr16 → Bool
eq16 a b = not (less16 a b) && not (less16 b a)

-- `for i := 15; i >= 0; i--`: the bytes behind the first are counted up before it, and it is counted
-- up when they wrapped.
unfoldable pub inc16 : Addr16 → Addr16 × Bool
inc16 [] = ([], true)
inc16 (x ∷ a) =
    let (rest, overflow) = inc16 a in
    if overflow then (((x + 1) % 256) ∷ rest, (x + 1) % 256 == 0) else (x ∷ rest, false)

-- The same downwards, with whether the bytes wrapped.
unfoldable pub dec_bytes : Addr16 → Addr16 × Bool
dec_bytes [] = ([], true)
dec_bytes (x ∷ a) =
    let (rest, wrapped) = dec_bytes a in
    if wrapped then (((x + 255) % 256) ∷ rest, (x + 255) % 256 == 255) else (x ∷ rest, false)

unfoldable pub dec16 : Addr16 → Addr16
dec16 a = (dec_bytes a).0

-- `binary.BigEndian.Uint64` of the bytes, and `PutUint64` of a word into `w` bytes.
unfoldable pub be_uint : List ℕ → ℕ → ℕ
be_uint [] acc = acc
be_uint (x ∷ b) acc = be_uint b (acc * 256 + x)

unfoldable pub be_bytes : ℕ → ℕ → List ℕ
be_bytes zero v = []
be_bytes (suc w) v = (v / 256 ^ w % 256) ∷ be_bytes w v

-- `v | ones>>k` on 64 bits: the low `64 - k` bits are set; a shift by 64 or more gives 0.
unfoldable pub set_low : ℕ → ℕ → ℕ
set_low v k = v / 2 ^ (64 - k) * 2 ^ (64 - k) + (2 ^ (64 - k) - 1)

unfoldable pub last_v6 : Addr16 → ℕ → Addr16
last_v6 start bits =
    let hi = be_uint (take 8 start) 0 in
    let lo = be_uint (drop 8 start) 0 in
    if ltb bits 64
    then be_bytes 8 (set_low hi bits) ++ be_bytes 8 (2 ^ 64 - 1)
    else be_bytes 8 hi ++ be_bytes 8 (set_low lo (bits - 64))

pub record Range6 : Type 0 where
  pub start : Addr16
  pub last : Addr16
  pub rec : ℕ

pub record Boundary6 : Type 0 where
  pub start : Addr16
  pub rec : ℕ

pub record Merger6 : Type 0 where
  pub out : BlockList Boundary6
  pub expected : Addr16
  pub have_expected : Bool
  pub last_rec : ℕ
  pub prev : Addr16
  pub started : Bool
  pub unsorted : Option (List Range6)

-- `merger6{}`.
abbrev pub new_merger6 : Merger6
new_merger6 = record {
  out = no_blocks;
  expected = replicate 16 0;
  have_expected = false;
  last_rec = 0;
  prev = replicate 16 0;
  started = false;
  unsorted = none;
}

-- The gap before `r`, when the open run does not end at it.
unfoldable pub close_gap6 : Merger6 → Addr16 → Merger6
close_gap6 m start =
    if not (m.last_rec == 0)
      && (if m.have_expected then less16 m.expected start else not (eq16 start m.expected))
    then record m { out = push m.out (record { start = m.expected; rec = 0 }); last_rec = 0 }
    else m

unfoldable pub open_run6 : Merger6 → Range6 → Merger6
open_run6 m r =
    if r.rec == m.last_rec
    then m
    else record m { out = push m.out (record { start = r.start; rec = r.rec }); last_rec = r.rec }

unfoldable pub step6 : Merger6 → Range6 → Merger6
step6 m r =
    let m' = open_run6 (close_gap6 m r.start) r in
    let (next, overflow) = inc16 r.last in
    record m' { expected = next; have_expected = not overflow }

-- `ranges`: boundary `i` on, `count` boundaries are left; `none` is an index out of range.
unfoldable pub ranges6_from : Merger6 → ℕ → ℕ → Option (List Range6)
unfolding Option.bind
ranges6_from m zero i = some []
ranges6_from m (suc count) i = Option.bind (at m.out i) λ b.
    Option.bind (ranges6_from m count (i + 1)) λ rest.
      if b.rec == 0
      then some rest
      else Option.map (λ last. record { start = b.start; last = last; rec = b.rec } ∷ rest)
          (if ltb (i + 1) m.out.n
            then Option.map (λ (next : Boundary6). dec16 next.start) (at m.out (i + 1))
            else some (dec16 m.expected))

unfoldable pub ranges6 : Merger6 → Option (List Range6)
ranges6 m = ranges6_from m m.out.n 0

unfoldable pub add6 : Merger6 → Range6 → Option Merger6
add6 m r = elim m.unsorted [
  | some rs ↦ some (record m { unsorted = some (rs ++ (r ∷ [])) })
  | none ↦
      if m.started && less_eq16 r.start m.prev
      then Option.map (λ rs. record m { unsorted = some (rs ++ (r ∷ [])) }) (ranges6 m)
      else some (step6 (record m { started = true; prev = r.start }) r)
]

-- `slices.SortFunc` by the starts.
unfoldable pub insert6 : Range6 → List Range6 → List Range6
insert6 r [] = r ∷ []
insert6 r (s ∷ rs) = if less_eq16 r.start s.start then r ∷ s ∷ rs else s ∷ insert6 r rs

unfoldable pub sort6 : List Range6 → List Range6
sort6 [] = []
sort6 (r ∷ rs) = insert6 r (sort6 rs)

unfoldable pub step_all6 : Merger6 → List Range6 → Merger6
step_all6 m [] = m
step_all6 m (r ∷ rs) = step_all6 (step6 m r) rs

unfoldable pub close_last6 : Merger6 → BlockList Boundary6
close_last6 m =
    if not (m.last_rec == 0) && m.have_expected
    then push m.out (record { start = m.expected; rec = 0 })
    else m.out

unfoldable pub finish6 : Merger6 → BlockList Boundary6
finish6 m = close_last6 (elim m.unsorted [ some rs ↦ step_all6 new_merger6 (sort6 rs) | none ↦ m ])
