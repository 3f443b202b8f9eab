-- ===== src/Reader/Search6.antt =====
-- reader.go and ranges.go: the IPv6 search over the two-level table, `search6`, `v6StepBack`,
-- `v6ExcLo`, `index6`, `start6`, `v6L2Bits` and `v6Slot`.
pub mod Exceptions
pub mod Level2
use ip2geo.Base.{
  ℕ, zero, suc, ◌+◌, ◌-◌, ◌*◌, ◌/◌, ◌%◌, ◌^◌, Bool, true, false, ◌&&◌, not, Option, none, some,
  List, length, get_elem?, ltb, leb, ◌==◌, if◌then◌else◌,
}
use mathlib.Core.Option
use ip2geo.Bytes.{le_at}
use ip2geo.Format.RecordId.{read_id}
use ip2geo.Reader.Bisect.{bisect}
use ip2geo.Reader.Words128.{Addr}

-- The fields of `Reader` that the IPv6 lookups read.
pub record Tables6 : Type 0 where
  pub id_width : ℕ
  pub v6hi : List ℕ
  pub v6ids : List ℕ
  pub v6exc_idx : List ℕ
  pub v6exc_lo : List ℕ
  pub v6exc : List ℕ
  pub v6dir : List ℕ
  pub v6l2 : List ℕ

abbrev pub v6_idx_bits : ℕ
v6_idx_bits = 16

abbrev pub v6_slot_starts : ℕ
v6_slot_starts = 8

abbrev pub v6_max_l2_bits : ℕ
v6_max_l2_bits = 16

abbrev pub v6_k_bits : ℕ
v6_k_bits = 5

-- `e & v6SlotIdxMask` and `e & v6SlotExc != 0`.
abbrev pub slot_idx : ℕ → ℕ
slot_idx e = e % 2 ^ 31

abbrev pub slot_exc : ℕ → Bool
slot_exc e = e / 2 ^ 31 % 2 == 1

-- The loop of `v6L2Bits`, from `k` on with `left` rounds to go to v6MaxL2Bits.
unfoldable pub l2_bits_from : ℕ → ℕ → ℕ → ℕ
l2_bits_from count zero k = k
l2_bits_from count (suc left) k =
    let next = l2_bits_from count left (k + 1) in
    if ltb (v6_slot_starts * 2 ^ k) count then next else k

unfoldable pub v6_l2_bits : ℕ → ℕ
v6_l2_bits count = l2_bits_from count v6_max_l2_bits 0

-- `hi << 16 >> 1 >> ((63 - k) & 63)`, on 64 bits; `k` is at most 16.
unfoldable pub v6_slot : ℕ → ℕ → ℕ
v6_slot hi k = hi * 2 ^ v6_idx_bits % 2 ^ 64 / 2 / 2 ^ ((63 - k) % 64)

-- The low half of start `i`, an exception: the first V6EXCIDX entry not below `i`.
unfoldable pub v6_exc_lo_of : Tables6 → ℕ → Option ℕ
unfolding Option.bind
v6_exc_lo_of r i =
    Option.bind
      (bisect (λ mid. Option.map (λ v. not (ltb v i)) (le_at 4 r.v6exc_idx (mid * 4))) 0
        (length r.v6exc_idx / 4))
      λ l. le_at 8 r.v6exc_lo (l * 8)

-- Bit `i` of the exception bitmap.
unfoldable pub is_exception : Tables6 → ℕ → Option Bool
is_exception r i = Option.map (λ w. w / 2 ^ (i % 64) % 2 == 1) (get_elem? r.v6exc (i / 64))

-- One round of the loop of `v6StepBack` at start `i`: whether to go on. `&&` looks no further than it must.
unfoldable pub is_above : Tables6 → ℕ → Addr → Option Bool
unfolding Option.bind
is_above r i key = Option.bind (le_at 8 r.v6hi (i * 8)) λ h.
    if not (h == key.hi)
    then some false
    else Option.bind (is_exception r i)
        λ e. if not e then some false else Option.map (λ l. ltb key.lo l) (v6_exc_lo_of r i)

-- `v6StepBack` on one more than the index: 0 is the index -1.
unfoldable pub step_back : Tables6 → ℕ → Addr → Option ℕ
unfolding Option.bind
step_back r zero key = some 0
step_back r (suc i) key =
    let rest = step_back r i key in
    Option.bind (is_above r i key) λ above. if above then rest else some (suc i)

-- One more than `index6`: 0 when the key is below the first start.
unfoldable pub next6 : Tables6 → Addr → Option ℕ
unfolding Option.bind
next6 r key = Option.bind (get_elem? r.v6dir (key.hi / 2 ^ 48)) λ d.
    let s = d / 2 ^ v6_k_bits + v6_slot key.hi (d % 2 ^ v6_k_bits) in
    Option.bind (get_elem? r.v6l2 s) λ e. Option.bind (get_elem? r.v6l2 (s + 1)) λ f.
      Option.bind
        (bisect (λ mid. Option.map (λ v. ltb key.hi v) (le_at 8 r.v6hi (mid * 8))) (slot_idx e)
          (slot_idx f))
        λ l. if slot_exc e && ltb (slot_idx e) l then step_back r l key else some l

unfoldable pub search6 : Tables6 → Addr → Option ℕ
unfolding Option.bind
search6 r key =
    Option.bind (next6 r key) λ l. if l == 0 then some 0 else read_id r.v6ids r.id_width (l - 1)

unfoldable pub start6 : Tables6 → ℕ → Option Addr
unfolding Option.bind
start6 r i = Option.bind (le_at 8 r.v6hi (i * 8)) λ h. Option.bind (is_exception r i) λ e.
    if e
    then Option.map (λ l. record { hi = h; lo = l }) (v6_exc_lo_of r i)
    else some (record { hi = h; lo = 0 })
