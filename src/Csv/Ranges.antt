-- ===== src/Csv/Ranges.antt =====
-- csvdb/reader.go: the addresses of a row, `aliasBlocks`, `unread`, and the ranges that `add` passes
-- to `addRange`. An IPv6 address is its 128-bit number, as in netip.Addr.
pub mod Covered
pub mod Covered4
pub mod Stored
pub mod Families
use ip2geo.Base.{
  ℕ, ◌+◌, ◌-◌, ◌*◌, ◌/◌, ◌%◌, ◌^◌, Bool, true, false, ◌&&◌, ◌||◌, not, List, [], ◌∷◌, ◌++◌, ltb,
  ◌==◌, if◌then◌else◌,
}

-- `netip.Addr` without a zone.
pub data IpAddr : Type 0 where
  ipv4 : ℕ → IpAddr
  ipv6 : ℕ → IpAddr

-- `Less`: the IPv4 addresses are before the IPv6 ones.
unfoldable pub less_addr : IpAddr → IpAddr → Bool
less_addr (ipv4 a) (ipv4 b) = ltb a b
less_addr (ipv4 a) (ipv6 b) = true
less_addr (ipv6 a) (ipv4 b) = false
less_addr (ipv6 a) (ipv6 b) = ltb a b

unfoldable pub is_4 : IpAddr → Bool
is_4 (ipv4 a) = true
is_4 (ipv6 a) = false

-- `Unmap`.
unfoldable pub unmap_addr : IpAddr → IpAddr
unmap_addr (ipv4 a) = ipv4 a
unmap_addr (ipv6 a) = if a / 2 ^ 32 == 0xffff then ipv4 (a % 2 ^ 32) else ipv6 a

pub record IpRange : Type 0 where
  pub first : IpAddr
  pub last : IpAddr

-- The ends are IPv6 addresses.
pub record AliasBlock : Type 0 where
  pub first : ℕ
  pub last : ℕ
  pub in_v4 : Bool

unfoldable pub alias_blocks : List AliasBlock
alias_blocks =
    record { first = 0; last = 2 ^ 32 - 1; in_v4 = false }
    ∷ record { first = 0xffff * 2 ^ 32; last = 0xffff * 2 ^ 32 + (2 ^ 32 - 1); in_v4 = true }
    ∷ record {
      first = 0x20010000 * 2 ^ 96;
      last = 0x20010000 * 2 ^ 96 + (2 ^ 96 - 1);
      in_v4 = false;
    }
    ∷ record { first = 0x2002 * 2 ^ 112; last = 0x2002 * 2 ^ 112 + (2 ^ 112 - 1); in_v4 = false }
    ∷ []

-- `unread`.
unfoldable pub unread_in : List AliasBlock → IpAddr → IpAddr → Bool
unread_in [] first last = false
unread_in (blk ∷ blks) first last =
    (not blk.in_v4
      && (not (less_addr first (ipv6 blk.first)) && not (less_addr (ipv6 blk.last) last)))
    || unread_in blks first last

abbrev pub unread : IpAddr → IpAddr → Bool
unread first last = unread_in alias_blocks first last

abbrev pub one_range : IpAddr → IpAddr → List IpRange
one_range f l = record { first = f; last = l } ∷ []

-- `if c { r.addRange(…) }`.
abbrev pub range_if : Bool → IpAddr → IpAddr → List IpRange
range_if true f l = one_range f l
range_if false f l = []

-- The body of the loop at a block that the rest of the range, from `cur` on, meets: what lies before
-- the block, what lies in it, and `behind`.
unfoldable pub split_at : AliasBlock → ℕ → ℕ → List IpRange → List IpRange
split_at blk cur last behind =
    let inside = if ltb cur blk.first then blk.first else cur in
    let end = if ltb last blk.last then last else blk.last in
    range_if (ltb cur blk.first) (ipv6 cur) (ipv6 (blk.first - 1))
    ++ (range_if blk.in_v4 (unmap_addr (ipv6 inside)) (unmap_addr (ipv6 end))
        ++ (if ltb blk.last last then behind else []))

-- The loop over the blocks: the ranges in their order. The first test is the `break`, the second the
-- `continue`.
unfoldable pub parts_from : List AliasBlock → ℕ → ℕ → List IpRange
parts_from [] cur last = one_range (ipv6 cur) (ipv6 last)
parts_from (blk ∷ blks) cur last =
    let later = parts_from blks cur last in
    let behind = parts_from blks (blk.last + 1) last in
    if ltb last blk.first
    then one_range (ipv6 cur) (ipv6 last)
    else if ltb blk.last cur
    then later
    else split_at blk cur last behind

-- The ranges that `add` passes on.
unfoldable pub parts_of : IpAddr → IpAddr → List IpRange
parts_of (ipv6 first) (ipv6 last) = parts_from alias_blocks first last
parts_of first last = one_range first last
