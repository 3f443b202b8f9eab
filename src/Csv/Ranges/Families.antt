-- ===== src/Csv/Ranges/Families.antt =====
-- Each range that `add` passes on is of one family, and the IPv6 ones are not IPv4-mapped.
use ip2geo.Base.{
  ℕ, ◌+◌, ◌-◌, ◌/◌, ◌^◌, ◌≤◌, ◌<◌, ◌≡◌, ◌≢◌, true, List, [], ◌∷◌, ltb, if◌then◌else◌, Bool-cases,
  inl, inr, arith, All, All-append,
}
use ip2geo.Csv.Ranges.{
  IpAddr, ipv4, ipv6, unmap_addr, IpRange, AliasBlock, alias_blocks, range_if, split_at, parts_from,
  parts_of,
}
use ip2geo.Csv.Ranges.Covered.{in_v4_blocks, IsBlock, InOrder, mapped_part, inside_bounds}
use ip2geo.Csv.Ranges.Covered4.{below_v4_blocks, end_bounds}
use ip2geo.Csv.Ranges.Stored.{alias_blocks-InOrder}

-- A range that `AddRange` takes as one of the family that its ends have.
abbrev pub OneFamily : IpAddr → IpAddr → Type 0
OneFamily (ipv4 f) (ipv4 l) = l < 2 ^ 32
OneFamily (ipv6 f) (ipv6 l) = (f < 2 ^ 128) × (f / 2 ^ 32 ≢ 0xffff)
OneFamily _ _ = ⊥

abbrev pub IsPart : IpRange → Type 0
IsPart p = OneFamily p.first p.last

-- From `lo` on the IPv4-mapped addresses are those of the blocks.
abbrev MapsAll : ℕ → List AliasBlock → Type 0
MapsAll lo blks = (n : ℕ) → lo ≤ n → n / 2 ^ 32 ≡ 0xffff → in_v4_blocks blks n ≡ true

MapsAll-later :
    (lo : ℕ) (blk : AliasBlock) (blks : List AliasBlock)
    → MapsAll lo (blk ∷ blks)
    → IsBlock lo blk
    → MapsAll (blk.last + 1) blks
MapsAll-later lo blk blks maps h n le e =
    let all = maps n (omega (arith, h.low, h.ordered)) e in ground arith

-- Before the blocks there is no IPv4-mapped address.
unmapped_before :
    (lo cur hi : ℕ) (blks : List AliasBlock)
    → MapsAll lo blks
    → InOrder hi blks
    → lo ≤ cur
    → cur < hi
    → cur / 2 ^ 32 ≢ 0xffff
unmapped_before lo cur hi blks maps h le lt e =
    absurd (ground (arith, maps cur le e, below_v4_blocks hi blks cur h lt))

IsBlock-first : (lo : ℕ) (blk : AliasBlock) → IsBlock lo blk → IsBlock blk.first blk
IsBlock-first lo blk h = record {
  low = omega arith;
  ordered = h.ordered;
  mapped_first = h.mapped_first;
  mapped_last = h.mapped_last;
}

mapped_range-IsPart :
    (blk : AliasBlock) (lo cur last : ℕ)
    → IsBlock lo blk
    → cur ≤ blk.last
    → blk.first ≤ last
    → All IsPart (
        range_if blk.in_v4
          (unmap_addr (ipv6 (if ltb cur blk.first then blk.first else cur)))
          (unmap_addr (ipv6 (if ltb last blk.last then last else blk.last))))
mapped_range-IsPart blk lo cur last h le le' = elim (Bool-cases blk.in_v4) [
  | inl t ↦
      let first = h.mapped_first t in
      let end = h.mapped_last t in
      let (f1, f2) = inside_bounds blk.first blk.last cur h.ordered le in
      let (l1, l2) = end_bounds blk.first blk.last last h.ordered le' in
      rw
        (
          t,
          mapped_part (if ltb cur blk.first then blk.first else cur) (omega arith) (omega arith),
          mapped_part (if ltb last blk.last then last else blk.last) (omega arith) (omega arith),
        )
        (omega arith, tt)
  | inr n ↦ rw n tt
]

parts_from-IsPart :
    (lo : ℕ) (blks : List AliasBlock) (cur last : ℕ)
    → InOrder lo blks
    → MapsAll lo blks
    → lo ≤ cur
    → cur ≤ last
    → last < 2 ^ 128
    → All IsPart (parts_from blks cur last)
unfolding parts_from split_at
parts_from-IsPart lo [] cur last h maps low le lt =
    ((omega arith, λ e. absurd (ground (arith, maps cur low e))), tt)
parts_from-IsPart lo (blk ∷ blks) cur last h maps low le lt =
    let free : cur < blk.first → cur / 2 ^ 32 ≢ 0xffff = λ b.
      unmapped_before lo cur blk.first (blk ∷ blks) maps (IsBlock-first lo blk h.0, h.1) low b in
    let maps' = MapsAll-later lo blk blks maps h.0 in
    elim (Bool-cases (ltb last blk.first)) [
      | inl before ↦ rw before ((omega arith, free (ground arith)), tt)
      | inr reaches ↦ elim (Bool-cases (ltb blk.last cur)) [
        | inl past ↦
            rw (reaches, past)
              (parts_from-IsPart (blk.last + 1) blks cur last h.1 maps' (ground arith) le lt)
        | inr meets ↦
            rw (reaches, meets)
              (All-append IsPart (range_if (ltb cur blk.first) (ipv6 cur) (ipv6 (blk.first - 1))) _
                (elim (Bool-cases (ltb cur blk.first)) [
                  | inl t ↦ rw t ((omega arith, free (ground arith)), tt)
                  | inr n ↦ rw n tt
                ])
                (All-append IsPart _ _
                  (mapped_range-IsPart blk lo cur last h.0 (ground arith) (ground arith))
                  (elim (Bool-cases (ltb blk.last last)) [
                    | inl on ↦ rw on (
                        parts_from-IsPart (blk.last + 1) blks (blk.last + 1) last h.1 maps'
                          (omega arith) (ground arith) lt)
                    | inr done ↦ rw done tt
                  ])))
      ]
    ]

alias_blocks-MapsAll : MapsAll 0 alias_blocks
unfolding alias_blocks
alias_blocks-MapsAll n le e = ground arith

-- A range that a row can have: of one family, not descending, its addresses in the family's range.
abbrev pub RowRange : IpAddr → IpAddr → Type 0
RowRange (ipv4 f) (ipv4 l) = (f ≤ l) × (l < 2 ^ 32)
RowRange (ipv6 f) (ipv6 l) = (f ≤ l) × (l < 2 ^ 128)
RowRange _ _ = ⊥

pub parts_of-IsPart : (first last : IpAddr) → RowRange first last → All IsPart (parts_of first last)
unfolding parts_of
parts_of-IsPart (ipv4 f) (ipv4 l) h = (h.1, tt)
parts_of-IsPart (ipv4 f) (ipv6 l) h = absurd h
parts_of-IsPart (ipv6 f) (ipv4 l) h = absurd h
parts_of-IsPart (ipv6 f) (ipv6 l) h =
    parts_from-IsPart 0 alias_blocks f l alias_blocks-InOrder alias_blocks-MapsAll (omega arith) h.0
      h.1
