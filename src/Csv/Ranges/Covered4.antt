-- ===== src/Csv/Ranges/Covered4.antt =====
-- The IPv4 ranges that `add` passes on hold the IPv4-mapped addresses of the row.
use ip2geo.Base.{
  ℕ, ◌+◌, ◌-◌, ◌*◌, ◌^◌, ◌≤◌, ◌<◌, ◌≡◌, refl, ◌∙◌, Bool, true, false, ◌&&◌, ◌||◌, List, [], ◌∷◌,
  ◌++◌, leb, ltb, if◌then◌else◌, Bool-cases, inl, inr, arith,
}
use ip2geo.Csv.Ranges.{ipv6, unmap_addr, IpRange, AliasBlock, range_if, split_at, parts_from}
use ip2geo.Csv.Ranges.Covered.{
  within, between4, holds4, mapped_to, in_v4_blocks, IsBlock, InOrder, mapped_part, inside_bounds,
  holds4-append,
}

mapped_part-between4 :
    (f l x : ℕ)
    → 0xffff * 2 ^ 32 ≤ f
    → f ≤ 0xffff * 2 ^ 32 + (2 ^ 32 - 1)
    → 0xffff * 2 ^ 32 ≤ l
    → l ≤ 0xffff * 2 ^ 32 + (2 ^ 32 - 1)
    → between4 (unmap_addr (ipv6 f)) (unmap_addr (ipv6 l)) x ≡ within f l (mapped_to x)
mapped_part-between4 f l x f1 f2 l1 l2 =
    rw (mapped_part f f1 f2, mapped_part l l1 l2) (ground arith)

before-holds4 : (c : Bool) (f l x : ℕ) → holds4 (range_if c (ipv6 f) (ipv6 l)) x ≡ false
before-holds4 true f l x = refl
before-holds4 false f l x = refl

behind-holds4 :
    (c : Bool) (behind : List IpRange) (x : ℕ)
    → holds4 (if c then behind else []) x ≡ (c && holds4 behind x)
behind-holds4 true behind x = refl
behind-holds4 false behind x = refl

pub end_bounds :
    (f l last : ℕ)
    → f ≤ l
    → f ≤ last
    → (f ≤ (if ltb last l then last else l)) × ((if ltb last l then last else l) ≤ l)
end_bounds f l last le1 le2 = elim (Bool-cases (ltb last l)) [
  | inl t ↦ rw t (le2, ground arith)
  | inr n ↦ rw n (le1, omega arith)
]

clipped :
    (f l cur last n : ℕ)
    → f ≤ n
    → n ≤ l
    → (within (if ltb cur f then f else cur) (if ltb last l then last else l) n || false)
      ≡ within cur last n
clipped f l cur last n fn nl = ground arith

v4_part-holds4 :
    (blk : AliasBlock) (lo cur last x : ℕ)
    → IsBlock lo blk
    → cur ≤ blk.last
    → blk.first ≤ last
    → x < 2 ^ 32
    → holds4
        (range_if blk.in_v4
          (unmap_addr (ipv6 (if ltb cur blk.first then blk.first else cur)))
          (unmap_addr (ipv6 (if ltb last blk.last then last else blk.last))))
        x
      ≡ (blk.in_v4 && within cur last (mapped_to x))
v4_part-holds4 blk lo cur last x h le le' lt = elim (Bool-cases blk.in_v4) [
  | inl t ↦
      let first = h.mapped_first t in
      let end = h.mapped_last t in
      let (f1, f2) = inside_bounds blk.first blk.last cur h.ordered le in
      let (l1, l2) = end_bounds blk.first blk.last last h.ordered le' in
      let part =
        mapped_part-between4 (if ltb cur blk.first then blk.first else cur)
          (if ltb last blk.last then last else blk.last) x (omega arith) (omega arith) (omega arith)
          (omega arith) in
      rw (t, part) (clipped blk.first blk.last cur last (mapped_to x) (omega arith) (omega arith))
  | inr n ↦ rw n refl
]

split_at-holds4 :
    (blk : AliasBlock) (lo cur last x : ℕ) (behind : List IpRange)
    → IsBlock lo blk
    → cur ≤ blk.last
    → blk.first ≤ last
    → x < 2 ^ 32
    → holds4 (split_at blk cur last behind) x
      ≡ ((blk.in_v4 && within cur last (mapped_to x)) || (ltb blk.last last && holds4 behind x))
unfolding split_at
split_at-holds4 blk lo cur last x behind h le le' lt =
    let inside = if ltb cur blk.first then blk.first else cur in
    let end = unmap_addr (ipv6 (if ltb last blk.last then last else blk.last)) in
    let rest = if ltb blk.last last then behind else [] in
    let mid = range_if blk.in_v4 (unmap_addr (ipv6 inside)) end in
    holds4-append (range_if (ltb cur blk.first) (ipv6 cur) (ipv6 (blk.first - 1))) (mid ++ rest) x
    ∙ rw
        (
          holds4-append mid rest x,
          v4_part-holds4 blk lo cur last x h le le' lt,
          before-holds4 (ltb cur blk.first) cur (blk.first - 1) x,
          behind-holds4 (ltb blk.last last) behind x,
        )
        refl

pub below_v4_blocks :
    (lo : ℕ) (blks : List AliasBlock) (a : ℕ)
    → InOrder lo blks
    → a < lo
    → in_v4_blocks blks a ≡ false
below_v4_blocks lo [] a h lt = refl
below_v4_blocks lo (blk ∷ blks) a h lt =
    let rest = below_v4_blocks (blk.last + 1) blks a h.1 (omega (arith, h.0.low, h.0.ordered)) in
    ground (arith, h.0.low, rest)

-- The addresses of an IPv4 block among those of the range.
around_v4 :
    (f l cur last n : ℕ) (c v : Bool)
    → cur ≤ l
    → (c ≡ true → f ≤ n)
    → (c ≡ true → n ≤ l)
    → (n ≤ l → v ≡ false)
    → ((c && within cur last n) || (ltb l last && (within (l + 1) last n && v)))
      ≡ (within cur last n && ((c && within f l n) || v))
around_v4 f l cur last n true v cl low high none =
    let z = none (high refl) in rw z (ground (arith, low refl, high refl))
around_v4 f l cur last n false v cl low high none = elim (Bool-cases (leb n l)) [
  | inl t ↦ let z = none (ground arith) in rw z (ground arith)
  | inr m ↦ ground arith
]

pub parts_from-holds4 :
    (lo : ℕ) (blks : List AliasBlock) (cur last x : ℕ)
    → InOrder lo blks
    → cur ≤ last
    → x < 2 ^ 32
    → holds4 (parts_from blks cur last) x
      ≡ (within cur last (mapped_to x) && in_v4_blocks blks (mapped_to x))
unfolding parts_from
parts_from-holds4 lo [] cur last x h le lt = ground arith
parts_from-holds4 lo (blk ∷ blks) cur last x h le lt =
    let n = mapped_to x in
    let none : n ≤ blk.last → in_v4_blocks blks n ≡ false =
      λ le'. below_v4_blocks (blk.last + 1) blks n h.1 (omega arith) in
    elim (Bool-cases (ltb last blk.first)) [
      | inl before ↦ rw before (elim (Bool-cases (leb n last)) [
        | inl t ↦ let z = none (ground (arith, h.0.ordered)) in ground (arith, z)
        | inr m ↦ ground arith
      ])
      | inr reaches ↦ elim (Bool-cases (ltb blk.last cur)) [
        | inl past ↦
            let ih = parts_from-holds4 (blk.last + 1) blks cur last x h.1 le lt in
            rw (reaches, past, ih) (ground arith)
        | inr meets ↦
            let step =
              split_at-holds4 blk lo cur last x (parts_from blks (blk.last + 1) last) h.0
                (ground arith) (ground arith) lt in
            let around =
              around_v4 blk.first blk.last cur last n blk.in_v4 (in_v4_blocks blks n) (ground arith)
                (λ t. omega (arith, h.0.mapped_first t)) (λ t. omega (arith, h.0.mapped_last t))
                none in
            rw (reaches, meets)
              (step ∙ elim (Bool-cases (ltb blk.last last)) [
                | inl on ↦
                    let ih =
                      parts_from-holds4 (blk.last + 1) blks (blk.last + 1) last x h.1 (ground arith)
                        lt in
                    rw (on, ih) (rw on at around)
                | inr done ↦ rw done (rw done at around)
              ])
      ]
    ]
