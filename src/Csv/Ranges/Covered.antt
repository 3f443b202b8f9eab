-- ===== src/Csv/Ranges/Covered.antt =====
-- The IPv6 ranges that `add` passes on hold the IPv6 addresses of the row outside the alias blocks.
use ip2geo.Base.{
  ℕ, ◌+◌, ◌-◌, ◌*◌, ◌/◌, ◌^◌, ◌≤◌, ◌<◌, ◌≡◌, refl, ap, ◌∙◌, Bool, true, false, ◌&&◌, ◌||◌, not,
  List, [], ◌∷◌, ◌++◌, leb, ltb, ◌==◌, if◌then◌else◌, Bool-cases, inl, inr, arith,
}
use ip2geo.Csv.Ranges.{
  IpAddr, ipv4, ipv6, unmap_addr, IpRange, AliasBlock, range_if, split_at, parts_from,
}

abbrev pub within : ℕ → ℕ → ℕ → Bool
within f l a = leb f a && leb a l

-- Whether a range of the family holds the address.
abbrev pub between6 : IpAddr → IpAddr → ℕ → Bool
between6 (ipv6 f) (ipv6 l) a = within f l a
between6 _ _ a = false

abbrev pub between4 : IpAddr → IpAddr → ℕ → Bool
between4 (ipv4 f) (ipv4 l) a = within f l a
between4 _ _ a = false

abbrev pub holds6 : List IpRange → ℕ → Bool
holds6 [] a = false
holds6 (r ∷ rs) a = between6 r.first r.last a || holds6 rs a

abbrev pub holds4 : List IpRange → ℕ → Bool
holds4 [] a = false
holds4 (r ∷ rs) a = between4 r.first r.last a || holds4 rs a

-- The address lies in a block, and in one of IPv4 addresses.
abbrev pub in_blocks : List AliasBlock → ℕ → Bool
in_blocks [] a = false
in_blocks (blk ∷ blks) a = within blk.first blk.last a || in_blocks blks a

abbrev pub mapped_to : ℕ → ℕ
mapped_to x = 0xffff * 2 ^ 32 + x

abbrev pub in_v4_blocks : List AliasBlock → ℕ → Bool
in_v4_blocks [] a = false
in_v4_blocks (blk ∷ blks) a = (blk.in_v4 && within blk.first blk.last a) || in_v4_blocks blks a

-- The blocks lie from `lo` on one after the other, and a block of IPv4 addresses is ::ffff:0:0/96.
pub record IsBlock (lo : ℕ) (blk : AliasBlock) : Type 0 where
  pub low : lo ≤ blk.first
  pub ordered : blk.first ≤ blk.last
  pub mapped_first : blk.in_v4 ≡ true → blk.first ≡ 0xffff * 2 ^ 32
  pub mapped_last : blk.in_v4 ≡ true → blk.last ≡ 0xffff * 2 ^ 32 + (2 ^ 32 - 1)

abbrev pub InOrder : ℕ → List AliasBlock → Type 0
InOrder lo [] = Unit
InOrder lo (blk ∷ blks) = IsBlock lo blk × InOrder (blk.last + 1) blks

below_blocks :
    (lo : ℕ) (blks : List AliasBlock) (a : ℕ) → InOrder lo blks → a < lo → in_blocks blks a ≡ false
below_blocks lo [] a h lt = refl
below_blocks lo (blk ∷ blks) a h lt =
    let rest = below_blocks (blk.last + 1) blks a h.1 (omega (arith, h.0.low, h.0.ordered)) in
    ground (arith, h.0.low, rest)

holds6-append : (xs ys : List IpRange) (a : ℕ) → holds6 (xs ++ ys) a ≡ (holds6 xs a || holds6 ys a)
holds6-append [] ys a = refl
holds6-append (x ∷ xs) ys a = rw (holds6-append xs ys a) (ground arith)

pub holds4-append :
    (xs ys : List IpRange) (a : ℕ) → holds4 (xs ++ ys) a ≡ (holds4 xs a || holds4 ys a)
holds4-append [] ys a = refl
holds4-append (x ∷ xs) ys a = rw (holds4-append xs ys a) (ground arith)

-- The part in an IPv4 block is one of IPv4 addresses.
pub mapped_part :
    (n : ℕ)
    → 0xffff * 2 ^ 32 ≤ n
    → n ≤ 0xffff * 2 ^ 32 + (2 ^ 32 - 1)
    → unmap_addr (ipv6 n) ≡ ipv4 (n - 0xffff * 2 ^ 32)
unfolding unmap_addr
mapped_part n lo hi =
    let t : (n / 2 ^ 32 == 0xffff) ≡ true = ground arith in rw t (ap ipv4 (omega arith))

v4_part-holds6 :
    (blk : AliasBlock) (lo f a : ℕ) (l : IpAddr)
    → IsBlock lo blk
    → blk.first ≤ f
    → f ≤ blk.last
    → holds6 (range_if blk.in_v4 (unmap_addr (ipv6 f)) l) a ≡ false
v4_part-holds6 blk lo f a l h f1 f2 = elim (Bool-cases blk.in_v4) [
  | inl t ↦
      let first = h.mapped_first t in
      let last = h.mapped_last t in rw (t, mapped_part f (omega arith) (omega arith)) refl
  | inr n ↦ rw n refl
]

before-holds6 :
    (c : Bool) (f l a : ℕ) → holds6 (range_if c (ipv6 f) (ipv6 l)) a ≡ (c && within f l a)
before-holds6 true f l a = ground arith
before-holds6 false f l a = refl

behind-holds6 :
    (c : Bool) (behind : List IpRange) (a : ℕ)
    → holds6 (if c then behind else []) a ≡ (c && holds6 behind a)
behind-holds6 true behind a = refl
behind-holds6 false behind a = refl

pub inside_bounds :
    (f l cur : ℕ)
    → f ≤ l
    → cur ≤ l
    → (f ≤ (if ltb cur f then f else cur)) × ((if ltb cur f then f else cur) ≤ l)
inside_bounds f l cur le1 le2 = elim (Bool-cases (ltb cur f)) [
  | inl t ↦ rw t (omega arith, le1)
  | inr n ↦ rw n (ground arith, le2)
]

split_at-holds6 :
    (blk : AliasBlock) (lo cur last a : ℕ) (behind : List IpRange)
    → IsBlock lo blk
    → cur ≤ blk.last
    → holds6 (split_at blk cur last behind) a ≡ (
        (ltb cur blk.first && within cur (blk.first - 1) a)
        || (ltb blk.last last && holds6 behind a))
unfolding split_at
split_at-holds6 blk lo cur last a behind h le =
    let inside = if ltb cur blk.first then blk.first else cur in
    let (f1, f2) = inside_bounds blk.first blk.last cur h.ordered le in
    let end = unmap_addr (ipv6 (if ltb last blk.last then last else blk.last)) in
    let rest = if ltb blk.last last then behind else [] in
    let mid = range_if blk.in_v4 (unmap_addr (ipv6 inside)) end in
    holds6-append (range_if (ltb cur blk.first) (ipv6 cur) (ipv6 (blk.first - 1))) (mid ++ rest) a
    ∙ rw
        (
          holds6-append mid rest a,
          v4_part-holds6 blk lo inside a end h f1 f2,
          before-holds6 (ltb cur blk.first) cur (blk.first - 1) a,
          behind-holds6 (ltb blk.last last) behind a,
        )
        refl

-- What is left of the range before a block and behind it, on its addresses.
around_on :
    (f l cur last a : ℕ) (v : Bool)
    → f ≤ l
    → cur ≤ l
    → l < last
    → (a ≤ l → v ≡ false)
    → ((ltb cur f && within cur (f - 1) a) || (within (l + 1) last a && not v))
      ≡ (within cur last a && not (within f l a || v))
around_on f l cur last a v fl cl ll none = elim (Bool-cases (leb a l)) [
  | inl t ↦ let z = none (ground arith) in rw z (ground arith)
  | inr n ↦ ground arith
]

around_done :
    (f l cur last a : ℕ) (v : Bool)
    → f ≤ l
    → last ≤ l
    → f ≤ last
    → (a ≤ l → v ≡ false)
    → ((ltb cur f && within cur (f - 1) a) || false)
      ≡ (within cur last a && not (within f l a || v))
around_done f l cur last a v fl ll fl' none = elim (Bool-cases (leb a l)) [
  | inl t ↦ let z = none (ground arith) in rw z (ground arith)
  | inr n ↦ ground arith
]

pub parts_from-holds6 :
    (lo : ℕ) (blks : List AliasBlock) (cur last a : ℕ)
    → InOrder lo blks
    → cur ≤ last
    → holds6 (parts_from blks cur last) a ≡ (within cur last a && not (in_blocks blks a))
unfolding parts_from
parts_from-holds6 lo [] cur last a h le = ground arith
parts_from-holds6 lo (blk ∷ blks) cur last a h le = elim (Bool-cases (ltb last blk.first)) [
  | inl before ↦ rw before (elim (Bool-cases (leb a last)) [
    | inl t ↦
        let none = below_blocks (blk.last + 1) blks a h.1 (ground (arith, h.0.ordered)) in
        ground (arith, none)
    | inr n ↦ ground arith
  ])
  | inr reaches ↦ elim (Bool-cases (ltb blk.last cur)) [
    | inl past ↦
        let ih = parts_from-holds6 (blk.last + 1) blks cur last a h.1 le in
        rw (reaches, past, ih) (ground arith)
    | inr meets ↦
        let none : a ≤ blk.last → in_blocks blks a ≡ false =
          λ le'. below_blocks (blk.last + 1) blks a h.1 (omega arith) in
        let step =
          split_at-holds6 blk lo cur last a (parts_from blks (blk.last + 1) last) h.0
            (ground arith) in
        rw (reaches, meets)
          (step ∙ elim (Bool-cases (ltb blk.last last)) [
            | inl on ↦
                let ih =
                  parts_from-holds6 (blk.last + 1) blks (blk.last + 1) last a h.1 (ground arith) in
                rw (on, ih)
                  (around_on blk.first blk.last cur last a (in_blocks blks a) h.0.ordered
                    (ground arith) (ground arith) none)
            | inr done ↦ rw done (
                around_done blk.first blk.last cur last a (in_blocks blks a) h.0.ordered
                  (ground arith) (ground arith) none)
          ])
  ]
]
