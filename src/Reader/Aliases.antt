-- ===== src/Reader/Aliases.antt =====
-- ranges.go and reader.go: the IPv6 prefixes that are answered from the IPv4 table, `v6Aliases`,
-- `embeddedV4`, `yieldUnaliased` and the cut of `range6`.
pub mod Run
pub mod Parts
pub mod Cut
use ip2geo.Base.{
  ℕ, ◌+◌, ◌-◌, ◌*◌, ◌/◌, ◌%◌, ◌^◌, Bool, true, false, ◌&&◌, not, Option, none, some, List, [], ◌∷◌,
  ◌==◌, if◌then◌else◌,
}
use ip2geo.Reader.Words128.{Addr, less128, inc128, dec128}

-- A range of addresses, both ends included.
pub record Range : Type 0 where
  pub first : Addr
  pub last : Addr

-- ::/96, ::ffff:0:0/96, 2001::/32 and 2002::/16.
unfoldable pub v6_aliases : List Range
v6_aliases =
    record { first = record { hi = 0; lo = 0 }; last = record { hi = 0; lo = 2 ^ 32 - 1 } }
    ∷ record {
      first = record { hi = 0; lo = 0xffff * 2 ^ 32 };
      last = record { hi = 0; lo = 0xffff * 2 ^ 32 + (2 ^ 32 - 1) };
    }
    ∷ record {
      first = record { hi = 0x20010000 * 2 ^ 32; lo = 0 };
      last = record { hi = 0x20010000 * 2 ^ 32 + (2 ^ 32 - 1); lo = 2 ^ 64 - 1 };
    }
    ∷ record {
      first = record { hi = 0x2002 * 2 ^ 48; lo = 0 };
      last = record { hi = 0x2002 * 2 ^ 48 + (2 ^ 48 - 1); lo = 2 ^ 64 - 1 };
    }
    ∷ []

-- The key's bytes 0 to 7 are `hi`, and bytes 8 to 11 and 12 to 15 the halves of `lo`.
unfoldable pub embedded_v4 : Addr → Option ℕ
embedded_v4 k =
    if k.hi / 2 ^ 48 == 0x2002
    then some (k.hi / 2 ^ 16 % 2 ^ 32)
    else if k.hi / 2 ^ 32 == 0x20010000
    then some (k.hi % 2 ^ 32)
    else if k.hi == 0 && k.lo / 2 ^ 32 == 0
    then some (k.lo % 2 ^ 32)
    else none

-- netip's `Is4In6`, the prefix ::ffff:0:0/96.
unfoldable pub is_4_in_6 : Addr → Bool
is_4_in_6 k = k.hi == 0 && k.lo / 2 ^ 32 == 0xffff

-- The callback is a step on a state of its own that also says whether to go on.
abbrev pub Yield {ℓ} : Type ℓ → Type ℓ
Yield S = S → Range → Bool × S

-- `if … && !yield(…) { return false }`, then the rest of the loop body.
unfoldable pub yield_if {ℓ} : {S : Type ℓ} → Yield S → Bool → S → Range → (S → Bool × S) → Bool × S
yield_if yield false s r rest = rest s
yield_if yield true s r rest = let (more, s') = yield s r in if more then rest s' else (false, s')

-- The loop over the aliases, `rg` being what is left of the range. `continue`, `break` and the two
-- returns are the cases in their order.
unfoldable pub yield_parts {ℓ} : {S : Type ℓ} → Yield S → List Range → S → Range → Bool × S
yield_parts yield [] s rg = yield s rg
yield_parts yield (a ∷ rest) s rg =
    if less128 a.last rg.first
    then yield_parts yield rest s rg
    else if less128 rg.last a.first
    then yield s rg
    else yield_if yield (less128 rg.first a.first) s
        (record { first = rg.first; last = dec128 a.first })
        (λ s'.
          if not (less128 a.last rg.last)
          then (true, s')
          else yield_parts yield rest s' (record { first = inc128 a.last; last = rg.last }))

unfoldable pub yield_unaliased {ℓ} : {S : Type ℓ} → Yield S → S → Range → Bool × S
yield_unaliased yield s rg = yield_parts yield v6_aliases s rg

-- One round of the loop of `range6` for the key `k`.
unfoldable pub cut : Addr → Range → Range → Range
cut k a rg = record {
  first = if less128 a.last k && not (less128 a.last rg.first) then inc128 a.last else rg.first;
  last = if less128 k a.first && not (less128 rg.last a.first) then dec128 a.first else rg.last;
}

unfoldable pub cut_all : Addr → List Range → Range → Range
cut_all k [] rg = rg
cut_all k (a ∷ rest) rg = cut_all k rest (cut k a rg)
