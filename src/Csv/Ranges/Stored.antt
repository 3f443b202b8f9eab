-- ===== src/Csv/Ranges/Stored.antt =====
-- The addresses of a row that are stored, and those that the reader looks up in each table.
use ip2geo.Base.{
  ℕ, ◌+◌, ◌*◌, ◌^◌, ◌≤◌, ◌<◌, ◌≡◌, refl, ap, ◌∙◌, Bool, true, false, ◌&&◌, ◌||◌, not, Option, none,
  some, arith,
}
use ip2geo.Reader.Words128.{Addr}
use ip2geo.Reader.Aliases.{embedded_v4, is_4_in_6}
use ip2geo.Csv.Ranges.{ipv6, alias_blocks, parts_of}
use ip2geo.Csv.Ranges.Covered.{
  within, holds6, holds4, in_blocks, in_v4_blocks, mapped_to, InOrder, parts_from-holds6,
}
use ip2geo.Csv.Ranges.Covered4.{parts_from-holds4}

abbrev is_some : Option ℕ → Bool
is_some none = false
is_some (some a) = true

-- `Lookup` goes to the IPv4 table.
abbrev pub goes_to_v4 : Addr → Bool
goes_to_v4 k = is_4_in_6 k || is_some (embedded_v4 k)

pub alias_blocks-InOrder : InOrder 0 alias_blocks
unfolding alias_blocks
alias_blocks-InOrder = (
  record {
    low = omega arith;
    ordered = omega arith;
    mapped_first = λ t. absurd (ground arith);
    mapped_last = λ t. absurd (ground arith);
  },
  (
    record {
      low = omega arith;
      ordered = omega arith;
      mapped_first = λ t. refl;
      mapped_last = λ t. refl;
    },
    (
      record {
        low = omega arith;
        ordered = omega arith;
        mapped_first = λ t. absurd (ground arith);
        mapped_last = λ t. absurd (ground arith);
      },
      (
        record {
          low = omega arith;
          ordered = omega arith;
          mapped_first = λ t. absurd (ground arith);
          mapped_last = λ t. absurd (ground arith);
        },
        tt,
      ),
    ),
  ),
)

in_blocks-goes_to_v4 :
    (k : Addr)
    → k.hi < 2 ^ 64
    → k.lo < 2 ^ 64
    → in_blocks alias_blocks (k.hi * 2 ^ 64 + k.lo) ≡ goes_to_v4 k
unfolding alias_blocks embedded_v4 is_4_in_6
in_blocks-goes_to_v4 k hi lo = ground arith

mapped_in_blocks : (x : ℕ) → x < 2 ^ 32 → in_v4_blocks alias_blocks (mapped_to x) ≡ true
unfolding alias_blocks
mapped_in_blocks x lt = ground arith

-- The IPv6 ranges that `add` passes on for a row hold exactly the row's addresses that `Lookup` looks
-- up in the IPv6 table, and the IPv4 ranges exactly the IPv4 addresses whose IPv4-mapped form is in
-- the row.
pub parts_of-stored :
    (first last : ℕ)
    → first ≤ last
    → ((k : Addr)
        → k.hi < 2 ^ 64
        → k.lo < 2 ^ 64
        → holds6 (parts_of (ipv6 first) (ipv6 last)) (k.hi * 2 ^ 64 + k.lo)
          ≡ (within first last (k.hi * 2 ^ 64 + k.lo) && not (goes_to_v4 k)))
      × ((x : ℕ)
          → x < 2 ^ 32
          → holds4 (parts_of (ipv6 first) (ipv6 last)) x ≡ within first last (0xffff * 2 ^ 32 + x))
unfolding parts_of
parts_of-stored first last le = (
  λ k hi lo.
      parts_from-holds6 0 alias_blocks first last (k.hi * 2 ^ 64 + k.lo) alias_blocks-InOrder le
      ∙ ap (λ b. within first last (k.hi * 2 ^ 64 + k.lo) && not b) (in_blocks-goes_to_v4 k hi lo),
  λ x lt.
      let all = mapped_in_blocks x lt in
      parts_from-holds4 0 alias_blocks first last x alias_blocks-InOrder le lt
      ∙ rw all (ground arith),
)
