-- ===== src/Examples/Csv.antt =====
-- csvdb and the options of a build at concrete inputs.
use ip2geo.Base.{
  ◌+◌, ◌*◌, ◌^◌, ◌≤◌, ◌<◌, ◌≡◌, ◌↔◌, refl, true, false, some, [], ◌∷◌, length, All, arith, ok, ℕ,
  ◌-◌, ◌&&◌, not,
}
use ip2geo.Format.XLayout.{check_fields, has_field}
use ip2geo.Build.Options.{
  zero_time, since_epoch, Options, normalize, normal_fields, check_languages, normal_time,
  valid_string, valid_from, normal_languages, normal_lat_scale, utf8_first,
}
use ip2geo.Build.Options.Normal.{IsNormal, normalize_again}
use ip2geo.Csv.Number.{parse_uint32, parse_uint128}
use ip2geo.Csv.Number.Values.{IsDigit, decimal, parse_uint32_iff, parse_uint128_iff}
use ip2geo.Csv.Scan.{split}
use ip2geo.Csv.Scan.RoundTrip.{Printed, print_row, texts, split-print_row}
use ip2geo.Reader.Words128.{Addr}
use ip2geo.Csv.Ranges.{ipv4, ipv6, unmap_addr, split_at, parts_from, parts_of, alias_blocks}
use ip2geo.Csv.Ranges.Covered.{within, holds6, holds4}
use ip2geo.Csv.Ranges.Stored.{goes_to_v4, parts_of-stored}
use ip2geo.Csv.Layout.{codes}

abbrev given : Options
given = record {
  profile = 2;
  fields = 16;
  languages = [];
  lat_scale = 0;
  build_time = zero_time;
  description = codes "cities";
}

abbrev normal : Options
normal = record {
  profile = 2;
  fields = 16;
  languages = (b'e' ∷ b'n' ∷ []) ∷ [];
  lat_scale = 4;
  build_time = since_epoch 1_700_000_000 0;
  description = codes "cities";
}

given_normalized : normalize (since_epoch 1_700_000_000 12) given ≡ ok normal
unfolding normalize normal_fields check_languages normal_time valid_string valid_from
    normal_languages normal_lat_scale check_fields has_field utf8_first
given_normalized = refl

normalize_again_example :
    IsNormal normal × (normalize (since_epoch 1_800_000_000 0) normal ≡ ok normal)
normalize_again_example =
    normalize_again (since_epoch 1_700_000_000 12) (since_epoch 1_800_000_000 0) given normal
      given_normalized

parse_uint32_iff_example : (parse_uint32 (codes "16777216") ≡ some 16777216) ↔ (
    (1 ≤ length (codes "16777216"))
    × (length (codes "16777216") ≤ 10)
    × All IsDigit (codes "16777216")
    × (decimal (codes "16777216") ≡ 16777216)
    × (16777216 < 2 ^ 32))
parse_uint32_iff_example = parse_uint32_iff (codes "16777216") 16777216

-- ::1:0:0:0:0 is 2 ^ 64.
parse_uint128_iff_example : (parse_uint128 (codes "18446744073709551616") ≡ some (1, 0)) ↔ (
    (1 ≤ length (codes "18446744073709551616"))
    × (length (codes "18446744073709551616") ≤ 39)
    × All IsDigit (codes "18446744073709551616")
    × (1 < 2 ^ 64)
    × (0 < 2 ^ 64)
    × (1 * 2 ^ 64 + 0 ≡ decimal (codes "18446744073709551616")))
parse_uint128_iff_example = parse_uint128_iff (codes "18446744073709551616") 1 0

-- A field in quotes with a comma and a quote in it, and a plain one.
abbrev in_quotes_one : Printed
in_quotes_one = record { in_quotes = true; text = codes "a,\"" }

abbrev plain_one : Printed
plain_one = record { in_quotes = false; text = codes "b" }

split-print_row_example :
    split (print_row in_quotes_one (plain_one ∷ [])) ≡ ok (texts (in_quotes_one ∷ plain_one ∷ []))
split-print_row_example =
    split-print_row in_quotes_one (plain_one ∷ []) (λ e. absurd (ground arith))
      ((λ e. ground arith), tt)

-- ::fffe:0:0 to ::1:0:0:0 holds the IPv4-mapped block.
parts_of-stored_example :
    ((k : Addr)
      → k.hi < 2 ^ 64
      → k.lo < 2 ^ 64
      → holds6 (parts_of (ipv6 (0xfffe * 2 ^ 32)) (ipv6 (2 ^ 48))) (k.hi * 2 ^ 64 + k.lo)
        ≡ (within (0xfffe * 2 ^ 32) (2 ^ 48) (k.hi * 2 ^ 64 + k.lo) && not (goes_to_v4 k)))
    × ((x : ℕ)
        → x < 2 ^ 32
        → holds4 (parts_of (ipv6 (0xfffe * 2 ^ 32)) (ipv6 (2 ^ 48))) x
          ≡ within (0xfffe * 2 ^ 32) (2 ^ 48) (0xffff * 2 ^ 32 + x))
parts_of-stored_example = parts_of-stored (0xfffe * 2 ^ 32) (2 ^ 48) (omega arith)

parts_listed :
    parts_of (ipv6 (0xfffe * 2 ^ 32)) (ipv6 (2 ^ 48))
    ≡ record { first = ipv6 (0xfffe * 2 ^ 32); last = ipv6 (0xffff * 2 ^ 32 - 1) }
      ∷ record { first = ipv4 0; last = ipv4 (2 ^ 32 - 1) }
      ∷ record { first = ipv6 (2 ^ 48); last = ipv6 (2 ^ 48) }
      ∷ []
unfolding parts_of parts_from split_at unmap_addr alias_blocks
parts_listed = refl
