-- ===== src/Reader/Search4.antt =====
-- reader.go and ranges.go: the IPv4 tables, `buildIndex4`, `search4`, `index4` and `start4`.
pub mod Sections
pub mod Index
pub mod Lookup
use ip2geo.Base.{
  ℕ, zero, suc, ◌+◌, ◌-◌, ◌*◌, ◌/◌, ◌%◌, ◌^◌, ◌&&◌, Option, none, some, List, [], ◌∷◌, ◌++◌, length,
  get_elem?, ltb, leb, ◌==◌, if◌then◌else◌,
}
use ip2geo.Bytes.{le_at}
use ip2geo.Format.RecordId.{read_id}
use ip2geo.Reader.Bisect.{bisect}
use mathlib.Core.Option

-- The fields of `Reader` that the IPv4 lookups read: three sections and the top-20 table.
pub record Tables4 : Type 0 where
  pub id_width : ℕ
  pub v4idx : List ℕ
  pub v4starts : List ℕ
  pub v4ids : List ℕ
  pub lo4 : List ℕ

-- v4IdxBits is 20, so a top-20 window holds 2 ^ 12 addresses.
abbrev pub v4_shift : ℕ
v4_shift = 12

-- `for i < end && u16(s[i*2:]) < k<<v4Shift { i++ }`, with `end - i` rounds left.
unfoldable pub skip_below : List ℕ → ℕ → ℕ → ℕ → Option ℕ
unfolding Option.bind
skip_below s limit zero i = some i
skip_below s limit (suc left) i =
    let next = skip_below s limit left (i + 1) in
    Option.bind (le_at 2 s (i * 2)) λ v. if ltb v limit then next else some i

-- The entries of one top-16 bucket, sub-bucket `k` on: `count` are left.
unfoldable pub sub_buckets : List ℕ → ℕ → ℕ → ℕ → ℕ → Option (List ℕ)
unfolding Option.bind
sub_buckets s end zero k i = some []
sub_buckets s end (suc count) k i =
    Option.bind (skip_below s (k * 2 ^ v4_shift) (end - i) i)
      λ j. Option.map (λ rest. j ∷ rest) (sub_buckets s end count (k + 1) j)

-- The buckets from `g` on, `count` of them.
unfoldable pub buckets : List ℕ → List ℕ → ℕ → ℕ → Option (List ℕ)
unfolding Option.bind
buckets idx s zero g = some []
buckets idx s (suc count) g = Option.bind (le_at 4 idx (g * 4)) λ i.
    Option.bind (le_at 4 idx (g * 4 + 4)) λ end.
      Option.bind (sub_buckets s end 16 0 i)
        λ entries. Option.map (λ rest. entries ++ rest) (buckets idx s count (g + 1))

-- `buildIndex4` over the sections `idx` and `s`; `top` is 1<<16.
unfoldable pub index4_table : ℕ → List ℕ → List ℕ → Option (List ℕ)
index4_table top idx s =
    Option.map (λ entries. entries ++ (length s / 2 ∷ [])) (buckets idx s top 0)

unfoldable pub build_index4 : Tables4 → Option Tables4
build_index4 r = Option.map (λ t. record r { lo4 = t }) (index4_table (2 ^ 16) r.v4idx r.v4starts)

-- The binary search of `search4` and `index4`: the first boundary of the window above the key.
unfoldable pub window_search : Tables4 → ℕ → Option ℕ
unfolding Option.bind
window_search r key =
    let g = key / 2 ^ v4_shift in
    Option.bind (get_elem? r.lo4 g) λ l.
      Option.bind (get_elem? r.lo4 (g + 1)) λ h.
        bisect (λ mid. Option.map (λ v. ltb (key % 2 ^ 16) v) (le_at 2 r.v4starts (mid * 2))) l h

unfoldable pub search4 : Tables4 → ℕ → Option ℕ
unfolding Option.bind
search4 r key =
    Option.bind (window_search r key)
      λ l. if l == 0 then some 0 else read_id r.v4ids r.id_width (l - 1)

-- The bucket of boundary `i`, `hint` checked first; the search runs over V4IDX[1:65536].
unfoldable pub bucket4 : Tables4 → ℕ → ℕ → Option ℕ
unfolding Option.bind
bucket4 r i hint = Option.bind (le_at 4 r.v4idx (hint * 4)) λ a.
    Option.bind (le_at 4 r.v4idx (hint * 4 + 4)) λ b.
      if leb a i && ltb i b
      then some hint
      else Option.map (λ l. l - 1)
          (bisect (λ mid. Option.map (λ v. ltb i v) (le_at 4 r.v4idx (mid * 4))) 1 (2 ^ 16))

-- `start4`: the absolute start of boundary `i`.
unfoldable pub start4 : Tables4 → ℕ → ℕ → Option ℕ
unfolding Option.bind
start4 r i hint =
    Option.bind (bucket4 r i hint)
      λ g. Option.map (λ v. g * 2 ^ 16 + v) (le_at 2 r.v4starts (i * 2))
