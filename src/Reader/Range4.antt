-- ===== src/Reader/Range4.antt =====
-- ranges.go: `index4` and `range4`.
pub mod Same
use ip2geo.Base.{
  ℕ, suc, ◌+◌, ◌-◌, ◌/◌, ◌%◌, ◌^◌, Option, none, some, List, length, ltb, ◌==◌, if◌then◌else◌,
}
use mathlib.Core.Option
use ip2geo.Format.RecordId.{read_id}
use ip2geo.Reader.Search4.{Tables4, window_search, start4}

pub record Answer4 : Type 0 where
  pub first : ℕ
  pub last : ℕ
  pub id : ℕ

-- One more than `index4`: 0 when the key is below the first boundary.
unfoldable pub next4 : Tables4 → ℕ → Option ℕ
next4 r key = window_search r key

-- `if i >= 0 { first, id = … }`, for `i` one less than `l`.
unfoldable pub first4 : Tables4 → ℕ → ℕ → Option (ℕ × ℕ)
unfolding Option.bind
first4 r l g =
    if l == 0
    then some (0, 0)
    else Option.bind (start4 r (l - 1) g)
        λ first. Option.map (λ id. (first, id)) (read_id r.v4ids r.id_width (l - 1))

-- `if i+1 < len(r.v4starts)/2 { last = … - 1 }`, which wraps.
unfoldable pub last4 : Tables4 → ℕ → ℕ → Option ℕ
last4 r l g =
    if ltb l (length r.v4starts / 2)
    then Option.map (λ s. (s + 2 ^ 32 - 1) % 2 ^ 32) (start4 r l g)
    else some (2 ^ 32 - 1)

unfoldable pub range4 : Tables4 → ℕ → Option Answer4
unfolding Option.bind
range4 r key = Option.bind (next4 r key) λ l. Option.bind (first4 r l (key / 2 ^ 16)) λ f.
    Option.map (λ last. record { first = f.0; last = last; id = f.1 }) (last4 r l (key / 2 ^ 16))
