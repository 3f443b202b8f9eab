-- ===== src/Reader/Lookup/Forms.antt =====
-- The IPv6 forms of an IPv4 address are looked up as the address.
use ip2geo.Base.{ℕ, ◌+◌, ◌*◌, ◌%◌, ◌^◌, ◌<◌, ◌≡◌, true, false, some, arith}
use ip2geo.Reader.Words128.{Addr}
use ip2geo.Reader.Aliases.{embedded_v4, is_4_in_6}
use ip2geo.Reader.Search4.{Tables4, search4}
use ip2geo.Reader.Search6.{Tables6}
use ip2geo.Reader.Lookup.{v4, v6, lookup_v6, lookup_id}

-- ::ffff:a.b.c.d, ::a.b.c.d, the 6to4 addresses of the network and the Teredo ones of the server.
abbrev pub mapped : ℕ → Addr
mapped a = record { hi = 0; lo = 0xffff * 2 ^ 32 + a }

abbrev pub compatible : ℕ → Addr
compatible a = record { hi = 0; lo = a }

abbrev pub six_to_four : ℕ → ℕ → ℕ → Addr
six_to_four a subnet lo = record { hi = 0x2002 * 2 ^ 48 + a * 2 ^ 16 + subnet; lo = lo }

abbrev pub teredo : ℕ → ℕ → Addr
teredo a lo = record { hi = 0x20010000 * 2 ^ 32 + a; lo = lo }

embedded-lookup :
    (r4 : Tables4) (r6 : Tables6) (k : Addr) (a : ℕ)
    → is_4_in_6 k ≡ false
    → embedded_v4 k ≡ some a
    → lookup_id r4 r6 (v6 k) ≡ search4 r4 a
unfolding lookup_id lookup_v6
embedded-lookup r4 r6 k a t e = rw (t, e)

-- An IPv4 address has the same record in all its IPv6 forms: mapped, compatible, 6to4 and Teredo.
pub lookup_id_forms :
    (r4 : Tables4) (r6 : Tables6) (a : ℕ)
    → a < 2 ^ 32
    → (lookup_id r4 r6 (v6 (mapped a)) ≡ lookup_id r4 r6 (v4 a))
      × (lookup_id r4 r6 (v6 (compatible a)) ≡ lookup_id r4 r6 (v4 a))
      × ((subnet lo : ℕ)
          → subnet < 2 ^ 16
          → lookup_id r4 r6 (v6 (six_to_four a subnet lo)) ≡ lookup_id r4 r6 (v4 a))
      × ((lo : ℕ) → lookup_id r4 r6 (v6 (teredo a lo)) ≡ lookup_id r4 r6 (v4 a))
unfolding lookup_id
lookup_id_forms r4 r6 a lt = (
  let t : is_4_in_6 (mapped a) ≡ true = unfold is_4_in_6 in ground arith in
      let e : (0xffff * 2 ^ 32 + a) % 2 ^ 32 ≡ a = omega arith in rw (t, e),
  embedded-lookup r4 r6 (compatible a) a (unfold is_4_in_6 in ground arith)
      (unfold embedded_v4 in ground arith),
  λ subnet lo h.
      embedded-lookup r4 r6 (six_to_four a subnet lo) a (unfold is_4_in_6 in ground arith)
        (unfold embedded_v4 in ground arith),
  λ lo.
      embedded-lookup r4 r6 (teredo a lo) a (unfold is_4_in_6 in ground arith)
        (unfold embedded_v4 in ground arith),
)
