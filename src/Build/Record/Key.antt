-- ===== src/Build/Record/Key.antt =====
-- The string ids of a record's key are the numbers of the record's strings.
use ip2geo.Base.{
  ℕ, zero, suc, ◌≤◌, ◌<◌, ◌≡◌, some, get_elem?, arith, Bool, true, false, Bool-cases, inl, inr, leb,
  ◌==◌,
}
use ip2geo.Build.Strings.{Str, Interner, id, id16}
use ip2geo.Build.Strings.Ids.{IsInterner, id-IsNumbered, id16-IsNumbered}
use ip2geo.Build.Record.{
  Record, RecKey, zero_key, name, country_part, region_part, city_part, asn_part, part_if, key,
}
use ip2geo.Format.Layout.{profile_asn}

-- `next` is well formed and its strings extend those of `in_`.
pub record IsGrown (in_ next : Interner) : Type 0 where
  pub valid : IsInterner next
  pub kept :
      (i : ℕ) (t : Str) → get_elem? in_.strings i ≡ some t → get_elem? next.strings i ≡ some t

pub IsGrown-refl : {a : Interner} → IsInterner a → IsGrown a a
IsGrown-refl h = record { valid = h; kept = λ i t e. e }

pub IsGrown-trans : {a b c : Interner} → IsGrown a b → IsGrown b c → IsGrown a c
IsGrown-trans f g = record { valid = g.valid; kept = λ i t e. g.kept i t (f.kept i t e) }

-- Number `v` is the string `s`.
abbrev pub Names : Interner → ℕ → Str → Type 0
Names in_ v s = get_elem? in_.strings v ≡ some s

module _ {F : Type 0} (rounded : F → ℕ) (r : Record F) where
  abbrev pub NamesCountry : Interner → RecKey → Type 0
  NamesCountry in_ k =
      Names in_ k.country_iso r.country.iso_code
      × Names in_ k.country_name (name r.country.names 0)
      × Names in_ k.continent r.continent.code

  abbrev pub NamesRegion : Interner → RecKey → Type 0
  NamesRegion in_ k =
      Names in_ k.region_iso r.subdivision0.iso_code
      × Names in_ k.region_name (name r.subdivision0.names 0)

  abbrev pub NamesCity : Interner → RecKey → Type 0
  NamesCity in_ k =
      Names in_ k.city_name (name r.city.names 0) × Names in_ k.tz r.location.time_zone

  country_part-Names :
      (k : RecKey) (strs : Interner)
      → IsInterner strs
      → IsGrown strs (country_part rounded r k strs).1
        × NamesCountry (country_part rounded r k strs).1 (country_part rounded r k strs).0
  unfolding country_part
  country_part-Names k strs h =
      let (a, _) = id16-IsNumbered strs r.country.iso_code h in
      let s1 = (id16 strs r.country.iso_code).1 in
      let (b, _) = id16-IsNumbered s1 (name r.country.names 0) a.valid in
      let s2 = (id16 s1 (name r.country.names 0)).1 in
      let (c, _) = id16-IsNumbered s2 r.continent.code b.valid in
      (
        record { valid = c.valid; kept = λ i t e. c.kept i t (b.kept i t (a.kept i t e)) },
        (c.kept _ _ (b.kept _ _ a.numbered), c.kept _ _ b.numbered, c.numbered),
      )

  region_part-Names :
      (k : RecKey) (strs : Interner)
      → IsInterner strs
      → IsGrown strs (region_part rounded r k strs).1
        × NamesRegion (region_part rounded r k strs).1 (region_part rounded r k strs).0
  unfolding region_part
  region_part-Names k strs h =
      let (a, _) = id16-IsNumbered strs r.subdivision0.iso_code h in
      let s1 = (id16 strs r.subdivision0.iso_code).1 in
      let (b, _) = id16-IsNumbered s1 (name r.subdivision0.names 0) a.valid in
      (
        record { valid = b.valid; kept = λ i t e. b.kept i t (a.kept i t e) },
        (b.kept _ _ a.numbered, b.numbered),
      )

  city_part-Names :
      (k : RecKey) (strs : Interner)
      → IsInterner strs
      → IsGrown strs (city_part rounded r k strs).1
        × NamesCity (city_part rounded r k strs).1 (city_part rounded r k strs).0
  unfolding city_part
  city_part-Names k strs h =
      let a = id-IsNumbered strs (name r.city.names 0) h in
      let s1 = (id strs (name r.city.names 0)).1 in
      let (b, _) = id16-IsNumbered s1 r.location.time_zone a.valid in
      (
        record { valid = b.valid; kept = λ i t e. b.kept i t (a.kept i t e) },
        (b.kept _ _ a.numbered, b.numbered),
      )

  asn_part-IsGrown :
      (k : RecKey) (strs : Interner) → IsInterner strs → IsGrown strs (asn_part rounded r k strs).1
  unfolding asn_part
  asn_part-IsGrown k strs h =
      let a = id-IsNumbered strs r.asn.organization h in record { valid = a.valid; kept = a.kept }

  part_if-IsGrown :
      {a : Interner} (c : Bool) (part : RecKey → Interner → RecKey × Interner)
      (p : RecKey × Interner)
      → ((k : RecKey) (strs : Interner) → IsInterner strs → IsGrown strs (part k strs).1)
      → IsGrown a p.1
      → IsGrown a (part_if rounded c part p).1
  part_if-IsGrown true part p step g = IsGrown-trans g (step p.0 p.1 g.valid)
  part_if-IsGrown false part p step g = g

  -- Taking the key for any profile keeps the numbers of the strings.
  pub key-IsGrown :
      (p : ℕ) (strs : Interner) → IsInterner strs → IsGrown strs (key rounded r p strs).1
  unfolding key
  key-IsGrown p strs h = elim (Bool-cases (p == profile_asn)) [
    | inl t ↦ rw t (asn_part-IsGrown zero_key strs h)
    | inr t ↦ rw t (
        part_if-IsGrown (leb 2 p) (city_part rounded r) _ (λ k s v. (city_part-Names k s v).0)
          (part_if-IsGrown (leb 1 p) (region_part rounded r) _
            (λ k s v. (region_part-Names k s v).0) (country_part-Names zero_key strs h).0))
  ]

-- The key of a geo record for a profile: the ids of the fields that the profile stores are the numbers
-- of the record's strings, and the strings numbered before keep their numbers.
pub key-Names :
    {F : Type 0} (rounded : F → ℕ) (r : Record F) (p : ℕ) (strs : Interner)
    → p < 3
    → IsInterner strs
    → IsGrown strs (key rounded r p strs).1
      × NamesCountry rounded r (key rounded r p strs).1 (key rounded r p strs).0
      × (1 ≤ p → NamesRegion rounded r (key rounded r p strs).1 (key rounded r p strs).0)
      × (2 ≤ p → NamesCity rounded r (key rounded r p strs).1 (key rounded r p strs).0)
unfolding key country_part region_part city_part
key-Names rounded r zero strs lt h =
    let (g, c) = country_part-Names rounded r zero_key strs h in
    (g, c, λ le. absurd (omega arith), λ le. absurd (omega arith))
key-Names rounded r (suc zero) strs lt h =
    let (k, s1) = country_part rounded r zero_key strs in
    let (g, (c1, c2, c3)) = country_part-Names rounded r zero_key strs h in
    let (g', n) = region_part-Names rounded r k s1 g.valid in
    (
      IsGrown-trans g g',
      (g'.kept _ _ c1, g'.kept _ _ c2, g'.kept _ _ c3),
      λ le. n,
      λ le. absurd (omega arith),
    )
key-Names rounded r (suc (suc zero)) strs lt h =
    let (k, s1) = country_part rounded r zero_key strs in
    let (g, (c1, c2, c3)) = country_part-Names rounded r zero_key strs h in
    let (k', s2) = region_part rounded r k s1 in
    let (g', (n1, n2)) = region_part-Names rounded r k s1 g.valid in
    let (g'', m) = city_part-Names rounded r k' s2 g'.valid in
    (
      IsGrown-trans g (IsGrown-trans g' g''),
      (g''.kept _ _ (g'.kept _ _ c1), g''.kept _ _ (g'.kept _ _ c2), g''.kept _ _ (g'.kept _ _ c3)),
      λ le. (g''.kept _ _ n1, g''.kept _ _ n2),
      λ le. m,
    )
key-Names rounded r (suc (suc (suc p))) strs lt h = absurd (omega arith)
