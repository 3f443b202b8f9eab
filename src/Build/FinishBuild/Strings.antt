-- ===== src/Build/FinishBuild/Strings.antt =====
-- Final string ids name the strings that the provisional ones named.
use ip2geo.Base.{ℕ, ◌<◌, ◌≡◌, refl, some, List, length, get_elem?, get_elem?-eq-get_or, arith}
use ip2geo.Reader.Count.{◌!◌}
use ip2geo.Build.Record.{RecKey}
use ip2geo.Build.Strings.{Str, Interner, Finished, finish_strings}
use ip2geo.Build.Strings.Finish.{IsRenumbered, finish_strings-IsRenumbered}
use ip2geo.Build.FinishBuild.{renumber_key}

-- The string ids of `a` among `xs` name the strings that those of `b` name among `ys`.
pub record SameNames (xs ys : List Str) (a b : RecKey) : Type 0 where
  pub country_iso : get_elem? xs a.country_iso ≡ get_elem? ys b.country_iso
  pub country_name : get_elem? xs a.country_name ≡ get_elem? ys b.country_name
  pub continent : get_elem? xs a.continent ≡ get_elem? ys b.continent
  pub region_iso : get_elem? xs a.region_iso ≡ get_elem? ys b.region_iso
  pub region_name : get_elem? xs a.region_name ≡ get_elem? ys b.region_name
  pub city_name : get_elem? xs a.city_name ≡ get_elem? ys b.city_name
  pub tz : get_elem? xs a.tz ≡ get_elem? ys b.tz

-- The string ids of the key are those of strings.
pub record IsNamed (n : ℕ) (k : RecKey) : Type 0 where
  pub country_iso : k.country_iso < n
  pub country_name : k.country_name < n
  pub continent : k.continent < n
  pub region_iso : k.region_iso < n
  pub region_name : k.region_name < n
  pub city_name : k.city_name < n
  pub tz : k.tz < n

module _ (in_ : Interner) (flags : length in_.u16 ≡ length in_.strings) where
  abbrev f : Finished
  f = finish_strings in_

  renumbered : IsRenumbered in_ f
  renumbered = finish_strings-IsRenumbered in_ flags

  found : (i : ℕ) → i < length in_.strings → get_elem? f.remap i ≡ some (f.remap ! i)
  found i lt = get_elem?-eq-get_or f.remap i 0 (omega (arith, renumbered.remap_size))

  -- `Finish` renumbers a record whose string ids are in the table: each id names the same string as
  -- before, now in the final table, and the numbers of the record stay as they are.
  pub renumber_key-SameNames :
      (k : RecKey)
      → IsNamed (length in_.strings) k
      → (k' : RecKey) × (renumber_key f.remap k ≡ some k')
        × SameNames f.strs in_.strings k' k
        × (record k' {
          country_iso = k.country_iso;
          country_name = k.country_name;
          continent = k.continent;
          region_iso = k.region_iso;
          region_name = k.region_name;
          city_name = k.city_name;
          tz = k.tz;
        }
            ≡ k)
  unfolding renumber_key
  renumber_key-SameNames k n = (
    record k {
      country_iso = f.remap ! k.country_iso;
      country_name = f.remap ! k.country_name;
      continent = f.remap ! k.continent;
      region_iso = f.remap ! k.region_iso;
      region_name = f.remap ! k.region_name;
      city_name = f.remap ! k.city_name;
      tz = f.remap ! k.tz;
    },
    rw
        (
          found k.country_iso n.country_iso,
          found k.country_name n.country_name,
          found k.continent n.continent,
          found k.region_iso n.region_iso,
          found k.region_name n.region_name,
          found k.city_name n.city_name,
          found k.tz n.tz,
        )
        refl,
    record {
      country_iso = renumbered.found k.country_iso n.country_iso;
      country_name = renumbered.found k.country_name n.country_name;
      continent = renumbered.found k.continent n.continent;
      region_iso = renumbered.found k.region_iso n.region_iso;
      region_name = renumbered.found k.region_name n.region_name;
      city_name = renumbered.found k.city_name n.city_name;
      tz = renumbered.found k.tz n.tz;
    },
    refl,
  )
