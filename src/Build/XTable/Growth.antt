-- ===== src/Build/XTable/Growth.antt =====
-- The strings behind `add` of internal/build/xrec.go: those numbered before keep their numbers.
use ip2geo.Base.{
  ℕ, zero, suc, ◌+◌, ◌-◌, Option, none, some, Option-cases, inl, inr, List, [], ◌∷◌, Bool, true,
  false, replicate,
}
use ip2geo.Build.Strings.{Str, Interner}
use ip2geo.Build.Strings.Ids.{IsInterner, id-IsNumbered}
use ip2geo.Build.Record.{Record, name}
use ip2geo.Build.Record.Key.{IsGrown, IsGrown-refl, IsGrown-trans}
use ip2geo.Format.XLayout.{
  XLayout, name_off, field_eu, field_continent, field_registered, field_subdivisions, field_postal,
  field_metro, field_traits, field_location,
}
use ip2geo.Build.XTable.{
  XTable, Filling, field_at, put24, flag, put_le, at_field, fill_registered, fill_subdivisions,
  fill_continent, fill_traits, fill_location, fill_fields, names_of, fill_kinds, fill_langs,
  entry_of, add_entry,
}

put24-IsGrown : (off : ℕ) (s : Str) (p : Filling) → IsInterner p.1 → IsGrown p.1 (put24 off s p).1
unfolding put24
put24-IsGrown off s (e, strs) h =
    let n = id-IsNumbered strs s h in record { valid = n.valid; kept = n.kept }

-- A filling whose strings extend those of `a`.
abbrev Grows : Interner → Filling → Type 0
Grows a p = IsGrown a p.1

put24-Grows : {a : Interner} (off : ℕ) (s : Str) (p : Filling) → Grows a p → Grows a (put24 off s p)
put24-Grows off s p g = IsGrown-trans g (put24-IsGrown off s p g.valid)

put_le-Grows : {a : Interner} (w off v : ℕ) (p : Filling) → Grows a p → Grows a (put_le w off v p)
put_le-Grows w off v (e, strs) g = g

flag-Grows :
    {a : Interner} (off bit : ℕ) (c : Bool) (p : Filling) → Grows a p → Grows a (flag off bit c p)
unfolding flag
flag-Grows off bit false p g = g
flag-Grows off bit true (e, strs) g = g

at_field-Grows :
    {a : Interner} (l : XLayout) (f : ℕ) (fill : ℕ → Filling → Filling) (p : Filling)
    → ((o : ℕ) (q : Filling) → Grows a q → Grows a (fill o q))
    → Grows a p
    → Grows a (at_field l f fill p)
at_field-Grows {a} l f fill p step g = go (field_at l f)
  where
    go : (x : Option ℕ) → Grows a (elim x [ none ↦ p | some o ↦ fill o p ])
    go none = g
    go (some o) = step o p g

module _ {F : Type 0} (r : Record F) where
  fill_registered-Grows :
      {a : Interner} (o : ℕ) (p : Filling) → Grows a p → Grows a (fill_registered r o p)
  unfolding fill_registered
  fill_registered-Grows o p g =
      let reg = r.registered_country in
      let rep = r.represented_country in
      let p1 = put24 (o + 3) (name reg.names 0) (put24 o reg.iso_code p) in
      let p2 = put24 (o + 10) rep.iso_code (put_le 4 (o + 6) reg.geo_name_id p1) in
      let p3 = put_le 4 (o + 16) rep.geo_name_id (put24 (o + 13) (name rep.names 0) p2) in
      let p4 = put24 (o + 20) r.represented_type p3 in
      let g1 : Grows _ p1 =
        put24-Grows (o + 3) (name reg.names 0) _ (put24-Grows o reg.iso_code p g) in
      let g2 : Grows _ p2 =
        put24-Grows (o + 10) rep.iso_code (put_le 4 (o + 6) reg.geo_name_id p1) g1 in
      let g3 : Grows _ p3 = put24-Grows (o + 13) (name rep.names 0) p2 g2 in
      let g4 = put24-Grows (o + 20) r.represented_type p3 g3 in
      flag-Grows (o + 23) 2 rep.is_in_european_union (flag (o + 23) 1 reg.is_in_european_union p4)
        (flag-Grows (o + 23) 1 reg.is_in_european_union p4 g4)

  fill_subdivisions-Grows :
      {a : Interner} (o : ℕ) (p : Filling) → Grows a p → Grows a (fill_subdivisions r o p)
  unfolding fill_subdivisions
  fill_subdivisions-Grows o p g =
      let s2 = r.subdivision1 in
      let p1 = put_le 4 o r.subdivision0.geo_name_id p in
      put24-Grows (o + 7) (name s2.names 0) (put24 (o + 4) s2.iso_code p1)
        (put24-Grows (o + 4) s2.iso_code p1 g)

  fill_continent-Grows :
      {a : Interner} (o : ℕ) (p : Filling) → Grows a p → Grows a (fill_continent r o p)
  unfolding fill_continent
  fill_continent-Grows o p g = put24-Grows o (name r.continent.names 0) p g

  fill_traits-Grows : {a : Interner} (o : ℕ) (p : Filling) → Grows a p → Grows a (fill_traits r o p)
  unfolding fill_traits
  fill_traits-Grows o p g =
      let p1 = flag o 1 r.traits.is_anycast p in
      let p2 = flag o 2 r.traits.is_anonymous_proxy p1 in
      flag-Grows o 4 r.traits.is_satellite_provider p2
        (flag-Grows o 2 r.traits.is_anonymous_proxy p1 (flag-Grows o 1 r.traits.is_anycast p g))

  fill_location-Grows :
      {a : Interner} (o : ℕ) (p : Filling) → Grows a p → Grows a (fill_location r o p)
  unfolding fill_location
  fill_location-Grows o p g =
      flag-Grows o 2 r.location.has_accuracy_radius (flag o 1 r.location.has_coordinates p)
        (flag-Grows o 1 r.location.has_coordinates p g)

  fill_fields-Grows :
      {a : Interner} (l : XLayout) (p : Filling) → Grows a p → Grows a (fill_fields r l p)
  unfolding fill_fields
  fill_fields-Grows l p g =
      let eu : ℕ → Filling → Filling = λ o. flag o 1 r.country.is_in_european_union in
      let postal : ℕ → Filling → Filling = λ o. put24 o r.postal_code in
      let metro : ℕ → Filling → Filling = λ o. put_le 2 o r.location.metro_code in
      let p1 = at_field l field_eu eu p in
      let p2 = at_field l field_continent (fill_continent r) p1 in
      let p3 = at_field l field_registered (fill_registered r) p2 in
      let p4 = at_field l field_subdivisions (fill_subdivisions r) p3 in
      let p5 = at_field l field_postal postal p4 in
      let p6 = at_field l field_metro metro p5 in
      let p7 = at_field l field_traits (fill_traits r) p6 in
      let g1 =
        at_field-Grows l field_eu eu p (λ o q h. flag-Grows o 1 r.country.is_in_european_union q h)
          g in
      let g2 = at_field-Grows l field_continent (fill_continent r) p1 fill_continent-Grows g1 in
      let g3 = at_field-Grows l field_registered (fill_registered r) p2 fill_registered-Grows g2 in
      let g4 =
        at_field-Grows l field_subdivisions (fill_subdivisions r) p3 fill_subdivisions-Grows g3 in
      let g5 =
        at_field-Grows l field_postal postal p4 (λ o q h. put24-Grows o r.postal_code q h) g4 in
      let g6 =
        at_field-Grows l field_metro metro p5 (λ o q h. put_le-Grows 2 o r.location.metro_code q h)
          g5 in
      let g7 = at_field-Grows l field_traits (fill_traits r) p6 fill_traits-Grows g6 in
      at_field-Grows l field_location (fill_location r) p7 fill_location-Grows g7

  fill_kinds-Grows :
      {a : Interner} (l : XLayout) (j : ℕ) (ks : List ℕ) (p : Filling)
      → Grows a p
      → Grows a (fill_kinds r l j ks p)
  unfolding fill_kinds
  fill_kinds-Grows l j [] p g = g
  fill_kinds-Grows l j (k ∷ ks) p g = elim (Option-cases (name_off l j k)) [
    | inl n ↦ rw (n, fill_kinds) (fill_kinds-Grows l j ks p g)
    | inr (o, e) ↦
        let q = put24 o (name (names_of r k) j) p in
        rw (e, fill_kinds) (fill_kinds-Grows l j ks q (put24-Grows o (name (names_of r k) j) p g))
  ]

  fill_langs-Grows :
      {a : Interner} (l : XLayout) (left j : ℕ) (p : Filling)
      → Grows a p
      → Grows a (fill_langs r l left j p)
  unfolding fill_langs
  fill_langs-Grows l zero j p g = g
  fill_langs-Grows l (suc left) j p g =
      fill_langs-Grows l left (j + 1) _ (fill_kinds-Grows l j l.kinds p g)

  pub add_entry-IsGrown :
      (t : XTable) (strs : Interner) → IsInterner strs → IsGrown strs (add_entry r t strs).2
  unfolding add_entry entry_of
  add_entry-IsGrown t strs h =
      fill_langs-Grows t.layout (t.n_langs - 1) 1 _
        (fill_fields-Grows t.layout (replicate t.layout.width 0, strs) (IsGrown-refl h))
