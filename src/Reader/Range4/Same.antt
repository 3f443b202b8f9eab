-- ===== src/Reader/Range4/Same.antt =====
-- Every address of the range that `range4` returns has the key's answer.
use ip2geo.Base.{
  ℕ, ◌+◌, ◌-◌, ◌/◌, ◌^◌, ◌≤◌, ◌<◌, ◌≡◌, ◌⊎◌, inl, inr, refl, sym, subst, ap, ◌∙◌, some, List, arith,
  length, get_elem?-eq-get_or, ltb, ◌==◌, true, false,
}
use mathlib.Core.Option
use native.Mathlib.Decide.{dec_lt, ℕ_discrete}
use ip2geo.Build.Merge4.{Boundary4}
use ip2geo.Build.Merge4.Answer.{answer, IsAscending, starts_of, recs_of}
use ip2geo.Reader.Count.{count_below, count_below-le, ◌!◌, below_count, above_count}
use ip2geo.Reader.Search4.{Tables4, build_index4}
use ip2geo.Reader.Search4.Sections.{HoldsStarts, HoldsIds}
use ip2geo.Reader.Search4.Index.{index4_table-count}
use ip2geo.Reader.Search4.Lookup.{
  start4-start, answer_from-count, record_before, window_search-count, length-starts_of,
}
use ip2geo.Reader.Range4.{Answer4, next4, first4, last4, range4}

-- The boundaries around the key, and the record of the one at or below it.
pub record IsRange (bs : List Boundary4) (key : ℕ) (a : Answer4) : Type 0 where
  pub holds : (a.first ≤ key) × (key ≤ a.last) × (a.last < 2 ^ 32)
  pub same : (x : ℕ) → a.first ≤ x → x ≤ a.last → answer bs x ≡ a.id

module _ (r : Tables4) (bs : List Boundary4) (asc : IsAscending 0 bs)
    (h : HoldsStarts r.v4idx r.v4starts (starts_of bs))
    (ids : HoldsIds r.v4ids r.id_width (recs_of bs)) (key c : ℕ) (hk : key < 2 ^ 32) where
  module _ (e : count_below (starts_of bs) (key + 1) ≡ c) where
    first4-first :
        (f : ℕ × ℕ) × (first4 r c (key / 2 ^ 16) ≡ some f)
        × (f.0 ≤ key)
        × (f.1 ≡ record_before 0 bs key c)
        × ((c ≡ 0) ⊎ ((0 < c) × (f.0 ≡ starts_of bs ! (c - 1))))
    unfolding first4 record_before Option.bind
    first4-first = elim (ℕ_discrete c 0) [
      | yes z ↦ let t : (c == 0) ≡ true = ground arith in ((0, 0), rw t, omega arith, rw t, inl z)
      | no nz ↦
          let t : (c == 0) ≡ false = ground arith in
          let len : c ≤ length (starts_of bs) =
            omega (arith, count_below-le (starts_of bs) (key + 1)) in
          let below = below_count 0 (starts_of bs) (key + 1) (c - 1) h.rising (omega arith) in
          (
            (starts_of bs ! (c - 1), recs_of bs ! (c - 1)),
            rw (
              t,
              start4-start r (starts_of bs) h (c - 1) (key / 2 ^ 16) (omega arith) (omega arith),
              ids (c - 1) (omega (arith, length-starts_of bs)),
              get_elem?-eq-get_or (recs_of bs) (c - 1) 0 (omega (arith, length-starts_of bs)),
            ),
            omega arith,
            rw t,
            inr (omega arith, refl),
          )
    ]

    last4-last :
        (v : ℕ) × (last4 r c (key / 2 ^ 16) ≡ some v)
        × (key ≤ v)
        × (v < 2 ^ 32)
        × ((c < length (starts_of bs)) → v + 1 ≡ starts_of bs ! c)
    unfolding last4
    last4-last = elim (dec_lt c (length (starts_of bs))) [
      | yes lt ↦
          let t : ltb c (length r.v4starts / 2) ≡ true = ground (arith, h.size) in
          let above = above_count 0 (starts_of bs) (key + 1) c h.rising (omega arith) lt in
          let small = h.fits c lt in
          (
            starts_of bs ! c - 1,
            rw (t, start4-start r (starts_of bs) h c (key / 2 ^ 16) lt (omega arith))
                (ap some (omega arith)),
            omega arith,
            omega arith,
            λ _. omega arith,
          )
      | no ge ↦
          let t : ltb c (length r.v4starts / 2) ≡ false = ground (arith, h.size) in
          (2 ^ 32 - 1, rw t, omega arith, omega arith, λ lt. absurd (ge lt))
    ]

    -- Between the two boundaries as many starts lie at or below an address as for the key.
    count_between :
        (x : ℕ)
        → ((c ≡ 0) ⊎ ((0 < c) × (starts_of bs ! (c - 1) ≤ x)))
        → (c < length (starts_of bs) → x < starts_of bs ! c)
        → count_below (starts_of bs) (x + 1) ≡ c
    count_between x lo hi = elim (dec_lt (count_below (starts_of bs) (x + 1)) c) [
      | yes less ↦ absurd (elim lo [
        | inl z ↦ omega arith
        | inr (pos, le) ↦ omega (
          arith,
          above_count 0 (starts_of bs) (x + 1) (c - 1) h.rising (omega arith)
              (omega (arith, count_below-le (starts_of bs) (key + 1))),
        )
      ])
      | no nless ↦ elim (dec_lt c (count_below (starts_of bs) (x + 1))) [
        | yes more ↦ absurd (
            let len : c < length (starts_of bs) =
              omega (arith, count_below-le (starts_of bs) (x + 1)) in
            omega (arith, below_count 0 (starts_of bs) (x + 1) c h.rising more, hi len))
        | no nmore ↦ omega arith
      ]
    ]

    same_record :
        (x : ℕ) → count_below (starts_of bs) (x + 1) ≡ c → answer bs x ≡ record_before 0 bs key c
    unfolding record_before
    same_record x ex = answer_from-count 0 0 bs x asc ∙ ap (record_before 0 bs x) ex

-- On sections that hold ascending boundaries, `range4` returns an IPv4 range around the key of
-- addresses that all have the key's answer, and that answer with it.
pub range4-IsRange :
    (r t : Tables4) (bs : List Boundary4)
    → IsAscending 0 bs
    → HoldsStarts r.v4idx r.v4starts (starts_of bs)
    → HoldsIds r.v4ids r.id_width (recs_of bs)
    → build_index4 r ≡ some t
    → (key : ℕ) → key < 2 ^ 32
    → (a : Answer4) × (range4 t key ≡ some a) × IsRange bs key a
unfolding range4 next4 build_index4 Option.bind
range4-IsRange r t bs asc h ids built key hk =
    let (lo4, e, table) = index4_table-count r.v4idx r.v4starts (starts_of bs) h (2 ^ 16) refl in
    let t' : Tables4 = record r { lo4 = lo4 } in
    let c = count_below (starts_of bs) (key + 1) in
    let same : t' ≡ t = ground (arith, built, e) in
    let (f, ef, f_le, f_rec, f_start) = first4-first t' bs asc h ids key c hk refl in
    let (v, ev, v_ge, v_lt, v_next) = last4-last t' bs asc h ids key c hk refl in
    let w = window_search-count t' bs asc h key hk table in
    let a : Answer4 = record { first = f.0; last = v; id = f.1 } in
    (
      a,
      subst (λ (u : Tables4). range4 u key ≡ some a) same (rw (w, ef, ev)),
      record {
        holds = (f_le, v_ge, v_lt);
        same = λ x lo hi.
            same_record t' bs asc h ids key c hk refl x (
              count_between t' bs asc h ids key c hk refl x
                (elim f_start [ inl z ↦ inl z | inr (pos, ee) ↦ inr (pos, omega arith) ])
                (λ lt. omega (arith, v_next lt)))
            ∙ sym f_rec;
      },
    )
