-- ===== src/Geo2/CheckIpv4/Safe.antt =====
-- A reader over IPv4 sections that `checkIPv4` and the length checks accept finds every index it reads.
use ip2geo.Base.{
  ℕ, zero, suc, ◌+◌, ◌*◌, ◌^◌, ◌≤◌, ◌<◌, ◌≡◌, refl, ap, ◌∙◌, some, List, [], ◌∷◌, arith, length,
  get_elem?, get_elem?-eq-get_or, sym, subst, ok, All,
}
use native.Mathlib.Nat.{add-mul}
use ip2geo.Bytes.{IsByte}
use ip2geo.Format.RecordId.{read_id}
use ip2geo.Format.RecordId.RoundTrip.{read_id_total}
use ip2geo.Build.Merge4.{Boundary4}
use ip2geo.Build.Merge4.Answer.{answer, IsAscending, starts_of, recs_of}
use ip2geo.Geo2.CheckIpv4.{check_ipv4}
use ip2geo.Geo2.CheckIpv4.Accepts.{check_ipv4-HoldsStarts}
use ip2geo.Reader.Count.{IsRising}
use ip2geo.Reader.Search4.{Tables4, build_index4, search4, start4}
use ip2geo.Reader.Search4.Sections.{HoldsStarts, HoldsIds}
use ip2geo.Reader.Search4.Lookup.{search4-answer, start4-start}

-- The record ids from boundary `i` on.
ids_from :
    (ids : List ℕ) (w i left : ℕ)
    → 1 ≤ w
    → w ≤ 4
    → i * w + left * w ≤ length ids
    → (recs : List ℕ) × (length recs ≡ left)
      × ((j : ℕ) → j < left → read_id ids w (i + j) ≡ get_elem? recs j)
ids_from ids w i zero lo hi size = ([], refl, λ j lt. absurd (omega arith))
ids_from ids w i (suc left) lo hi size =
    let (v, e) = read_id_total ids w i lo hi (omega (arith, add-mul left 1 w)) in
    let (recs, n, h) =
      ids_from ids w (i + 1) left lo hi (omega (arith, add-mul left 1 w, add-mul i 1 w)) in
    (v ∷ recs, ap suc n, at v recs e h)
  where
    at :
        (v : ℕ) (recs : List ℕ)
        → read_id ids w i ≡ some v
        → ((j : ℕ) → j < left → read_id ids w (i + 1 + j) ≡ get_elem? recs j)
        → (j : ℕ) → j < suc left
        → read_id ids w (i + j) ≡ get_elem? (v ∷ recs) j
    at v recs e h zero lt = ap (read_id ids w) (omega arith) ∙ e
    at v recs e h (suc j) lt = ap (read_id ids w) (omega arith) ∙ h j (omega arith)

-- A start with its record id.
boundaries_of : List ℕ → List ℕ → List Boundary4
boundaries_of [] recs = []
boundaries_of (x ∷ xs) [] = []
boundaries_of (x ∷ xs) (r ∷ recs) = record { start = x; rec = r } ∷ boundaries_of xs recs

starts_of-boundaries_of :
    (xs recs : List ℕ)
    → length xs ≡ length recs
    → (starts_of (boundaries_of xs recs) ≡ xs) × (recs_of (boundaries_of xs recs) ≡ recs)
unfolding boundaries_of
starts_of-boundaries_of [] [] e = (refl, refl)
starts_of-boundaries_of [] (r ∷ recs) e = absurd (omega arith)
starts_of-boundaries_of (x ∷ xs) [] e = absurd (omega arith)
starts_of-boundaries_of (x ∷ xs) (r ∷ recs) e =
    let h = starts_of-boundaries_of xs recs (omega arith) in
    (ap (λ l. x ∷ l) (h.0), ap (λ l. r ∷ l) (h.1))

IsRising-IsAscending :
    (lo : ℕ) (bs : List Boundary4) → IsRising lo (starts_of bs) → IsAscending lo bs
IsRising-IsAscending lo [] h = tt
IsRising-IsAscending lo (b ∷ bs) h = (h.0, IsRising-IsAscending (b.start + 1) bs h.1)

abbrev pub IsSafe : Tables4 → ℕ → List Boundary4 → Tables4 → Type 0
IsSafe r n bs t =
    (length bs ≡ n)
    × IsAscending 0 bs
    × (build_index4 r ≡ some t)
    × ((key : ℕ) → key < 2 ^ 32 → search4 t key ≡ some (answer bs key))
    × ((i hint : ℕ) → i < n → hint < 2 ^ 16 → start4 r i hint ≡ get_elem? (starts_of bs) i)

safe :
    (r : Tables4) (n : ℕ) (xs recs : List ℕ)
    → length xs ≡ n
    → length recs ≡ n
    → HoldsStarts r.v4idx r.v4starts xs
    → HoldsIds r.v4ids r.id_width recs
    → (bs : List Boundary4) × (t : Tables4) × IsSafe r n bs t
safe r n xs recs count count' holds held =
    let bs = boundaries_of xs recs in
    let (p, q) = starts_of-boundaries_of xs recs (omega arith) in
    let asc = IsRising-IsAscending 0 bs (subst (IsRising 0) (sym p) holds.rising) in
    let (t, built, found) =
      search4-answer r bs asc (subst (HoldsStarts r.v4idx r.v4starts) (sym p) holds)
        (subst (HoldsIds r.v4ids r.id_width) (sym q) held) in
    (
      bs,
      t,
      (
        length-boundaries bs ∙ ap length p ∙ count,
        asc,
        built,
        found,
        λ i hint lt hh.
            start4-start r xs holds i hint (omega arith) hh
            ∙ sym (get_elem?-eq-get_or xs i 0 (omega arith))
            ∙ ap (λ l. get_elem? l i) (sym p),
      ),
    )
  where
    length-boundaries : (bs : List Boundary4) → length bs ≡ length (starts_of bs)
    length-boundaries [] = refl
    length-boundaries (b ∷ bs) = ap suc (length-boundaries bs)

-- IPv4 sections of bytes that `checkIPv4` accepts, `n` starts and `n` record ids of 1 to 4 bytes, hold
-- strictly ascending boundaries: `buildIndex4` indexes them, `search4` answers every address from
-- them and `start4` returns the start of each, no read out of range.
pub check_ipv4-search4 :
    (r : Tables4) (n : ℕ)
    → All IsByte r.v4starts
    → length r.v4starts ≡ n * 2
    → length r.v4ids ≡ n * r.id_width
    → 1 ≤ r.id_width
    → r.id_width ≤ 4
    → check_ipv4 r.v4idx r.v4starts n ≡ ok tt
    → (bs : List Boundary4) × (t : Tables4) × IsSafe r n bs t
check_ipv4-search4 r n bytes starts ids lo hi e =
    let (xs, count, holds) = check_ipv4-HoldsStarts r.v4idx r.v4starts n bytes starts e in
    let (recs, count', held) = ids_from r.v4ids r.id_width 0 n lo hi (omega (arith, ids)) in
    safe r n xs recs count count' holds
      (λ i lt. ap (read_id r.v4ids r.id_width) (omega arith) ∙ held i (omega arith))
