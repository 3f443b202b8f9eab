-- ===== src/Geo2/CheckStrings/Slices.antt =====
-- The strings of a table that `checkStrings` accepts lie in the blob.
use ip2geo.Base.{
  ℕ, zero, suc, ◌+◌, ◌-◌, ◌*◌, ◌/◌, ◌≤◌, ◌<◌, ◌≡◌, refl, sym, ap, ◌∙◌, true, false, not, some, List,
  [], ◌∷◌, length, length-take, length-drop, get_elem?, take, drop, ltb, ◌==◌, ok, >>=-ok,
  or_panic-ok, refuse_if-ok, arith,
}
use mathlib.Core.Option
use native.Mathlib.Decide.{ℕ_discrete}
use ip2geo.Bytes.{le_at}
use ip2geo.Format.Meta.{Meta}
use ip2geo.Geo2.Errors.{corrupt}
use ip2geo.Geo2.CheckStrings.{
  check_offsets, check_strings, slice_from, str, heap_string, heap_strings_from, heap_strings,
}

-- Each string below `n` has its two offsets in order, neither after `blob`.
pub HasOffsets : List ℕ → ℕ → ℕ → Type 0
HasOffsets idx n blob =
    (id : ℕ)
    → id < n
    → (a : ℕ) × (e : ℕ) × (le_at 4 idx (id * 4) ≡ some a)
      × (le_at 4 idx (id * 4 + 4) ≡ some e)
      × (a ≤ e)
      × (e ≤ blob)

check_offsets-HasOffsets :
    (idx : List ℕ) (left i prev last : ℕ)
    → le_at 4 idx (i * 4) ≡ some prev
    → check_offsets idx left (i + 1) prev ≡ ok last
    → (prev ≤ last)
      × ((id : ℕ)
          → i ≤ id
          → id < i + left
          → (a : ℕ) × (e : ℕ) × (le_at 4 idx (id * 4) ≡ some a)
            × (le_at 4 idx (id * 4 + 4) ≡ some e)
            × (a ≤ e)
            × (e ≤ last))
unfolding check_offsets
check_offsets-HasOffsets idx zero i prev last here e =
    (ground arith, λ id lo hi. absurd (omega arith))
check_offsets-HasOffsets idx (suc left) i prev last here e =
    let (v, p, e1) = or_panic-ok (le_at 4 idx ((i + 1) * 4)) _ e in
    let (a, e2) = refuse_if-ok (ltb v prev) corrupt _ e1 in
    let (le, rest) = check_offsets-HasOffsets idx left (i + 1) v last p e2 in
    let next : le_at 4 idx (i * 4 + 4) ≡ some v = ap (le_at 4 idx) (omega arith) ∙ p in
    let up : prev ≤ v = ground arith in
    (
      omega arith,
      λ id lo hi. elim (ℕ_discrete i id) [
        | yes same ↦ (
          prev,
          v,
          ap (λ k. le_at 4 idx (k * 4)) (sym same) ∙ here,
          ap (λ k. le_at 4 idx (k * 4 + 4)) (sym same) ∙ next,
          up,
          le,
        )
        | no ne ↦ rest id (omega arith) (omega arith)
      ],
    )

pub check_strings-HasOffsets :
    (idx : List ℕ) (blob n : ℕ) (m : Meta)
    → check_strings idx blob n m ≡ ok tt
    → HasOffsets idx n blob
unfolding HasOffsets check_strings
check_strings-HasOffsets idx blob n m e =
    let (v, p, e1) = or_panic-ok (le_at 4 idx 0) _ e in
    let (a, e2) = refuse_if-ok (not (v == 0)) corrupt _ e1 in
    let (last, q, e3) = >>=-ok (check_offsets idx n 1 0) _ e2 in
    let (b, e4) = refuse_if-ok (not (last == blob)) corrupt _ e3 in
    let zero_ : v ≡ 0 = ground arith in
    let (le, offs) = check_offsets-HasOffsets idx n 0 0 last (p ∙ ap some zero_) q in
    let same : last ≡ blob = ground arith in
    λ id lt.
      let (x, y, ex, ey, l1, l2) = offs id (omega arith) (omega arith) in
      (x, y, ex, ey, l1, omega arith)

slice_from_total :
    (blob : List ℕ) (a e : ℕ)
    → a ≤ e
    → e ≤ length blob
    → (s : List ℕ) × (slice_from blob a e ≡ some s) × (length s ≡ e - a)
unfolding slice_from
slice_from_total blob a e le le' =
    let t : ltb e a ≡ false = ground arith in
    let u : ltb (length blob) e ≡ false = ground arith in
    (
      take (e - a) (drop a blob),
      rw (t, u),
      length-take {0} (e - a) (drop a blob) (omega (arith, length-drop {0} a blob)),
    )

-- `heapStrings` skips an empty slice, and otherwise slices as `str` does.
heap_string-slice_from :
    (blob : List ℕ) (a e : ℕ) → a ≤ e → e ≤ length blob → heap_string blob a e ≡ slice_from blob a e
unfolding heap_string slice_from
heap_string-slice_from blob a e le le' = elim (ℕ_discrete a e) [
  | yes same ↦
      let t : ltb a e ≡ false = ground arith in
      let u : ltb e a ≡ false = ground arith in
      let v : ltb (length blob) e ≡ false = ground arith in
      let z : e - a ≡ 0 = omega arith in rw (t, u, v, z)
  | no ne ↦ let t : ltb a e ≡ true = ground arith in rw t
]

heap_strings_from_total :
    (idx blob : List ℕ) (count i : ℕ)
    → ((id : ℕ)
        → i ≤ id
        → id < i + count
        → (a : ℕ) × (e : ℕ) × (le_at 4 idx (id * 4) ≡ some a)
          × (le_at 4 idx (id * 4 + 4) ≡ some e)
          × (a ≤ e)
          × (e ≤ length blob))
    → (ss : List (List ℕ)) × (heap_strings_from idx blob count i ≡ some ss)
      × (length ss ≡ count)
      × ((j : ℕ) → j < count → str idx blob (i + j) ≡ get_elem? ss j)
unfolding heap_strings_from str Option.bind
heap_strings_from_total idx blob zero i h = ([], refl, refl, λ j lt. absurd (omega arith))
heap_strings_from_total idx blob (suc count) i h =
    let (a, e, ea, ee, le, le') = h i (omega arith) (omega arith) in
    let (s, es, size) = slice_from_total blob a e le le' in
    let (ss, rest, n, each) =
      heap_strings_from_total idx blob count (i + 1)
        (λ id lo hi. h id (omega arith) (omega arith)) in
    let one : heap_string blob a e ≡ some s = heap_string-slice_from blob a e le le' ∙ es in
    (s ∷ ss, rw (ea, ee, one, rest), ap suc n, tail s ss (rw (ea, ee) es) each)
  where
    tail :
        (s : List ℕ) (ss : List (List ℕ))
        → str idx blob i ≡ some s
        → ((j : ℕ) → j < count → str idx blob (i + 1 + j) ≡ get_elem? ss j)
        → (j : ℕ) → j < suc count
        → str idx blob (i + j) ≡ get_elem? (s ∷ ss) j
    tail s ss here each zero lt = ap (str idx blob) (omega arith) ∙ here
    tail s ss here each (suc j) lt = ap (str idx blob) (omega arith) ∙ each j (omega arith)

-- In a string table that is accepted every string is sliced from the blob without a panic, by `str` and
-- by `heapStrings`, and the two agree.
pub check_strings-str :
    (idx blob : List ℕ) (n : ℕ) (m : Meta)
    → length idx ≡ n * 4 + 4
    → check_strings idx (length blob) n m ≡ ok tt
    → (ss : List (List ℕ)) × (heap_strings idx blob ≡ some ss)
      × (length ss ≡ n)
      × ((id : ℕ) → id < n → str idx blob id ≡ get_elem? ss id)
check_strings-str idx blob n m size e =
    let offs : HasOffsets idx n (length blob) = check_strings-HasOffsets idx (length blob) n m e in
    let (ss, all, count, each) =
      heap_strings_from_total idx blob n 0
        (unfold HasOffsets in λ id lo hi. offs id (omega arith)) in
    let k : length idx / 4 - 1 ≡ n = omega arith in
    (
      ss,
      unfold heap_strings in rw k all,
      count,
      λ id lt. ap (str idx blob) (omega arith) ∙ each id lt,
    )
