-- ===== src/Geo2/CheckIpv6/Lows.antt =====
-- The low halves of the IPv6 starts: V6EXCIDX and V6EXCLO in `checkIPv6` of geo2.go.
use ip2geo.Base.{
  ℕ, zero, suc, ◌+◌, ◌-◌, ◌*◌, ◌≤◌, ◌<◌, ◌≡◌, ◌≢◌, sym, ap, subst, ◌∙◌, Bool-cases, inl, inr, true,
  false, ◌⊎◌, some, some_injective, List, [], ◌∷◌, ltb, leb, ◌==◌, ok, ok_injective, >>-ok,
  or_panic-ok, refuse_if-ok, arith,
}
use native.Mathlib.Decide.{dec_lt, ℕ_discrete}
use ip2geo.Bytes.{le_at}
use ip2geo.Geo2.Errors.{corrupt}
use ip2geo.Reader.Words128.{Addr}
use ip2geo.Geo2.CheckIpv6.{low_half, check_above_last, check_exceptions}

-- Entry `j` of V6EXCIDX is the start `m`.
abbrev pub Lists : List ℕ → ℕ → ℕ → Type 0
Lists exc_idx j m = le_at 4 exc_idx (j * 4) ≡ some m

-- The `n` entries of V6EXCIDX are there and ascend.
abbrev pub IsAscending : List ℕ → ℕ → Type 0
IsAscending exc_idx n =
    (j : ℕ) → suc j < n → (p : ℕ) × (v : ℕ) × Lists exc_idx j p × Lists exc_idx (suc j) v × (p < v)

-- The low half of start `m` is `lo`: the word of V6EXCLO that belongs to the entry of V6EXCIDX that
-- lists `m`, and 0 when none of its `n` entries does.
abbrev pub LowOf : List ℕ → List ℕ → ℕ → ℕ → ℕ → Type 0
LowOf exc_idx exc_lo n m lo =
    ((j : ℕ) × (j < n) × Lists exc_idx j m × (le_at 8 exc_lo (j * 8) ≡ some lo))
    ⊎ (((j : ℕ) → j < n → le_at 4 exc_idx (j * 4) ≢ some m) × (lo ≡ 0))

-- The starts from start `i` on have these low halves.
abbrev pub HasLows : List ℕ → List ℕ → ℕ → ℕ → List Addr → Type 0
HasLows exc_idx exc_lo n i [] = Unit
HasLows exc_idx exc_lo n i (a ∷ ss) =
    LowOf exc_idx exc_lo n i a.lo × HasLows exc_idx exc_lo n (i + 1) ss

-- The entries before entry `j` list starts below `i`, and those from it on none of them.
pub record Splits (exc_idx : List ℕ) (n i j : ℕ) : Type 0 where
  pub before : (k v : ℕ) → k < j → Lists exc_idx k v → v < i
  pub behind : (k v : ℕ) → j ≤ k → k < n → Lists exc_idx k v → i ≤ v

pub Splits-start : (exc_idx : List ℕ) (n : ℕ) → Splits exc_idx n 0 0
Splits-start exc_idx n = record {
  before = λ k v lt l. absurd (omega arith);
  behind = λ k v le lt l. omega arith;
}

ascending-lt :
    (exc_idx : List ℕ) (n d j k v w : ℕ)
    → IsAscending exc_idx n
    → k ≡ suc j + d
    → k < n
    → Lists exc_idx j v
    → Lists exc_idx k w
    → v < w
ascending-lt exc_idx n zero j k v w asc e lt a b =
    let (p, q, lp, lq, less) = asc j (omega arith) in
    let k_is : k ≡ suc j = omega arith in
    let v_is = some_injective (sym a ∙ lp) in
    let w_is = some_injective (sym b ∙ ap (λ m. le_at 4 exc_idx (m * 4)) k_is ∙ lq) in omega arith
ascending-lt exc_idx n (suc d) j k v w asc e lt a b =
    let (p, q, lp, lq, less) = asc j (omega arith) in
    let v_is = some_injective (sym a ∙ lp) in
    let later = ascending-lt exc_idx n d (suc j) k q w asc (omega arith) lt lq b in omega arith

-- The two ways of a round: entry `j` lists `i`, or no low half is read.
low_half_cases :
    (exc_idx exc_lo : List ℕ) (n i j lo j' : ℕ)
    → low_half exc_idx exc_lo n i j ≡ ok (lo, j')
    → ((j < n) × Lists exc_idx j i × (le_at 8 exc_lo (j * 8) ≡ some lo) × (j' ≡ j + 1))
      ⊎ ((j < n → (e : ℕ) × Lists exc_idx j e × (e ≢ i)) × (lo ≡ 0) × (j' ≡ j))
unfolding low_half
low_half_cases exc_idx exc_lo n i j lo j' h = elim (dec_lt j n) [
  | no ge ↦
      let t : ltb j n ≡ false = ground arith in
      let same = ok_injective (rw t at h) in
      inr (λ lt. absurd (ge lt), sym (ap (λ q. q.0) same), sym (ap (λ q. q.1) same))
  | yes lt ↦
      let t : ltb j n ≡ true = ground arith in
      let (e, l, rest) = or_panic-ok (le_at 4 exc_idx (j * 4)) _ (rw t at h) in
      elim (Bool-cases (e == i)) [
        | inl eq ↦
            let same_e : e ≡ i = ground arith in
            let (v, w, done) = or_panic-ok (le_at 8 exc_lo (j * 8)) _ (rw eq at rest) in
            let same = ok_injective done in
            inl (lt, l ∙ ap some same_e, w ∙ ap (λ q. some q.0) same, sym (ap (λ q. q.1) same))
        | inr ne ↦
            let other : e ≢ i = ground arith in
            let same = ok_injective (rw ne at rest) in
            inr (λ lt. (e, l, other), sym (ap (λ q. q.0) same), sym (ap (λ q. q.1) same))
      ]
]

module _ (exc_idx : List ℕ) (n i j : ℕ) (asc : IsAscending exc_idx n)
    (sp : Splits exc_idx n i j) where
  -- Past the entry that lists `i`.
  Splits-listed : j < n → Lists exc_idx j i → Splits exc_idx n (i + 1) (j + 1)
  Splits-listed lt l = record {
    before = λ k v less at_k. elim (dec_lt k j) [
      | yes low ↦ let b = sp.before k v low at_k in omega arith
      | no ge ↦
          let same : k ≡ j = omega arith in
          let v_is = some_injective (sym at_k ∙ ap (λ m. le_at 4 exc_idx (m * 4)) same ∙ l) in
          omega arith
    ];
    behind = λ k v le less at_k.
        let b = ascending-lt exc_idx n (k - suc j) j k i v asc (omega arith) less l at_k in
        omega arith;
  }

  module _ (next : j < n → (e : ℕ) × Lists exc_idx j e × (e ≢ i)) where
    later : (k v : ℕ) → j ≤ k → k < n → Lists exc_idx k v → i < v
    later k v le less at_k =
        let (e, l, other) = next (omega arith) in
        let low = sp.behind j e (omega arith) (omega arith) l in
        elim (ℕ_discrete k j) [
          | yes same ↦
              let v_is = some_injective (sym at_k ∙ ap (λ m. le_at 4 exc_idx (m * 4)) same ∙ l) in
              elim (ℕ_discrete e i) [ yes z ↦ absurd (other z) | no ne ↦ omega arith ]
          | no nsame ↦
              let b = ascending-lt exc_idx n (k - suc j) j k e v asc (omega arith) less l at_k in
              omega arith
        ]

    Splits-unlisted : Splits exc_idx n (i + 1) j
    Splits-unlisted = record {
      before = λ k v less at_k. let b = sp.before k v less at_k in omega arith;
      behind = λ k v le less at_k. let b = later k v le less at_k in omega arith;
    }

    unlisted : (k : ℕ) → k < n → le_at 4 exc_idx (k * 4) ≢ some i
    unlisted k less at_k = elim (dec_lt k j) [
      | yes low ↦ let b = sp.before k i low at_k in omega arith
      | no ge ↦ let b = later k i (omega arith) less at_k in omega arith
    ]

pub low_half-LowOf :
    (exc_idx exc_lo : List ℕ) (n i j lo j' : ℕ)
    → IsAscending exc_idx n
    → Splits exc_idx n i j
    → low_half exc_idx exc_lo n i j ≡ ok (lo, j')
    → LowOf exc_idx exc_lo n i lo × Splits exc_idx n (i + 1) j'
low_half-LowOf exc_idx exc_lo n i j lo j' asc sp h =
    elim (low_half_cases exc_idx exc_lo n i j lo j' h) [
      | inl (lt, l, w, e) ↦ (inl (j, lt, l, w), rw e (Splits-listed exc_idx n i j asc sp lt l))
      | inr (next, z, e) ↦ (
        inr (unlisted exc_idx n i j asc sp next, z),
        rw e (Splits-unlisted exc_idx n i j asc sp next),
      )
    ]

check_above_last-lt :
    (exc_idx : List ℕ) (k v : ℕ)
    → check_above_last exc_idx (suc k) v ≡ ok tt
    → (p : ℕ) × (le_at 4 exc_idx (suc k * 4 - 4) ≡ some p) × (p < v)
unfolding check_above_last
check_above_last-lt exc_idx k v h =
    let t : ltb 0 (suc k) ≡ true = ground arith in
    let (p, l, e) = or_panic-ok (le_at 4 exc_idx (suc k * 4 - 4)) _ (rw t at h) in
    (p, l, ground arith)

check_exceptions-step :
    (exc_idx exc_lo : List ℕ) (n left j k : ℕ)
    → check_exceptions exc_idx exc_lo n left j ≡ ok tt
    → j ≤ suc k
    → suc k < j + left
    → (p : ℕ) × (v : ℕ) × (le_at 4 exc_idx (suc k * 4 - 4) ≡ some p)
      × Lists exc_idx (suc k) v
      × (p < v)
unfolding check_exceptions
check_exceptions-step exc_idx exc_lo n zero j k h le lt = absurd (omega arith)
check_exceptions-step exc_idx exc_lo n (suc left) j k h le lt =
    let (v, l, e1) = or_panic-ok (le_at 4 exc_idx (j * 4)) _ h in
    let (_, e2) = refuse_if-ok (leb n v) corrupt _ e1 in
    let (above, e3) = >>-ok (check_above_last exc_idx j v) _ e2 in
    let (l8, _, e4) = or_panic-ok (le_at 8 exc_lo (j * 8)) _ e3 in
    let (_, e5) = refuse_if-ok (l8 == 0) corrupt _ e4 in
    elim (ℕ_discrete j (suc k)) [
      | yes same ↦
          let (p, a, less) =
            check_above_last-lt exc_idx k v
              (subst (λ i. check_above_last exc_idx i v ≡ ok tt) same above) in
          (p, v, a, subst (λ i. Lists exc_idx i v) same l, less)
      | no later ↦
          check_exceptions-step exc_idx exc_lo n left (j + 1) k e5 (omega arith) (omega arith)
    ]

pub check_exceptions-IsAscending :
    (exc_idx exc_lo : List ℕ) (n n_exc : ℕ)
    → check_exceptions exc_idx exc_lo n n_exc 0 ≡ ok tt
    → IsAscending exc_idx n_exc
check_exceptions-IsAscending exc_idx exc_lo n n_exc h j lt =
    let (p, v, a, b, less) =
      check_exceptions-step exc_idx exc_lo n n_exc 0 j h (omega arith) (omega arith) in
    (p, v, ap (le_at 4 exc_idx) (omega arith) ∙ a, b, less)
