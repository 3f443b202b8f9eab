-- ===== src/Format/Meta.antt =====
-- internal/format/format.go: the 64-byte META section, `Meta.AppendTo` and `ParseMeta`.
pub mod Canonical
use ip2geo.Base.{
  ℕ, ◌^◌, ◌<◌, ◌≡◌, ◌≢◌, refl, some, List, [], ◌∷◌, ◌++◌, not, arith, length, drop, Bool-cases,
  get_elem?, true, false, ◌⊎◌, inl, inr, replicate, Result, ok, err, ◌>>=◌, ◌>>◌, refuse_if,
  or_panic, ◌==◌,
}
use ip2geo.Bytes.{le_at, le_bytes}
use ip2geo.Bytes.Words.{le_words, le_at-le_words, word_offset, ReadFrom}
use ip2geo.Bytes.Laws.{le_at_total}
use native.Mathlib.Decide.{ℕ_discrete}
use ip2geo.Format.Header.{FormatError, meta_err, all_zero}

pub record Meta : Type 0 where
  pub build_time : ℕ
  pub source_time : ℕ
  pub networks : ℕ
  pub source_type : ℕ
  pub language : ℕ
  pub description : ℕ
  pub builder : ℕ
  pub distinct_records : ℕ

abbrev pub meta_size : ℕ
meta_size = 64

abbrev pub meta_words : Meta → List (ℕ × ℕ)
meta_words m =
    (8, m.build_time)
    ∷ (8, m.source_time)
    ∷ (8, m.networks)
    ∷ (4, m.source_type)
    ∷ (4, m.language)
    ∷ (4, m.description)
    ∷ (4, m.builder)
    ∷ (4, m.distinct_records)
    ∷ []

unfoldable pub meta_bytes : Meta → List ℕ
meta_bytes m = le_words (meta_words m) ++ replicate 20 0

unfoldable pub parse_meta : List ℕ → Result FormatError Meta
parse_meta b = do
  refuse_if (not (length b == meta_size)) meta_err
  refuse_if (not (all_zero (drop 44 b))) meta_err
  bt ← or_panic (le_at 8 b 0)
  st ← or_panic (le_at 8 b 8)
  nw ← or_panic (le_at 8 b 16)
  ty ← or_panic (le_at 4 b 24)
  la ← or_panic (le_at 4 b 28)
  de ← or_panic (le_at 4 b 32)
  bu ← or_panic (le_at 4 b 36)
  dr ← or_panic (le_at 4 b 40)
  ok (record {
    build_time = bt;
    source_time = st;
    networks = nw;
    source_type = ty;
    language = la;
    description = de;
    builder = bu;
    distinct_records = dr;
  })

-- The field widths, as Go's types give them.
pub record IsMeta (m : Meta) : Type 0 where
  pub build_fits : m.build_time < 2 ^ 64
  pub source_fits : m.source_time < 2 ^ 64
  pub networks_fits : m.networks < 2 ^ 64
  pub type_fits : m.source_type < 2 ^ 32
  pub language_fits : m.language < 2 ^ 32
  pub description_fits : m.description < 2 ^ 32
  pub builder_fits : m.builder < 2 ^ 32
  pub distinct_fits : m.distinct_records < 2 ^ 32

pub length-meta_bytes : (m : Meta) → length (meta_bytes m) ≡ meta_size
unfolding meta_bytes le_bytes
length-meta_bytes m = refl

pub meta_bytes_reserved : (m : Meta) → all_zero (drop 44 (meta_bytes m)) ≡ true
unfolding meta_bytes le_bytes all_zero
meta_bytes_reserved m = refl

meta_bytes_word :
    (m : Meta) (i w x : ℕ)
    → get_elem? (meta_words m) i ≡ some (w, x)
    → x < 256 ^ w
    → le_at w (meta_bytes m) (word_offset (meta_words m) i) ≡ some x
unfolding meta_bytes
meta_bytes_word m i w x e h = le_at-le_words (meta_words m) (replicate 20 0) i w x e h

-- A META section is read back as it was written.
pub parse_meta-meta_bytes : (m : Meta) → IsMeta m → parse_meta (meta_bytes m) ≡ ok m
unfolding parse_meta
parse_meta-meta_bytes m v = rw (
  length-meta_bytes m,
  meta_bytes_reserved m,
  meta_bytes_word m 0 8 m.build_time refl v.build_fits,
  meta_bytes_word m 1 8 m.source_time refl v.source_fits,
  meta_bytes_word m 2 8 m.networks refl v.networks_fits,
  meta_bytes_word m 3 4 m.source_type refl v.type_fits,
  meta_bytes_word m 4 4 m.language refl v.language_fits,
  meta_bytes_word m 5 4 m.description refl v.description_fits,
  meta_bytes_word m 6 4 m.builder refl v.builder_fits,
  meta_bytes_word m 7 4 m.distinct_records refl v.distinct_fits,
)

module _ (b : List ℕ) where
  -- A section of the right length with zero reserved bytes is decoded, each field at its place.
  parse_meta_total :
      length b ≡ meta_size
      → all_zero (drop 44 b) ≡ true
      → (m : Meta) × ReadFrom (meta_words m) b 0 × (parse_meta b ≡ ok m)
  unfolding parse_meta
  parse_meta_total len zeros =
      let (bt, e0) = le_at_total 8 b 0 (omega arith) in
      let (st, e1) = le_at_total 8 b 8 (omega arith) in
      let (nw, e2) = le_at_total 8 b 16 (omega arith) in
      let (ty, e3) = le_at_total 4 b 24 (omega arith) in
      let (la, e4) = le_at_total 4 b 28 (omega arith) in
      let (de, e5) = le_at_total 4 b 32 (omega arith) in
      let (bu, e6) = le_at_total 4 b 36 (omega arith) in
      let (dr, e7) = le_at_total 4 b 40 (omega arith) in
      (
        record {
          build_time = bt;
          source_time = st;
          networks = nw;
          source_type = ty;
          language = la;
          description = de;
          builder = bu;
          distinct_records = dr;
        },
        (e0, (e1, (e2, (e3, (e4, (e5, (e6, (e7, tt)))))))),
        rw (len, zeros, e0, e1, e2, e3, e4, e5, e6, e7),
      )

  parse_meta-length : length b ≢ meta_size → parse_meta b ≡ err meta_err
  unfolding parse_meta
  parse_meta-length h = ground arith

  parse_meta_reserved :
      length b ≡ meta_size → all_zero (drop 44 b) ≡ false → parse_meta b ≡ err meta_err
  unfolding parse_meta
  parse_meta_reserved h z = rw (h, z)

  -- On any input: decoded if it has the length of META and zero reserved bytes, else `ErrMeta`.
  pub parse_meta_cases :
      ((length b ≡ meta_size)
        × (all_zero (drop 44 b) ≡ true)
        × ((m : Meta) × ReadFrom (meta_words m) b 0 × (parse_meta b ≡ ok m)))
      ⊎ (((length b ≢ meta_size) ⊎ (all_zero (drop 44 b) ≡ false)) × (parse_meta b ≡ err meta_err))
  parse_meta_cases = elim (ℕ_discrete (length b) meta_size) [
    | no n ↦ inr (inl n, parse_meta-length n)
    | yes l ↦ elim (Bool-cases (all_zero (drop 44 b))) [
      | inl z ↦ inl (l, z, parse_meta_total l z)
      | inr z ↦ inr (inr z, parse_meta_reserved l z)
    ]
  ]
