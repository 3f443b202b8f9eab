-- ===== src/Format/Meta/Canonical.antt =====
-- `ParseMeta` of internal/format/format.go against the bytes that `Meta.AppendTo` writes.
use ip2geo.Base.{
  ℕ, zero, suc, ◌+◌, ◌≡◌, ◌≢◌, refl, sym, ap, ◌∙◌, true, ◌⊎◌, inl, inr, List, [], ◌∷◌, ◌++◌, length,
  length-drop, take, drop, replicate, All, All-drop, ok, err, arith,
}
use mathlib.Core.List.{append_assoc}
use ip2geo.Bytes.{IsByte, le_at}
use ip2geo.Bytes.Laws.{le_bytes-le_uint, le_at-lt}
use ip2geo.Bytes.Words.{le_words, ReadFrom}
use ip2geo.Format.Header.{all_zero, meta_err}
use ip2geo.Format.Meta.{
  Meta, IsMeta, meta_size, meta_words, meta_bytes, length-meta_bytes, meta_bytes_reserved,
  parse_meta, parse_meta_cases,
}

abbrev end_of : List (ℕ × ℕ) → ℕ → ℕ
end_of [] off = off
end_of ((w, x) ∷ ws) off = end_of ws (off + w)

take-drop : (w : ℕ) (b : List ℕ) → take w b ++ drop w b ≡ b
take-drop zero b = refl
take-drop (suc w) [] = refl
take-drop (suc w) (x ∷ b) = ap (λ l. x ∷ l) (take-drop w b)

take_then_drop :
    (w off next : ℕ) (b : List ℕ) → next ≡ off + w → take w (drop off b) ++ drop next b ≡ drop off b
take_then_drop w zero next b e = let same : next ≡ w = omega arith in rw same (take-drop w b)
take_then_drop zero (suc off) zero [] e = refl
take_then_drop zero (suc off) (suc next) [] e = refl
take_then_drop (suc w) (suc off) zero [] e = refl
take_then_drop (suc w) (suc off) (suc next) [] e = refl
take_then_drop w (suc off) zero (x ∷ b) e = absurd (omega arith)
take_then_drop w (suc off) (suc next) (x ∷ b) e = take_then_drop w off next b (omega arith)

le_words-ReadFrom :
    (ws : List (ℕ × ℕ)) (b : List ℕ) (off : ℕ)
    → All IsByte b
    → ReadFrom ws b off
    → le_words ws ++ drop (end_of ws off) b ≡ drop off b
unfolding le_at
le_words-ReadFrom [] b off bytes h = refl
le_words-ReadFrom ((w, x) ∷ ws) b off bytes h =
    let word = le_bytes-le_uint w (drop off b) x (All-drop IsByte off b bytes) h.0 in
    append_assoc _ (le_words ws) (drop (end_of ws (off + w)) b)
    ∙ ap (λ l. l ++ (le_words ws ++ drop (end_of ws (off + w)) b)) word
    ∙ ap (λ l. take w (drop off b) ++ l) (le_words-ReadFrom ws b (off + w) bytes h.1)
    ∙ take_then_drop w off (off + w) b refl

all_zero-replicate : (n : ℕ) (b : List ℕ) → length b ≡ n → all_zero b ≡ true → b ≡ replicate n 0
unfolding all_zero
all_zero-replicate zero [] n e = refl
all_zero-replicate zero (x ∷ b) n e = absurd (omega arith)
all_zero-replicate (suc n) [] h e = absurd (omega arith)
all_zero-replicate (suc n) (x ∷ b) h e = ground (arith, all_zero-replicate n b)

fields-IsMeta : (b : List ℕ) (m : Meta) → All IsByte b → ReadFrom (meta_words m) b 0 → IsMeta m
fields-IsMeta b m v (bt, (st, (nw, (ty, (la, (de, (bu, (dr, _)))))))) = record {
  build_fits = le_at-lt 8 b 0 m.build_time v bt;
  source_fits = le_at-lt 8 b 8 m.source_time v st;
  networks_fits = le_at-lt 8 b 16 m.networks v nw;
  type_fits = le_at-lt 4 b 24 m.source_type v ty;
  language_fits = le_at-lt 4 b 28 m.language v la;
  description_fits = le_at-lt 4 b 32 m.description v de;
  builder_fits = le_at-lt 4 b 36 m.builder v bu;
  distinct_fits = le_at-lt 4 b 40 m.distinct_records v dr;
}

meta_bytes-parse_meta :
    (b : List ℕ) (m : Meta)
    → All IsByte b
    → length b ≡ meta_size
    → all_zero (drop 44 b) ≡ true
    → ReadFrom (meta_words m) b 0
    → b ≡ meta_bytes m
unfolding meta_bytes
meta_bytes-parse_meta b m v len zeros h =
    let rest = all_zero-replicate 20 (drop 44 b) (omega (arith, len, length-drop {0} 44 b)) zeros in
    sym (le_words-ReadFrom (meta_words m) b 0 v h) ∙ ap (λ l. le_words (meta_words m) ++ l) rest

-- Any bytes are either those that `AppendTo` writes for a META block with fields in range, which is
-- what `ParseMeta` returns, or those of no META block, and `ParseMeta` returns `ErrMeta`.
pub parse_meta_canonical :
    (b : List ℕ)
    → All IsByte b
    → ((m : Meta) × IsMeta m × (b ≡ meta_bytes m) × (parse_meta b ≡ ok m))
      ⊎ (((m : Meta) → b ≢ meta_bytes m) × (parse_meta b ≡ err meta_err))
parse_meta_canonical b v = elim (parse_meta_cases b) [
  | inl (len, zeros, (m, h, e)) ↦
      inl (m, fields-IsMeta b m v h, meta_bytes-parse_meta b m v len zeros h, e)
  | inr (inl n, e) ↦ inr (λ m same. n (ap length same ∙ length-meta_bytes m), e)
  | inr (inr z, e) ↦ inr (
    λ m same.
        absurd (ground (arith, z, ap (λ l. all_zero (drop 44 l)) same, meta_bytes_reserved m)),
    e,
  )
]
