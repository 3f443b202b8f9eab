-- ===== src/Bytes/Words.antt =====
-- Fixed blocks: words of several widths appended one after the other, read at their offsets.
use ip2geo.Base.{
  ℕ, zero, suc, ◌+◌, ◌^◌, ◌<◌, ◌≡◌, refl, sym, ap, ◌∙◌, some, List, [], ◌∷◌, ◌++◌, arith, length,
  get_elem?, drop,
}
use ip2geo.Bytes.{le_bytes, le_uint, le_at}
use ip2geo.Bytes.Laws.{length-le_bytes, le_uint-le_bytes}
use mathlib.Core.List.{append_assoc}

-- A chain of `AppendUint16`, `AppendUint32` and `AppendUint64` calls: (width, value) pairs.
abbrev pub le_words : List (ℕ × ℕ) → List ℕ
le_words [] = []
le_words ((w, v) ∷ ws) = le_bytes w v ++ le_words ws

-- The words `ws` stand in `b` from `off` on.
abbrev pub ReadFrom : List (ℕ × ℕ) → List ℕ → ℕ → Type 0
ReadFrom [] b off = Unit
ReadFrom ((w, x) ∷ ws) b off = (le_at w b off ≡ some x) × ReadFrom ws b (off + w)

-- The offset behind the first `i` words.
abbrev pub word_offset : List (ℕ × ℕ) → ℕ → ℕ
word_offset [] i = 0
word_offset ((w, v) ∷ ws) zero = 0
word_offset ((w, v) ∷ ws) (suc i) = w + word_offset ws i

pub drop_past :
    (xs ys : List ℕ) (n k m : ℕ) → n ≡ length xs → m ≡ n + k → drop m (xs ++ ys) ≡ drop k ys
drop_past [] ys n k m h e = let e' : m ≡ k = omega arith in rw e'
drop_past (x ∷ xs) ys n k zero h e = absurd (omega arith)
drop_past (x ∷ xs) ys zero k (suc m) h e = absurd (omega arith)
drop_past (x ∷ xs) ys (suc n) k (suc m) h e = drop_past xs ys n k m (omega arith) (omega arith)

pub le_at_past :
    (w n v : ℕ) (rest : List ℕ) (k : ℕ) {off : ℕ}
    → off ≡ n + k
    → le_at w (le_bytes n v ++ rest) off ≡ le_at w rest k
unfolding le_at
le_at_past w n v rest k e =
    ap (le_uint w) (drop_past (le_bytes n v) rest n k _ (sym (length-le_bytes n v)) e)

-- Word `i` of a block stands at its offset, whatever follows the block.
pub le_at-le_words :
    (ws : List (ℕ × ℕ)) (rest : List ℕ) (i w v : ℕ)
    → get_elem? ws i ≡ some (w, v)
    → v < 256 ^ w
    → le_at w (le_words ws ++ rest) (word_offset ws i) ≡ some v
le_at-le_words [] rest i w v e h = absurd (ground arith)
le_at-le_words ((w', v') ∷ ws) rest zero w v e h =
    let f : w' ≡ w = ground arith in
    let g : v' ≡ v = ground arith in
    rw (append_assoc, f, g) (unfold le_at in le_uint-le_bytes w v (le_words ws ++ rest) h)
le_at-le_words ((w', v') ∷ ws) rest (suc i) w v e h = rw append_assoc (
    le_at_past w w' v' (le_words ws ++ rest) (word_offset ws i) refl
    ∙ le_at-le_words ws rest i w v e h)
