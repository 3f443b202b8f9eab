-- ===== src/Bytes/Table.antt =====
-- A section of fixed-width words, appended one after the other, is an array of them.
use ip2geo.Base.{
  ℕ, zero, suc, ◌*◌, ◌^◌, ◌<◌, ◌≡◌, refl, sym, ap, ◌∙◌, List, [], ◌∷◌, ◌++◌, arith, length,
  length-append, get_elem?, All, All-append,
}
use ip2geo.Bytes.{IsByte, le_bytes, le_uint, le_at}
use ip2geo.Bytes.Words.{drop_past}
use ip2geo.Bytes.Laws.{le_bytes-IsByte, length-le_bytes, le_uint-le_bytes}

-- `for _, v := range vs { b = AppendUint(b, v) }`, with `b` left out.
unfoldable pub le_table : ℕ → List ℕ → List ℕ
le_table w [] = []
le_table w (v ∷ vs) = le_bytes w v ++ le_table w vs

pub length-le_table : (w : ℕ) (vs : List ℕ) → length (le_table w vs) ≡ length vs * w
unfolding le_table
length-le_table w [] = omega arith
length-le_table w (v ∷ vs) = omega (
  arith,
  length-append {0} (le_bytes w v) (le_table w vs),
  length-le_bytes w v,
  length-le_table w vs,
)

pub le_table-IsByte : (w : ℕ) (vs : List ℕ) → All IsByte (le_table w vs)
unfolding le_table
le_table-IsByte w [] = tt
le_table-IsByte w (v ∷ vs) =
    All-append IsByte (le_bytes w v) (le_table w vs) (le_bytes-IsByte w v) (le_table-IsByte w vs)

-- Element `i` of such a section is element `i` of the list.
pub le_at-le_table :
    (w : ℕ) (vs : List ℕ) (i : ℕ)
    → All (λ v. v < 256 ^ w) vs
    → i < length vs
    → le_at w (le_table w vs) (i * w) ≡ get_elem? vs i
unfolding le_at le_table
le_at-le_table w [] i h lt = absurd (omega arith)
le_at-le_table w (v ∷ vs) zero h lt =
    ap (le_uint w) (drop_past [] _ 0 0 (0 * w) refl (omega arith))
    ∙ le_uint-le_bytes w v (le_table w vs) h.0
le_at-le_table w (v ∷ vs) (suc i) h lt =
    ap (le_uint w) (
      drop_past (le_bytes w v) (le_table w vs) w (i * w) (suc i * w) (sym (length-le_bytes w v))
        (omega arith))
    ∙ le_at-le_table w vs i h.1 (omega arith)
