-- ===== src/Bytes/Laws.antt =====
-- Words survive being written and read back, whatever stands around them.
use ip2geo.Base.{
  ℕ, zero, suc, ◌+◌, ◌*◌, ◌/◌, ◌%◌, ◌^◌, ◌≤◌, ◌<◌, ◌≡◌, refl, ap, Option, none, some, List, [], ◌∷◌,
  ◌++◌, arith, length, length-drop, take, drop, drop-append, All, All-drop,
}
use ip2geo.Bytes.{IsByte, le_bytes, le_uint, le_at}
use mathlib.Core.Option
use native.Mathlib.Nat.{pow-suc}

pub pow256 : (w : ℕ) → 256 ^ suc w ≡ 256 * 256 ^ w
pow256 w = omega (arith, pow-suc 256 w)

shrink : (w v : ℕ) → v < 256 ^ suc w → v / 256 < 256 ^ w
shrink w v h = omega (arith, pow256 w)

pub length-le_bytes : (w v : ℕ) → length (le_bytes w v) ≡ w
unfolding le_bytes
length-le_bytes zero v = refl
length-le_bytes (suc w) v = ap suc (length-le_bytes w (v / 256))

pub le_bytes-IsByte : (w v : ℕ) → All IsByte (le_bytes w v)
unfolding le_bytes
le_bytes-IsByte zero v = tt
le_bytes-IsByte (suc w) v = (omega arith, le_bytes-IsByte w (v / 256))

pub le_uint-le_bytes :
    (w v : ℕ) (rest : List ℕ) → v < 256 ^ w → le_uint w (le_bytes w v ++ rest) ≡ some v
unfolding le_bytes le_uint
le_uint-le_bytes zero v rest h = ap some (omega arith)
le_uint-le_bytes (suc w) v rest h =
    rw (le_uint-le_bytes w (v / 256) rest (shrink w v h)) (ap some (omega arith))

-- Reading a word that stands behind `front`.
pub le_at-append :
    (w v : ℕ) (front rest : List ℕ) (off : ℕ)
    → v < 256 ^ w
    → off ≡ length front
    → le_at w (front ++ (le_bytes w v ++ rest)) off ≡ some v
unfolding le_at
le_at-append w v front rest off h e =
    rw (drop-append front (le_bytes w v ++ rest) off e) (le_uint-le_bytes w v rest h)

-- A word read from bytes is below `256 ^ w`.
pub le_uint-lt : (w : ℕ) (b : List ℕ) (v : ℕ) → All IsByte b → le_uint w b ≡ some v → v < 256 ^ w
unfolding le_uint
le_uint-lt zero b v h e = ground arith
le_uint-lt (suc w) [] v h e = absurd (ground arith)
le_uint-lt (suc w) (x ∷ b) v h e = step (le_uint w b) e (λ r g. le_uint-lt w b r h.1 g)
  where
    step :
        (o : Option ℕ)
        → Option.map (λ (r : ℕ). x + 256 * r) o ≡ some v
        → ((r : ℕ) → o ≡ some r → r < 256 ^ w)
        → v < 256 ^ suc w
    step none f ih = absurd (ground arith)
    step (some r) f ih = ground (arith, ih r refl, pow256 w)

-- A word is there exactly when its bytes are.
pub le_uint_total : (w : ℕ) (b : List ℕ) → w ≤ length b → (v : ℕ) × (le_uint w b ≡ some v)
unfolding le_uint
le_uint_total zero b h = (0, refl)
le_uint_total (suc w) [] h = absurd (omega arith)
le_uint_total (suc w) (x ∷ b) h =
    let (r, e) = le_uint_total w b (omega arith) in (x + 256 * r, rw e)

le_bytes_split : (x w r : ℕ) → x < 256 → le_bytes (suc w) (x + 256 * r) ≡ x ∷ le_bytes w r
unfolding le_bytes
le_bytes_split x w r h =
    let e : (x + 256 * r) % 256 ≡ x = omega arith in
    let q : (x + 256 * r) / 256 ≡ r = omega arith in rw (e, q)

-- Writing the word that was read gives the bytes that it was read from.
pub le_bytes-le_uint :
    (w : ℕ) (b : List ℕ) (v : ℕ) → All IsByte b → le_uint w b ≡ some v → le_bytes w v ≡ take w b
unfolding le_uint
le_bytes-le_uint zero b v h e = unfold le_bytes in refl
le_bytes-le_uint (suc w) [] v h e = absurd (ground arith)
le_bytes-le_uint (suc w) (x ∷ b) v h e = step (le_uint w b) e (λ r g. le_bytes-le_uint w b r h.1 g)
  where
    step :
        (o : Option ℕ)
        → Option.map (λ (r : ℕ). x + 256 * r) o ≡ some v
        → ((r : ℕ) → o ≡ some r → le_bytes w r ≡ take w b)
        → le_bytes (suc w) v ≡ x ∷ take w b
    step none f ih = absurd (ground arith)
    step (some r) f ih = ground (arith, ih r refl, le_bytes_split x w r h.0)

pub le_at_total :
    (w : ℕ) (b : List ℕ) (off : ℕ) → off + w ≤ length b → (v : ℕ) × (le_at w b off ≡ some v)
unfolding le_at
le_at_total w b off h = le_uint_total w (drop off b) (omega (arith, length-drop {0} off b))

pub le_at-lt :
    (w : ℕ) (b : List ℕ) (off v : ℕ) → All IsByte b → le_at w b off ≡ some v → v < 256 ^ w
unfolding le_at
le_at-lt w b off v h e = le_uint-lt w (drop off b) v (All-drop IsByte off b h) e
