-- ===== src/Reader/Count.antt =====
-- Counting the starts below a key: the index that the searches look for.
use ip2geo.Base.{
  ℕ, zero, suc, ◌+◌, ◌-◌, ◌≤◌, ◌<◌, ◌≡◌, refl, List, [], ◌∷◌, ◌++◌, arith, ltb, length, get_or,
  if◌then◌else◌,
}

-- Strictly ascending numbers, from `lo` on.
abbrev pub IsRising : ℕ → List ℕ → Type 0
IsRising lo [] = Unit
IsRising lo (x ∷ xs) = (lo ≤ x) × IsRising (x + 1) xs

unfoldable pub count_below : List ℕ → ℕ → ℕ
count_below [] key = 0
count_below (x ∷ xs) key = (if ltb x key then 1 else 0) + count_below xs key

infixl 90 ◌!◌
abbrev pub ◌!◌ : List ℕ → ℕ → ℕ
xs ! i = get_or xs i 0

pub count_below-le : (xs : List ℕ) (key : ℕ) → count_below xs key ≤ length xs
unfolding count_below
count_below-le [] key = omega arith
count_below-le (x ∷ xs) key = ground (arith, count_below-le xs key)

pub count_below_mono : (xs : List ℕ) (a b : ℕ) → a ≤ b → count_below xs a ≤ count_below xs b
unfolding count_below
count_below_mono [] a b h = omega arith
count_below_mono (x ∷ xs) a b h = ground (arith, count_below_mono xs a b)

pub count_below_zero :
    (lo : ℕ) (xs : List ℕ) (key : ℕ) → IsRising lo xs → key ≤ lo → count_below xs key ≡ 0
unfolding count_below
count_below_zero lo [] key r h = refl
count_below_zero lo (x ∷ xs) key r h = ground (arith, count_below_zero (x + 1) xs key r.1)

-- The elements before that index are below the key, and those from it on are not.
pub below_count :
    (lo : ℕ) (xs : List ℕ) (key i : ℕ) → IsRising lo xs → i < count_below xs key → xs ! i < key
unfolding count_below
below_count lo [] key i r h = absurd (omega arith)
below_count lo (x ∷ xs) key zero r h = ground (arith, count_below_zero (x + 1) xs key r.1)
below_count lo (x ∷ xs) key (suc i) r h = below_count (x + 1) xs key i r.1 (ground arith)

pub above_count :
    (lo : ℕ) (xs : List ℕ) (key i : ℕ)
    → IsRising lo xs
    → count_below xs key ≤ i
    → i < length xs
    → key ≤ xs ! i
unfolding count_below
above_count lo [] key i r h lt = absurd (omega arith)
above_count lo (x ∷ xs) key zero r h lt = ground arith
above_count lo (x ∷ xs) key (suc i) r h lt =
    ground (arith, above_count (x + 1) xs key i r.1, count_below_zero (x + 1) xs key r.1)

-- The index is determined by these two facts.
pub count_below-eq :
    (lo : ℕ) (xs : List ℕ) (key c : ℕ)
    → IsRising lo xs
    → c ≤ length xs
    → ((i : ℕ) → i < c → xs ! i < key)
    → ((i : ℕ) → c ≤ i → i < length xs → key ≤ xs ! i)
    → count_below xs key ≡ c
count_below-eq lo xs key c r le before after = ground (
  arith,
  before (count_below xs key),
  after c,
  below_count lo xs key c r,
  above_count lo xs key (count_below xs key) r,
  count_below-le xs key,
)

-- Starts in two stretches, the second above the first.
pub IsRising-le : (lo hi : ℕ) (xs : List ℕ) → lo ≤ hi → IsRising hi xs → IsRising lo xs
IsRising-le lo hi [] le r = tt
IsRising-le lo hi (x ∷ xs) le r = (omega (arith, r.0), r.1)

pub IsRising-append :
    (lo mid : ℕ) (xs ys : List ℕ)
    → IsRising lo xs
    → IsRising mid ys
    → ((j : ℕ) → j < length xs → xs ! j < mid)
    → lo ≤ mid
    → IsRising lo (xs ++ ys)
IsRising-append lo mid [] ys r t h le = IsRising-le lo mid ys le t
IsRising-append lo mid (x ∷ xs) ys r t h le = (
  r.0,
  IsRising-append (x + 1) mid xs ys r.1 t (λ j lt. h (suc j) (omega arith)) (omega (arith, h 0)),
)

pub count_below-append :
    (xs ys : List ℕ) (key : ℕ)
    → count_below (xs ++ ys) key ≡ count_below xs key + count_below ys key
unfolding count_below
count_below-append [] ys key = omega arith
count_below-append (x ∷ xs) ys key = omega (arith, count_below-append xs ys key)

pub count_below_all :
    (xs : List ℕ) (key : ℕ)
    → ((j : ℕ) → j < length xs → xs ! j < key)
    → count_below xs key ≡ length xs
unfolding count_below
count_below_all [] key h = refl
count_below_all (x ∷ xs) key h =
    ground (arith, h 0, count_below_all xs key (λ j lt. h (suc j) (omega arith)))

pub !-append_left : (xs ys : List ℕ) (j : ℕ) → j < length xs → (xs ++ ys) ! j ≡ xs ! j
!-append_left [] ys j lt = absurd (omega arith)
!-append_left (x ∷ xs) ys zero lt = refl
!-append_left (x ∷ xs) ys (suc j) lt = !-append_left xs ys j (omega arith)

pub !-append_right :
    (xs ys : List ℕ) (j : ℕ) → length xs ≤ j → (xs ++ ys) ! j ≡ ys ! (j - length xs)
!-append_right [] ys j le = let e : j - 0 ≡ j = omega arith in rw e
!-append_right (x ∷ xs) ys zero le = absurd (omega arith)
!-append_right (x ∷ xs) ys (suc j) le =
    let e : suc j - suc (length xs) ≡ j - length xs = omega arith in
    rw e (!-append_right xs ys j (omega arith))

pub IsRising-le_at : (lo : ℕ) (xs : List ℕ) (i : ℕ) → IsRising lo xs → i < length xs → lo ≤ xs ! i
IsRising-le_at lo [] i r lt = absurd (omega arith)
IsRising-le_at lo (x ∷ xs) zero r lt = r.0
IsRising-le_at lo (x ∷ xs) (suc i) r lt =
    omega (arith, r.0, IsRising-le_at (x + 1) xs i r.1 (omega arith))

pub IsRising-lt :
    (lo : ℕ) (xs : List ℕ) (i j : ℕ) → IsRising lo xs → i < j → j < length xs → xs ! i < xs ! j
IsRising-lt lo [] i j r lt len = absurd (omega arith)
IsRising-lt lo (x ∷ xs) i zero r lt len = absurd (omega arith)
IsRising-lt lo (x ∷ xs) zero (suc j) r lt len =
    omega (arith, IsRising-le_at (x + 1) xs j r.1 (omega arith))
IsRising-lt lo (x ∷ xs) (suc i) (suc j) r lt len =
    IsRising-lt (x + 1) xs i j r.1 (omega arith) (omega arith)
