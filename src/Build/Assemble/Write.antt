-- ===== src/Build/Assemble/Write.antt =====
-- What `write` leaves: the bytes written, and all others as they were.
use ip2geo.Base.{
  ℕ, zero, suc, ◌+◌, ◌≤◌, ◌≡◌, refl, ap, List, [], ◌∷◌, ◌++◌, length, take, drop, arith,
}
use ip2geo.Build.Assemble.{write}

pub length-write : (off : ℕ) (s b : List ℕ) → length (write off s b) ≡ length b
unfolding write
length-write off s [] = refl
length-write (suc off) s (x ∷ b) = ap suc (length-write off s b)
length-write zero [] (x ∷ b) = refl
length-write zero (y ∷ s) (x ∷ b) = ap suc (length-write zero s b)

pub write_written :
    (off : ℕ) (s b : List ℕ)
    → off + length s ≤ length b
    → take (length s) (drop off (write off s b)) ≡ s
unfolding write
write_written zero [] [] le = refl
write_written zero (y ∷ s) [] le = absurd (omega arith)
write_written (suc off) s [] le = absurd (omega arith)
write_written (suc off) s (x ∷ b) le = write_written off s b (omega arith)
write_written zero [] (x ∷ b) le = refl
write_written zero (y ∷ s) (x ∷ b) le = ap (λ l. y ∷ l) (write_written zero s b (omega arith))

pub write_before : (off : ℕ) (s b : List ℕ) (n : ℕ) → n ≤ off → take n (write off s b) ≡ take n b
unfolding write
write_before off s b zero le = refl
write_before off s [] (suc n) le = refl
write_before (suc off) s (x ∷ b) (suc n) le = ap (λ l. x ∷ l) (write_before off s b n (omega arith))
write_before zero s (x ∷ b) (suc n) le = absurd (omega arith)

pub write_after :
    (off : ℕ) (s b : List ℕ) (n : ℕ) → off + length s ≤ n → drop n (write off s b) ≡ drop n b
unfolding write
write_after off s [] n le = refl
write_after (suc off) s (x ∷ b) zero le = absurd (omega arith)
write_after (suc off) s (x ∷ b) (suc n) le = write_after off s b n (omega arith)
write_after zero [] (x ∷ b) n le = refl
write_after zero (y ∷ s) (x ∷ b) zero le = absurd (omega arith)
write_after zero (y ∷ s) (x ∷ b) (suc n) le = write_after zero s b n (omega arith)

-- A window below `m` is the same in lists that agree up to `m`.
pub window_of_take :
    (m off n : ℕ) (a b : List ℕ)
    → off + n ≤ m
    → take m a ≡ take m b
    → take n (drop off a) ≡ take n (drop off b)
window_of_take zero zero zero a b le e = refl
window_of_take zero zero (suc n) a b le e = absurd (omega arith)
window_of_take zero (suc off) n a b le e = absurd (omega arith)
window_of_take (suc m) off n [] [] le e = refl
window_of_take (suc m) off n [] (y ∷ b) le e = absurd (ground arith)
window_of_take (suc m) off n (x ∷ a) [] le e = absurd (ground arith)
window_of_take (suc m) zero zero (x ∷ a) (y ∷ b) le e = refl
window_of_take (suc m) zero (suc n) (x ∷ a) (y ∷ b) le e =
    let same : x ≡ y = cc in
    let rest : take m a ≡ take m b = cc in rw (same, window_of_take m zero n a b (omega arith) rest)
window_of_take (suc m) (suc off) n (x ∷ a) (y ∷ b) le e =
    let rest : take m a ≡ take m b = cc in window_of_take m off n a b (omega arith) rest

pub take-drop : (n : ℕ) (b : List ℕ) → take n b ++ drop n b ≡ b
take-drop zero b = refl
take-drop (suc n) [] = refl
take-drop (suc n) (x ∷ b) = ap (λ l. x ∷ l) (take-drop n b)

pub drop-drop : (n m k : ℕ) (b : List ℕ) → k ≡ n + m → drop m (drop n b) ≡ drop k b
drop-drop zero m k b e = let same : m ≡ k = omega arith in rw same
drop-drop (suc n) m zero b e = absurd (omega arith)
drop-drop (suc n) zero (suc k) [] e = refl
drop-drop (suc n) (suc m) (suc k) [] e = refl
drop-drop (suc n) m (suc k) (x ∷ b) e = drop-drop n m k b (omega arith)
