-- ===== src/Format/Checksum.antt =====
-- internal/format/format.go: `Checksum`, hash/crc32's CRC-32C (Castagnoli), bit by bit.
use ip2geo.Base.{
  ℕ, zero, suc, ◌+◌, ◌*◌, ◌/◌, ◌%◌, ◌^◌, ◌≤◌, ◌<◌, List, [], ◌∷◌, ◌==◌, ◌≡◌, refl, if◌then◌else◌,
  arith,
}
use native.Mathlib.Nat.{pow-suc}

-- The exclusive or of two `n`-bit words.
unfoldable pub xor : ℕ → ℕ → ℕ → ℕ
xor zero a b = 0
xor (suc n) a b = (if a % 2 == b % 2 then 0 else 1) + 2 * xor n (a / 2) (b / 2)

abbrev pub castagnoli : ℕ
castagnoli = 0x82f63b78

-- `n` bits of the register.
unfoldable pub crc_bits : ℕ → ℕ → ℕ
crc_bits zero c = c
crc_bits (suc n) c = crc_bits n (if c % 2 == 1 then xor 32 (c / 2) castagnoli else c / 2)

unfoldable pub crc_bytes : ℕ → List ℕ → ℕ
crc_bytes c [] = c
crc_bytes c (x ∷ b) = crc_bytes (crc_bits 8 (xor 32 c x)) b

unfoldable pub checksum : List ℕ → ℕ
checksum b = xor 32 (crc_bytes 0xffffffff b) 0xffffffff

-- The check value of CRC-32C.
check_value :
    checksum (b'1' ∷ b'2' ∷ b'3' ∷ b'4' ∷ b'5' ∷ b'6' ∷ b'7' ∷ b'8' ∷ b'9' ∷ []) ≡ 0xe3069283
unfolding checksum crc_bytes crc_bits xor
check_value = refl

pub xor-lt : (n a b : ℕ) → xor n a b < 2 ^ n
unfolding xor
xor-lt zero a b = omega arith
xor-lt (suc n) a b =
    let low : (if a % 2 == b % 2 then 0 else 1) ≤ 1 = ground arith in
    omega (arith, xor-lt n (a / 2) (b / 2), pow-suc 2 n)

pub checksum-lt : (b : List ℕ) → checksum b < 2 ^ 32
unfolding checksum
checksum-lt b = xor-lt 32 (crc_bytes 0xffffffff b) 0xffffffff
