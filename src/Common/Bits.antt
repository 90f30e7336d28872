-- ===== src/Common/Bits.antt =====
-- Masks as arithmetic, one digit of the mask at a time.
mod Digits
use Prim.Native.Nat.{ℕ, zero, suc, ◌≤◌, ◌+◌, ◌*◌, ◌/◌, ◌%◌, bit_and, bit_and-bitwise}
use mathlib.Core.Path.{◌≡◌, refl, ap}
use native.Mathlib.Omega.{arith}
use Digits.{bit_and_halves, bit_and_nothing, bit_and_even, bit_and_odd}
pub use Digits.{bit_xor_twice}

pub low_bits1 : (b : ℕ) → bit_and b 1 ≡ b % 2
low_bits1 b = omega (arith, bit_and_odd b 0, bit_and_nothing (b / 2))

pub low_bits2 : (b : ℕ) → bit_and b 3 ≡ b % 4
low_bits2 b = omega (arith, bit_and_odd b 1, low_bits1 (b / 2))

low_bits3 : (b : ℕ) → bit_and b 7 ≡ b % 8
low_bits3 b = omega (arith, bit_and_odd b 3, low_bits2 (b / 2))

pub low_bits4 : (b : ℕ) → bit_and b 15 ≡ b % 16
low_bits4 b = omega (arith, bit_and_odd b 7, low_bits3 (b / 2))

low_bits5 : (b : ℕ) → bit_and b 31 ≡ b % 32
low_bits5 b = omega (arith, bit_and_odd b 15, low_bits4 (b / 2))

low_bits6 : (b : ℕ) → bit_and b 63 ≡ b % 64
low_bits6 b = omega (arith, bit_and_odd b 31, low_bits5 (b / 2))

pub low_bits7 : (b : ℕ) → bit_and b 127 ≡ b % 128
low_bits7 b = omega (arith, bit_and_odd b 63, low_bits6 (b / 2))

bit1 : (b : ℕ) → bit_and b 2 ≡ b / 2 % 2 * 2
bit1 b = omega (arith, bit_and_even b 1, low_bits1 (b / 2))

bit2 : (b : ℕ) → bit_and b 4 ≡ b / 4 % 2 * 4
bit2 b = omega (arith, bit_and_even b 2, bit1 (b / 2))

bit3 : (b : ℕ) → bit_and b 8 ≡ b / 8 % 2 * 8
bit3 b = omega (arith, bit_and_even b 4, bit2 (b / 2))

bit4 : (b : ℕ) → bit_and b 16 ≡ b / 16 % 2 * 16
bit4 b = omega (arith, bit_and_even b 8, bit3 (b / 2))

bit5 : (b : ℕ) → bit_and b 32 ≡ b / 32 % 2 * 32
bit5 b = omega (arith, bit_and_even b 16, bit4 (b / 2))

bit6 : (b : ℕ) → bit_and b 64 ≡ b / 64 % 2 * 64
bit6 b = omega (arith, bit_and_even b 32, bit5 (b / 2))

pub top_bit : (b : ℕ) → bit_and b 128 ≡ b / 128 % 2 * 128
top_bit b = omega (arith, bit_and_even b 64, bit6 (b / 2))

nibble1 : (b : ℕ) → bit_and b 30 ≡ b / 2 % 16 * 2
nibble1 b = omega (arith, bit_and_even b 15, low_bits4 (b / 2))

nibble2 : (b : ℕ) → bit_and b 60 ≡ b / 4 % 16 * 4
nibble2 b = omega (arith, bit_and_even b 30, nibble1 (b / 2))

nibble3 : (b : ℕ) → bit_and b 120 ≡ b / 8 % 16 * 8
nibble3 b = omega (arith, bit_and_even b 60, nibble2 (b / 2))

pub high_bits4 : (b : ℕ) → bit_and b 240 ≡ b / 16 % 16 * 16
high_bits4 b = omega (arith, bit_and_even b 120, nibble3 (b / 2))

-- The two bits of a QoS level.
pub qos_bits : (b : ℕ) → bit_and b 6 ≡ b / 2 % 4 * 2
qos_bits b = omega (arith, bit_and_even b 3, low_bits2 (b / 2))

ones : (m d : ℕ) → bit_and (2 * m + 1) d ≡ d % 2 + 2 * bit_and m (d / 2)
ones m d =
    let half : (2 * m + 1) / 2 ≡ m = omega arith in
    omega (arith, bit_and_halves (2 * m + 1) d, ap (λ n. bit_and n (d / 2)) half)

ones4 : (d : ℕ) → bit_and 15 d ≡ d % 16
ones4 d = omega (
  arith,
  ones 7 d,
  ones 3 (d / 2),
  ones 1 (d / 2 / 2),
  ones 0 (d / 2 / 2 / 2),
  nothing (d / 2 / 2 / 2 / 2),
)
  where
    nothing : (n : ℕ) → bit_and 0 n ≡ 0
    nothing n = bit_and-bitwise 0 n

-- A byte under a mask that keeps all of it.
pub bit_and_ones : (d : ℕ) → bit_and 0xFF d ≡ d % 256
bit_and_ones d = omega (
  arith,
  ones 127 d,
  ones 63 (d / 2),
  ones 31 (d / 2 / 2),
  ones 15 (d / 2 / 2 / 2),
  ones4 (d / 2 / 2 / 2 / 2),
)

bit_and_le_within : (k x y : ℕ) → x ≤ k → bit_and x y ≤ x
bit_and_le_within k zero y h = omega (arith, bit_and-bitwise 0 y)
bit_and_le_within zero (suc x) y h = absurd (omega arith)
bit_and_le_within (suc k) (suc x) y h =
    omega (arith, bit_and_halves (suc x) y, bit_and_le_within k (suc x / 2) (y / 2) (omega arith))

pub bit_and_le : (x y : ℕ) → bit_and x y ≤ x
bit_and_le x y = bit_and_le_within x x y (omega arith)
