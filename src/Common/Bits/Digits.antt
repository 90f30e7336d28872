-- ===== src/Common/Bits/Digits.antt =====
-- `bit_and` and `bit_xor` at variables, from the digits that the native operations stand for.
use Prim.Native.Nat.{ℕ, zero, suc, ◌+◌, ◌*◌, ◌/◌, ◌%◌, ◌≤◌, ◌<◌, min, digits, differ}
use Prim.Native.Nat.{bit_and, bit_and-bitwise, bit_xor, bit_xor-bitwise}
use mathlib.Core.Path.{◌≡◌, refl, ap}
use native.Mathlib.Omega.{arith}

-- Rounds beyond the digits of `x` change nothing.
module _ (rest : ℕ → ℕ) (f : ℕ → ℕ → ℕ) where
  digits_rounds : (k l x y : ℕ) → x ≤ k → x ≤ l → digits rest f k x y ≡ digits rest f l x y
  digits_rounds zero zero x y h g = refl
  digits_rounds zero (suc l) zero y h g = refl
  digits_rounds (suc k) zero zero y h g = refl
  digits_rounds (suc k) (suc l) zero y h g = refl
  digits_rounds zero (suc l) (suc x) y h g = elim h [ ]
  digits_rounds (suc k) zero (suc x) y h g = elim g [ ]
  digits_rounds (suc k) (suc l) (suc x) y h g =
      omega (arith, digits_rounds k l (suc x / 2) (y / 2) (omega arith) (omega arith))

-- The lowest digit apart.
pub bit_and_halves : (x y : ℕ) → bit_and x y ≡ min (x % 2) (y % 2) + 2 * bit_and (x / 2) (y / 2)
bit_and_halves zero y = omega (arith, bit_and-bitwise 0 y, bit_and-bitwise 0 (y / 2))
bit_and_halves (suc x) y =
    let tail =
      digits_rounds (λ b. 0) min x (suc x / 2) (suc x / 2) (y / 2) (omega arith) (omega arith) in
    omega (arith, tail, bit_and-bitwise (suc x) y, bit_and-bitwise (suc x / 2) (y / 2))

-- A mask whose lowest digit is 0.
pub bit_and_even : (x m : ℕ) → bit_and x (2 * m) ≡ 2 * bit_and (x / 2) m
bit_and_even x m =
    let half : 2 * m / 2 ≡ m = omega arith in
    omega (arith, bit_and_halves x (2 * m), ap (bit_and (x / 2)) half)

-- A mask whose lowest digit is 1.
pub bit_and_odd : (x m : ℕ) → bit_and x (2 * m + 1) ≡ x % 2 + 2 * bit_and (x / 2) m
bit_and_odd x m =
    let half : (2 * m + 1) / 2 ≡ m = omega arith in
    omega (arith, bit_and_halves x (2 * m + 1), ap (bit_and (x / 2)) half)

bit_and_nothing_within : (k x : ℕ) → x ≤ k → bit_and x 0 ≡ 0
bit_and_nothing_within k zero h = refl
bit_and_nothing_within zero (suc x) h = elim h [ ]
bit_and_nothing_within (suc k) (suc x) h =
    omega (arith, bit_and_halves (suc x) 0, bit_and_nothing_within k (suc x / 2) (omega arith))

pub bit_and_nothing : (x : ℕ) → bit_and x 0 ≡ 0
bit_and_nothing x = bit_and_nothing_within x x (omega arith)

differ_parity : (a b : ℕ) → a < 2 → b < 2 → differ a b ≡ (a + b) % 2
differ_parity zero b h g = omega arith
differ_parity (suc zero) zero h g = refl
differ_parity (suc zero) (suc zero) h g = refl
differ_parity (suc zero) (suc (suc b)) h g = absurd (omega arith)
differ_parity (suc (suc a)) b h g = absurd (omega arith)

pub bit_xor_halves : (x y : ℕ) → bit_xor x y ≡ (x + y) % 2 + 2 * bit_xor (x / 2) (y / 2)
bit_xor_halves zero y = omega (arith, bit_xor-bitwise 0 y, bit_xor-bitwise 0 (y / 2))
bit_xor_halves (suc x) y =
    let tail =
      digits_rounds (λ b. b) differ x (suc x / 2) (suc x / 2) (y / 2) (omega arith) (omega arith) in
    omega (
      arith,
      tail,
      differ_parity (suc x % 2) (y % 2) (omega arith) (omega arith),
      bit_xor-bitwise (suc x) y,
      bit_xor-bitwise (suc x / 2) (y / 2),
    )

bit_xor_twice_within : (k x m : ℕ) → x ≤ k → m ≤ k → bit_xor (bit_xor x m) m ≡ x
bit_xor_twice_within zero zero zero h g = refl
bit_xor_twice_within zero (suc x) m h g = elim h [ ]
bit_xor_twice_within zero zero (suc m) h g = elim g [ ]
bit_xor_twice_within (suc k) x m h g =
    let half : bit_xor x m / 2 ≡ bit_xor (x / 2) (m / 2) = omega (arith, bit_xor_halves x m) in
    omega (
      arith,
      bit_xor_halves (bit_xor x m) m,
      bit_xor_halves x m,
      ap (λ t. bit_xor t (m / 2)) half,
      bit_xor_twice_within k (x / 2) (m / 2) (omega arith) (omega arith),
    )

-- A number masked twice with one key is the number.
pub bit_xor_twice : (x m : ℕ) → bit_xor (bit_xor x m) m ≡ x
bit_xor_twice x m = bit_xor_twice_within (x + m) x m (omega arith) (omega arith)
