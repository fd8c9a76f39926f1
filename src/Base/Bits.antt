-- ===== src/Base/Bits.antt =====
-- The bits of a number, and what the native bit operations do to each.
use Prim.Native.Nat.{
  ℕ, zero, suc, ◌+◌, ◌-◌, ◌*◌, ◌/◌, ◌%◌, ◌^◌, ◌≤◌, ◌<◌, min, max, bit_and, bit_or, digits, bitwise,
  bit_and-bitwise, bit_or-bitwise,
}
use mathlib.Core.Path.{◌≡◌, refl, ap}
use native.Mathlib.Omega.{arith}
use native.Mathlib.Nat.{pow-suc}

-- Bit `i` of `x`, as 0 or 1.
abbrev pub bit_at : ℕ → ℕ → ℕ
bit_at x zero = x % 2
bit_at x (suc i) = bit_at (x / 2) i

pub bit_at-le : (x i : ℕ) → bit_at x i ≤ 1
bit_at-le x zero = omega arith
bit_at-le x (suc i) = bit_at-le (x / 2) i

-- The recursion that the native operations stand for takes fuel; any two amounts that cover the
-- first number give one result.
module _ (rest : ℕ → ℕ) (digit : ℕ → ℕ → ℕ) where
  same_digits : (k l x y : ℕ) → x ≤ k → x ≤ l → digits rest digit k x y ≡ digits rest digit l x y
  same_digits (suc k) (suc l) (suc x) y h g =
      ap (λ t. t * 2 + digit (suc x % 2) (y % 2))
        (same_digits k l (suc x / 2) (y / 2) (omega arith) (omega arith))
  same_digits (suc k) (suc l) zero y h g = refl
  same_digits (suc k) zero zero y h g = refl
  same_digits zero (suc l) zero y h g = refl
  same_digits zero zero zero y h g = refl
  same_digits zero l (suc x) y h g = absurd (omega arith)
  same_digits (suc k) zero (suc x) y h g = absurd (omega arith)

  lowest_digit :
      (x y : ℕ)
      → bitwise rest digit (suc x) y
        ≡ bitwise rest digit (suc x / 2) (y / 2) * 2 + digit (suc x % 2) (y % 2)
  lowest_digit x y =
      ap (λ t. t * 2 + digit (suc x % 2) (y % 2))
        (same_digits x (suc x / 2) (suc x / 2) (y / 2) (omega arith) (omega arith))

pub bit_and_halves : (x y : ℕ) → bit_and x y ≡ bit_and (x / 2) (y / 2) * 2 + min (x % 2) (y % 2)
bit_and_halves zero y = simp bit_and-bitwise (omega arith)
bit_and_halves (suc x) y = simp bit_and-bitwise (lowest_digit (λ t. zero) min x y)

pub bit_or_halves : (x y : ℕ) → bit_or x y ≡ bit_or (x / 2) (y / 2) * 2 + max (x % 2) (y % 2)
bit_or_halves zero y = simp bit_or-bitwise (omega arith)
bit_or_halves (suc x) y = simp bit_or-bitwise (lowest_digit (λ t. t) max x y)

pub bit_at-bit_and : (x y i : ℕ) → bit_at (bit_and x y) i ≡ min (bit_at x i) (bit_at y i)
bit_at-bit_and x y zero = omega (arith, bit_and_halves x y)
bit_at-bit_and x y (suc i) =
    let half : bit_and x y / 2 ≡ bit_and (x / 2) (y / 2) = omega (arith, bit_and_halves x y) in
    rw half (bit_at-bit_and (x / 2) (y / 2) i)

pub bit_at-bit_or : (x y i : ℕ) → bit_at (bit_or x y) i ≡ max (bit_at x i) (bit_at y i)
bit_at-bit_or x y zero = omega (arith, bit_or_halves x y)
bit_at-bit_or x y (suc i) =
    let half : bit_or x y / 2 ≡ bit_or (x / 2) (y / 2) = omega (arith, bit_or_halves x y) in
    rw half (bit_at-bit_or (x / 2) (y / 2) i)

-- `x & ~m` for x and m at least 0: x without the bits of m.
abbrev pub without_bits : ℕ → ℕ → ℕ
without_bits x m = x - bit_and x m

bit_and_zero : (m : ℕ) → bit_and 0 m ≡ 0
bit_and_zero m = simp bit_and-bitwise

bit_and-le_fuel : (k x m : ℕ) → x ≤ k → bit_and x m ≤ x
bit_and-le_fuel k zero m h = omega (arith, bit_and_zero m)
bit_and-le_fuel zero (suc x) m h = absurd (omega arith)
bit_and-le_fuel (suc k) (suc x) m h =
    omega (arith, bit_and_halves (suc x) m, bit_and-le_fuel k (suc x / 2) (m / 2) (omega arith))

pub bit_and-le : (x m : ℕ) → bit_and x m ≤ x
bit_and-le x m = bit_and-le_fuel x x m (omega arith)

pub bit_at-without_bits :
    (x m i : ℕ) → bit_at (without_bits x m) i ≡ bit_at x i - min (bit_at x i) (bit_at m i)
bit_at-without_bits x m zero = omega (arith, bit_and_halves x m, bit_and-le x m)
bit_at-without_bits x m (suc i) =
    let half : without_bits x m / 2 ≡ without_bits (x / 2) (m / 2) =
      omega (arith, bit_and_halves x m, bit_and-le (x / 2) (m / 2)) in
    rw half (bit_at-without_bits (x / 2) (m / 2) i)

-- The bits of one bit moved up, and of a run of ones.
pub bit_at-high : (x i : ℕ) → x < 2 ^ i → bit_at x i ≡ 0
bit_at-high x zero h = omega arith
bit_at-high x (suc i) h = bit_at-high (x / 2) i (omega (arith, pow-suc 2 i))

-- Two numbers with the same bits are equal.
bits_ext_fuel : (k x y : ℕ) → x ≤ k → y ≤ k → ((i : ℕ) → bit_at x i ≡ bit_at y i) → x ≡ y
bits_ext_fuel zero x y h g e = omega arith
bits_ext_fuel (suc k) x y h g e =
    omega (arith, e 0, bits_ext_fuel k (x / 2) (y / 2) (omega arith) (omega arith) (λ i. e (suc i)))

pub bits_ext : (x y : ℕ) → ((i : ℕ) → bit_at x i ≡ bit_at y i) → x ≡ y
bits_ext x y = bits_ext_fuel (x + y) x y (omega arith) (omega arith)
