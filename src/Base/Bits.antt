-- ===== src/Base/Bits.antt =====
-- The native `bit_and` and `bit_or` at variables, by their lowest digit.
use Prim.Native.Nat.{
  ℕ, zero, suc, ◌+◌, ◌*◌, ◌/◌, ◌%◌, ◌≤◌, min, max, digits, bit_and, bit_or, bit_and-bitwise,
  bit_or-bitwise,
}
use mathlib.Core.Path.{◌≡◌, refl}
use native.Mathlib.Omega.{arith}

-- More fuel than the first number changes nothing.
digits_more :
    (z : ℕ → ℕ) (f : ℕ → ℕ → ℕ) (extra n a b : ℕ)
    → a ≤ n
    → a ≤ extra
    → digits z f n a b ≡ digits z f extra a b
digits_more z f zero zero a b le le' = refl
digits_more z f zero (suc n) zero b le le' = refl
digits_more z f zero (suc n) (suc a) b le le' = absurd (omega arith)
digits_more z f (suc m) zero zero b le le' = refl
digits_more z f (suc m) zero (suc a) b le le' = absurd (omega arith)
digits_more z f (suc m) (suc n) zero b le le' = refl
digits_more z f (suc m) (suc n) (suc a) b le le' =
    rw (digits_more z f m n (suc a / 2) (b / 2) (omega arith) (omega arith))

pub bit_or_step : (a b : ℕ) → bit_or a b ≡ bit_or (a / 2) (b / 2) * 2 + max (a % 2) (b % 2)
bit_or_step zero b = omega (arith, bit_or-bitwise 0 b, bit_or-bitwise 0 (b / 2))
bit_or_step (suc a) b = omega (
  arith,
  bit_or-bitwise (suc a) b,
  bit_or-bitwise (suc a / 2) (b / 2),
  digits_more (λ y. y) max (suc a / 2) a (suc a / 2) (b / 2) (omega arith) (omega arith),
)

pub bit_and_step : (a b : ℕ) → bit_and a b ≡ bit_and (a / 2) (b / 2) * 2 + min (a % 2) (b % 2)
bit_and_step zero b = omega (arith, bit_and-bitwise 0 b, bit_and-bitwise 0 (b / 2))
bit_and_step (suc a) b = omega (
  arith,
  bit_and-bitwise (suc a) b,
  bit_and-bitwise (suc a / 2) (b / 2),
  digits_more (λ y. 0) min (suc a / 2) a (suc a / 2) (b / 2) (omega arith) (omega arith),
)

pub zero-bit_or : (b : ℕ) → bit_or 0 b ≡ b
zero-bit_or b = bit_or-bitwise 0 b

bit_or-zero_fuel : (n a : ℕ) → a ≤ n → bit_or a 0 ≡ a
bit_or-zero_fuel n zero le = refl
bit_or-zero_fuel zero (suc a) le = absurd (omega arith)
bit_or-zero_fuel (suc n) (suc a) le =
    omega (arith, bit_or_step (suc a) 0, bit_or-zero_fuel n (suc a / 2) (omega arith))

pub bit_or-zero : (a : ℕ) → bit_or a 0 ≡ a
bit_or-zero a = bit_or-zero_fuel a a (omega arith)

bit_and-le_fuel : (n a b : ℕ) → a ≤ n → bit_and a b ≤ b
bit_and-le_fuel n zero b le = omega (arith, bit_and-bitwise 0 b)
bit_and-le_fuel zero (suc a) b le = absurd (omega arith)
bit_and-le_fuel (suc n) (suc a) b le =
    omega (arith, bit_and_step (suc a) b, bit_and-le_fuel n (suc a / 2) (b / 2) (omega arith))

pub bit_and-le : (a b : ℕ) → bit_and a b ≤ b
bit_and-le a b = bit_and-le_fuel a a b (omega arith)
