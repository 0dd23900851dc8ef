-- ===== src/Prelude/Bits.antt =====
-- The binary digits of a number, and what the bitwise operators do to each.
use Prim.Native.Nat.{
  ℕ, zero, suc, ◌-◌, ◌/◌, ◌%◌, ◌^◌, ◌≤◌, ◌<◌, min, max, differ, digits, bit_and, bit_or, bit_xor,
  bit_and-bitwise, bit_or-bitwise, bit_xor-bitwise,
}
use mathlib.Core.Path.{◌≡◌, refl, ap, ◌∙◌}
use native.Mathlib.Nat.{pow-suc}
use native.Mathlib.Omega.{arith}
use eda.Prelude.Tests.{◌==◌, if◌then◌else◌}

-- Digit `k` of `x`, lowest first.
unfoldable pub bit : ℕ → ℕ → ℕ
bit x zero = x % 2
bit x (suc k) = bit (x / 2) k

pub bit_lt : (x k : ℕ) → bit x k < 2
unfolding bit
bit_lt x zero = omega arith
bit_lt x (suc k) = bit_lt (x / 2) k

pub bit-zero : (k : ℕ) → bit 0 k ≡ 0
unfolding bit
bit-zero zero = refl
bit-zero (suc k) = bit-zero k

-- A number with no digit set is zero.
zero_of_bits_fuel : (n x : ℕ) → x ≤ n → ((k : ℕ) → bit x k ≡ 0) → x ≡ 0
unfolding bit
zero_of_bits_fuel zero x h all = omega arith
zero_of_bits_fuel (suc n) zero h all = refl
zero_of_bits_fuel (suc n) (suc x) h all =
    omega (arith, all 0, zero_of_bits_fuel n (suc x / 2) (omega arith) (λ k. all (suc k)))

pub zero_of_bits : (x : ℕ) → ((k : ℕ) → bit x k ≡ 0) → x ≡ 0
zero_of_bits x = zero_of_bits_fuel x x (omega arith)

-- Digits of the result of a digitwise operation `f`, where `z` is what is left of the second number.
module _ (z : ℕ → ℕ) (f : ℕ → ℕ → ℕ) (small : (x y : ℕ) → x < 2 → y < 2 → f x y < 2)
    (rest : (b k : ℕ) → bit (z b) k ≡ f 0 (bit b k)) where
  bit-digits : (n a b k : ℕ) → a ≤ n → bit (digits z f n a b) k ≡ f (bit a k) (bit b k)
  unfolding bit
  bit-digits zero zero b k h = rw bit-zero (rest b k)
  bit-digits zero (suc a) b k h = absurd (omega arith)
  bit-digits (suc n) zero b k h = rw bit-zero (rest b k)
  bit-digits (suc n) (suc a) b zero h =
      omega (arith, small (suc a % 2) (b % 2) (omega arith) (omega arith))
  bit-digits (suc n) (suc a) b (suc k) h =
      let low = small (suc a % 2) (b % 2) (omega arith) (omega arith) in
      ap (λ x. bit x k) (omega (arith, low)) ∙ bit-digits n (suc a / 2) (b / 2) k (omega arith)

pub bit-bit_and : (a b k : ℕ) → bit (bit_and a b) k ≡ min (bit a k) (bit b k)
bit-bit_and a b k =
    ap (λ x. bit x k) (bit_and-bitwise a b)
    ∙ bit-digits (λ b. zero) min (λ x y h g. omega arith) (λ b k. omega (arith, bit-zero k)) a a b k
        (omega arith)

pub bit-bit_or : (a b k : ℕ) → bit (bit_or a b) k ≡ max (bit a k) (bit b k)
bit-bit_or a b k =
    ap (λ x. bit x k) (bit_or-bitwise a b)
    ∙ bit-digits (λ b. b) max (λ x y h g. omega arith) (λ b k. omega arith) a a b k (omega arith)

differ-lt : (x y : ℕ) → x < 2 → y < 2 → differ x y < 2
differ-lt zero y h g = g
differ-lt (suc zero) zero h g = omega arith
differ-lt (suc zero) (suc zero) h g = omega arith
differ-lt (suc zero) (suc (suc y)) h g = absurd (omega arith)
differ-lt (suc (suc x)) y h g = absurd (omega arith)

pub bit-bit_xor : (a b k : ℕ) → bit (bit_xor a b) k ≡ differ (bit a k) (bit b k)
bit-bit_xor a b k =
    ap (λ x. bit x k) (bit_xor-bitwise a b)
    ∙ bit-digits (λ b. b) differ differ-lt (λ b k. refl) a a b k (omega arith)

-- Power of two: one digit.
pub bit-pow : (k j : ℕ) → bit (2 ^ k) j ≡ (if k == j then 1 else 0)
unfolding bit
bit-pow zero zero = refl
bit-pow zero (suc j) = ground (arith, bit-zero j)
bit-pow (suc k) zero = ground (arith, pow-suc 2 k)
bit-pow (suc k) (suc j) =
    ap (λ x. bit x j) {x = 2 ^ suc k / 2} {y = 2 ^ k} (omega arith) ∙ ground (arith, bit-pow k j)

-- Complement within `n` digits.
pub bit-complement : (n x k : ℕ) → x < 2 ^ n → k < n → bit (2 ^ n - 1 - x) k ≡ 1 - bit x k
unfolding bit
bit-complement zero x k h g = absurd (omega arith)
bit-complement (suc n) x zero h g = omega arith
bit-complement (suc n) x (suc k) h g =
    ap (λ y. bit y k) {x = (2 ^ suc n - 1 - x) / 2} {y = 2 ^ n - 1 - x / 2} (omega arith)
    ∙ bit-complement n (x / 2) k (omega arith) (omega arith)

-- The test of one digit by a mask.
pub bit_and-pow_zero : (x k : ℕ) → bit x k ≡ 0 → bit_and x (2 ^ k) ≡ 0
bit_and-pow_zero x k h = zero_of_bits _ λ j. ground (arith, bit-bit_and x (2 ^ k) j, bit-pow k j)

pub bit_and-pow_ne : (x k : ℕ) → bit_and x (2 ^ k) ≡ 0 → bit x k ≡ 0
bit_and-pow_ne x k h = ground (arith, bit-bit_and x (2 ^ k) k, bit-pow k k, bit_lt x k, bit-zero k)
