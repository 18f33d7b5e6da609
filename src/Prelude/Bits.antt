-- ===== src/Prelude/Bits.antt =====
-- The bitwise exclusive or of native numbers: its laws, digit by digit.
use Prim.Native.Nat.{
  ℕ, zero, suc, ◌+◌, ◌-◌, ◌*◌, ◌/◌, ◌%◌, ◌^◌, ◌≤◌, ◌<◌, bit_xor, digits, differ, bit_xor-bitwise,
}
use mathlib.Core.Path.{◌≡◌, refl, ap, ◌∙◌}
use native.Mathlib.Omega.{arith}

abbrev xor_digits : ℕ → ℕ → ℕ → ℕ
xor_digits n a b = digits (λ b. b) differ n a b

xor_digits_fuel : (n m a b : ℕ) → a ≤ n → a ≤ m → xor_digits n a b ≡ xor_digits m a b
xor_digits_fuel zero zero a b p q = refl
xor_digits_fuel zero (suc m) zero b p q = refl
xor_digits_fuel zero (suc m) (suc a) b p q = absurd (omega arith)
xor_digits_fuel (suc n) zero zero b p q = refl
xor_digits_fuel (suc n) zero (suc a) b p q = absurd (omega arith)
xor_digits_fuel (suc n) (suc m) zero b p q = refl
xor_digits_fuel (suc n) (suc m) (suc a) b p q =
    omega (arith, xor_digits_fuel n m (suc a / 2) (b / 2) (omega arith) (omega arith))

zero-bit_xor : (b : ℕ) → bit_xor 0 b ≡ b
zero-bit_xor b = bit_xor-bitwise 0 b

differ_lem : (x y : ℕ) → differ x y ≡ (x - y) + (y - x)
differ_lem zero y = omega arith
differ_lem (suc x) zero = omega arith
differ_lem (suc x) (suc y) = omega (arith, differ_lem x y)

pub bit_xor_step :
    (a b : ℕ) → bit_xor a b ≡ bit_xor (a / 2) (b / 2) * 2 + ((a % 2 - b % 2) + (b % 2 - a % 2))
bit_xor_step zero b = omega (arith, zero-bit_xor b, zero-bit_xor (b / 2))
bit_xor_step (suc a) b = omega (
  arith,
  bit_xor-bitwise (suc a) b,
  bit_xor-bitwise (suc a / 2) (b / 2),
  xor_digits_fuel a (suc a / 2) (suc a / 2) (b / 2) (omega arith) (omega arith),
  differ_lem (suc a % 2) (b % 2),
)

-- The halves and the lowest digit of the result.
pub bit_xor-half : (a b : ℕ) → bit_xor a b / 2 ≡ bit_xor (a / 2) (b / 2)
bit_xor-half a b = omega (arith, bit_xor_step a b)

bit_xor_low : (a b : ℕ) → bit_xor a b % 2 ≡ (a % 2 - b % 2) + (b % 2 - a % 2)
bit_xor_low a b = omega (arith, bit_xor_step a b)

bit_xor-self_fuel : (n b : ℕ) → b ≤ n → bit_xor b b ≡ 0
bit_xor-self_fuel n zero h = zero-bit_xor 0
bit_xor-self_fuel zero (suc b) h = absurd (omega arith)
bit_xor-self_fuel (suc n) (suc b) h =
    omega (arith, bit_xor_step (suc b) (suc b), bit_xor-self_fuel n (suc b / 2) (omega arith))

pub bit_xor_self : (b : ℕ) → bit_xor b b ≡ 0
bit_xor_self b = bit_xor-self_fuel b b (omega arith)

bit_xor-bit_xor_fuel : (n a b : ℕ) → a ≤ n → bit_xor (bit_xor a b) b ≡ a
bit_xor-bit_xor_fuel n zero b h = ap (λ x. bit_xor x b) (zero-bit_xor b) ∙ bit_xor_self b
bit_xor-bit_xor_fuel zero (suc a) b h = absurd (omega arith)
bit_xor-bit_xor_fuel (suc n) (suc a) b h = omega (
  arith,
  bit_xor_step (bit_xor (suc a) b) b,
  ap (λ x. bit_xor x (b / 2)) (bit_xor-half (suc a) b),
  bit_xor_low (suc a) b,
  bit_xor-bit_xor_fuel n (suc a / 2) (b / 2) (omega arith),
)

-- The same operand taken twice cancels.
pub bit_xor-bit_xor : (a b : ℕ) → bit_xor (bit_xor a b) b ≡ a
bit_xor-bit_xor a b = bit_xor-bit_xor_fuel a a b (omega arith)

pub bit_xor-zero : (a : ℕ) → bit_xor a 0 ≡ a
bit_xor-zero a = zero_right a a (omega arith)
  where
    zero_right : (n a : ℕ) → a ≤ n → bit_xor a 0 ≡ a
    zero_right n zero h = zero-bit_xor 0
    zero_right zero (suc a) h = absurd (omega arith)
    zero_right (suc n) (suc a) h =
        omega (arith, bit_xor_step (suc a) 0, zero_right n (suc a / 2) (omega arith))

-- The operand that two numbers share cancels between them.
bit_xor_cancel_fuel :
    (n a b k : ℕ) → a ≤ n → b ≤ n → k ≤ n → bit_xor (bit_xor a k) (bit_xor b k) ≡ bit_xor a b
bit_xor_cancel_fuel zero zero zero zero p q r = refl
bit_xor_cancel_fuel zero (suc a) b k p q r = absurd (omega arith)
bit_xor_cancel_fuel zero zero (suc b) k p q r = absurd (omega arith)
bit_xor_cancel_fuel zero zero zero (suc k) p q r = absurd (omega arith)
bit_xor_cancel_fuel (suc n) a b k p q r = omega (
  arith,
  bit_xor_step (bit_xor a k) (bit_xor b k),
  ap (λ x. bit_xor x (bit_xor b k / 2)) (bit_xor-half a k),
  ap (λ x. bit_xor (bit_xor (a / 2) (k / 2)) x) (bit_xor-half b k),
  bit_xor_low a k,
  bit_xor_low b k,
  bit_xor_step a b,
  bit_xor_cancel_fuel n (a / 2) (b / 2) (k / 2) (omega arith) (omega arith) (omega arith),
)

pub bit_xor_cancel : (a b k : ℕ) → bit_xor (bit_xor a k) (bit_xor b k) ≡ bit_xor a b
bit_xor_cancel a b k =
    bit_xor_cancel_fuel (a + b + k) a b k (omega arith) (omega arith) (omega arith)

-- A byte changes only the lowest eight digits.
pub bit_xor_byte : (a b : ℕ) → b < 256 → bit_xor a b / 256 ≡ a / 256
bit_xor_byte a b lt = omega (
  arith,
  bit_xor-half a b,
  bit_xor-half (a / 2) (b / 2),
  bit_xor-half (a / 2 / 2) (b / 2 / 2),
  bit_xor-half (a / 2 / 2 / 2) (b / 2 / 2 / 2),
  bit_xor-half (a / 2 / 2 / 2 / 2) (b / 2 / 2 / 2 / 2),
  bit_xor-half (a / 2 / 2 / 2 / 2 / 2) (b / 2 / 2 / 2 / 2 / 2),
  bit_xor-half (a / 2 / 2 / 2 / 2 / 2 / 2) (b / 2 / 2 / 2 / 2 / 2 / 2),
  bit_xor-half (a / 2 / 2 / 2 / 2 / 2 / 2 / 2) (b / 2 / 2 / 2 / 2 / 2 / 2 / 2),
  ap (bit_xor (a / 2 / 2 / 2 / 2 / 2 / 2 / 2 / 2))
      (let z : b / 2 / 2 / 2 / 2 / 2 / 2 / 2 / 2 ≡ 0 = omega arith in z),
  bit_xor-zero (a / 2 / 2 / 2 / 2 / 2 / 2 / 2 / 2),
)

pow_step : (k : ℕ) → 2 ^ suc k ≡ 2 * 2 ^ k
pow_step k = omega arith

-- Numbers of k digits give a number of k digits.
pub bit_xor-lt : (k a b : ℕ) → a < 2 ^ k → b < 2 ^ k → bit_xor a b < 2 ^ k
bit_xor-lt zero zero zero p q = omega arith
bit_xor-lt zero (suc a) b p q = absurd (omega arith)
bit_xor-lt zero zero (suc b) p q = absurd (omega arith)
bit_xor-lt (suc k) a b p q = omega (
  arith,
  pow_step k,
  bit_xor_step a b,
  bit_xor-lt k (a / 2) (b / 2) (omega (arith, pow_step k)) (omega (arith, pow_step k)),
)
