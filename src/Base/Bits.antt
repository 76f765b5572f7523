-- ===== src/Base/Bits.antt =====
-- `^` of C on unsigned values: it undoes itself.
use Prim.Native.Nat.{
  ℕ, zero, suc, ◌+◌, ◌*◌, ◌/◌, ◌%◌, ◌≤◌, ◌<◌, bit_xor, differ, digits, bit_xor-bitwise,
}
use mathlib.Core.Path.{◌≡◌, refl, ap₂, ◌∙◌}
use native.Mathlib.Omega.{arith}

abbrev xor_digits : ℕ → ℕ → ℕ → ℕ
xor_digits n a b = digits (λ b. b) differ n a b

xor_digits_fuel : (n m a b : ℕ) → a ≤ n → a ≤ m → xor_digits n a b ≡ xor_digits m a b
xor_digits_fuel zero zero a b p q = refl
xor_digits_fuel zero (suc m) zero b p q = refl
xor_digits_fuel zero (suc m) (suc a) b p q = absurd (omega arith)
xor_digits_fuel (suc n) zero zero b p q = refl
xor_digits_fuel (suc n) zero (suc a) b p q = absurd (omega arith)
xor_digits_fuel (suc n) (suc m) zero b p q = refl
xor_digits_fuel (suc n) (suc m) (suc a) b p q =
    omega (arith, xor_digits_fuel n m (suc a / 2) (b / 2) (omega arith) (omega arith))

pub zero-bit_xor : (b : ℕ) → bit_xor 0 b ≡ b
zero-bit_xor b = bit_xor-bitwise 0 b

-- The digit function, on digits that are 0 or 1.
differ_digit : (a b : ℕ) → a < 2 → b < 2 → (differ a b < 2) × (differ a (differ a b) ≡ b)
differ_digit zero b p q = (q, refl)
differ_digit (suc zero) zero p q = (p, refl)
differ_digit (suc zero) (suc zero) p q = (omega arith, refl)
differ_digit (suc zero) (suc (suc b)) p q = absurd (omega arith)
differ_digit (suc (suc a)) b p q = absurd (omega arith)

bit_xor_step : (a b : ℕ) → bit_xor a b ≡ bit_xor (a / 2) (b / 2) * 2 + differ (a % 2) (b % 2)
bit_xor_step zero b = omega (arith, zero-bit_xor b, zero-bit_xor (b / 2))
bit_xor_step (suc a) b = omega (
  arith,
  bit_xor-bitwise (suc a) b,
  bit_xor-bitwise (suc a / 2) (b / 2),
  xor_digits_fuel a (suc a / 2) (suc a / 2) (b / 2) (omega arith) (omega arith),
)

xor_twice_fuel : (n a b : ℕ) → a ≤ n → bit_xor a (bit_xor a b) ≡ b
xor_twice_fuel n zero b h = zero-bit_xor (bit_xor 0 b) ∙ zero-bit_xor b
xor_twice_fuel zero (suc a) b h = absurd (omega arith)
xor_twice_fuel (suc n) (suc a) b h =
    bit_xor_step (suc a) c
    ∙ ap₂ (λ (x y : ℕ). bit_xor (suc a / 2) x * 2 + differ (suc a % 2) y) half digit
    ∙ omega (arith, xor_twice_fuel n (suc a / 2) (b / 2) (omega arith), fact.1)
  where
    c : ℕ
    c = bit_xor (suc a) b

    fact :
        (differ (suc a % 2) (b % 2) < 2) × (differ (suc a % 2) (differ (suc a % 2) (b % 2)) ≡ b % 2)
    fact = differ_digit (suc a % 2) (b % 2) (omega arith) (omega arith)

    half : c / 2 ≡ bit_xor (suc a / 2) (b / 2)
    half = omega (arith, bit_xor_step (suc a) b, fact.0)

    digit : c % 2 ≡ differ (suc a % 2) (b % 2)
    digit = omega (arith, bit_xor_step (suc a) b, fact.0)

-- What is combined with the same value twice comes back.
pub xor_twice : (a b : ℕ) → bit_xor a (bit_xor a b) ≡ b
xor_twice a b = xor_twice_fuel a a b (omega arith)
