-- ===== src/Prelude/Bits.antt =====
-- `bit_and` with a mask: ones above zeros. It rounds a number down to a multiple of a power of two.
use Prim.Native.Nat.{
  ℕ, zero, suc, ◌+◌, ◌-◌, ◌*◌, ◌/◌, ◌^◌, ◌≤◌, ◌<◌, min, bit_and, digits, bit_and-bitwise,
}
use mathlib.Core.Path.{◌≡◌, refl, sym, ◌∙◌}
use native.Mathlib.Omega.{arith}

-- `high` ones above `low` zeros.
mask : (low high : ℕ) → ℕ
mask zero zero = 0
mask zero (suc high) = mask zero high * 2 + 1
mask (suc low) high = mask low high * 2

-- The number without its lowest digits.
round_down : (low a : ℕ) → ℕ
round_down zero a = a
round_down (suc low) a = round_down low (a / 2) * 2

round_down-zero : (low : ℕ) → round_down low 0 ≡ 0
unfolding round_down
round_down-zero zero = refl
round_down-zero (suc low) = omega (arith, round_down-zero low)

-- By recursion on the count of digits, the mask and the number losing one digit each time.
digits-mask :
    (count low high a : ℕ)
    → a ≤ count
    → round_down low a ≤ mask low high
    → digits (λ _. 0) min count a (mask low high) ≡ round_down low a
unfolding mask round_down
digits-mask zero low high zero le fits = sym (round_down-zero low)
digits-mask zero low high (suc a) le fits = absurd (omega arith)
digits-mask (suc count) low high zero le fits = sym (round_down-zero low)
digits-mask (suc count) zero zero (suc a) le fits = absurd (omega arith)
digits-mask (suc count) zero (suc high) (suc a) le fits =
    let half : (mask zero high * 2 + 1) / 2 ≡ mask zero high = omega arith in
    rw half (omega (arith, digits-mask count zero high (suc a / 2)))
digits-mask (suc count) (suc low) high (suc a) le fits =
    let half : mask low high * 2 / 2 ≡ mask low high = omega arith in
    rw half (omega (arith, digits-mask count low high (suc a / 2)))

-- A 64-bit number under a mask that ends in three zeros is rounded down to a multiple of eight.
pub bit_and_eights : (a : ℕ) → a < 2 ^ 64 → bit_and a (2 ^ 64 - 8) ≡ a / 8 * 8
unfolding mask round_down
bit_and_eights a h =
    bit_and-bitwise a (2 ^ 64 - 8) ∙ digits-mask a 3 61 a (omega arith) (omega arith) ∙ omega arith
