-- ===== src/Types/Tension/Product.antt =====
-- What the split multiplication of `TensionValue::mul_fp` computes.
use native.Mathlib.Nat.{div-add-mod', div-eq_of_lt, mod-eq_of_lt}
use scc_blockchain.Prelude.{ap, ℕ, ◌+◌, ◌*◌, ◌/◌, ◌%◌, ◌≤◌, ◌<◌, ◌≡◌, min, arith}
use scc_blockchain.Prelude.Int.{pos}
use scc_blockchain.Prelude.Words.{i128_max, u128_max, InI128}
use scc_blockchain.Types.Tension.{TensionValue, scale, mul_abs, mul_fp, unsigned_abs}

-- Splitting a product at the scale loses nothing.
split_product : (a b : ℕ) → (a / scale) * b + (a % scale) * b / scale ≡ a * b / scale
split_product a b = omega (arith, ap (λ (t : ℕ). t * b) (div-add-mod' a scale))

mul_abs-le : (a b : ℕ) → mul_abs a b ≤ i128_max
unfolding mul_abs
mul_abs-le a b = omega arith

-- While the fractional part times the other factor fits a u128, the product of two non-negative
-- values is the exact one, rounded down, and capped at the largest value.
pub mul_fp_exact :
    (a b : ℕ)
    → (a % scale) * b ≤ u128_max
    → mul_fp (pos a) (pos b) ≡ pos (min (a * b / scale) i128_max)
unfolding mul_fp mul_abs
mul_fp_exact a b h = ap pos (omega (arith, split_product a b))

-- The result of a product is always a value of an i128.
pub mul_fp-InI128 : (a b : TensionValue) → InI128 (mul_fp a b)
unfolding mul_fp
mul_fp-InI128 a b = ground (arith, mul_abs-le (unsigned_abs a) (unsigned_abs b))

-- When the first factor is below one unit and the raw product passes the largest u128, the result
-- is 340.28... units, whatever the second factor is.
pub mul_fp_fraction_saturates :
    (a b : ℕ) → a < scale → u128_max < a * b → mul_fp (pos a) (pos b) ≡ pos 340282366920938463463
unfolding mul_fp mul_abs
mul_fp_fraction_saturates a b h big =
    ap pos (
      omega (arith, ap (λ (t : ℕ). t * b) (div-eq_of_lt h), ap (λ (t : ℕ). t * b) (mod-eq_of_lt h)))
