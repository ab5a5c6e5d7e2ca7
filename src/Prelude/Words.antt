-- ===== src/Prelude/Words.antt =====
-- Machine integers of the Rust code: unsigned words as numbers with their limits, i128 as an
-- integer, and the saturating operations.
use Prim.Native.Nat.{ℕ, ◌+◌, ◌*◌, min}
use mathlib.Core.Path.{◌≡◌}
use native.Mathlib.Omega.{arith}
use scc_blockchain.Prelude.Tests.{if◌then◌else◌}
use scc_blockchain.Prelude.Int.{ℤ, pos, negsuc, ◌≤ℤ◌, ltb_ℤ}

abbrev pub u32_max : ℕ
u32_max = 4294967295

abbrev pub u64_max : ℕ
u64_max = 18446744073709551615

abbrev pub u128_max : ℕ
u128_max = 340282366920938463463374607431768211455

abbrev pub i128_max : ℕ
i128_max = 170141183460469231731687303715884105727

-- `u32::saturating_add`
abbrev pub sat_add32 : ℕ → ℕ → ℕ
sat_add32 a b = min (a + b) u32_max

-- `u64::saturating_add`
abbrev pub sat_add64 : ℕ → ℕ → ℕ
sat_add64 a b = min (a + b) u64_max

-- `u64::saturating_mul`
abbrev pub sat_mul64 : ℕ → ℕ → ℕ
sat_mul64 a b = min (a * b) u64_max

-- `u128::saturating_add` and `u128::saturating_mul`
abbrev pub sat_add128 : ℕ → ℕ → ℕ
sat_add128 a b = min (a + b) u128_max

abbrev pub sat_mul128 : ℕ → ℕ → ℕ
sat_mul128 a b = min (a * b) u128_max

-- An integer that an i128 holds.
abbrev pub InI128 : ℤ → Type 0
InI128 z = (negsuc i128_max ≤ℤ z) × (z ≤ℤ pos i128_max)

-- The saturation of an exact result to an i128: `MIN` is -(MAX + 1).
unfoldable pub sat : ℤ → ℤ
sat z =
    if ltb_ℤ z (negsuc i128_max)
    then negsuc i128_max
    else if ltb_ℤ (pos i128_max) z
    then pos i128_max
    else z

pub sat_of_InI128 : (z : ℤ) → InI128 z → sat z ≡ z
unfolding sat
sat_of_InI128 z h = ground arith

pub sat-InI128 : (z : ℤ) → InI128 (sat z)
unfolding sat
sat-InI128 z = ground arith
