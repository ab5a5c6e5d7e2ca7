-- ===== src/Types/Tension.antt =====
-- Fixed-point tension values: crates/sccgub-types/src/tension.rs. A `TensionValue` is its raw i128,
-- an integer; each operation saturates as the i128 operation of the source does.
pub mod Product
use scc_blockchain.Prelude.{
  ℕ, ◌+◌, ◌-◌, ◌*◌, ◌/◌, ◌%◌, ◌≤◌, ◌<◌, ◌≡◌, refl, Bool, true, false, not, min, arith, leb, ltb,
  if◌then◌else◌,
}
use scc_blockchain.Prelude.Int.{
  ℤ, pos, negsuc, pos_part, neg_part, sub_ℕ, ◌+ℤ◌, ◌-ℤ◌, ◌≤ℤ◌, leb_ℤ, ltb_ℤ, int_laws, eq_of_parts,
}
use scc_blockchain.Prelude.Words.{
  i128_max, u128_max, sat_add128, sat_mul128, InI128, sat, sat_of_InI128, sat-InI128,
}

abbrev pub TensionValue : Type 0
TensionValue = ℤ

abbrev pub tension_zero : TensionValue
tension_zero = pos 0

abbrev pub scale : ℕ
scale = 1000000000000000000

-- `TensionValue::from_integer`
unfoldable pub from_integer : ℤ → TensionValue
from_integer (pos n) = sat (pos (n * scale))
from_integer (negsuc n) = sat (sub_ℕ 0 ((n + 1) * scale))

-- `saturating_add`, which `Add::add` is too.
unfoldable pub add : TensionValue → TensionValue → TensionValue
add a b = sat (a +ℤ b)

-- `saturating_sub`, which `Sub::sub` is too.
unfoldable pub sub : TensionValue → TensionValue → TensionValue
sub a b = sat (a -ℤ b)

-- `TensionValue::max`
unfoldable pub max : TensionValue → TensionValue → TensionValue
max a b = if leb_ℤ b a then a else b

-- `i128::unsigned_abs`
abbrev pub unsigned_abs : ℤ → ℕ
unsigned_abs (pos n) = n
unsigned_abs (negsuc n) = n + 1

-- An i128 of this absolute value, with the sign of the first argument.
abbrev pub with_sign : ℤ → ℕ → ℤ
with_sign (pos n) m = pos m
with_sign (negsuc n) m = sub_ℕ 0 m

-- `/` and `%` of an i128 by a positive number, which go toward zero, and the exact product with one.
abbrev pub div_trunc : ℤ → ℕ → ℤ
div_trunc z d = with_sign z (unsigned_abs z / d)

abbrev pub rem_trunc : ℤ → ℕ → ℤ
rem_trunc z d = with_sign z (unsigned_abs z % d)

abbrev pub times : ℤ → ℕ → ℤ
times z m = with_sign z (unsigned_abs z * m)

-- The product of two absolute values as the source splits it: `whole` and `frac`.
unfoldable pub mul_abs : ℕ → ℕ → ℕ
mul_abs a b =
    let whole = sat_mul128 (a / scale) b in
    let frac = sat_mul128 (a % scale) b / scale in min (sat_add128 whole frac) i128_max

abbrev pub is_neg : ℤ → Bool
is_neg (pos n) = false
is_neg (negsuc n) = true

abbrev xor : Bool → Bool → Bool
xor true b = not b
xor false b = b

-- `TensionValue::mul_fp`; the last product by the sign cannot saturate.
unfoldable pub mul_fp : TensionValue → TensionValue → TensionValue
unfolding mul_abs
mul_fp a b =
    let result = mul_abs (unsigned_abs a) (unsigned_abs b) in
    if xor (is_neg a) (is_neg b) then sub_ℕ 0 result else pos result

-- `TensionComponents`
pub record TensionComponents : Type 0 where
  pub logic : TensionValue
  pub grounding : TensionValue
  pub value : TensionValue
  pub resource : TensionValue

unfoldable pub weighted_total :
    TensionComponents → TensionValue → TensionValue → TensionValue → TensionValue → TensionValue
weighted_total c alpha beta gamma delta =
    add (add (add (mul_fp alpha c.logic) (mul_fp beta c.grounding)) (mul_fp gamma c.value))
      (mul_fp delta c.resource)

-- An addition whose exact result an i128 holds is exact.
pub add_exact : (a b : TensionValue) → InI128 (a +ℤ b) → add a b ≡ a +ℤ b
unfolding add
add_exact a b h = sat_of_InI128 (a +ℤ b) h

pub sub_exact : (a b : TensionValue) → InI128 (a -ℤ b) → sub a b ≡ a -ℤ b
unfolding sub
sub_exact a b h = sat_of_InI128 (a -ℤ b) h

-- Amounts that are not negative stay so, and stay in range.
pub add-InI128 : (a b : TensionValue) → InI128 (add a b)
unfolding add
add-InI128 a b = sat-InI128 (a +ℤ b)

pub sub-InI128 : (a b : TensionValue) → InI128 (sub a b)
unfolding sub
sub-InI128 a b = sat-InI128 (a -ℤ b)
