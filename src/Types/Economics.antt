-- ===== src/Types/Economics.antt =====
-- Fees: crates/sccgub-types/src/economics.rs, and the window of tensions that the fee oracle reads:
-- crates/sccgub-state/src/tension_history.rs. `fee_tension_alpha` of the consensus parameters and
-- `min_effective_fee_floor` of the ceilings are arguments; the state's bytes are left out.
pub mod Median
use scc_blockchain.Prelude.{
  ℕ, zero, suc, ◌+◌, ◌-◌, ◌*◌, ◌/◌, ◌%◌, Bool, true, false, Option, none, some, List, [], ◌∷◌, ◌++◌,
  ◌==◌, leb, if◌then◌else◌, length, get_elem?,
}
use scc_blockchain.Prelude.Int.{ℤ, pos, negsuc, pos_part, leb_ℤ, ltb_ℤ}
use scc_blockchain.Prelude.Words.{sat}
use scc_blockchain.Types.Tension.{
  TensionValue, tension_zero, scale, add, mul_fp, from_integer, div_trunc, times,
}

pub record EconomicState : Type 0 where
  pub base_fee : TensionValue
  pub alpha : TensionValue
  pub fees_collected : TensionValue
  pub rewards_distributed : TensionValue

-- `EconomicState::default`
unfoldable pub default_economics : EconomicState
unfolding from_integer
default_economics = record {
  base_fee = from_integer (pos 1);
  alpha = pos (scale / 10);
  fees_collected = tension_zero;
  rewards_distributed = tension_zero;
}

-- base_fee * (1 + alpha * tension / budget), for a positive budget.
abbrev pub scaled_fee : (base_fee alpha tension budget : TensionValue) → TensionValue
scaled_fee base_fee alpha tension budget =
    mul_fp base_fee
      (add (pos scale) (mul_fp alpha (div_trunc (sat (times tension scale)) (pos_part budget))))

unfoldable pub effective_fee : TensionValue → TensionValue → EconomicState → TensionValue
effective_fee prior_block_tension tension_budget e =
    if leb_ℤ tension_budget (pos 0)
    then e.base_fee
    else scaled_fee e.base_fee e.alpha prior_block_tension tension_budget

unfoldable pub record_fee : TensionValue → EconomicState → EconomicState
record_fee amount e = record e { fees_collected = add e.fees_collected amount }

unfoldable pub distribute_reward : TensionValue → EconomicState → EconomicState
distribute_reward amount e = record e { rewards_distributed = add e.rewards_distributed amount }

unfoldable pub reset_epoch : EconomicState → EconomicState
reset_epoch e = record e { fees_collected = tension_zero; rewards_distributed = tension_zero }

-- `sort`, the standard library's sort, as an insertion sort.
abbrev pub insert_tension : TensionValue → List TensionValue → List TensionValue
insert_tension x [] = x ∷ []
insert_tension x (y ∷ ys) = if leb_ℤ x y then x ∷ y ∷ ys else y ∷ insert_tension x ys

abbrev pub sort_tensions : List TensionValue → List TensionValue
sort_tensions [] = []
sort_tensions (x ∷ xs) = insert_tension x (sort_tensions xs)

-- No result stands for the index out of bounds on an empty slice.
unfoldable pub median_of_tensions : List TensionValue → Option TensionValue
median_of_tensions values =
    let sorted = sort_tensions values in
    let mid = length sorted / 2 in
    if length sorted % 2 == 0 then get_elem? sorted (mid - 1) else get_elem? sorted mid

-- The fee at the median, if there is one.
abbrev fee_at : Option TensionValue → (base_fee alpha budget : TensionValue) → TensionValue
fee_at none base_fee alpha budget = base_fee
fee_at (some median) base_fee alpha budget = scaled_fee base_fee alpha median budget

-- An empty window has no median, and the base fee, as in the source's own test for it.
unfoldable pub effective_fee_median :
    List TensionValue
    → (tension_budget fee_tension_alpha : TensionValue) → EconomicState
    → TensionValue
effective_fee_median prior_tensions tension_budget fee_tension_alpha e =
    if leb_ℤ tension_budget (pos 0)
    then e.base_fee
    else fee_at (median_of_tensions prior_tensions) e.base_fee fee_tension_alpha tension_budget

unfoldable pub effective_fee_median_floored :
    List TensionValue
    → (tension_budget fee_tension_alpha min_effective_fee_floor : TensionValue) → EconomicState
    → TensionValue
unfolding effective_fee_median
effective_fee_median_floored prior_tensions tension_budget fee_tension_alpha floor e =
    let computed = effective_fee_median prior_tensions tension_budget fee_tension_alpha e in
    if ltb_ℤ computed floor then floor else computed

pub record FeeBreakdown : Type 0 where
  pub compute_fee : TensionValue
  pub storage_fee : TensionValue
  pub proof_fee : TensionValue

unfoldable pub total : FeeBreakdown → TensionValue
total f = add (add f.compute_fee f.storage_fee) f.proof_fee

abbrev pub tension_history_max_len : ℕ
tension_history_max_len = 64

-- The loop that drops the oldest entries.
abbrev trim : List TensionValue → List TensionValue
trim [] = []
trim (x ∷ xs) =
    let rest = trim xs in if leb (length (x ∷ xs)) tension_history_max_len then x ∷ xs else rest

-- `append_and_trim`, from the buffer read to the one that is committed.
unfoldable pub append_and_trim : TensionValue → List TensionValue → List TensionValue
append_and_trim new_tension buffer = trim (buffer ++ new_tension ∷ [])

abbrev drop : ℕ → List TensionValue → List TensionValue
drop zero xs = xs
drop (suc n) [] = []
drop (suc n) (x ∷ xs) = drop n xs

unfoldable pub window : List TensionValue → ℕ → List TensionValue
window buffer size = if leb (length buffer) size then buffer else drop (length buffer - size) buffer
