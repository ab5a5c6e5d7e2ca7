-- ===== src/Tests/Ledgers.antt =====
-- The treasury, the asset ledger and the product of fixed-point values at concrete inputs, where the
-- conditions of their theorems hold.
use scc_blockchain.Prelude.{◌≡◌, refl, arith}
use scc_blockchain.Prelude.Int.{pos, ◌+ℤ◌, ◌≤ℤ◌}
use scc_blockchain.Prelude.Words.{i128_max}
use scc_blockchain.Prelude.Map.{nat_eq}
use scc_blockchain.Types.Tension.{mul_fp}
use scc_blockchain.Types.Tension.Product.{mul_fp_exact}
use scc_blockchain.State.Treasury.{
  Treasury, new, collect_fee, distribute_reward, advance_epoch, clamped,
}
use scc_blockchain.State.Treasury.Conservation.{
  IsBalanced, Reach-IsBalanced, here, next, collects, pays, advances,
}

-- Two times three, in units of 10^18.
mul_fp_exact_example :
    mul_fp (pos 2000000000000000000) (pos 3000000000000000000) ≡ pos 6000000000000000000
mul_fp_exact_example = mul_fp_exact 2000000000000000000 3000000000000000000 (omega arith)

new-IsBalanced : IsBalanced new
unfolding ◌+ℤ◌
new-IsBalanced = record {
  pending = omega arith;
  distributed = omega arith;
  burned = omega arith;
  epoch_in = omega arith;
  epoch_out = omega arith;
  books = refl;
  fees_part = omega arith;
  rewards_part = omega arith;
  fits = omega arith;
}

-- A fee of 9, a reward of 4 and the end of the epoch.
abbrev epoch_done : Treasury
epoch_done = (advance_epoch (distribute_reward (pos 4) (collect_fee (pos 9) new)).0).0

fee_fits : new.total_fees_collected +ℤ clamped (pos 9) ≤ℤ pos i128_max
unfolding ◌+ℤ◌
fee_fits = omega arith

Reach-IsBalanced_example : IsBalanced epoch_done
Reach-IsBalanced_example =
    Reach-IsBalanced {s = new} {t = epoch_done} new-IsBalanced
      (next (next (next here (collects (pos 9) fee_fits)) (pays (pos 4))) advances)

abbrev nine_pending : Treasury
nine_pending = record new { pending_fees = pos 9; total_fees_collected = pos 9 }
