-- ===== src/State/Treasury.antt =====
-- The treasury's counters: crates/sccgub-state/src/treasury.rs. The functions that write them to
-- the state trie and read them back are left out.
pub mod Conservation
pub mod Codec
use scc_blockchain.Prelude.{ℕ, ◌+◌, ◌%◌, if◌then◌else◌}
use scc_blockchain.Prelude.Int.{ℤ, pos, ltb_ℤ}
use scc_blockchain.Prelude.Words.{u64_max}
use scc_blockchain.Prelude.Result.{Result, ok, err, Outcome}
use scc_blockchain.Types.Tension.{TensionValue, tension_zero, add, sub, max, from_integer}

pub record Treasury : Type 0 where
  pub pending_fees : TensionValue
  pub total_fees_collected : TensionValue
  pub total_rewards_distributed : TensionValue
  pub total_burned : TensionValue
  pub epoch : ℕ
  pub epoch_fees : TensionValue
  pub epoch_rewards : TensionValue

pub record EpochSummary : Type 0 where
  pub epoch : ℕ
  pub fees_collected : TensionValue
  pub rewards_distributed : TensionValue
  pub pending_balance : TensionValue

pub data TreasuryError : Type 0 where
  burn_negative burn_over_pending : TreasuryError

abbrev pub new : Treasury
new = record {
  pending_fees = tension_zero;
  total_fees_collected = tension_zero;
  total_rewards_distributed = tension_zero;
  total_burned = tension_zero;
  epoch = 0;
  epoch_fees = tension_zero;
  epoch_rewards = tension_zero;
}

-- `amount.raw().max(0)`
abbrev pub clamped : TensionValue → TensionValue
clamped amount = if ltb_ℤ amount (pos 0) then pos 0 else amount

unfoldable pub collect_fee : TensionValue → Treasury → Treasury
collect_fee amount t =
    let safe = clamped amount in
    record t {
      pending_fees = add t.pending_fees safe;
      total_fees_collected = add t.total_fees_collected safe;
      epoch_fees = add t.epoch_fees safe;
    }

-- The amount that `distribute_reward` pays: at most what is pending.
abbrev pub payable : TensionValue → Treasury → TensionValue
payable amount t =
    let safe = clamped amount in if ltb_ℤ t.pending_fees safe then t.pending_fees else safe

unfoldable pub distribute_reward : TensionValue → Treasury → Treasury × TensionValue
distribute_reward amount t =
    let actual = payable amount t in
    (
      record t {
        pending_fees = sub t.pending_fees actual;
        total_rewards_distributed = add t.total_rewards_distributed actual;
        epoch_rewards = add t.epoch_rewards actual;
      },
      actual,
    )

unfoldable pub burn : TensionValue → Treasury → Outcome Treasury TreasuryError (Unit {0})
burn amount t =
    if ltb_ℤ amount (pos 0)
    then (t, err burn_negative)
    else if ltb_ℤ t.pending_fees amount
    then (t, err burn_over_pending)
    else (
      record t {
        pending_fees = sub t.pending_fees amount;
        total_burned = add t.total_burned amount;
      },
      ok tt,
    )

unfoldable pub advance_epoch : Treasury → Treasury × EpochSummary
advance_epoch t = (
  record t {
    epoch = (t.epoch + 1) % (u64_max + 1);
    epoch_fees = tension_zero;
    epoch_rewards = tension_zero;
  },
  record {
    epoch = t.epoch;
    fees_collected = t.epoch_fees;
    rewards_distributed = t.epoch_rewards;
    pending_balance = t.pending_fees;
  },
)

unfoldable pub net_balance : Treasury → TensionValue
net_balance t = t.pending_fees

unfoldable pub default_block_reward : TensionValue
unfolding from_integer
default_block_reward = from_integer (pos 10)
