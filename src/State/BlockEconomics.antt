-- ===== src/State/BlockEconomics.antt =====
-- Rewards of a block and the commits of the economics: the second half of `apply_block_economics` of
-- crates/sccgub-state/src/apply.rs. The hexadecimal text of an agent id and the hash that derives a
-- validator's account are parameters.
pub mod Conservation
use scc_blockchain.Prelude.{
  ℕ, Bool, true, false, ◌&&◌, ◌||◌, not, Option, none, some, List, [], ◌∷◌, ◌++◌, ◌==◌, ltb,
  if◌then◌else◌, length, map,
}
use scc_blockchain.Prelude.Int.{ℤ, pos, ltb_ℤ, leb_ℤ}
use scc_blockchain.Prelude.Words.{sat}
use scc_blockchain.Prelude.Result.{Result, ok, err, Outcome}
use scc_blockchain.Consensus.Quorum.{mem}
use scc_blockchain.Types.Tension.{TensionValue, tension_zero, add, from_integer, times}
use scc_blockchain.Types.Transition.{
  Bytes, SymbolicTransition, OperationPayload, write, transfer, register_agent, propose_norm,
  deploy_contract, invoke_contract, noop,
}
use scc_blockchain.State.Balances.{AgentId, BalanceLedger, BalanceError, balance_of, credit, debit}
use scc_blockchain.State.Balances
use scc_blockchain.State.Treasury.{Treasury, collect_fee, distribute_reward}
use scc_blockchain.State.Treasury.Codec.{
  encode_tension, treasury_state_writes, state_has_treasury_keys, commit_treasury_state,
}
use scc_blockchain.State.Apply.{balance_key, no_delta, insert_id, commit_balance_accounts}
use scc_blockchain.State.World.{ManagedWorldState, StateDelta, apply_delta}
use scc_blockchain.State.Fees.{
  Receipt, EconomicsError, receipt_count_mismatch, Books, Charged, nothing_charged, free_all,
  charge_all, legacy_block_version,
}

-- `derive` is the hash of the key and the genesis seal.
unfoldable pub validator_spend_account :
    (ℕ → AgentId) → (block_version validator_public_key : ℕ) → AgentId
validator_spend_account derive block_version key =
    if block_version == legacy_block_version then key else derive key

pub record BlockEconomicsOutcome : Type 0 where
  pub tx_deltas : List StateDelta
  pub tx_fees : List TensionValue
  pub tx_fee_payers : List AgentId
  pub total_fees : TensionValue
  pub actual_reward : TensionValue

module _ (hex_encode : AgentId → Bytes) where
  abbrev pub charge_block :
      (block_version : ℕ) (gas_price : TensionValue)
      → List SymbolicTransition
      → List Receipt
      → Books
      → Outcome Books EconomicsError Charged
  charge_block v g txs [] k = (k, ok (free_all txs nothing_charged))
  charge_block v g txs (r ∷ rs) k = charge_all hex_encode v g txs (r ∷ rs) (k, ok nothing_charged)

  -- The account of the reward with the changed ones, when it is paid.
  abbrev pub rewarded : AgentId → TensionValue → BalanceLedger → BalanceLedger
  rewarded account paid b = if ltb_ℤ (pos 0) paid then credit account paid b else b

  abbrev pub changed_with : AgentId → TensionValue → List AgentId → List AgentId
  changed_with account paid as' = if ltb_ℤ (pos 0) paid then insert_id account as' else as'

  abbrev pub commit_treasury :
      TensionValue → TensionValue → Treasury → ManagedWorldState → ManagedWorldState
  commit_treasury total paid t w =
      if ltb_ℤ (pos 0) total || ltb_ℤ (pos 0) paid || state_has_treasury_keys w
      then commit_treasury_state w t
      else w

  -- The reward and the commits, after the fees.
  abbrev pub settle :
      (account : AgentId) (requested_reward : TensionValue)
      → Outcome Books EconomicsError Charged
      → Outcome Books EconomicsError BlockEconomicsOutcome
  settle account requested_reward (k, err e) = (k, err e)
  settle account requested_reward (k, ok c) =
      let paid = distribute_reward requested_reward k.treasury in
      let b = rewarded account paid.1 k.balances in
      let w =
        commit_balance_accounts hex_encode b (changed_with account paid.1 c.changed) k.world in
      (
        record { world = commit_treasury c.total paid.1 paid.0 w; balances = b; treasury = paid.0 },
        ok (record {
          tx_deltas = c.deltas;
          tx_fees = c.fees;
          tx_fee_payers = c.payers;
          total_fees = c.total;
          actual_reward = paid.1;
        }),
      )

  unfoldable pub apply_block_economics :
      (derive : ℕ → AgentId) (block_version validator_public_key : ℕ)
      (gas_price requested_reward : TensionValue)
      → List SymbolicTransition
      → List Receipt
      → Books
      → Outcome Books EconomicsError BlockEconomicsOutcome
  unfolding validator_spend_account
  apply_block_economics derive v key gas_price requested_reward txs rs k =
      if not (length rs == 0) && not (length rs == length txs)
      then (k, err receipt_count_mismatch)
      else settle (validator_spend_account derive v key) requested_reward
          (charge_block v gas_price txs rs k)
