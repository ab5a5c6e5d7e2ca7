-- ===== src/State/Fees.antt =====
-- The fees of a block: the first half of `apply_block_economics` of crates/sccgub-state/src/apply.rs.
-- The hexadecimal text of an agent id is a parameter. Of a receipt it has the transition's id, the
-- verdict and the compute steps.
use scc_blockchain.Prelude.{
  ℕ, Bool, ◌&&◌, not, Option, none, some, List, [], ◌∷◌, ◌++◌, ◌==◌, if◌then◌else◌,
}
use scc_blockchain.Prelude.Int.{pos, ltb_ℤ, leb_ℤ}
use scc_blockchain.Prelude.Words.{sat}
use scc_blockchain.Prelude.Result.{ok, err, Outcome}
use scc_blockchain.Types.Tension.{TensionValue, tension_zero, add, times}
use scc_blockchain.Types.Transition.{Bytes, SymbolicTransition}
use scc_blockchain.State.Balances.{AgentId, BalanceLedger, BalanceError, balance_of, debit}
use scc_blockchain.State.Treasury.{Treasury, collect_fee}
use scc_blockchain.State.Treasury.Codec.{encode_tension, treasury_state_writes}
use scc_blockchain.State.Apply.{balance_key, no_delta, insert_id}
use scc_blockchain.State.World.{ManagedWorldState, StateDelta}

abbrev pub legacy_block_version : ℕ
legacy_block_version = 1

-- None is the error of an insufficient balance.
unfoldable pub resolve_fee_payer :
    (block_version : ℕ) → BalanceLedger → SymbolicTransition → TensionValue → Option AgentId
resolve_fee_payer block_version b tx fee =
    if leb_ℤ fee (pos 0)
    then some tx.agent_id
    else if leb_ℤ fee (balance_of tx.agent_id b)
    then some tx.agent_id
    else if block_version == legacy_block_version
        && not (tx.public_key == tx.agent_id)
        && leb_ℤ fee (balance_of tx.public_key b)
    then some tx.public_key
    else none

pub record Receipt : Type 0 where
  pub tx_id : ℕ
  pub is_accepted : Bool
  pub compute_steps : ℕ

pub data EconomicsError : Type 0 where
  receipt_count_mismatch receipt_transition_mismatch receipt_not_accepted : EconomicsError
  insufficient_fee_balance : EconomicsError
  fee_debit_failed : BalanceError → EconomicsError

-- What the calls write: the trie and the two ledgers.
pub record Books : Type 0 where
  pub world : ManagedWorldState
  pub balances : BalanceLedger
  pub treasury : Treasury

-- What the loop over the receipts has collected.
pub record Charged : Type 0 where
  pub changed : List AgentId
  pub deltas : List StateDelta
  pub fees : List TensionValue
  pub payers : List AgentId
  pub total : TensionValue

abbrev pub nothing_charged : Charged
nothing_charged = record { changed = []; deltas = []; fees = []; payers = []; total = tension_zero }

-- A transition without a fee.
abbrev pub charge_free : AgentId → TensionValue → Charged → Charged
charge_free payer fee c = record c {
  deltas = c.deltas ++ no_delta ∷ [];
  fees = c.fees ++ fee ∷ [];
  payers = c.payers ++ payer ∷ [];
}

abbrev pub free_all : List SymbolicTransition → Charged → Charged
free_all [] c = c
free_all (tx ∷ txs) c = free_all txs (charge_free tx.agent_id tension_zero c)

unfoldable pub fee_of : (compute_steps : ℕ) → (gas_price : TensionValue) → TensionValue
fee_of compute_steps gas_price = sat (times gas_price compute_steps)

module _ (hex_encode : AgentId → Bytes) where
  abbrev pub charge_paid : AgentId → TensionValue → BalanceLedger → Treasury → Charged → Charged
  charge_paid payer fee b t c = record {
    changed = insert_id payer c.changed;
    deltas =
        c.deltas
        ++ record {
          writes =
              (balance_key hex_encode payer, encode_tension (balance_of payer b))
              ∷ treasury_state_writes t;
          deletes = [];
        }
          ∷ [];
    fees = c.fees ++ fee ∷ [];
    payers = c.payers ++ payer ∷ [];
    total = add c.total fee;
  }

  -- After the debit of a fee, which is then collected.
  abbrev pub collected :
      AgentId
      → TensionValue
      → Charged
      → Books
      → Outcome BalanceLedger BalanceError (Unit {0})
      → Outcome Books EconomicsError Charged
  collected payer fee c k (b, err e) = (record k { balances = b }, err (fee_debit_failed e))
  collected payer fee c k (b, ok u) =
      let t = collect_fee fee k.treasury in
      (record k { balances = b; treasury = t }, ok (charge_paid payer fee b t c))

  abbrev pub charge_payer :
      TensionValue → Charged → Books → Option AgentId → Outcome Books EconomicsError Charged
  charge_payer fee c k none = (k, err insufficient_fee_balance)
  charge_payer fee c k (some payer) =
      if ltb_ℤ (pos 0) fee
      then collected payer fee c k (debit payer fee k.balances)
      else (k, ok (charge_free payer fee c))

  -- One turn of the loop.
  abbrev pub charge :
      (block_version : ℕ) (gas_price : TensionValue)
      → SymbolicTransition
      → Receipt
      → Charged
      → Books
      → Outcome Books EconomicsError Charged
  charge block_version gas_price tx r c k =
      if not (r.tx_id == tx.tx_id)
      then (k, err receipt_transition_mismatch)
      else if not r.is_accepted
      then (k, err receipt_not_accepted)
      else (let fee = fee_of r.compute_steps gas_price in
          charge_payer fee c k (resolve_fee_payer block_version k.balances tx fee))

  -- The loop, up to the shorter list or the first error.
  abbrev pub charge_all :
      (block_version : ℕ) (gas_price : TensionValue)
      → List SymbolicTransition
      → List Receipt
      → Outcome Books EconomicsError Charged
      → Outcome Books EconomicsError Charged
  charge_all v g txs rs (k, err e) = (k, err e)
  charge_all v g [] rs (k, ok c) = (k, ok c)
  charge_all v g (tx ∷ txs) [] (k, ok c) = (k, ok c)
  charge_all v g (tx ∷ txs) (r ∷ rs) (k, ok c) = charge_all v g txs rs (charge v g tx r c k)
