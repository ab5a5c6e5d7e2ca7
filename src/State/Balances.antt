-- ===== src/State/Balances.antt =====
-- The balance ledger: crates/sccgub-state/src/balances.rs. An `AgentId` is 32 bytes that are only
-- compared: the number that they spell. `balance_root` hashes the sorted entries and is left out.
pub mod Conservation
pub mod Transfer
use scc_blockchain.Prelude.{ℕ, ◌≡◌, Bool, true, false, List, [], ◌∷◌, ◌==◌, if◌then◌else◌, count_if}
use scc_blockchain.Prelude.Int.{ℤ, pos, ltb_ℤ, leb_ℤ}
use scc_blockchain.Prelude.Map.{Map, insert, nat_eq}
use scc_blockchain.Prelude.Result.{Result, ok, err, Outcome}
use scc_blockchain.Types.Tension.{TensionValue, tension_zero, add, sub}
use scc_blockchain.State.Entries.{value}

abbrev pub AgentId : Type 0
AgentId = ℕ

-- `BalanceLedger`, a struct of this one field.
abbrev pub BalanceLedger : Type 0
BalanceLedger = Map AgentId TensionValue

pub data BalanceError : Type 0 where
  insufficient_balance amount_not_positive transfer_to_self : BalanceError

abbrev pub new : BalanceLedger
new = []

abbrev pub balance_of : AgentId → BalanceLedger → TensionValue
balance_of agent b = value agent b

unfoldable pub credit : AgentId → TensionValue → BalanceLedger → BalanceLedger
credit agent amount b = insert agent (add (balance_of agent b) amount) b

unfoldable pub debit :
    AgentId → TensionValue → BalanceLedger → Outcome BalanceLedger BalanceError (Unit {0})
debit agent amount b =
    let current = balance_of agent b in
    if ltb_ℤ current amount
    then (b, err insufficient_balance)
    else (insert agent (sub current amount) b, ok tt)

-- The rest of `transfer` after its `debit`, which the `?` leaves on an error.
abbrev pub then_credit :
    AgentId
    → TensionValue
    → Outcome BalanceLedger BalanceError (Unit {0})
    → Outcome BalanceLedger BalanceError (Unit {0})
then_credit to amount (b, err x) = (b, err x)
then_credit to amount (b, ok u) = (credit to amount b, ok tt)

unfoldable pub transfer :
    AgentId → AgentId → TensionValue → BalanceLedger → Outcome BalanceLedger BalanceError (Unit {0})
transfer from to amount b =
    if leb_ℤ amount (pos 0)
    then (b, err amount_not_positive)
    else if from == to
    then (b, err transfer_to_self)
    else then_credit to amount (debit from amount b)

-- The `fold` of `total_supply`.
pub fold_supply : TensionValue → BalanceLedger → TensionValue
fold_supply acc [] = acc
fold_supply acc ((k, v) ∷ b) = fold_supply (add acc v) b

unfoldable pub total_supply : BalanceLedger → TensionValue
unfolding fold_supply
total_supply b = fold_supply tension_zero b

unfoldable pub account_count : BalanceLedger → ℕ
account_count b = count_if (λ e. ltb_ℤ (pos 0) e.1) b

unfoldable pub import_balance : AgentId → TensionValue → BalanceLedger → BalanceLedger
import_balance agent amount b = insert agent amount b
