-- ===== src/State/Apply.antt =====
-- How a block's transitions change balances and trie, and how the balances are read back:
-- crates/sccgub-state/src/apply.rs. The hexadecimal text of an agent id and its reading are parameters.
pub mod Supply
pub mod Commits
pub mod Agreement
pub mod Import
use scc_blockchain.Prelude.{
  ◌+◌, map, ◌*◌, ℕ, Bool, true, false, Option, none, some, List, [], ◌∷◌, ◌++◌, ◌==◌, ltb,
  if◌then◌else◌, length,
}
use scc_blockchain.Prelude.Int.{pos}
use scc_blockchain.Prelude.Map.{Map}
use scc_blockchain.Prelude.Result.{Result, ok, err, Outcome}
use scc_blockchain.Consensus.Quorum.{mem}
use scc_blockchain.Types.Tension.{TensionValue, from_integer}
use scc_blockchain.Types.Transition.{
  Bytes, SymbolicTransition, OperationPayload, write, transfer, register_agent, propose_norm,
  deploy_contract, invoke_contract, noop,
}
use scc_blockchain.State.Balances.{
  import_balance, AgentId, BalanceLedger, BalanceError, balance_of, credit,
}
use scc_blockchain.State.Balances
use scc_blockchain.State.Treasury.Codec.{from_word, from_le_bytes, starts_with, encode_tension}
use scc_blockchain.State.World.{ManagedWorldState, StateDelta, apply_delta, commit}

-- b"balance/"
abbrev pub ns_balance : Bytes
ns_balance = 98 ∷ 97 ∷ 108 ∷ 97 ∷ 110 ∷ 99 ∷ 101 ∷ 47 ∷ []

abbrev pub balance_key : (AgentId → Bytes) → AgentId → Bytes
balance_key hex_encode a = ns_balance ++ hex_encode a

abbrev pub no_delta : StateDelta
no_delta = record { writes = []; deletes = [] }

-- `insert` of a set of ids, which is kept in the order that `commit_balance_accounts` sorts them.
abbrev pub insert_id : ℕ → List ℕ → List ℕ
insert_id a [] = a ∷ []
insert_id a (b ∷ bs) =
    let rest = insert_id a bs in if a == b then b ∷ bs else if ltb a b then a ∷ b ∷ bs else b ∷ rest

unfoldable pub merge_state_deltas : StateDelta → StateDelta → StateDelta
merge_state_deltas left right = record {
  writes = left.writes ++ right.writes;
  deletes = left.deletes ++ right.deletes;
}

-- What the loop over the transitions has done.
abbrev pub Progress : Type 0
Progress = ManagedWorldState × BalanceLedger × List AgentId

abbrev pub prepended : StateDelta → Progress × List StateDelta → Progress × List StateDelta
prepended d r = (r.0, d ∷ r.1)

module _ (hex_encode : AgentId → Bytes) where
  abbrev pub commit_each : List AgentId → BalanceLedger → ManagedWorldState → ManagedWorldState
  commit_each [] b w = w
  commit_each (a ∷ as') b w =
      commit_each as' b (commit (balance_key hex_encode a) (encode_tension (balance_of a b)) w)

  unfoldable pub commit_balance_accounts :
      BalanceLedger → (changed_accounts : List AgentId) → ManagedWorldState → ManagedWorldState
  commit_balance_accounts b changed w = commit_each changed b w

  abbrev pub transferred :
      (from to : AgentId)
      → Progress
      → Outcome BalanceLedger BalanceError (Unit {0})
      → Progress × StateDelta
  transferred from to p (b, err e) = ((p.0, b, p.2), no_delta)
  transferred from to p (b, ok u) = (
    (p.0, b, insert_id to (insert_id from p.2)),
    record {
      writes =
          (balance_key hex_encode from, encode_tension (balance_of from b))
          ∷ (balance_key hex_encode to, encode_tension (balance_of to b))
          ∷ [];
      deletes = [];
    },
  )

  -- The match on the payload.
  abbrev pub apply_payload : OperationPayload → Progress → Progress × StateDelta
  apply_payload (write key value) p =
      let delta : StateDelta = record { writes = (key, value) ∷ []; deletes = [] } in
      (((apply_delta delta p.0).0, p.1, p.2), delta)
  apply_payload (transfer from to amount) p =
      transferred from to p (Balances.transfer from to amount p.1)
  apply_payload (register_agent k) p = (p, no_delta)
  apply_payload (propose_norm n d) p = (p, no_delta)
  apply_payload (deploy_contract c) p = (p, no_delta)
  apply_payload (invoke_contract c m args) p = (p, no_delta)
  apply_payload noop p = (p, no_delta)

  -- The loop, which passes over an id that it has seen.
  abbrev pub apply_each :
      (applied_ids : List ℕ) → List SymbolicTransition → Progress → Progress × List StateDelta
  apply_each applied [] p = (p, [])
  apply_each applied (tx ∷ txs) p =
      let now = apply_payload tx.payload p in
      elim (mem tx.tx_id applied) [
        | true ↦ prepended no_delta (apply_each applied txs p)
        | false ↦ prepended now.1 (apply_each (tx.tx_id ∷ applied) txs now.0)
      ]

  unfoldable pub apply_block_transitions :
      List SymbolicTransition
      → ManagedWorldState
      → BalanceLedger
      → ManagedWorldState × BalanceLedger × List StateDelta
  unfolding commit_balance_accounts
  apply_block_transitions txs w b =
      let r = apply_each [] txs (w, b, []) in
      (commit_balance_accounts r.0.1 r.0.2 r.0.0, r.0.1, r.1)

  unfoldable pub apply_genesis_mint :
      (validator_id : AgentId)
      → ManagedWorldState
      → BalanceLedger
      → ManagedWorldState × BalanceLedger
  apply_genesis_mint validator_id w b =
      let amount = from_integer (pos 1000000) in
      (
        commit (balance_key hex_encode validator_id) (encode_tension amount) w,
        credit validator_id amount b,
      )

abbrev pub merge_all : List StateDelta → List StateDelta → List StateDelta
merge_all [] rs = []
merge_all (l ∷ ls) [] = []
merge_all (l ∷ ls) (r ∷ rs) = merge_state_deltas l r ∷ merge_all ls rs

-- The lengths, where they differ.
unfoldable pub combine_receipt_deltas :
    (economics transitions : List StateDelta) → Result (ℕ × ℕ) (List StateDelta)
combine_receipt_deltas economics transitions =
    if length economics == length transitions
    then ok (merge_all economics transitions)
    else err (length economics, length transitions)

pub data BalanceEntryError : Type 0 where
  malformed_length : (key : Bytes) (len : ℕ) → BalanceEntryError
  malformed_hex : (key : Bytes) → BalanceEntryError
  malformed_agent : (key : Bytes) (len : ℕ) → BalanceEntryError

-- The number that the bytes of an id spell.
abbrev pub agent_of : ℕ → Bytes → AgentId
agent_of acc [] = acc
agent_of acc (b ∷ bs) = agent_of (acc * 256 + b) bs

-- The key without its first bytes.
abbrev pub drop_prefix : Bytes → Bytes → Bytes
drop_prefix [] key = key
drop_prefix (p ∷ ps) [] = []
drop_prefix (p ∷ ps) (k ∷ key) = drop_prefix ps key

module _ (hex_decode : Bytes → Option Bytes) where
  abbrev pub import_agent :
      Bytes → Bytes → Option Bytes → BalanceLedger → Result BalanceEntryError BalanceLedger
  import_agent key value none b = err (malformed_hex key)
  import_agent key value (some bytes) b =
      if length bytes == 32
      then ok (import_balance (agent_of 0 bytes) (from_word (from_le_bytes value)) b)
      else err (malformed_agent key (length bytes))

  abbrev pub import_entry : Bytes → Bytes → BalanceLedger → Result BalanceEntryError BalanceLedger
  import_entry key value b =
      if length value == 16
      then import_agent key value (hex_decode (drop_prefix ns_balance key)) b
      else err (malformed_length key (length value))

  -- The loop over the trie, up to the first error: which one comes first depends on the order.
  abbrev pub import_all :
      Map Bytes Bytes
      → Result BalanceEntryError BalanceLedger
      → Result BalanceEntryError BalanceLedger
  import_all [] r = r
  import_all ((key, value) ∷ trie) (err e) = err e
  import_all ((key, value) ∷ trie) (ok b) =
      import_all trie (if starts_with ns_balance key then import_entry key value b else ok b)

  unfoldable pub balances_from_trie : ManagedWorldState → Result BalanceEntryError BalanceLedger
  balances_from_trie w = import_all w.trie (ok [])
