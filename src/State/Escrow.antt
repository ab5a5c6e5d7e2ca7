-- ===== src/State/Escrow.antt =====
-- The escrow registry: crates/sccgub-state/src/escrow.rs. The id of an escrow is the BLAKE3 hash of
-- the canonical bytes of its sender, recipient, amount and height; hash and encoding are libraries,
-- so `escrow_id` is a parameter.
pub mod Custody
pub mod Settle
pub mod Once
pub mod Index
pub mod Reach
pub mod Ids
use scc_blockchain.Prelude.{
  ℕ, suc, ◌+◌, ◌-◌, ◌≡◌, Bool, true, false, ◌&&◌, Option, none, some, List, [], ◌∷◌, ◌++◌, ◌==◌,
  leb, ltb, if◌then◌else◌, length, get_elem?, set, count_if,
}
use scc_blockchain.Prelude.Int.{ℤ, pos, leb_ℤ}
use scc_blockchain.Prelude.Words.{sat_add64}
use scc_blockchain.Prelude.Map.{Map, lookup, insert, nat_eq, bytes_eq}
use scc_blockchain.Prelude.Result.{Result, ok, err, Outcome}
use scc_blockchain.Types.Tension.{TensionValue, tension_zero, add}
use scc_blockchain.State.Balances.{AgentId, BalanceLedger, BalanceError, credit, debit}

abbrev pub Hash : Type 0
Hash = ℕ

abbrev pub Bytes : Type 0
Bytes = List ℕ

pub data EscrowStatus : Type 0 where
  active released refunded disputed : EscrowStatus

pub data EscrowCondition : Type 0 where
  -- key, expected value, required authority
  state_proof : Bytes → Bytes → Option AgentId → EscrowCondition
  arbiter_approval : AgentId → EscrowCondition
  time_locked : ℕ → EscrowCondition

pub record Escrow : Type 0 where
  pub id : Hash
  pub sender : AgentId
  pub recipient : AgentId
  pub amount : TensionValue
  pub status : EscrowStatus
  pub created_at : ℕ
  pub expires_at : ℕ
  pub condition : EscrowCondition

pub record EscrowRegistry : Type 0 where
  pub escrows : List Escrow
  pub index : Map Hash ℕ

-- `panicked` stands for an index out of bounds.
pub data EscrowError : Type 0 where
  amount_not_positive escrow_to_self timeout_zero not_found not_expired panicked : EscrowError
  not_active : EscrowStatus → EscrowError
  ledger : BalanceError → EscrowError

abbrev pub Call : Type 0 → Type 0
Call A = Outcome (EscrowRegistry × BalanceLedger) EscrowError A

abbrev pub is_active : EscrowStatus → Bool
is_active active = true
is_active s = false

abbrev pub new : EscrowRegistry
new = record { escrows = []; index = [] }

-- The escrow is pushed, and its position recorded under its id.
abbrev pub push : Escrow → EscrowRegistry → EscrowRegistry
push e r = record { escrows = r.escrows ++ e ∷ []; index = insert e.id (length r.escrows) r.index }

-- The rest of `create` after `balances.debit(..)?`.
abbrev pub store :
    Escrow → EscrowRegistry → Outcome BalanceLedger BalanceError (Unit {0}) → Call Hash
store e r (b, err x) = ((r, b), err (ledger x))
store e r (b, ok u) = ((push e r, b), ok e.id)

module _ (escrow_id : AgentId → AgentId → TensionValue → ℕ → Hash) where
  abbrev pub fresh :
      AgentId → AgentId → TensionValue → EscrowCondition → (height timeout : ℕ) → Escrow
  fresh sender recipient amount condition height timeout = record {
    id = escrow_id sender recipient amount height;
    sender = sender;
    recipient = recipient;
    amount = amount;
    status = active;
    created_at = height;
    expires_at = sat_add64 height timeout;
    condition = condition;
  }

  unfoldable pub create :
      AgentId
      → AgentId
      → TensionValue
      → EscrowCondition
      → (height timeout : ℕ) → EscrowRegistry
      → BalanceLedger
      → Call Hash
  create sender recipient amount condition height timeout r b =
      if leb_ℤ amount (pos 0)
      then ((r, b), err amount_not_positive)
      else if sender == recipient
      then ((r, b), err escrow_to_self)
      else if timeout == 0
      then ((r, b), err timeout_zero)
      else store (fresh sender recipient amount condition height timeout) r (debit sender amount b)

-- `self.escrows[idx].status = status`
abbrev pub set_status : ℕ → Escrow → EscrowStatus → EscrowRegistry → EscrowRegistry
set_status idx e s r = record r { escrows = set r.escrows idx (record e { status = s }) }

-- The escrow that an id names, by the index: an id that is not there, or `self.escrows[idx]`.
pub data Found : Type 0 where
  missing out_of_bounds : Found
  found : ℕ → Escrow → Found

abbrev pub at : EscrowRegistry → ℕ → Found
at r idx = elim (get_elem? r.escrows idx) [ none ↦ out_of_bounds | some e ↦ found idx e ]

abbrev pub find : Hash → EscrowRegistry → Found
find id r = elim (lookup id r.index) [ none ↦ missing | some idx ↦ at r idx ]

abbrev release_found : Found → EscrowRegistry → BalanceLedger → Call (Unit {0})
release_found missing r b = ((r, b), err not_found)
release_found out_of_bounds r b = ((r, b), err panicked)
release_found (found idx e) r b =
    if is_active e.status
    then ((set_status idx e released r, credit e.recipient e.amount b), ok tt)
    else ((r, b), err (not_active e.status))

unfoldable pub release : Hash → EscrowRegistry → BalanceLedger → Call (Unit {0})
release id r b = release_found (find id r) r b

abbrev refund_found : Found → ℕ → EscrowRegistry → BalanceLedger → Call (Unit {0})
refund_found missing height r b = ((r, b), err not_found)
refund_found out_of_bounds height r b = ((r, b), err panicked)
refund_found (found idx e) height r b =
    if is_active e.status
    then if ltb height e.expires_at
      then ((r, b), err not_expired)
      else ((set_status idx e refunded r, credit e.sender e.amount b), ok tt)
    else ((r, b), err (not_active e.status))

unfoldable pub refund : Hash → ℕ → EscrowRegistry → BalanceLedger → Call (Unit {0})
refund id height r b = refund_found (find id r) height r b

abbrev same_value : Option Bytes → Bytes → Bool
same_value none expected = false
same_value (some actual) expected = bytes_eq.beq actual expected

abbrev same_writer : Option Hash → AgentId → Bool
same_writer none required = false
same_writer (some writer) required = writer == required

abbrev authority_ok : Option AgentId → Option Hash → Bool
authority_ok none writer = true
authority_ok (some required) writer = same_writer writer required

-- The `match` of `check_and_release`, over the state trie and the writers of the block.
unfoldable pub condition_met : Map Bytes Bytes → ℕ → Map Bytes Hash → EscrowCondition → Bool
condition_met trie height writers (state_proof key expected required) =
    same_value (lookup key trie) expected && authority_ok required (lookup key writers)
condition_met trie height writers (time_locked release_at) = leb release_at height
condition_met trie height writers (arbiter_approval arbiter) = false

module _ (trie : Map Bytes Bytes) (height : ℕ) (writers : Map Bytes Hash) where
  abbrev pub is_due : Escrow → Bool
  is_due e = is_active e.status && condition_met trie height writers e.condition

  -- The loop of `check_and_release`: escrows and balances after it, and the ids released.
  unfoldable pub release_due : List Escrow → BalanceLedger → List Escrow × BalanceLedger × List Hash
  release_due [] b = ([], b, [])
  release_due (e ∷ es) b =
      let (es', b', ids) = release_due es (if is_due e then credit e.recipient e.amount b else b) in
      if is_due e
      then (record e { status = released } ∷ es', b', e.id ∷ ids)
      else (e ∷ es', b', ids)

  unfoldable pub check_and_release :
      EscrowRegistry → BalanceLedger → EscrowRegistry × BalanceLedger × List Hash
  unfolding release_due
  check_and_release r b =
      let (es, b', ids) = release_due r.escrows b in (record r { escrows = es }, b', ids)

abbrev entry : Found → Option Escrow
entry (found idx e) = some e
entry f = none

-- `get`, where no index is out of bounds.
unfoldable pub get : Hash → EscrowRegistry → Option Escrow
get id r = entry (find id r)

unfoldable pub active_count : EscrowRegistry → ℕ
active_count r = count_if (λ e. is_active e.status) r.escrows

unfoldable pub fold_locked : TensionValue → List Escrow → TensionValue
fold_locked acc [] = acc
fold_locked acc (e ∷ es) = fold_locked (if is_active e.status then add acc e.amount else acc) es

unfoldable pub total_locked : EscrowRegistry → TensionValue
unfolding fold_locked
total_locked r = fold_locked tension_zero r.escrows
