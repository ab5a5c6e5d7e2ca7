-- ===== src/Execution/Admission.antt =====
-- The checks of a transition before the mempool gives it to a block: `admit_check` and
-- `admit_check_structural` of crates/sccgub-execution/src/validate.rs. Of the world state it has the
-- nonces and the two size limits; an error has a constructor for each message.
pub mod Limits
use scc_blockchain.Prelude.{
  ℕ, suc, ◌+◌, Bool, true, false, not, Option, none, some, List, [], ◌∷◌, ◌==◌, ◌||◌, ltb, leb,
  if◌then◌else◌, length,
}
use scc_blockchain.Prelude.Words.{u128_max}
use scc_blockchain.Prelude.Map.{Map, lookup, nat_eq}
use scc_blockchain.Prelude.Result.{Result, ok, err}
use scc_blockchain.Types.Transition.{
  SymbolicTransition, OperationPayload, write, transfer, register_agent, propose_norm,
  deploy_contract, invoke_contract, noop, is_empty,
}

pub record WorldState : Type 0 where
  pub agent_nonces : Map ℕ ℕ
  pub max_symbol_address_len : ℕ
  pub max_state_entry_size : ℕ

pub data AdmitError : Type 0 where
  nonce_zero : AdmitError
  nonce_overflow : (last_nonce : ℕ) → AdmitError
  nonce_sequence : (expected got : ℕ) → AdmitError
  signature_short target_long : (len : ℕ) → AdmitError
  payload_large : AdmitError
  code_large args_large : (len : ℕ) → AdmitError
  who_zero where_empty what_empty : AdmitError
  what_long purpose_long : (len : ℕ) → AdmitError

abbrev pub max_freeform_string_len : ℕ
max_freeform_string_len = 4096

-- The match on the payload: the error of the variant, if its size is over the limit.
abbrev pub payload_size : OperationPayload → ℕ → Option AdmitError
payload_size (write key value) limit =
    if ltb limit (length key) || ltb limit (length value) then some payload_large else none
payload_size (deploy_contract code) limit =
    if ltb limit (length code) then some (code_large (length code)) else none
payload_size (invoke_contract c m args) limit =
    if ltb limit (length args) then some (args_large (length args)) else none
payload_size (transfer from to amount) limit = none
payload_size (register_agent k) limit = none
payload_size (propose_norm name description) limit = none
payload_size noop limit = none

-- The checks after the sizes of the payload.
abbrev pub admit_binding : SymbolicTransition → Option AdmitError → Result AdmitError (Unit {0})
admit_binding tx (some e) = err e
admit_binding tx none =
    if tx.wh_binding_intent.who == 0
    then err who_zero
    else if is_empty tx.wh_binding_intent.where_address
    then err where_empty
    else if is_empty tx.wh_binding_intent.what_declared
    then err what_empty
    else if ltb max_freeform_string_len (length tx.wh_binding_intent.what_declared)
    then err (what_long (length tx.wh_binding_intent.what_declared))
    else if ltb max_freeform_string_len (length tx.intent.declared_purpose)
    then err (purpose_long (length tx.intent.declared_purpose))
    else ok tt

unfoldable pub admit_check_structural :
    SymbolicTransition → WorldState → Result AdmitError (Unit {0})
admit_check_structural tx state =
    if ltb (length tx.signature) 64
    then err (signature_short (length tx.signature))
    else if ltb state.max_symbol_address_len (length tx.intent.target)
    then err (target_long (length tx.intent.target))
    else admit_binding tx (payload_size tx.payload state.max_state_entry_size)

-- `get(..).copied().unwrap_or(d)`
abbrev pub nonce_or : ℕ → Option ℕ → ℕ
nonce_or d none = d
nonce_or d (some n) = n

unfoldable pub admit_check : SymbolicTransition → WorldState → Result AdmitError (Unit {0})
unfolding admit_check_structural
admit_check tx state =
    let last_nonce = nonce_or 0 (lookup tx.agent_id state.agent_nonces) in
    if tx.nonce == 0
    then err nonce_zero
    else if last_nonce == u128_max
    then err (nonce_overflow last_nonce)
    else if not (tx.nonce == last_nonce + 1)
    then err (nonce_sequence (last_nonce + 1) tx.nonce)
    else admit_check_structural tx state
