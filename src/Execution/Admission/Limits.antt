-- ===== src/Execution/Admission/Limits.antt =====
-- What an admitted transition is known to satisfy: crates/sccgub-execution/src/validate.rs.
use scc_blockchain.Prelude.{ℕ, ◌≤◌, ◌≡◌, ◌↔◌, refl, true, none, length, arith}
use scc_blockchain.Prelude.Result.{ok}
use scc_blockchain.Types.Transition.{
  SymbolicTransition, OperationPayload, write, transfer, register_agent, propose_norm,
  deploy_contract, invoke_contract, noop, is_complete,
}
use scc_blockchain.Execution.Admission.{
  WorldState, admit_check_structural, max_freeform_string_len, payload_size,
}

-- The byte strings of a payload that can be large are within the limit.
abbrev pub IsWithin : ℕ → OperationPayload → Type 0
IsWithin limit (write key value) = (length key ≤ limit) × (length value ≤ limit)
IsWithin limit (deploy_contract code) = length code ≤ limit
IsWithin limit (invoke_contract c m args) = length args ≤ limit
IsWithin limit (transfer from to amount) = Unit
IsWithin limit (register_agent k) = Unit
IsWithin limit (propose_norm name description) = Unit
IsWithin limit noop = Unit

-- What admission demands: sizes, a complete binding, and short free-form strings.
abbrev pub IsAdmissible : WorldState → SymbolicTransition → Type 0
IsAdmissible state tx =
    (64 ≤ length tx.signature)
    × (length tx.intent.target ≤ state.max_symbol_address_len)
    × IsWithin state.max_state_entry_size tx.payload
    × (is_complete tx.wh_binding_intent ≡ true)
    × (length tx.wh_binding_intent.what_declared ≤ max_freeform_string_len)
    × (length tx.intent.declared_purpose ≤ max_freeform_string_len)

payload_size-IsWithin :
    (p : OperationPayload) (limit : ℕ) → (payload_size p limit ≡ none) ↔ IsWithin limit p
payload_size-IsWithin (write key value) limit = (λ h. ground arith, λ h. ground arith)
payload_size-IsWithin (deploy_contract code) limit = (λ h. ground arith, λ h. ground arith)
payload_size-IsWithin (invoke_contract c m args) limit = (λ h. ground arith, λ h. ground arith)
payload_size-IsWithin (transfer from to amount) limit = (λ h. tt, λ h. refl)
payload_size-IsWithin (register_agent k) limit = (λ h. tt, λ h. refl)
payload_size-IsWithin (propose_norm name description) limit = (λ h. tt, λ h. refl)
payload_size-IsWithin noop limit = (λ h. tt, λ h. refl)

-- `admit_check_structural` accepts exactly the transitions with a signature of 64 bytes or more, a
-- target and a payload within the limits of the state, a complete binding, and free-form strings of
-- at most 4096 bytes.
pub admit_check_structural-IsAdmissible :
    (tx : SymbolicTransition) (state : WorldState)
    → (admit_check_structural tx state ≡ ok tt) ↔ IsAdmissible state tx
unfolding admit_check_structural is_complete
admit_check_structural-IsAdmissible tx state =
    let size = payload_size-IsWithin tx.payload state.max_state_entry_size in
    (λ h. ground (arith, size), λ h. ground (arith, size))
