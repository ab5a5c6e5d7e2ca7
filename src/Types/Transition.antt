-- ===== src/Types/Transition.antt =====
-- Governed transitions: crates/sccgub-types/src/transition.rs, with the parts that admission and the
-- mempool read. Hashes and ids are the numbers that their bytes spell, addresses and strings are
-- byte strings. Of the actor it has the agent id and the public key; of the binding, the three
-- declared fields.
use scc_blockchain.Prelude.{ℕ, Bool, true, false, ◌&&◌, not, List, [], ◌∷◌, ◌==◌}
use scc_blockchain.Prelude.Int.{ℤ}

abbrev pub Bytes : Type 0
Bytes = List ℕ

pub data TransitionKind : Type 0 where
  state_write state_read governance_update norm_proposal constraint_addition : TransitionKind
  agent_registration dispute_resolution asset_transfer contract_deploy : TransitionKind
  contract_invoke : TransitionKind

pub record TransitionIntent : Type 0 where
  pub kind : TransitionKind
  pub target : Bytes
  pub declared_purpose : Bytes

-- `where_address` is the field `r#where`.
pub record WhBindingIntent : Type 0 where
  pub who : ℕ
  pub where_address : Bytes
  pub what_declared : Bytes

-- `transfer` is `AssetTransfer`.
pub data OperationPayload : Type 0 where
  write : (key value : Bytes) → OperationPayload
  transfer : (from to : ℕ) (amount : ℤ) → OperationPayload
  register_agent : (public_key : ℕ) → OperationPayload
  propose_norm : (name description : Bytes) → OperationPayload
  deploy_contract : (code : Bytes) → OperationPayload
  invoke_contract : (contract_id : ℕ) (method args : Bytes) → OperationPayload
  noop : OperationPayload

pub record SymbolicTransition : Type 0 where
  pub tx_id : ℕ
  pub agent_id : ℕ
  pub public_key : ℕ
  pub intent : TransitionIntent
  pub payload : OperationPayload
  pub wh_binding_intent : WhBindingIntent
  pub nonce : ℕ
  pub signature : Bytes

abbrev pub is_empty : Bytes → Bool
is_empty [] = true
is_empty (b ∷ bs) = false

-- `WHBindingIntent::is_complete`
unfoldable pub is_complete : WhBindingIntent → Bool
is_complete w = not (w.who == 0) && not (is_empty w.where_address) && not (is_empty w.what_declared)
