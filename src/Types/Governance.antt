-- ===== src/Types/Governance.antt =====
-- The governance types: crates/sccgub-types/src/governance.rs and typed_params.rs. A string is its
-- bytes.
use scc_blockchain.Prelude.{ℕ, Bool, List}
use scc_blockchain.Prelude.Int.{ℤ}
use scc_blockchain.Types.Tension.{TensionValue}

pub data PrecedenceLevel : Type 0 where
  genesis safety meaning emotion optimization : PrecedenceLevel

-- `level as u8`: a lower number is a higher authority.
abbrev pub rank : PrecedenceLevel → ℕ
rank genesis = 0
rank safety = 1
rank meaning = 2
rank emotion = 3
rank optimization = 4

pub record Norm : Type 0 where
  pub id : ℕ
  pub name : List ℕ
  pub description : List ℕ
  pub precedence : PrecedenceLevel
  pub population_share : TensionValue
  pub fitness : TensionValue
  pub enforcement_cost : TensionValue
  pub active : Bool
  pub created_at_height : ℕ

pub data ConsensusParamField : Type 0 where
  max_proof_depth max_constraint_propagation_depth max_constraint_propagation_steps :
      ConsensusParamField
  max_activated_symbols max_scan_per_symbol max_constraints_per_symbol : ConsensusParamField
  default_max_steps default_tx_gas_limit default_block_gas_limit : ConsensusParamField
  gas_tx_base gas_compute_step gas_state_read gas_state_write : ConsensusParamField
  gas_sig_verify gas_hash_op gas_proof_byte gas_payload_byte : ConsensusParamField
  max_symbol_address_len max_state_entry_size max_tension_swing : ConsensusParamField
  view_change_base_timeout_ms view_change_max_timeout_ms max_block_bytes : ConsensusParamField
  max_active_proposals max_validator_set_size : ConsensusParamField
  max_validator_set_changes_per_block_param : ConsensusParamField
  median_tension_window fee_tension_alpha confirmation_depth : ConsensusParamField
  max_equivocation_evidence_per_block_param max_forgery_vetoes_per_block_param : ConsensusParamField

pub data ConsensusParamValue : Type 0 where
  u32 u64 : ℕ → ConsensusParamValue
  i64 i128 : ℤ → ConsensusParamValue
