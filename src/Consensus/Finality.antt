-- ===== src/Consensus/Finality.antt =====
-- The finality tracker: crates/sccgub-consensus/src/finality.rs. The `while` loop of
-- `check_finality` runs on fuel; a certificate's list of attestations and its time, which the loop
-- leaves empty and zero, are left out.
pub mod Progress
use scc_blockchain.Prelude.{
  ℕ, zero, suc, ◌+◌, ◌-◌, Bool, true, false, Option, none, some, List, [], ◌∷◌, ◌++◌, leb,
  if◌then◌else◌,
}
use scc_blockchain.Prelude.Words.{sat_add64, sat_mul64}
use scc_blockchain.Consensus.Quorum.{Hash}

pub record FinalityConfig : Type 0 where
  pub confirmation_depth : ℕ
  pub max_finality_ms : ℕ
  pub target_block_time_ms : ℕ

abbrev pub default_config : FinalityConfig
default_config = record {
  confirmation_depth = 2;
  max_finality_ms = 6000;
  target_block_time_ms = 2000;
}

unfoldable pub expected_finality_ms : FinalityConfig → ℕ
expected_finality_ms c = sat_mul64 c.confirmation_depth c.target_block_time_ms

unfoldable pub meets_sla : FinalityConfig → Bool
unfolding expected_finality_ms
meets_sla c = leb (expected_finality_ms c) c.max_finality_ms

pub record FinalityCertificate : Type 0 where
  pub block_hash : Hash
  pub height : ℕ
  pub confirmations : ℕ

pub record FinalityTracker : Type 0 where
  pub finalized_height : ℕ
  pub tip_height : ℕ
  pub certificates : List FinalityCertificate

unfoldable pub on_new_block : ℕ → FinalityTracker → FinalityTracker
on_new_block height t = record t { tip_height = height }

-- The certificate for a height, with u64 subtraction that stops at 0.
abbrev pub certificate : FinalityTracker → ℕ → Hash → FinalityCertificate
certificate t target hash = record {
  block_hash = hash;
  height = target;
  confirmations = t.tip_height - target;
}

-- One turn that finalizes the target.
abbrev pub finalize_at : FinalityTracker → ℕ → Hash → FinalityTracker
finalize_at t target hash = record t {
  certificates = t.certificates ++ certificate t target hash ∷ [];
  finalized_height = target;
}

module _ (config : FinalityConfig) (block_hash_at : ℕ → Option Hash) where
  -- The loop: the tracker after it, and the new certificates.
  unfoldable pub check_finality :
      ℕ → FinalityTracker → Option (FinalityTracker × List FinalityCertificate)
  check_finality zero t = none
  check_finality (suc fuel) t =
      let target = sat_add64 t.finalized_height 1 in
      let go : Option (FinalityTracker × List FinalityCertificate) = elim (block_hash_at target) [
        | none ↦ some (t, [])
        | some hash ↦ elim (check_finality fuel (finalize_at t target hash)) [
          | none ↦ none
          | some r ↦ some (r.0, certificate t target hash ∷ r.1)
        ]
      ] in
      if leb (sat_add64 t.finalized_height config.confirmation_depth) t.tip_height
      then go
      else some (t, [])

unfoldable pub finality_gap : FinalityTracker → ℕ
finality_gap t = t.tip_height - t.finalized_height
