-- ===== src/Tests/Metering.antt =====
-- Finality, fork choice, slashing and gas at concrete inputs, where the conditions of their theorems
-- hold.
use scc_blockchain.Prelude.{ℕ, ◌+◌, ◌≡◌, arith, List, [], ◌∷◌, Option, some}
use scc_blockchain.Prelude.Int.{pos}
use scc_blockchain.Prelude.Map.{nat_eq}
use scc_blockchain.Consensus.Quorum.{Hash}
use scc_blockchain.Consensus.Protocol.{prevote}
use scc_blockchain.Consensus.Finality.{
  FinalityTracker, FinalityCertificate, default_config, check_finality,
}
use scc_blockchain.Consensus.Finality.Progress.{IsRun, check_finality_runs}
use scc_blockchain.Consensus.ForkChoice.{ChainTip, select_canonical_tip, selected}
use scc_blockchain.Consensus.ForkChoice.Best.{IsBest, select_canonical_tip-IsBest}
use scc_blockchain.Execution.Gas.{GasMeter, GasPricing}
use scc_blockchain.Execution.Gas.Limits.{
  Op, state_read, state_write, compute, tx_base, total, run, IsRun as IsGasRun, run_lem,
}
use scc_blockchain.Consensus.Slashing.{SlashingEngine, EquivocationProof}

-- Every block up to the tip is known.
abbrev known_hash : ℕ → Option Hash
known_hash h = some (100 + h)

abbrev tip_at_five : FinalityTracker
tip_at_five = record { finalized_height = 0; tip_height = 5; certificates = [] }

check_finality_runs_example :
    (r : FinalityTracker × List FinalityCertificate) × (check_finality default_config known_hash 10
        tip_at_five
      ≡ some r)
    × IsRun default_config known_hash tip_at_five r
check_finality_runs_example =
    check_finality_runs default_config known_hash 10 tip_at_five (omega arith) (omega arith)

abbrev first_tip : ChainTip
first_tip = record { block_id = 9; height = 4; finalized_depth = 2; cumulative_voting_power = 3 }

abbrev deeper_tip : ChainTip
deeper_tip = record { block_id = 1; height = 4; finalized_depth = 3; cumulative_voting_power = 1 }

select_canonical_tip-IsBest_example :
    (w : ℕ) × (select_canonical_tip (first_tip ∷ deeper_tip ∷ []) ≡ selected w)
    × IsBest (first_tip ∷ deeper_tip ∷ []) w
select_canonical_tip-IsBest_example = select_canonical_tip-IsBest first_tip (deeper_tip ∷ [])

abbrev pricing : GasPricing
pricing = record {
  tx_base = 100;
  compute_step = 1;
  state_read = 10;
  state_write = 50;
  sig_verify = 300;
  hash_op = 5;
  proof_byte = 2;
  payload_byte = 1;
}

abbrev meter : GasMeter
meter = record {
  limit = 1000;
  pricing = pricing;
  used = 0;
  breakdown = record {
    compute = 0;
    state_reads = 0;
    state_writes = 0;
    sig_verify = 0;
    hashing = 0;
    proof = 0;
  };
}

abbrev ops : List Op
ops = tx_base ∷ state_read ∷ state_write ∷ compute 30 ∷ []

run_lem_example : IsGasRun (total pricing ops) meter (run ops meter)
run_lem_example = run_lem ops meter (omega arith) (omega arith)

abbrev engine : SlashingEngine
engine = record {
  config = record {
    double_sign_penalty_pct = 32;
    divergence_penalty_pct = 10;
    absence_penalty_pct_per_epoch = 1;
    max_absence_epochs = 10;
  };
  stakes = (4, pos 1000) ∷ (5, pos 70) ∷ [];
  events = [];
  removed = [];
  absence_counter = [];
}

abbrev double_vote : EquivocationProof
double_vote = record {
  validator_id = 4;
  height = 3;
  round = 0;
  vote_type = prevote;
  block_hash_a = 7;
  block_hash_b = 8;
}
