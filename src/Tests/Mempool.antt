-- ===== src/Tests/Mempool.antt =====
-- Admission, containment and the mempool at concrete inputs.
use scc_blockchain.Prelude.{
  ℕ, zero, suc, ◌+◌, ◌≤◌, ◌≡◌, refl, [], ◌∷◌, leb, max, length, All, arith,
}
use scc_blockchain.Prelude.Int.{pos}
use scc_blockchain.Prelude.Words.{u128_max}
use scc_blockchain.Prelude.Map.{nat_eq}
use scc_blockchain.Types.Transition.{Bytes, SymbolicTransition, state_write, write}
use scc_blockchain.Execution.Admission.{WorldState}
use scc_blockchain.Execution.Admission.Limits.{IsAdmissible}
use scc_blockchain.Governance.Containment.{
  NodeBehaviorProfile, ContainmentState, quarantine, is_allowed,
}
use scc_blockchain.Governance.Containment.Release.{ticks, is_allowed-ticks}
use scc_blockchain.Node.Mempool
use scc_blockchain.Node.Mempool.{Mempool, new, add, mark_confirmed, drain_validated}
use scc_blockchain.Node.Mempool.Order.{nonces_of, following}
use scc_blockchain.Node.Mempool.Pool.{IsPool, Reach-IsPool}
use scc_blockchain.Node.Mempool.Drain.{committed, drain_validated-following}

abbrev zeros : ℕ → Bytes
zeros zero = []
zeros (suc n) = 0 ∷ zeros n

abbrev pub tx : (id agent nonce : ℕ) → SymbolicTransition
tx id agent nonce = record {
  tx_id = id;
  agent_id = agent;
  public_key = agent + 100;
  intent = record { kind = state_write; target = 1 ∷ []; declared_purpose = [] };
  payload = write (1 ∷ []) (2 ∷ []);
  wh_binding_intent = record { who = agent; where_address = 1 ∷ []; what_declared = 2 ∷ [] };
  nonce = nonce;
  signature = zeros 64;
}

abbrev world : WorldState
world = record {
  agent_nonces = (7, 4) ∷ [];
  max_symbol_address_len = 100;
  max_state_entry_size = 1000;
}

abbrev hostile : NodeBehaviorProfile
hostile = record {
  node_id = 3;
  positive_delta = pos 0;
  negative_delta = pos 500;
  containment = quarantine 10;
  invalid_count = 50;
  valid_count = 0;
}

abbrev watched : ContainmentState
watched = record { nodes = (3, hostile) ∷ []; hostility_threshold = pos 2; epsilon = pos 1 }

is_allowed-ticks_example : is_allowed 3 (ticks 12 watched) ≡ leb (max 1 10) 12
is_allowed-ticks_example = is_allowed-ticks 3 watched hostile 10 12 refl refl

-- Three transitions: the last has a nonce that leaves a gap.
abbrev pool : Mempool
pool = (add (tx 2 7 8) (add (tx 9 7 6) (add (tx 1 7 5) (new 2)).0).0).0

Reach-IsPool_example : IsPool pool × (pool.max_size ≡ 2)
Reach-IsPool_example = Reach-IsPool 2 pool (
    Mempool.Pool.added
      (Mempool.Pool.added (Mempool.Pool.added Mempool.Pool.created (tx 1 7 5)) (tx 9 7 6))
      (tx 2 7 8))

abbrev pending : Mempool
pending = record {
  pending = tx 1 7 5 ∷ tx 9 7 6 ∷ tx 2 7 8 ∷ [];
  seen_ids = 1 ∷ 9 ∷ 2 ∷ [];
  confirmed_ids = [];
  confirmed_order = [];
  max_size = 5;
  containment = watched;
}

small_nonces : (b : ℕ) → committed world b + length pending.pending ≤ u128_max
small_nonces b = ground arith

drain_validated-following_example :
    ((n : ℕ) × (nonces_of 7 (drain_validated world pending).1 ≡ following (committed world 7) n))
    × All (IsAdmissible world) (drain_validated world pending).1
drain_validated-following_example = drain_validated-following world pending 7 small_nonces
