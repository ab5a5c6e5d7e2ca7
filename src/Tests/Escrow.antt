-- ===== src/Tests/Escrow.antt =====
-- The escrow registry at concrete inputs, where the conditions of its theorems hold.
use scc_blockchain.Prelude.{ℕ, ◌+◌, ◌≡◌, ◌≢◌, refl, arith, [], ◌∷◌}
use scc_blockchain.Prelude.Int.{pos, ◌+ℤ◌, ◌-ℤ◌}
use scc_blockchain.Prelude.Map.{nat_eq}
use scc_blockchain.Prelude.Result.{ok, err}
use scc_blockchain.Types.Tension.{sub, TensionValue}
use scc_blockchain.Prelude.Words.{sat}
use scc_blockchain.State.Entries.{sum_if}
use scc_blockchain.State.Balances.{debit, AgentId, BalanceLedger, total_supply}
use scc_blockchain.State.Escrow.{
  EscrowRegistry, Escrow, Hash, active, released, time_locked, release, refund, create,
  total_locked, not_active, panicked, new,
}
use scc_blockchain.State.Escrow.Custody.{Custody, locked}
use scc_blockchain.State.Escrow.Reach.{Reach-conserves, here, next, releases, refunds, creates}
use scc_blockchain.State.Escrow.Once.{release_once}
use scc_blockchain.State.Escrow.Index.{IsIndexed}
use scc_blockchain.State.Escrow.Ids.{Reach-in_bounds}
use scc_blockchain.Tests.Balances.{two_agents, two_agents-IsSound}

-- The id of an escrow, where the hash is a number.
abbrev sum_id : AgentId → AgentId → TensionValue → ℕ → Hash
sum_id sender recipient amount height = 1000 + height

-- One escrow of 4 from agent 1 to agent 2, that can be refunded from height 50 on.
abbrev the_escrow : Escrow
the_escrow = record {
  id = 1007;
  sender = 1;
  recipient = 2;
  amount = pos 4;
  status = active;
  created_at = 7;
  expires_at = 50;
  condition = time_locked 9;
}

abbrev one_escrow : EscrowRegistry
one_escrow = record { escrows = the_escrow ∷ []; index = (1007, 0) ∷ [] }

one_escrow-Custody : Custody one_escrow.escrows two_agents
unfolding sum_if ◌+ℤ◌ locked
one_escrow-Custody = record {
  sound = two_agents-IsSound;
  amounts = omega arith;
  fits = ground arith;
}

-- The state after a release and a refund that comes too late.
abbrev released_state : EscrowRegistry × BalanceLedger
released_state = (release 1007 one_escrow two_agents).0

abbrev refused_state : EscrowRegistry × BalanceLedger
refused_state = (refund 1007 60 released_state.0 released_state.1).0

Reach-conserves_example :
    Custody refused_state.0.escrows refused_state.1
    × (total_supply refused_state.1 +ℤ total_locked refused_state.0
        ≡ total_supply two_agents +ℤ total_locked one_escrow)
Reach-conserves_example =
    Reach-conserves sum_id (one_escrow, two_agents) refused_state one_escrow-Custody
      (next (next here (releases 1007)) (refunds 1007 60))

-- A creation and its release.
abbrev created_state : EscrowRegistry × BalanceLedger
created_state = (create sum_id 1 2 (pos 3) (time_locked 9) 7 43 new two_agents).0

Reach-in_bounds_example :
    IsIndexed created_state.0
    × ((id : Hash) → (release id created_state.0 created_state.1).1 ≢ err panicked)
    × ((id : Hash) (height : ℕ)
        → (refund id height created_state.0 created_state.1).1 ≢ err panicked)
Reach-in_bounds_example =
    Reach-in_bounds sum_id two_agents created_state
      (next here (creates 1 2 (pos 3) (time_locked 9) 7 43))

no_escrow-IsIndexed : IsIndexed new
no_escrow-IsIndexed = record { leads = λ id i q. cc }

first_succeeds : (create sum_id 1 2 (pos 3) (time_locked 9) 7 43 new two_agents).1 ≡ ok 1007
unfolding create debit
first_succeeds = refl

second_succeeds :
    (create sum_id 1 2 (pos 3) (time_locked 20) 7 43 created_state.0 created_state.1).1 ≡ ok 1007
unfolding create debit sub sat ◌-ℤ◌
second_succeeds = refl

release_succeeds : (release 1007 one_escrow two_agents).1 ≡ ok tt
unfolding release
release_succeeds = refl

refund_succeeds : (refund 1007 50 one_escrow two_agents).1 ≡ ok tt
unfolding refund
refund_succeeds = refl

release_once_example :
    let s = (release 1007 one_escrow two_agents).0 in
    (release 1007 s.0 s.1 ≡ (s, err (not_active released)))
    × (refund 1007 60 s.0 s.1 ≡ (s, err (not_active released)))
release_once_example = release_once 1007 60 one_escrow two_agents release_succeeds
