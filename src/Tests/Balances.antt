-- ===== src/Tests/Balances.antt =====
-- The balance ledger at concrete inputs, where the conditions of its theorems hold.
use scc_blockchain.Prelude.{◌≡◌, arith, [], ◌∷◌}
use scc_blockchain.Prelude.Int.{◌+ℤ◌, pos}
use scc_blockchain.Prelude.Map.{nat_eq}
use scc_blockchain.Prelude.Int.{◌+ℤ◌}
use scc_blockchain.State.Entries.{sum_if}
use scc_blockchain.State.Balances.{BalanceLedger, transfer, total_supply}
use scc_blockchain.State.Balances.Conservation.{IsSound}
use scc_blockchain.State.Balances.Transfer.{transfer_conserves}

-- Agent 1 holds 10 and agent 2 holds 5.
abbrev pub two_agents : BalanceLedger
two_agents = (1, pos 10) ∷ (2, pos 5) ∷ []

pub two_agents-IsSound : IsSound two_agents
unfolding sum_if ◌+ℤ◌
two_agents-IsSound = record { nonneg = omega arith; fits = ground arith }

transfer_conserves_example :
    let (b', r) = transfer 1 2 (pos 4) two_agents in
    IsSound b' × (total_supply b' ≡ total_supply two_agents)
transfer_conserves_example = transfer_conserves 1 2 (pos 4) two_agents two_agents-IsSound
