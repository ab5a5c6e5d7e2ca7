-- ===== src/Tests/Governance.antt =====
-- The proposal registry at concrete inputs, where the conditions of its theorems hold.
use scc_blockchain.Prelude.{false, ◌∷◌, ◌≢◌, ℕ, ◌+◌, ◌≡◌, refl, [], none, true}
use scc_blockchain.Prelude.Map.{nat_eq}
use scc_blockchain.Prelude.Result.{ok}
use scc_blockchain.Types.Governance.{genesis, safety}
use scc_blockchain.Consensus.Quorum.{Hash}
use scc_blockchain.Governance.Proposals.Lifecycle.{cast_once}
use scc_blockchain.Governance.Proposals.{
  fresh, ProposalKind, activate_emergency, GovernanceProposal, ProposalRegistry, submit, vote,
  finalize, activate, cast, close, close_all, enact, norm_of, required_for, timelock_duration,
}
use scc_blockchain.Governance.Proposals.Registry.{
  IsRegistry, Reach-IsRegistry, start, then_step, submits, votes, finalizes,
}

abbrev height_id : Hash → ProposalKind → ℕ → Hash
height_id proposer kind height = 1000 + height

abbrev empty : ProposalRegistry
empty = record { proposals = []; index = [] }

-- One proposal of agent 1 at height 7, with 10 blocks to vote.
abbrev proposed : ProposalRegistry
proposed = (submit height_id 1 safety activate_emergency 7 10 empty).0

abbrev voted : ProposalRegistry
voted = (vote 1007 2 safety true 8 proposed).0

abbrev passed : ProposalRegistry
passed = (finalize 18 voted).0

Reach-IsRegistry_example : IsRegistry passed
Reach-IsRegistry_example = Reach-IsRegistry height_id passed (
    then_step
      (then_step (then_step start (submits 1 safety activate_emergency 7 10))
        (votes 1007 2 safety true 8))
      (finalizes 18))

activate_succeeds : (activate 1007 218 passed).1 ≡ ok none
unfolding submit vote finalize activate cast close close_all enact norm_of required_for
    timelock_duration
activate_succeeds = refl

abbrev open_proposal : GovernanceProposal
open_proposal = fresh 1007 1 activate_emergency 7 10

abbrev voted_proposal : GovernanceProposal
voted_proposal = record open_proposal { votes_for = 1; voters = 2 ∷ [] }

cast_succeeds : cast 2 safety true 8 open_proposal ≡ ok (voted_proposal, tt)
unfolding cast required_for
cast_succeeds = refl

cast_once_example : cast 2 genesis false 9 voted_proposal ≢ ok (voted_proposal, tt)
cast_once_example =
    cast_once 2 safety genesis true false 8 9 open_proposal voted_proposal voted_proposal
      cast_succeeds
