-- ===== src/Tests/Limits.antt =====
-- The limit on consecutive proposals at a concrete history.
use scc_blockchain.Prelude.{◌≤◌, max, refl, [], ◌∷◌, arith}
use scc_blockchain.Governance.Concentration.{
  GovernancePowerTracker, default_limits, new_tracker, check_proposal, record_proposal,
  record_action,
}
use scc_blockchain.Governance.Concentration.Consecutive.{
  Reach, start, proposed, acted, in_a_row, Reach-in_a_row,
}

-- Validator 2 proposes, then validator 1 twice, with an action between.
abbrev tracker : GovernancePowerTracker
tracker = record_proposal 1 (record_action 9 (record_proposal 1 (record_proposal 2 new_tracker)))

run : Reach default_limits (1 ∷ 1 ∷ 2 ∷ []) tracker
unfolding check_proposal record_proposal record_action
run = proposed (acted (proposed (proposed start 2 refl) 1 refl) 9) 1 refl

Reach-in_a_row_example :
    in_a_row 1 (1 ∷ 1 ∷ 2 ∷ []) ≤ max 1 default_limits.max_consecutive_proposals
Reach-in_a_row_example = Reach-in_a_row default_limits (1 ∷ 1 ∷ 2 ∷ []) tracker 1 (omega arith) run
