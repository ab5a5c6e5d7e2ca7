-- ===== src/Tests/Laws.antt =====
-- Law sets and the fee oracle at concrete inputs.
use scc_blockchain.Prelude.{◌-◌, ◌/◌, ◌≤◌, ◌<◌, ◌≡◌, ◌↔◌, refl, some, List, [], ◌∷◌, length, arith}
use scc_blockchain.Prelude.Int.{pos, negsuc}
use scc_blockchain.Types.Tension.{TensionValue}
use scc_blockchain.Types.Economics.{median_of_tensions}
use scc_blockchain.Types.Economics.Median.{count_below, count_up_to, median_of_tensions-counts}
use scc_blockchain.Consensus.LawSync.{LawSyncRound, consensus, divergent, evaluate, new, submit}
use scc_blockchain.Consensus.LawSync.Canonical.{votes_for, evaluate-consensus}

-- Four validators, of which three propose law set 70.
abbrev round : LawSyncRound
round = (submit 4 70 (submit 3 71 (submit 2 70 (submit 1 70 (new 9 4)).0).0).0).0

all_submitted : length round.proposals ≤ round.validator_count
unfolding new submit
all_submitted = omega arith

few : round.validator_count ≤ 4294967295
unfolding new submit
few = omega arith

evaluate-consensus_example :
    (evaluate round ≡ consensus 70 (votes_for 70 round.proposals) (divergent 70 round.proposals))
    ↔ (round.quorum ≤ votes_for 70 round.proposals)
unfolding new submit
evaluate-consensus_example = evaluate-consensus round 70 refl all_submitted few

-- A run of `evaluate`.
evaluate_run : evaluate round ≡ consensus 70 3 (3 ∷ [])
unfolding new submit evaluate
evaluate_run = refl

abbrev tensions : List TensionValue
tensions = pos 30 ∷ negsuc 4 ∷ pos 12 ∷ pos 30 ∷ pos 7 ∷ []

median_of_tensions-counts_example :
    (m : TensionValue) × (median_of_tensions tensions ≡ some m)
    × (count_below m tensions ≤ (length tensions - 1) / 2)
    × ((length tensions - 1) / 2 < count_up_to m tensions)
median_of_tensions-counts_example = median_of_tensions-counts tensions (omega arith)
