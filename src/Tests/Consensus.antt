-- ===== src/Tests/Consensus.antt =====
-- Voting rounds, finality, fork choice, slashing and gas at concrete inputs, where the conditions of
-- their theorems hold.
use scc_blockchain.Prelude.{◌<◌, ◌≡◌, refl, arith, List, [], ◌∷◌, length, All}
use scc_blockchain.Prelude.Map.{Map, nat_eq}
use scc_blockchain.Consensus.Partition.{
  PartitionDetector, ValidatorGroup, default_config, detect, partitioned,
}
use scc_blockchain.Consensus.Partition.Groups.{IsSplit, detect-IsSplit}
use scc_blockchain.Consensus.Quorum.{Hash, IsDistinct, Subset}
use scc_blockchain.Consensus.Protocol.Finalize.{keys}
use scc_blockchain.Consensus.Protocol.{
  PublicKey, VoteType, prevote, precommit, Vote, ConsensusRound, new_round, add_prevote,
  add_precommit, evaluate, finalized, verify_vote, prevote_count, precommit_count,
  has_prevote_quorum, has_precommit_quorum,
}
use scc_blockchain.Consensus.Protocol.Votes.{
  IsRound, new_round-IsRound, here, next, prevotes, precommits,
}
use scc_blockchain.Consensus.Safety.{max_byzantine}
use scc_blockchain.Consensus.Safety.Rounds.{SignedBoth, conflicting_rounds}
use scc_blockchain.Tests.Keys.{no_bytes, signed_by, signature_of}

-- The set of the one validator 5, whose key is 5.
abbrev one_validator : Map Hash PublicKey
one_validator = (5, 5) ∷ []

abbrev vote_for : Hash → VoteType → Vote
vote_for block t = record {
  validator_id = 5;
  block_hash = block;
  height = 3;
  round = 0;
  vote_type = t;
  signature = signature_of 5;
}

abbrev start : Hash → ConsensusRound
start block = new_round 1 0 block 3 0 one_validator 10

abbrev voted : Hash → ConsensusRound
voted block =
    let r = (add_prevote no_bytes signed_by (start block) (vote_for block prevote)).0 in
    (add_precommit no_bytes signed_by r (vote_for block precommit)).0

voted-IsRound : (block : Hash) → IsRound no_bytes signed_by (voted block)
voted-IsRound block =
    new_round-IsRound no_bytes signed_by 1 0 block 3 0 one_validator 10 (voted block)
      (next (next here (prevotes (vote_for block prevote))) (precommits (vote_for block precommit)))

voted-finalized : (evaluate (voted 7)).1 ≡ finalized 7 1 1
unfolding new_round add_prevote add_precommit verify_vote evaluate prevote_count precommit_count
    has_prevote_quorum has_precommit_quorum
voted-finalized = refl

voted_other-finalized : (evaluate (voted 8)).1 ≡ finalized 8 1 1
unfolding new_round add_prevote add_precommit verify_vote evaluate prevote_count precommit_count
    has_prevote_quorum has_precommit_quorum
voted_other-finalized = refl

same_set : (voted 7).validator_set ≡ (voted 8).validator_set
unfolding new_round add_prevote add_precommit verify_vote
same_set = refl

small_set : length (voted 7).validator_set < 4294967295
unfolding new_round add_prevote add_precommit verify_vote
small_set = omega arith

conflicting_rounds_example :
    (guilty : List Hash) × IsDistinct guilty
    × Subset guilty (keys (voted 7).validator_set)
    × (max_byzantine (length (voted 7).validator_set) < length guilty)
    × All (SignedBoth no_bytes signed_by (voted 7) (voted 8) 7 8) guilty
conflicting_rounds_example =
    conflicting_rounds no_bytes signed_by (voted 7) (voted 8) 7 8 1 1 1 1 (voted-IsRound 7)
      (voted-IsRound 8) same_set small_set voted-finalized voted_other-finalized

abbrev heights : PartitionDetector
heights = (1, 100) ∷ (2, 101) ∷ (3, 150) ∷ []

abbrev behind : ValidatorGroup
behind = record { validators = 1 ∷ 2 ∷ []; max_height = 101 }

abbrev ahead : ValidatorGroup
ahead = record { validators = 3 ∷ []; max_height = 150 }

heights-detected : detect default_config heights ≡ partitioned behind ahead 0
unfolding detect default_config
heights-detected = refl

detect-IsSplit_example : IsSplit default_config.divergence_threshold heights behind ahead 0
detect-IsSplit_example =
    detect-IsSplit default_config heights behind ahead 0
      (omega arith, (omega arith, (omega arith, tt))) heights-detected
