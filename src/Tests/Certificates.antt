-- ===== src/Tests/Certificates.antt =====
-- Safety certificates at concrete inputs, where the conditions of their theorems hold.
use scc_blockchain.Prelude.{◌<◌, ◌≡◌, refl, arith, List, [], ◌∷◌, true, length, All}
use scc_blockchain.Prelude.Map.{Map, nat_eq}
use scc_blockchain.Prelude.Result.{ok}
use scc_blockchain.Consensus.Quorum.{Hash, mem}
use scc_blockchain.Consensus.Protocol.{PublicKey}
use scc_blockchain.Consensus.Safety.{
  SafetyCertificate, verify_cryptographic, verify_structure, check_signatures, prove_no_fork,
  equivocators_found, max_byzantine,
}
use scc_blockchain.Consensus.Safety.Certificates.{undersized_accepted}
use scc_blockchain.Consensus.Safety.Forks.{prove_no_fork_accountable}
use scc_blockchain.Tests.Keys.{no_bytes, signed_by, signature_of}

abbrev four_validators : Map Hash PublicKey
four_validators = (1, 11) ∷ (2, 12) ∷ (3, 13) ∷ (4, 14) ∷ []

-- The validators 2, 3 and 4 for one block, and 1, 2 and 3 for another.
abbrev first : SafetyCertificate
first = record {
  chain_id = 1;
  epoch = 0;
  height = 3;
  block_hash = 7;
  round = 0;
  precommit_signatures = (2, signature_of 12) ∷ (3, signature_of 13) ∷ (4, signature_of 14) ∷ [];
  quorum = 3;
  validator_count = 4;
}

abbrev second : SafetyCertificate
second = record first {
  block_hash = 8;
  precommit_signatures = (1, signature_of 11) ∷ (2, signature_of 12) ∷ (3, signature_of 13) ∷ [];
}

first_verifies : verify_cryptographic no_bytes signed_by first four_validators ≡ ok tt
unfolding verify_cryptographic verify_structure check_signatures
first_verifies = refl

second_verifies : verify_cryptographic no_bytes signed_by second four_validators ≡ ok tt
unfolding verify_cryptographic verify_structure check_signatures
second_verifies = refl

prove_no_fork_accountable_example :
    (guilty : List Hash) × (prove_no_fork first second ≡ equivocators_found guilty 3 7 8)
    × (max_byzantine 4 < length guilty)
    × All (λ k. (mem k (2 ∷ 3 ∷ 4 ∷ []) ≡ true) × (mem k (1 ∷ 2 ∷ 3 ∷ []) ≡ true)) guilty
prove_no_fork_accountable_example =
    prove_no_fork_accountable no_bytes signed_by first second four_validators first_verifies
      second_verifies refl refl refl (ground arith)

-- One signature of validator 2, and no validators claimed.
abbrev undersized : SafetyCertificate
undersized = record first {
  precommit_signatures = (2, signature_of 12) ∷ [];
  quorum = 1;
  validator_count = 0;
}

undersized_accepted_example :
    verify_cryptographic no_bytes signed_by undersized four_validators ≡ ok tt
undersized_accepted_example =
    undersized_accepted no_bytes signed_by undersized four_validators 2 12 (signature_of 12) refl
      refl refl refl (omega arith) refl
