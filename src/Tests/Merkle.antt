-- ===== src/Tests/Merkle.antt =====
-- Merkle proofs and the treasury's trie entries at concrete inputs.
use scc_blockchain.Prelude.{ℕ, ◌≡◌, refl, true, List, [], ◌∷◌, ◌++◌, some, inl, inr, arith}
use scc_blockchain.Prelude.Int.{pos, negsuc}
use scc_blockchain.Prelude.Map.{bytes_eq}
use scc_blockchain.Prelude.Result.{ok}
use scc_blockchain.Crypto.Merkle.{
  Digest, MerkleProof, compute_merkle_root, generate_proof, verify_proof,
}
use scc_blockchain.Crypto.Merkle.Inclusion.{verify_proof-generate_proof}
use scc_blockchain.State.Treasury.{Treasury}
use scc_blockchain.State.World.{ManagedWorldState, with_consensus_params}
use scc_blockchain.State.Treasury.Codec.{
  commit_treasury_state, treasury_from_trie, treasury_counter_key, epoch_suffix,
}
use scc_blockchain.State.Treasury.Codec.Writes.{epoch_key}
use scc_blockchain.State.Treasury.Codec.RoundTrip.{treasury_from_trie-commit_treasury_state}

-- In place of the hash: the parts one after the other.
abbrev joined : List (List ℕ) → Digest
joined [] = []
joined (x ∷ xs) = x ++ joined xs

abbrev leaves : List Digest
leaves = (1 ∷ []) ∷ (2 ∷ []) ∷ (3 ∷ []) ∷ []

verify_proof-generate_proof_example :
    (root : Digest) × (p : MerkleProof) × (compute_merkle_root joined leaves ≡ some root)
    × (generate_proof joined leaves 2 ≡ some p)
    × (verify_proof joined root (3 ∷ []) p ≡ true)
verify_proof-generate_proof_example = verify_proof-generate_proof joined leaves 2 (3 ∷ []) refl

abbrev fees : Treasury
fees = record {
  pending_fees = pos 300;
  total_fees_collected = pos 1000;
  total_rewards_distributed = pos 650;
  total_burned = pos 50;
  epoch = 4;
  epoch_fees = pos 70;
  epoch_rewards = negsuc 2;
}

-- A state with another entry, the epoch that an earlier treasury left, and no room to spare.
abbrev before : ManagedWorldState
before = record (with_consensus_params 34) {
  trie = ((98 ∷ 97 ∷ []), (1 ∷ [])) ∷ (treasury_counter_key epoch_suffix, (3 ∷ [])) ∷ [];
}

treasury_from_trie-commit_treasury_state_example :
    treasury_from_trie (commit_treasury_state before fees) ≡ ok fees
unfolding treasury_counter_key with_consensus_params
treasury_from_trie-commit_treasury_state_example =
    treasury_from_trie-commit_treasury_state fees before
      (
        (omega arith, omega arith),
        (omega arith, omega arith),
        (omega arith, omega arith),
        (omega arith, omega arith),
        omega arith,
        (omega arith, omega arith),
        (omega arith, omega arith),
      )
      (refl, (refl, tt)) (inl refl, (inr epoch_key, tt)) (omega arith)
