-- ===== src/Consensus/Safety/Forks.antt =====
-- Two certificates for different blocks expose more than the tolerated number of validators.
use scc_blockchain.Prelude.{
  All, ℕ, ◌+◌, ◌*◌, ◌/◌, ◌≡◌, ◌≢◌, ◌≤◌, ◌<◌, refl, sym, ◌∙◌, Bool, true, false, List, [], ◌∷◌,
  ==_iff, ==_false, length, arith,
}
use scc_blockchain.Prelude.Map.{Map}
use scc_blockchain.Prelude.Result.{ok}
use scc_blockchain.Consensus.Quorum.{All-of_mem, Hash, mem, mem-select, overlap}
use scc_blockchain.Consensus.Protocol.{Bytes, PublicKey, VoteData}
use scc_blockchain.Consensus.Protocol.Finalize.{keys, length-keys}
use scc_blockchain.Consensus.Safety.{
  SafetyCertificate, signers, verify_cryptographic, prove_no_fork, max_byzantine,
  equivocators_found, intersection, is_empty,
}
use scc_blockchain.Consensus.Safety.Certificates.{verify_cryptographic_Subset, collect_distinct}

-- Two quorums of n validators share more than the tolerated number of faulty ones.
pub byzantine_overlap :
    (n a b both : ℕ)
    → 2 * n / 3 + 1 ≤ a
    → 2 * n / 3 + 1 ≤ b
    → a + b ≤ n + both
    → max_byzantine n < both
unfolding max_byzantine
byzantine_overlap n a b both p q r = ground arith

nonempty : (xs : List Hash) → 0 < length xs → is_empty xs ≡ false
nonempty [] h = absurd (omega arith)
nonempty (x ∷ xs) h = refl

module _ (encode : VoteData → Bytes) (verify_strict : PublicKey → Bytes → Bytes → Bool) where
  -- Two certificates for different blocks of one height that both verify against a validator set,
  -- and claim its size, make `prove_no_fork` name more validators than the set tolerates as faulty,
  -- each of which signed both.
  pub prove_no_fork_accountable :
      (a b : SafetyCertificate) (v : Map Hash PublicKey)
      → verify_cryptographic encode verify_strict a v ≡ ok tt
      → verify_cryptographic encode verify_strict b v ≡ ok tt
      → a.validator_count ≡ length v
      → b.validator_count ≡ length v
      → a.height ≡ b.height
      → a.block_hash ≢ b.block_hash
      → (guilty : List Hash) × (prove_no_fork a b
          ≡ equivocators_found guilty a.height a.block_hash b.block_hash)
        × (max_byzantine (length v) < length guilty)
        × All
            (λ k.
              (mem k (signers a.precommit_signatures) ≡ true)
              × (mem k (signers b.precommit_signatures) ≡ true))
            guilty
  unfolding prove_no_fork
  prove_no_fork_accountable a b v va vb na nb h ne =
      let (sa, ma) = verify_cryptographic_Subset encode verify_strict a v va in
      let (sb, mb) = verify_cryptographic_Subset encode verify_strict b v vb in
      let xs : List Hash = signers a.precommit_signatures in
      let ys : List Hash = signers b.precommit_signatures in
      let both : List Hash = intersection xs ys in
      let shared = overlap (keys v) xs ys sa.distinct sb.distinct ma mb in
      let size : length (keys v) ≡ length v = length-keys v in
      let many : max_byzantine (length v) < length both =
        byzantine_overlap (length v) (length xs) (length ys) (length both)
          (omega (arith, sa.quorum, sa.enough, na)) (omega (arith, sb.quorum, sb.enough, nb))
          (omega (arith, shared, size)) in
      (
        both,
        rw (
          (==_iff a.height b.height).1 h,
          (==_iff a.validator_count b.validator_count).1 (na ∙ sym nb),
          ==_false a.block_hash b.block_hash ne,
          collect_distinct xs sa.distinct,
          collect_distinct ys sb.distinct,
          nonempty both (omega (arith, many)),
        ),
        many,
        All-of_mem
            (λ k.
              (mem k (signers a.precommit_signatures) ≡ true)
              × (mem k (signers b.precommit_signatures) ≡ true))
            both (λ k m. ground (arith, mem-select (λ x. mem x ys) k xs)),
      )
