-- ===== src/Consensus/Safety.antt =====
-- Safety certificates and fork proofs: crates/sccgub-consensus/src/safety.rs.
pub mod Evidence
pub mod Certificates
pub mod Forks
pub mod Rounds
use scc_blockchain.Prelude.{
  ℕ, ◌+◌, ◌-◌, ◌*◌, ◌/◌, ◌≡◌, refl, Bool, true, false, ◌&&◌, ◌||◌, not, Option, none, some, List,
  [], ◌∷◌, ◌++◌, ◌==◌, leb, ltb, if◌then◌else◌, length, min,
}
use scc_blockchain.Prelude.Words.{u32_max}
use scc_blockchain.Prelude.Map.{Map, lookup, insert, nat_eq}
use scc_blockchain.Prelude.Result.{Result, ok, err, Outcome}
use scc_blockchain.Consensus.Quorum.{Hash, quorum_of, mem, select}
use scc_blockchain.Consensus.Protocol.{
  Bytes, PublicKey, Vote, VoteType, VoteData, precommit, vote_sign_data,
}

pub record SafetyCertificate : Type 0 where
  pub chain_id : Hash
  pub epoch : ℕ
  pub height : ℕ
  pub block_hash : Hash
  pub round : ℕ
  pub precommit_signatures : List (Hash × Bytes)
  pub quorum : ℕ
  pub validator_count : ℕ

pub data CertificateError : Type 0 where
  quorum_mismatch insufficient_signatures duplicate_signer unknown_signer signature_short
        signature_bad :
      CertificateError

-- The signers, in order.
abbrev pub signers : List (Hash × Bytes) → List Hash
signers [] = []
signers ((k, s) ∷ l) = k ∷ signers l

-- Collecting into a `HashSet`: an element that is there already changes nothing.
abbrev pub collect : List Hash → List Hash
collect [] = []
collect (x ∷ xs) = let rest = collect xs in if mem x rest then rest else x ∷ rest

unfoldable pub verify_structure : SafetyCertificate → Result CertificateError (Unit {0})
verify_structure c =
    if not (c.quorum == 2 * c.validator_count / 3 + 1)
    then err quorum_mismatch
    else if ltb (min (length c.precommit_signatures) u32_max) c.quorum
    then err insufficient_signatures
    else if not (length (collect (signers c.precommit_signatures)) == length c.precommit_signatures)
    then err duplicate_signer
    else ok tt

-- `from_round`; a u32 count keeps the quorum below the cap.
abbrev pub signatures_for : Hash → Map Hash Vote → List (Hash × Bytes)
signatures_for b [] = []
signatures_for b ((k, v) ∷ m) =
    let rest = signatures_for b m in
    if v.block_hash == b then (v.validator_id, v.signature) ∷ rest else rest

unfoldable pub from_round :
    (chain_id : Hash) (epoch : ℕ) (block_hash : Hash) (height round : ℕ)
    (precommits : Map Hash Vote) (validator_count : ℕ)
    → SafetyCertificate
from_round chain_id epoch block_hash height round precommits validator_count = record {
  chain_id = chain_id;
  epoch = epoch;
  height = height;
  block_hash = block_hash;
  round = round;
  precommit_signatures = signatures_for block_hash precommits;
  quorum = quorum_of validator_count;
  validator_count = validator_count;
}

module _ (encode : VoteData → Bytes) (verify_strict : PublicKey → Bytes → Bytes → Bool) where
  -- One turn of the loop, after the look-up of the signer's key.
  abbrev pub check_signature :
      SafetyCertificate → Option PublicKey → Bytes → Result CertificateError (Unit {0})
  check_signature c none signature = err unknown_signer
  check_signature c (some public_key) signature =
      if ltb (length signature) 64
      then err signature_short
      else if verify_strict public_key
          (vote_sign_data encode verify_strict c.chain_id c.epoch c.block_hash c.height c.round
            precommit)
          signature
      then ok tt
      else err signature_bad

  -- `then` runs the second check if the first passes.
  abbrev pub and_then :
      Result CertificateError (Unit {0})
      → Result CertificateError (Unit {0})
      → Result CertificateError (Unit {0})
  and_then (err x) k = err x
  and_then (ok u) k = k

  unfoldable pub check_signatures :
      SafetyCertificate
      → Map Hash PublicKey
      → List (Hash × Bytes)
      → Result CertificateError (Unit {0})
  check_signatures c validator_set [] = ok tt
  check_signatures c validator_set ((id, signature) ∷ l) =
      and_then (check_signature c (lookup id validator_set) signature)
        (check_signatures c validator_set l)

  unfoldable pub verify_cryptographic :
      SafetyCertificate → Map Hash PublicKey → Result CertificateError (Unit {0})
  unfolding check_signatures
  verify_cryptographic c validator_set =
      and_then (verify_structure c) (check_signatures c validator_set c.precommit_signatures)

-- `impossible_fork` stands for two branches of the source, which its reason tells apart.
pub data ForkProofResult : Type 0 where
  different_heights same_block_hash different_sets impossible_fork : ForkProofResult
  equivocators_found : List Hash → ℕ → Hash → Hash → ForkProofResult

abbrev pub is_empty : List Hash → Bool
is_empty [] = true
is_empty (x ∷ xs) = false

-- `signers_a.intersection(&signers_b)`
abbrev pub intersection : List Hash → List Hash → List Hash
intersection xs ys = select (λ x. mem x ys) xs

unfoldable pub prove_no_fork : (a b : SafetyCertificate) → ForkProofResult
prove_no_fork a b =
    if not (a.height == b.height)
    then different_heights
    else if not (a.validator_count == b.validator_count)
    then different_sets
    else if a.block_hash == b.block_hash
    then same_block_hash
    else let equivocators =
        intersection (collect (signers a.precommit_signatures))
          (collect (signers b.precommit_signatures)) in
      if is_empty equivocators
      then impossible_fork
      else equivocators_found equivocators a.height a.block_hash b.block_hash

unfoldable pub max_byzantine : ℕ → ℕ
max_byzantine n = if ltb n 4 then 0 else (n - 1) / 3

unfoldable pub check_byzantine_tolerance : (n desired : ℕ) → Bool
unfolding max_byzantine
check_byzantine_tolerance n desired = not (ltb (max_byzantine n) desired)
