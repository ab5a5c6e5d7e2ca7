-- ===== src/Consensus/Safety/Evidence.antt =====
-- Evidence of equivocation and its store: crates/sccgub-consensus/src/safety.rs.
use scc_blockchain.Prelude.{
  ℕ, Bool, true, false, ◌&&◌, ◌||◌, not, Option, none, some, List, [], ◌∷◌, ◌++◌, ◌==◌,
  if◌then◌else◌, length,
}
use scc_blockchain.Prelude.Map.{Map, lookup, insert, nat_eq}
use scc_blockchain.Prelude.Result.{Result, ok, err, Outcome}
use scc_blockchain.Consensus.Quorum.{Hash, mem}
use scc_blockchain.Consensus.Protocol.{Bytes, PublicKey}
use scc_blockchain.Consensus.Safety.{SafetyCertificate}

pub record EquivocationEvidence : Type 0 where
  pub validator_id : Hash
  pub height : ℕ
  pub round_a : ℕ
  pub round_b : ℕ
  pub block_hash_a : Hash
  pub block_hash_b : Hash
  pub signature_a : Bytes
  pub signature_b : Bytes

pub data EvidenceError : Type 0 where
  same_block signature_a_bad signature_b_bad : EvidenceError

-- The tuple that evidence is signed over: block, height, round and the byte 2.
pub record EvidenceData : Type 0 where
  pub block_hash : Hash
  pub height : ℕ
  pub round : ℕ
  pub code : ℕ

pub record EquivocationStore : Type 0 where
  pub evidence : Map Hash (List EquivocationEvidence)
  pub confirmed_equivocators : List Hash

abbrev pub or_empty : Option (List EquivocationEvidence) → List EquivocationEvidence
or_empty none = []
or_empty (some es) = es

unfoldable pub evidence_for : Hash → EquivocationStore → List EquivocationEvidence
evidence_for id s = or_empty (lookup id s.evidence)

unfoldable pub is_equivocator : Hash → EquivocationStore → Bool
is_equivocator id s = mem id s.confirmed_equivocators

unfoldable pub equivocator_count : EquivocationStore → ℕ
equivocator_count s = length s.confirmed_equivocators

-- `any` of the duplicate check.
abbrev pub has_same : EquivocationEvidence → List EquivocationEvidence → Bool
has_same e [] = false
has_same e (x ∷ xs) =
    x.height == e.height && x.block_hash_a == e.block_hash_a && x.block_hash_b == e.block_hash_b
    || has_same e xs

abbrev pub set_insert : Hash → List Hash → List Hash
set_insert x s = if mem x s then s else x ∷ s

module _ (encode : EvidenceData → Bytes) (verify_strict : PublicKey → Bytes → Bytes → Bool) where
  abbrev pub evidence_data : Hash → ℕ → ℕ → Bytes
  evidence_data block_hash height round =
      encode (record { block_hash = block_hash; height = height; round = round; code = 2 })

  -- `EquivocationEvidence::verify`
  unfoldable pub verify_evidence :
      EquivocationEvidence → PublicKey → Result EvidenceError (Unit {0})
  verify_evidence e public_key =
      if e.block_hash_a == e.block_hash_b
      then err same_block
      else if not
          (verify_strict public_key (evidence_data e.block_hash_a e.height e.round_a) e.signature_a)
      then err signature_a_bad
      else if not
          (verify_strict public_key (evidence_data e.block_hash_b e.height e.round_b) e.signature_b)
      then err signature_b_bad
      else ok tt

  -- The rest of `submit_evidence` after `verify(..)?`; `entry(..).or_default()` leaves an empty list
  -- for a validator that had none.
  abbrev pub record_evidence :
      EquivocationEvidence
      → EquivocationStore
      → Result EvidenceError (Unit {0})
      → Outcome EquivocationStore EvidenceError Bool
  record_evidence e s (err x) = (s, err x)
  record_evidence e s (ok u) =
      let entries = evidence_for e.validator_id s in
      if has_same e entries
      then (record s { evidence = insert e.validator_id entries s.evidence }, ok false)
      else (
        record {
          evidence = insert e.validator_id (entries ++ e ∷ []) s.evidence;
          confirmed_equivocators = set_insert e.validator_id s.confirmed_equivocators;
        },
        ok true,
      )

  unfoldable pub submit_evidence :
      EquivocationEvidence
      → PublicKey
      → EquivocationStore
      → Outcome EquivocationStore EvidenceError Bool
  unfolding evidence_for verify_evidence
  submit_evidence e public_key s = record_evidence e s (verify_evidence e public_key)

-- The loop of `extract_from_fork`; `sigs_a` is the first certificate's map, in which a later
-- signature of a signer replaces an earlier one.
abbrev pub to_map : List (Hash × Bytes) → Map Hash Bytes → Map Hash Bytes
to_map [] m = m
to_map ((k, s) ∷ l) m = to_map l (insert k s m)

abbrev pub both_signed :
    (a b : SafetyCertificate) → Map Hash Bytes → List (Hash × Bytes) → List EquivocationEvidence
both_signed a b sigs_a [] = []
both_signed a b sigs_a ((id, sig_b) ∷ l) =
    let rest = both_signed a b sigs_a l in
    elim (lookup id sigs_a) [
      | none ↦ rest
      | some sig_a ↦
          record {
            validator_id = id;
            height = a.height;
            round_a = a.round;
            round_b = b.round;
            block_hash_a = a.block_hash;
            block_hash_b = b.block_hash;
            signature_a = sig_a;
            signature_b = sig_b;
          }
          ∷ rest
    ]

unfoldable pub extract_from_fork : (a b : SafetyCertificate) → List EquivocationEvidence
extract_from_fork a b =
    if not (a.height == b.height) || a.block_hash == b.block_hash
    then []
    else both_signed a b (to_map a.precommit_signatures []) b.precommit_signatures
