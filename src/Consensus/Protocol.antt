-- ===== src/Consensus/Protocol.antt =====
-- A round of two-phase voting: crates/sccgub-consensus/src/protocol.rs. The canonical encoding of a
-- vote and the strict Ed25519 verification are library code and come as parameters; a public key is
-- the number that its 32 bytes spell. The warning on small sets and the texts of errors are left out.
pub mod Votes
pub mod Finalize
pub mod Equivocation
use scc_blockchain.Prelude.{
  ℕ, ◌+◌, ◌≡◌, refl, Bool, true, false, ◌&&◌, ◌||◌, not, Option, none, some, List, [], ◌∷◌, ◌==◌,
  leb, ltb, if◌then◌else◌, length, min, count_if,
}
use scc_blockchain.Prelude.Words.{u32_max}
use scc_blockchain.Prelude.Map.{Map, lookup, insert, contains, nat_eq}
use scc_blockchain.Prelude.Result.{Result, ok, err, Outcome}
use scc_blockchain.Consensus.Quorum.{Hash, quorum_of}

abbrev pub Bytes : Type 0
Bytes = List ℕ

abbrev pub PublicKey : Type 0
PublicKey = ℕ

pub data ConsensusPhase : Type 0 where
  propose in_prevote in_precommit commit abort : ConsensusPhase

pub data VoteType : Type 0 where
  prevote precommit nil_vote : VoteType

-- `vote_type as u8`
abbrev pub type_code : VoteType → ℕ
type_code prevote = 0
type_code precommit = 1
type_code nil_vote = 2

abbrev pub same_type : VoteType → VoteType → Bool
same_type a b = type_code a == type_code b

pub record Vote : Type 0 where
  pub validator_id : Hash
  pub block_hash : Hash
  pub height : ℕ
  pub round : ℕ
  pub vote_type : VoteType
  pub signature : Bytes

pub record ConsensusRound : Type 0 where
  pub chain_id : Hash
  pub epoch : ℕ
  pub block_hash : Hash
  pub height : ℕ
  pub round : ℕ
  pub phase : ConsensusPhase
  pub prevotes : Map Hash Vote
  pub precommits : Map Hash Vote
  pub validator_count : ℕ
  pub quorum : ℕ
  pub max_rounds : ℕ
  pub validator_set : Map Hash PublicKey

-- What a vote's signature covers, before it is encoded.
pub record VoteData : Type 0 where
  pub chain_id : Hash
  pub epoch : ℕ
  pub block_hash : Hash
  pub height : ℕ
  pub round : ℕ
  pub code : ℕ

pub data VoteError : Type 0 where
  wrong_type height_round_mismatch not_authorized duplicate signature_short signature_bad :
      VoteError

-- `finalized` carries the block and the two counts; the reasons of `next_round` are told apart.
pub data Reason : Type 0 where
  no_prevote_quorum no_precommit_quorum waiting : Reason

pub data ConsensusResult : Type 0 where
  finalized : Hash → ℕ → ℕ → ConsensusResult
  next_round : Reason → ConsensusResult
  aborted : ConsensusResult

-- `ConsensusRound::new`
unfoldable pub new_round :
    (chain_id : Hash) (epoch : ℕ) (block_hash : Hash) (height round : ℕ)
    (validator_set : Map Hash PublicKey) (max_rounds : ℕ)
    → ConsensusRound
new_round chain_id epoch block_hash height round validator_set max_rounds =
    let validator_count = min (length validator_set) u32_max in
    record {
      chain_id = chain_id;
      epoch = epoch;
      block_hash = block_hash;
      height = height;
      round = round;
      phase = propose;
      prevotes = [];
      precommits = [];
      validator_count = validator_count;
      quorum = quorum_of validator_count;
      max_rounds = max_rounds;
      validator_set = validator_set;
    }

module _ (encode : VoteData → Bytes) (verify_strict : PublicKey → Bytes → Bytes → Bool) where
  abbrev pub vote_sign_data : Hash → ℕ → Hash → ℕ → ℕ → VoteType → Bytes
  vote_sign_data chain_id epoch block_hash height round vote_type = encode (record {
    chain_id = chain_id;
    epoch = epoch;
    block_hash = block_hash;
    height = height;
    round = round;
    code = type_code vote_type;
  })

  abbrev pub verify_signature : ConsensusRound → Vote → PublicKey → Result VoteError (Unit {0})
  verify_signature r v public_key =
      if ltb (length v.signature) 64
      then err signature_short
      else if verify_strict public_key
          (vote_sign_data r.chain_id r.epoch v.block_hash v.height v.round v.vote_type) v.signature
      then ok tt
      else err signature_bad

  -- The checks after the look-up of the voter's public key.
  abbrev pub verify_member :
      ConsensusRound → Vote → Map Hash Vote → Option PublicKey → Result VoteError (Unit {0})
  verify_member r v store none = err not_authorized
  verify_member r v store (some public_key) =
      if contains v.validator_id store then err duplicate else verify_signature r v public_key

  unfoldable pub verify_vote :
      ConsensusRound → Vote → VoteType → Map Hash Vote → Result VoteError (Unit {0})
  verify_vote r v expected store =
      if not (same_type v.vote_type expected)
      then err wrong_type
      else if not (v.height == r.height) || not (v.round == r.round)
      then err height_round_mismatch
      else verify_member r v store (lookup v.validator_id r.validator_set)

  -- What is done with a checked vote: the `?` leaves on an error.
  abbrev pub admit_prevote :
      ConsensusRound
      → Vote
      → Result VoteError (Unit {0})
      → Outcome ConsensusRound VoteError (Unit {0})
  admit_prevote r v (err x) = (r, err x)
  admit_prevote r v (ok u) = (record r { prevotes = insert v.validator_id v r.prevotes }, ok tt)

  abbrev pub admit_precommit :
      ConsensusRound
      → Vote
      → Result VoteError (Unit {0})
      → Outcome ConsensusRound VoteError (Unit {0})
  admit_precommit r v (err x) = (r, err x)
  admit_precommit r v (ok u) =
      (record r { precommits = insert v.validator_id v r.precommits }, ok tt)

  unfoldable pub add_prevote : ConsensusRound → Vote → Outcome ConsensusRound VoteError (Unit {0})
  add_prevote r v = admit_prevote r v (verify_vote r v prevote r.prevotes)

  unfoldable pub add_precommit : ConsensusRound → Vote → Outcome ConsensusRound VoteError (Unit {0})
  add_precommit r v = admit_precommit r v (verify_vote r v precommit r.precommits)

-- A vote of the type for the round's block.
abbrev pub is_for : Hash → VoteType → Hash × Vote → Bool
is_for block t (k, v) = v.block_hash == block && same_type v.vote_type t

unfoldable pub prevote_count : ConsensusRound → ℕ
prevote_count r = min (count_if (is_for r.block_hash prevote) r.prevotes) u32_max

unfoldable pub precommit_count : ConsensusRound → ℕ
precommit_count r = min (count_if (is_for r.block_hash precommit) r.precommits) u32_max

unfoldable pub has_prevote_quorum : ConsensusRound → Bool
unfolding prevote_count
has_prevote_quorum r = leb r.quorum (prevote_count r)

unfoldable pub has_precommit_quorum : ConsensusRound → Bool
unfolding precommit_count
has_precommit_quorum r = leb r.quorum (precommit_count r)

unfoldable pub evaluate : ConsensusRound → ConsensusRound × ConsensusResult
evaluate r =
    if has_prevote_quorum r && has_precommit_quorum r
    then (record r { phase = commit }, finalized r.block_hash (prevote_count r) (precommit_count r))
    else if leb r.max_rounds r.round
    then (record r { phase = abort }, aborted)
    else if leb r.validator_count (min (length r.prevotes) u32_max) && not (has_prevote_quorum r)
    then (r, next_round no_prevote_quorum)
    else if leb r.validator_count (min (length r.precommits) u32_max)
        && not (has_precommit_quorum r)
    then (r, next_round no_precommit_quorum)
    else (r, next_round waiting)
