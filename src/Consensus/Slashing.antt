-- ===== src/Consensus/Slashing.antt =====
-- The slashing engine: crates/sccgub-consensus/src/slashing.rs. The table of stakes and the absence
-- counters are maps with one entry for each key.
pub mod Penalties
use scc_blockchain.Prelude.{
  ℕ, ◌+◌, ◌*◌, ◌/◌, Bool, true, false, Option, none, some, List, [], ◌∷◌, ◌++◌, leb, if◌then◌else◌,
  min,
}
use scc_blockchain.Prelude.Int.{ℤ, pos, negsuc, ◌-ℤ◌}
use scc_blockchain.Prelude.Words.{sat_add32, i128_max, sat}
use scc_blockchain.Prelude.Map.{Map, lookup, insert, erase, nat_eq}
use scc_blockchain.Prelude.Result.{Result, ok, err, Outcome}
use scc_blockchain.Types.Tension.{TensionValue}
use scc_blockchain.Consensus.Quorum.{Hash, mem}
use scc_blockchain.Consensus.Protocol.{VoteType}

pub record SlashingConfig : Type 0 where
  pub double_sign_penalty_pct : ℕ
  pub divergence_penalty_pct : ℕ
  pub absence_penalty_pct_per_epoch : ℕ
  pub max_absence_epochs : ℕ

abbrev pub default_config : SlashingConfig
default_config = record {
  double_sign_penalty_pct = 32;
  divergence_penalty_pct = 10;
  absence_penalty_pct_per_epoch = 1;
  max_absence_epochs = 10;
}

pub record EquivocationProof : Type 0 where
  pub validator_id : Hash
  pub height : ℕ
  pub round : ℕ
  pub vote_type : VoteType
  pub block_hash_a : Hash
  pub block_hash_b : Hash

pub data ViolationType : Type 0 where
  double_signing law_set_divergence : ViolationType
  absence : (epochs_missed : ℕ) → ViolationType

pub data SlashingEvidence : Type 0 where
  equivocation : EquivocationProof → SlashingEvidence
  law_divergence : (validator_law_hash consensus_law_hash : Hash) → SlashingEvidence
  absence_record : (absent_epochs : List ℕ) → SlashingEvidence

pub record SlashingEvent : Type 0 where
  pub validator_id : Hash
  pub violation : ViolationType
  pub penalty : TensionValue
  pub epoch : ℕ
  pub evidence : SlashingEvidence

pub record SlashingEngine : Type 0 where
  pub config : SlashingConfig
  pub stakes : Map Hash TensionValue
  pub events : List SlashingEvent
  pub removed : List Hash
  pub absence_counter : Map Hash ℕ

pub data SlashingError : Type 0 where
  validator_not_found : SlashingError

unfoldable pub new : SlashingConfig → SlashingEngine
new config = record {
  config = config;
  stakes = [];
  events = [];
  removed = [];
  absence_counter = [];
}

unfoldable pub set_stake : Hash → TensionValue → SlashingEngine → SlashingEngine
set_stake validator stake s = record s { stakes = insert validator stake s.stakes }

-- `raw().max(0)`
abbrev pub non_negative : ℤ → ℕ
non_negative (pos n) = n
non_negative (negsuc n) = 0

-- `(stake_raw.saturating_mul(pct) / 100).min(stake_raw)` of a stake that is not negative.
unfoldable pub penalty_of : (pct : ℕ) → TensionValue → ℕ
penalty_of pct stake = min (min (non_negative stake * pct) i128_max / 100) (non_negative stake)

-- `stake.raw().saturating_sub(penalty_raw).max(0)`
unfoldable pub stake_after : (pct : ℕ) → TensionValue → ℕ
unfolding penalty_of
stake_after pct stake = non_negative (sat (stake -ℤ pos (penalty_of pct stake)))

-- The stake after a penalty, with the event recorded.
unfoldable pub deduct :
    (pct : ℕ)
    → Hash
    → TensionValue
    → ViolationType
    → ℕ
    → SlashingEvidence
    → SlashingEngine
    → SlashingEngine × SlashingEvent
unfolding penalty_of stake_after
deduct pct validator stake violation epoch evidence s =
    let event : SlashingEvent = record {
      validator_id = validator;
      violation = violation;
      penalty = pos (penalty_of pct stake);
      epoch = epoch;
      evidence = evidence;
    } in
    (
      record s {
        stakes = insert validator (pos (stake_after pct stake)) s.stakes;
        events = s.events ++ event ∷ [];
      },
      event,
    )

-- A validator whose stake has dropped to zero is removed.
abbrev pub remove_empty :
    (new_stake : ℕ)
    → Hash
    → SlashingEngine × SlashingEvent
    → Outcome SlashingEngine SlashingError SlashingEvent
remove_empty new_stake validator (s, event) =
    let removed = if leb new_stake 0 then s.removed ++ validator ∷ [] else s.removed in
    (record s { removed = removed }, ok event)

unfoldable pub slash_double_sign :
    EquivocationProof
    → (epoch : ℕ) → SlashingEngine
    → Outcome SlashingEngine SlashingError SlashingEvent
unfolding deduct
slash_double_sign proof epoch s = elim (lookup proof.validator_id s.stakes) [
  | none ↦ (s, err validator_not_found)
  | some stake ↦
      let pct = s.config.double_sign_penalty_pct in
      remove_empty (stake_after pct stake) proof.validator_id
        (deduct pct proof.validator_id stake double_signing epoch (equivocation proof) s)
]

unfoldable pub slash_divergence :
    (validator validator_law_hash consensus_law_hash : Hash) (epoch : ℕ)
    → SlashingEngine
    → Outcome SlashingEngine SlashingError SlashingEvent
unfolding deduct
slash_divergence validator law consensus epoch s = elim (lookup validator s.stakes) [
  | none ↦ (s, err validator_not_found)
  | some stake ↦
      let pct = s.config.divergence_penalty_pct in
      remove_empty (stake_after pct stake) validator
        (deduct pct validator stake law_set_divergence epoch (law_divergence law consensus) s)
]

-- The epochs that a validator has missed in a row, this one included.
abbrev pub missed : Hash → SlashingEngine → ℕ
missed validator s = elim (lookup validator s.absence_counter) [
  | none ↦ sat_add32 0 1
  | some n ↦ sat_add32 n 1
]

-- The engine with the counter raised; it stays raised when the validator has no stake.
abbrev pub count_absence : Hash → SlashingEngine → SlashingEngine
count_absence validator s = record s {
  absence_counter = insert validator (missed validator s) s.absence_counter;
}

abbrev pub remove_absent :
    (counter : ℕ) → Hash → SlashingEngine × SlashingEvent → SlashingEngine × Option SlashingEvent
remove_absent counter validator (s, event) =
    let removed =
      if leb s.config.max_absence_epochs counter then s.removed ++ validator ∷ [] else s.removed in
    (record s { removed = removed }, some event)

unfoldable pub record_absence :
    (validator : Hash) (epoch : ℕ) → SlashingEngine → SlashingEngine × Option SlashingEvent
unfolding deduct
record_absence validator epoch s = elim (lookup validator s.stakes) [
  | none ↦ (count_absence validator s, none)
  | some stake ↦ remove_absent (missed validator s) validator (
      deduct s.config.absence_penalty_pct_per_epoch validator stake (absence (missed validator s))
        epoch (absence_record (epoch ∷ [])) (count_absence validator s))
]

unfoldable pub record_presence : Hash → SlashingEngine → SlashingEngine
record_presence validator s = record s { absence_counter = erase validator s.absence_counter }

unfoldable pub is_removed : Hash → SlashingEngine → Bool
is_removed validator s = mem validator s.removed
