-- ===== src/Consensus/ViewChange.antt =====
-- Timeouts, leaders and the advance to a new round: crates/sccgub-consensus/src/view_change.rs. The
-- encoding of a message, BLAKE3 and strict signature verification are library code and come as
-- parameters.
pub mod Leader
pub mod Advance
pub mod Signers
use Prim.Native.Nat.{◌^◌}
use scc_blockchain.Prelude.{
  ℕ, zero, suc, ◌+◌, ◌*◌, ◌/◌, ◌%◌, Bool, true, false, ◌&&◌, not, Option, none, some, List, [], ◌∷◌,
  ◌++◌, ◌==◌, leb, ltb, if◌then◌else◌, length, get_elem?, min,
}
use scc_blockchain.Prelude.Words.{u128_max, u64_max, sat_add128, sat_mul64}
use scc_blockchain.Prelude.Map.{Map, lookup, insert, contains, nat_eq}
use scc_blockchain.Prelude.Result.{Result, ok, err, Outcome}
use scc_blockchain.Types.ValidatorSet.{
  PublicKey, ValidatorRecord, ValidatorSet, active_at, find_active_by_validator_id, quorum_power_at,
}
use scc_blockchain.Types.ValidatorSet.Power.{found_power}
use scc_blockchain.Consensus.Quorum.{Hash}

abbrev pub Bytes : Type 0
Bytes = List ℕ

pub record NewRoundMessage : Type 0 where
  pub height : ℕ
  pub round : ℕ
  pub last_prevote : Option Hash
  pub signer : PublicKey
  pub signature : Bytes

unfoldable pub round_timeout_ms : (base_ms cap_ms round : ℕ) → ℕ
round_timeout_ms base_ms cap_ms round = min (sat_mul64 base_ms (2 ^ (min round 31))) cap_ms

unfoldable pub prior_block_hash_for_height : ℕ → Hash → Hash
prior_block_hash_for_height h parent = if leb h 1 then 0 else parent

-- `to_le_bytes` of a word of so many bytes.
abbrev pub le_bytes : ℕ → ℕ → Bytes
le_bytes zero v = []
le_bytes (suc n) v = (v % 256) ∷ le_bytes n (v / 256)

-- The loop over the digest: `acc << 8` in u128, with the byte in the free bits, mod n.
unfoldable pub reduce : ℕ → Bytes → (n : ℕ) → ℕ
reduce acc [] n = acc
reduce acc (b ∷ bs) n = reduce ((acc * 256 % (u128_max + 1) + b) % n) bs n

module _ (digest : Hash → Bytes → Bytes) where
  -- `digest prior data` is the BLAKE3 hash of the prior block's id followed by the data.
  unfoldable pub select_leader : ValidatorSet → (height round : ℕ) → Hash → Option ValidatorRecord
  unfolding reduce
  select_leader set height round prior =
      let active = active_at height set in
      if length active == 0
      then none
      else get_elem? active
          (reduce 0 (digest prior (le_bytes 8 height ++ le_bytes 4 round)) (length active))

-- The admitted messages by signer.
pub record RoundAdvance : Type 0 where
  pub admitted : Map PublicKey NewRoundMessage

pub data NewRoundRejection : Type 0 where
  height_mismatch round_mismatch : (got want : ℕ) → NewRoundRejection
  signer_not_in_active_set signature_invalid duplicate_signer : PublicKey → NewRoundRejection

unfoldable pub new : RoundAdvance
new = record { admitted = [] }

unfoldable pub admitted_count : RoundAdvance → ℕ
admitted_count a = length a.admitted

-- The loop of `admitted_power`.
unfoldable pub add_power : ℕ → Map PublicKey NewRoundMessage → ValidatorSet → ℕ → ℕ
add_power sum [] set height = sum
add_power sum ((k, m) ∷ l) set height =
    add_power (sat_add128 sum (found_power (find_active_by_validator_id k height set))) l set height

unfoldable pub admitted_power : RoundAdvance → ValidatorSet → ℕ → ℕ
unfolding add_power
admitted_power a set height = add_power 0 a.admitted set height

unfoldable pub has_quorum : RoundAdvance → ValidatorSet → ℕ → Bool
unfolding admitted_power
has_quorum a set height = leb (quorum_power_at height set) (admitted_power a set height)

module _ (encode : ℕ → ℕ → Option Hash → PublicKey → Bytes)
    (verify_strict : PublicKey → Bytes → Bytes → Bool) where
  -- The checks after the look-up of the signer.
  abbrev pub admit_member :
      Option ValidatorRecord
      → NewRoundMessage
      → RoundAdvance
      → Outcome RoundAdvance NewRoundRejection (Unit {0})
  admit_member none msg a = (a, err (signer_not_in_active_set msg.signer))
  admit_member (some r) msg a =
      if not (
        verify_strict msg.signer (encode msg.height msg.round msg.last_prevote msg.signer)
          msg.signature)
      then (a, err (signature_invalid msg.signer))
      else if contains msg.signer a.admitted
      then (a, err (duplicate_signer msg.signer))
      else (record { admitted = insert msg.signer msg a.admitted }, ok tt)

  unfoldable pub admit :
      NewRoundMessage
      → ValidatorSet
      → (target_height target_round : ℕ) → RoundAdvance
      → Outcome RoundAdvance NewRoundRejection (Unit {0})
  admit msg set target_height target_round a =
      if not (msg.height == target_height)
      then (a, err (height_mismatch msg.height target_height))
      else if not (msg.round == target_round)
      then (a, err (round_mismatch msg.round target_round))
      else admit_member (find_active_by_validator_id msg.signer target_height set) msg a
