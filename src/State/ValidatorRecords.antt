-- ===== src/State/ValidatorRecords.antt =====
-- One change of the records of a validator set, and the set that is built again from them:
-- `apply_kind_to_set` of crates/sccgub-state/src/validator_set_state.rs.
pub mod Rebuild
pub mod Removal
use scc_blockchain.Prelude.{
  ℕ, ◌-◌, Bool, true, false, ◌&&◌, not, Option, none, some, List, [], ◌∷◌, ◌++◌, ◌==◌,
  if◌then◌else◌, map,
}
use scc_blockchain.Prelude.Result.{Result, ok, err}
use scc_blockchain.Consensus.Quorum.{mem}
use scc_blockchain.Types.Transition.{Bytes}
use scc_blockchain.Types.ValidatorSet.{
  PublicKey, ValidatorRecord, ValidatorSet, ValidatorSetError, ValidatorSetChangeKind, add, remove,
  rotate_power, rotate_key, find_agent,
}
use scc_blockchain.Types.ValidatorSet

pub data ValidatorSetStateError : Type 0 where
  change_id_mismatch duplicate_change_id set_not_initialized : ValidatorSetStateError
  agent_already_present validator_id_already_in_use agent_not_present : ValidatorSetStateError
  zero_voting_power key_rotation_no_op old_key_mismatch : ValidatorSetStateError
  set_rebuild_failed : ValidatorSetError → ValidatorSetStateError
  storage : Bytes → ValidatorSetStateError

abbrev pub agents : List ValidatorRecord → List ℕ
agents rs = map (λ r. r.agent_id) rs

abbrev pub keys : List ValidatorRecord → List ℕ
keys rs = map (λ r. r.validator_id) rs

-- `iter_mut().find(...)` and the assignment to what it finds.
abbrev pub update_agent :
    ℕ → (ValidatorRecord → ValidatorRecord) → List ValidatorRecord → List ValidatorRecord
update_agent a f [] = []
update_agent a f (r ∷ rs) =
    let rest = update_agent a f rs in if a == r.agent_id then f r ∷ rs else r ∷ rest

abbrev pub used_by_other : ℕ → PublicKey → List ValidatorRecord → Bool
used_by_other a k [] = false
used_by_other a k (r ∷ rs) =
    if r.validator_id == k && not (a == r.agent_id) then true else used_by_other a k rs

abbrev pub ends : ℕ → ValidatorRecord → ValidatorRecord
ends h r = record r { active_until = some (h - 1) }

abbrev pub with_power : ℕ → ValidatorRecord → ValidatorRecord
with_power p r = record r { voting_power = p }

abbrev pub with_key : PublicKey → ValidatorRecord → ValidatorRecord
with_key k r = record r { validator_id = k }

-- The record has the old key.
abbrev pub rotated :
    ℕ
    → (old new : PublicKey) → List ValidatorRecord
    → Option ValidatorRecord
    → Result ValidatorSetStateError (List ValidatorRecord)
rotated a old new rs none = err agent_not_present
rotated a old new rs (some r) =
    if r.validator_id == old then ok (update_agent a (with_key new) rs) else err old_key_mismatch

-- The records after a change.
abbrev pub records_after :
    ValidatorSetChangeKind
    → List ValidatorRecord
    → Result ValidatorSetStateError (List ValidatorRecord)
records_after (add r) rs =
    if mem r.agent_id (agents rs)
    then err agent_already_present
    else if mem r.validator_id (keys rs)
    then err validator_id_already_in_use
    else ok (rs ++ r ∷ [])
records_after (remove a reason h) rs =
    if mem a (agents rs) then ok (update_agent a (ends h) rs) else err agent_not_present
records_after (rotate_power a p h) rs =
    if p == 0
    then err zero_voting_power
    else if mem a (agents rs)
    then ok (update_agent a (with_power p) rs)
    else err agent_not_present
records_after (rotate_key a old new h) rs =
    if old == new
    then err key_rotation_no_op
    else if used_by_other a new rs
    then err validator_id_already_in_use
    else rotated a old new rs (find_agent a rs)

abbrev pub rebuilt :
    Result ValidatorSetError ValidatorSet → Result ValidatorSetStateError ValidatorSet
rebuilt (ok s) = ok s
rebuilt (err e) = err (set_rebuild_failed e)

abbrev pub rebuild :
    Result ValidatorSetStateError (List ValidatorRecord)
    → Result ValidatorSetStateError ValidatorSet
rebuild (ok rs) = rebuilt (ValidatorSet.new rs)
rebuild (err e) = err e

unfoldable pub apply_kind_to_set :
    ValidatorSetChangeKind → ValidatorSet → Result ValidatorSetStateError ValidatorSet
apply_kind_to_set kind s = rebuild (records_after kind s.records)
