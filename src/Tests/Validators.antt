-- ===== src/Tests/Validators.antt =====
-- Runs of the validator set's changes.
use scc_blockchain.Prelude.{
  ◌↔◌, ℕ, ◌≡◌, refl, ◌≢◌, false, true, none, some, List, [], ◌∷◌, All, arith, inl,
}
use scc_blockchain.Prelude.Result.{ok, err}
use scc_blockchain.Types.ValidatorSet.{
  effective_height, ValidatorRecord, ValidatorSet, ValidatorSetChangeKind, add, remove, rotate_key,
  voluntary, duplicate_agent_id,
}
use scc_blockchain.Types.ValidatorSet
use scc_blockchain.Types.ValidatorSet.Change.{
  change_id_is_consistent, ValidatorSetChange, ChangeHash,
}
use scc_blockchain.State.World.{
  apply_delta, commit, ManagedWorldState, with_consensus_params, oversized,
}
use scc_blockchain.State.ValidatorRecords.{set_rebuild_failed, apply_kind_to_set}
use scc_blockchain.Types.ValidatorSet.Accepts.{IsWell, new_iff}
use scc_blockchain.State.ValidatorRecords.Rebuild.{rebuild_never_fails}
use scc_blockchain.State.ValidatorRecords.Removal.{IsInactiveFrom}
use scc_blockchain.State.ValidatorSetState.{
  commit_history, pending_validator_set_changes_trie_key, validator_set_change_history_trie_key,
  apply_changes, commit_pending_changes, append_admission_to_history, commit_validator_set,
  apply_validator_set_change_admission, advance_validator_set_to_height, validator_set_from_trie,
  pending_changes_from_trie, validator_set_change_history_from_trie, due, validator_set_trie_key,
}
use scc_blockchain.State.ValidatorSetState.Valid.{IsValid}
use scc_blockchain.State.ValidatorSetState.Reach.{
  Reach, here, next, admits, advances, seeds, Reach-IsValid,
}
use scc_blockchain.State.ValidatorSetState.Activation.{removed_inactive}
use scc_blockchain.State.ValidatorSetState.History.{
  Recorded, admission-Recorded, history_overflow_unreported,
}
use scc_blockchain.Tests.Keys.{zeros}
use scc_blockchain.Tests.Encodings.{set_codec, changes_codec}

abbrev validator : ℕ → ℕ → ValidatorRecord
validator a k = record {
  agent_id = a;
  validator_id = k;
  mfidel_seal = record { row = 1; column = 1 };
  voting_power = 10;
  active_from = 0;
  active_until = none;
}

abbrev two : List ValidatorRecord
two = validator 1 11 ∷ validator 2 12 ∷ []

abbrev two_set : ValidatorSet
two_set = record { records = two }

two_set-new : ValidatorSet.new two ≡ ok two_set
unfolding ValidatorSet.new
two_set-new = refl

-- Every change has the same id at the same height.
abbrev hash_of : ChangeHash
hash_of kind h = h

abbrev change : ValidatorSetChangeKind → ℕ → ValidatorSetChange
change kind h = record { change_id = h; kind = kind; proposed_at = h; quorum_signatures = [] }

abbrev leaves : ValidatorSetChange
leaves = change (remove 1 voluntary 7) 4

abbrev rotates : ValidatorSetChange
rotates = change (rotate_key 1 11 13 7) 5

abbrev seeded : ManagedWorldState
seeded = commit_validator_set set_codec two_set (with_consensus_params 1000)

abbrev one_queued : ManagedWorldState
one_queued = (apply_validator_set_change_admission changes_codec hash_of leaves seeded).0

abbrev two_queued : ManagedWorldState
two_queued = (apply_validator_set_change_admission changes_codec hash_of rotates one_queued).0

abbrev swept : ManagedWorldState
swept = (advance_validator_set_to_height set_codec changes_codec 7 two_queued).0

reached : Reach set_codec changes_codec hash_of (with_consensus_params 1000) two_queued
reached = next (next (next here (seeds two two_set two_set-new)) (admits leaves)) (admits rotates)

Reach-IsValid_example : IsValid set_codec changes_codec swept
Reach-IsValid_example =
    Reach-IsValid set_codec changes_codec hash_of 1000 (next reached (advances 7))

abbrev after_sweep : ValidatorSet
after_sweep = record {
  records = record (validator 1 13) { active_until = some 6 } ∷ validator 2 12 ∷ [];
}

abbrev queue : List ValidatorSetChange
queue = leaves ∷ rotates ∷ []

two_queued-pending : pending_changes_from_trie changes_codec two_queued ≡ ok queue
unfolding apply_validator_set_change_admission append_admission_to_history commit_validator_set
    commit_pending_changes commit_history commit apply_delta with_consensus_params
    pending_changes_from_trie validator_set_change_history_from_trie change_id_is_consistent
    effective_height
two_queued-pending = refl

two_queued-set : validator_set_from_trie set_codec two_queued ≡ ok (some two_set)
unfolding apply_validator_set_change_admission append_admission_to_history commit_validator_set
    commit_pending_changes commit_history commit apply_delta with_consensus_params
    pending_changes_from_trie validator_set_change_history_from_trie change_id_is_consistent
    effective_height validator_set_from_trie
two_queued-set = refl

two_queued-fits :
    oversized validator_set_trie_key (set_codec.to_bytes after_sweep) two_queued ≡ false
unfolding apply_validator_set_change_admission append_admission_to_history commit_validator_set
    commit_pending_changes commit_history commit apply_delta with_consensus_params
    pending_changes_from_trie validator_set_change_history_from_trie change_id_is_consistent
    effective_height
two_queued-fits = refl

due-applies : apply_changes (due 7 queue) (ok two_set) ≡ ok after_sweep
unfolding apply_kind_to_set ValidatorSet.new effective_height
due-applies = refl

removed_inactive_example :
    ((advance_validator_set_to_height set_codec changes_codec 7 two_queued).1 ≡ ok (due 7 queue))
    × (validator_set_from_trie set_codec swept ≡ ok (some after_sweep))
    × All (IsInactiveFrom 1 7) after_sweep.records
removed_inactive_example =
    removed_inactive set_codec changes_codec hash_of 1000 1 7 queue two_set after_sweep two_queued
      reached (omega arith) two_queued-pending (inl (voluntary, refl)) two_queued-set due-applies
      two_queued-fits

rebuild_never_fails_example :
    apply_kind_to_set (add (validator 3 13)) two_set
    ≢ err (set_rebuild_failed (duplicate_agent_id 3))
rebuild_never_fails_example =
    rebuild_never_fails (add (validator 3 13)) two_set (duplicate_agent_id 3)
      ((refl, (refl, tt)), (refl, (refl, tt)))

seeded-pending : pending_changes_from_trie changes_codec seeded ≡ ok []
unfolding pending_changes_from_trie commit_validator_set commit apply_delta with_consensus_params
seeded-pending = refl

seeded-history : validator_set_change_history_from_trie changes_codec seeded ≡ ok []
unfolding validator_set_change_history_from_trie commit_validator_set commit apply_delta
    with_consensus_params
seeded-history = refl

leaves-consistent : change_id_is_consistent hash_of leaves ≡ true
unfolding change_id_is_consistent
leaves-consistent = refl

seeded-fits :
    oversized pending_validator_set_changes_trie_key (changes_codec.to_bytes (leaves ∷ [])) seeded
    ≡ false
unfolding commit_validator_set commit apply_delta with_consensus_params
seeded-fits = refl

seeded-history_fits :
    oversized validator_set_change_history_trie_key (changes_codec.to_bytes (leaves ∷ [])) seeded
    ≡ false
unfolding commit_validator_set commit apply_delta with_consensus_params
seeded-history_fits = refl

admission-Recorded_example :
    ((apply_validator_set_change_admission changes_codec hash_of leaves seeded).1 ≡ ok tt)
    × Recorded changes_codec leaves [] [] one_queued
admission-Recorded_example =
    admission-Recorded changes_codec hash_of leaves [] [] seeded leaves-consistent seeded-pending
      seeded-history (λ k m. m) refl seeded-fits seeded-history_fits

-- A change with a long signature, admitted and activated where entries have 36 bytes at most.
abbrev signed : ValidatorSetChange
signed = record (change (rotate_key 2 12 14 1) 3) { quorum_signatures = (11, zeros 18) ∷ [] }

abbrev small : ManagedWorldState
small =
    (advance_validator_set_to_height set_codec changes_codec 1
      (apply_validator_set_change_admission changes_codec hash_of signed
        (commit_validator_set set_codec two_set (with_consensus_params 36))).0).0

small-pending : pending_changes_from_trie changes_codec small ≡ ok []
unfolding apply_validator_set_change_admission append_admission_to_history commit_validator_set
    commit_pending_changes commit_history commit apply_delta with_consensus_params
    pending_changes_from_trie validator_set_change_history_from_trie change_id_is_consistent
    effective_height advance_validator_set_to_height validator_set_from_trie apply_kind_to_set
    ValidatorSet.new
small-pending = refl

small-history : validator_set_change_history_from_trie changes_codec small ≡ ok (signed ∷ [])
unfolding apply_validator_set_change_admission append_admission_to_history commit_validator_set
    commit_pending_changes commit_history commit apply_delta with_consensus_params
    pending_changes_from_trie validator_set_change_history_from_trie change_id_is_consistent
    effective_height advance_validator_set_to_height validator_set_from_trie apply_kind_to_set
    ValidatorSet.new
small-history = refl

small-fits :
    oversized pending_validator_set_changes_trie_key (changes_codec.to_bytes (leaves ∷ [])) small
    ≡ false
unfolding apply_validator_set_change_admission append_admission_to_history commit_validator_set
    commit_pending_changes commit_history commit apply_delta with_consensus_params
    pending_changes_from_trie validator_set_change_history_from_trie change_id_is_consistent
    effective_height advance_validator_set_to_height validator_set_from_trie apply_kind_to_set
    ValidatorSet.new
small-fits = refl

small-history_over :
    oversized validator_set_change_history_trie_key
      (changes_codec.to_bytes (signed ∷ leaves ∷ []))
      small
    ≡ true
unfolding apply_validator_set_change_admission append_admission_to_history commit_validator_set
    commit_pending_changes commit_history commit apply_delta with_consensus_params
    pending_changes_from_trie validator_set_change_history_from_trie change_id_is_consistent
    effective_height advance_validator_set_to_height validator_set_from_trie apply_kind_to_set
    ValidatorSet.new
small-history_over = refl

abbrev small_queued : ManagedWorldState
small_queued = (apply_validator_set_change_admission changes_codec hash_of leaves small).0

history_overflow_unreported_example :
    ((apply_validator_set_change_admission changes_codec hash_of leaves small).1 ≡ ok tt)
    × (pending_changes_from_trie changes_codec small_queued ≡ ok (leaves ∷ []))
    × (validator_set_change_history_from_trie changes_codec small_queued ≡ ok (signed ∷ []))
history_overflow_unreported_example =
    history_overflow_unreported changes_codec hash_of leaves [] (signed ∷ []) small
      leaves-consistent small-pending small-history refl refl small-fits small-history_over

new_iff_example :
    (ValidatorSet.new (validator 2 12 ∷ validator 1 11 ∷ []) ≡ ok two_set)
    ↔ (IsWell (validator 2 12 ∷ validator 1 11 ∷ []) × (two_set ≡ two_set))
new_iff_example = new_iff (validator 2 12 ∷ validator 1 11 ∷ []) two_set
