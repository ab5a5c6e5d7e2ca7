-- ===== src/State/ValidatorSetState.antt =====
-- The validator set and its pending changes in the state trie:
-- crates/sccgub-state/src/validator_set_state.rs. bincode's encodings of sets and of lists of changes
-- and the hash of a change are parameters.
pub mod Valid
pub mod Reach
pub mod Activation
pub mod History
use scc_blockchain.Prelude.{
  ℕ, ◌+◌, ◌-◌, Bool, true, false, ◌&&◌, not, Option, none, some, List, [], ◌∷◌, ◌++◌, ◌==◌,
  if◌then◌else◌, map,
}
use scc_blockchain.Prelude.Result.{Result, ok, err, Outcome}
use scc_blockchain.Prelude.Sort.{sort_by_pair}
use scc_blockchain.Consensus.Quorum.{mem}
use scc_blockchain.Types.Transition.{Bytes}
use scc_blockchain.Types.ValidatorSet.{ValidatorSet, effective_height}
use scc_blockchain.Types.ValidatorSet.Change.{
  ValidatorSetChange, ChangeHash, change_id_is_consistent,
}
use scc_blockchain.State.ValidatorRecords.{
  ValidatorSetStateError, change_id_mismatch, duplicate_change_id, set_not_initialized, storage,
  apply_kind_to_set,
}
use scc_blockchain.State.World.{ManagedWorldState, Codec, get, commit, read_entry}

-- b"system/validator_set"
abbrev pub validator_set_trie_key : Bytes
validator_set_trie_key =
    115 ∷ 121 ∷ 115 ∷ 116 ∷ 101 ∷ 109 ∷ 47 ∷ 118 ∷ 97 ∷ 108 ∷ 105 ∷ 100 ∷ 97 ∷ 116 ∷ 111 ∷ 114 ∷ 95
    ∷ 115 ∷ 101 ∷ 116 ∷ []

-- b"system/pending_validator_set_changes"
abbrev pub pending_validator_set_changes_trie_key : Bytes
pending_validator_set_changes_trie_key =
    115 ∷ 121 ∷ 115 ∷ 116 ∷ 101 ∷ 109 ∷ 47 ∷ 112 ∷ 101 ∷ 110 ∷ 100 ∷ 105 ∷ 110 ∷ 103 ∷ 95 ∷ 118 ∷ 97
    ∷ 108 ∷ 105 ∷ 100 ∷ 97 ∷ 116 ∷ 111 ∷ 114 ∷ 95 ∷ 115 ∷ 101 ∷ 116 ∷ 95 ∷ 99 ∷ 104 ∷ 97 ∷ 110 ∷ 103
    ∷ 101 ∷ 115 ∷ []

-- b"system/validator_set_change_history"
abbrev pub validator_set_change_history_trie_key : Bytes
validator_set_change_history_trie_key =
    115 ∷ 121 ∷ 115 ∷ 116 ∷ 101 ∷ 109 ∷ 47 ∷ 118 ∷ 97 ∷ 108 ∷ 105 ∷ 100 ∷ 97 ∷ 116 ∷ 111 ∷ 114 ∷ 95
    ∷ 115 ∷ 101 ∷ 116 ∷ 95 ∷ 99 ∷ 104 ∷ 97 ∷ 110 ∷ 103 ∷ 101 ∷ 95 ∷ 104 ∷ 105 ∷ 115 ∷ 116 ∷ 111
    ∷ 114 ∷ 121 ∷ []

-- The changes one after another, up to the first error.
abbrev pub apply_changes :
    List ValidatorSetChange
    → Result ValidatorSetStateError ValidatorSet
    → Result ValidatorSetStateError ValidatorSet
apply_changes [] r = r
apply_changes (c ∷ cs) (ok s) = apply_changes cs (apply_kind_to_set c.kind s)
apply_changes (c ∷ cs) (err e) = err e

abbrev pub ids : List ValidatorSetChange → List ℕ
ids cs = map (λ c. c.change_id) cs

-- `(effective_height, change_id)`
abbrev pub order : ValidatorSetChange → ℕ × ℕ
order c = (effective_height c.kind, c.change_id)

-- The two halves of `partition`.
abbrev pub due : ℕ → List ValidatorSetChange → List ValidatorSetChange
due h [] = []
due h (c ∷ cs) = let rest = due h cs in if effective_height c.kind == h then c ∷ rest else rest

abbrev pub not_due : ℕ → List ValidatorSetChange → List ValidatorSetChange
not_due h [] = []
not_due h (c ∷ cs) =
    let rest = not_due h cs in if effective_height c.kind == h then rest else c ∷ rest

abbrev pub some_set : Result Bytes ValidatorSet → Result Bytes (Option ValidatorSet)
some_set (ok s) = ok (some s)
some_set (err e) = err e

module _ (sets : Codec ValidatorSet) where
  abbrev pub read_set : Option Bytes → Result Bytes (Option ValidatorSet)
  read_set none = ok none
  read_set (some bytes) = some_set (sets.from_bytes bytes)

  unfoldable pub validator_set_from_trie : ManagedWorldState → Result Bytes (Option ValidatorSet)
  validator_set_from_trie w = read_set (get validator_set_trie_key w)

  unfoldable pub commit_validator_set : ValidatorSet → ManagedWorldState → ManagedWorldState
  commit_validator_set s w = commit validator_set_trie_key (sets.to_bytes s) w

module _ (changes : Codec (List ValidatorSetChange)) where
  unfoldable pub pending_changes_from_trie :
      ManagedWorldState → Result Bytes (List ValidatorSetChange)
  pending_changes_from_trie w = read_entry changes [] (get pending_validator_set_changes_trie_key w)

  unfoldable pub commit_pending_changes :
      List ValidatorSetChange → ManagedWorldState → ManagedWorldState
  commit_pending_changes cs w =
      commit pending_validator_set_changes_trie_key (changes.to_bytes cs) w

  unfoldable pub validator_set_change_history_from_trie :
      ManagedWorldState → Result Bytes (List ValidatorSetChange)
  validator_set_change_history_from_trie w =
      read_entry changes [] (get validator_set_change_history_trie_key w)

  unfoldable pub commit_history : List ValidatorSetChange → ManagedWorldState → ManagedWorldState
  commit_history cs w = commit validator_set_change_history_trie_key (changes.to_bytes cs) w

  -- What each function does with what it read.
  abbrev pub append_to :
      ValidatorSetChange
      → ManagedWorldState
      → Result Bytes (List ValidatorSetChange)
      → Outcome ManagedWorldState ValidatorSetStateError (Unit {0})
  append_to c w (err e) = (w, err (storage e))
  append_to c w (ok hs) =
      if mem c.change_id (ids hs) then (w, ok tt) else (commit_history (hs ++ c ∷ []) w, ok tt)

  unfoldable pub append_admission_to_history :
      ValidatorSetChange
      → ManagedWorldState
      → Outcome ManagedWorldState ValidatorSetStateError (Unit {0})
  append_admission_to_history c w = append_to c w (validator_set_change_history_from_trie w)

  abbrev pub admit_to :
      ValidatorSetChange
      → ManagedWorldState
      → Result Bytes (List ValidatorSetChange)
      → Outcome ManagedWorldState ValidatorSetStateError (Unit {0})
  admit_to c w (err e) = (w, err (storage e))
  admit_to c w (ok ps) =
      if mem c.change_id (ids ps)
      then (w, err duplicate_change_id)
      else append_admission_to_history c
          (commit_pending_changes (sort_by_pair order (ps ++ c ∷ [])) w)

  unfoldable pub apply_validator_set_change_admission :
      ChangeHash
      → ValidatorSetChange
      → ManagedWorldState
      → Outcome ManagedWorldState ValidatorSetStateError (Unit {0})
  apply_validator_set_change_admission compute_change_id c w =
      if change_id_is_consistent compute_change_id c
      then admit_to c w (pending_changes_from_trie w)
      else (w, err change_id_mismatch)

module _ (sets : Codec ValidatorSet) (changes : Codec (List ValidatorSetChange)) where
  abbrev pub activated :
      ℕ
      → List ValidatorSetChange
      → ManagedWorldState
      → Result ValidatorSetStateError ValidatorSet
      → Outcome ManagedWorldState ValidatorSetStateError (List ValidatorSetChange)
  activated h ps w (err e) = (w, err e)
  activated h ps w (ok s) =
      (commit_pending_changes changes (not_due h ps) (commit_validator_set sets s w), ok (due h ps))

  abbrev pub activate :
      ℕ
      → List ValidatorSetChange
      → ManagedWorldState
      → Result Bytes (Option ValidatorSet)
      → Outcome ManagedWorldState ValidatorSetStateError (List ValidatorSetChange)
  activate h ps w (err e) = (w, err (storage e))
  activate h ps w (ok none) = (w, err set_not_initialized)
  activate h ps w (ok (some s)) = activated h ps w (apply_changes (due h ps) (ok s))

  abbrev pub advance :
      ℕ
      → ManagedWorldState
      → Result Bytes (List ValidatorSetChange)
      → Outcome ManagedWorldState ValidatorSetStateError (List ValidatorSetChange)
  advance h w (err e) = (w, err (storage e))
  advance h w (ok []) = (w, ok [])
  advance h w (ok (p ∷ ps)) = activate h (p ∷ ps) w (validator_set_from_trie sets w)

  unfoldable pub advance_validator_set_to_height :
      ℕ
      → ManagedWorldState
      → Outcome ManagedWorldState ValidatorSetStateError (List ValidatorSetChange)
  advance_validator_set_to_height h w = advance h w (pending_changes_from_trie changes w)
