-- ===== src/State/KeyRotationState.antt =====
-- Key rotations in the state trie: crates/sccgub-state/src/key_rotation_state.rs. bincode's encodings
-- of the registry, the index and the signed payload, and the check of a signature are parameters.
pub mod Rotate
pub mod Reach
use scc_blockchain.Prelude.{
  ℕ, Bool, true, false, ◌&&◌, not, Option, none, some, List, [], ◌∷◌, ◌==◌, leb, ltb, if◌then◌else◌,
}
use scc_blockchain.Prelude.Result.{Result, ok, err, Outcome}
use scc_blockchain.Types.Transition.{Bytes}
use scc_blockchain.Types.KeyRotation.{
  KeyRotation, KeyRotationRegistry, KeyRotationError, KeyIndexEntry, KeyIndex, append,
  active_rotation_at, contains_key, register, mark_superseded,
}
use scc_blockchain.State.World.{ManagedWorldState, Codec, get, commit, read_entry}

-- b"system/key_rotations"
abbrev pub key_rotations_trie_key : Bytes
key_rotations_trie_key =
    115 ∷ 121 ∷ 115 ∷ 116 ∷ 101 ∷ 109 ∷ 47 ∷ 107 ∷ 101 ∷ 121 ∷ 95 ∷ 114 ∷ 111 ∷ 116 ∷ 97 ∷ 116 ∷ 105
    ∷ 111 ∷ 110 ∷ 115 ∷ []

-- b"system/key_index"
abbrev pub key_index_trie_key : Bytes
key_index_trie_key =
    115 ∷ 121 ∷ 115 ∷ 116 ∷ 101 ∷ 109 ∷ 47 ∷ 107 ∷ 101 ∷ 121 ∷ 95 ∷ 105 ∷ 110 ∷ 100 ∷ 101 ∷ 120 ∷ []

pub data KeyRotationStateError : Type 0 where
  no_op old_key_signature_invalid new_key_signature_invalid : KeyRotationStateError
  agent_not_registered old_key_not_current new_key_already_indexed : KeyRotationStateError
  registry_append key_index_error : KeyRotationError → KeyRotationStateError
  storage : Bytes → KeyRotationStateError

-- `is_none_or(|s| s > height)`
abbrev pub still : ℕ → Option ℕ → Bool
still height none = true
still height (some s) = ltb height s

abbrev pub holds_at : (agent_id height : ℕ) → KeyIndexEntry → Bool
holds_at a h e = (e.agent_id == a && leb e.active_from h) && still h e.superseded_at

-- `min_by_key`: the first of the least `active_from`.
abbrev pub earliest : KeyIndexEntry → Option KeyIndexEntry → Option KeyIndexEntry
earliest e none = some e
earliest e (some x) = if leb e.active_from x.active_from then some e else some x

abbrev pub original_entry : (agent_id height : ℕ) → KeyIndex → Option KeyIndexEntry
original_entry a h [] = none
original_entry a h (e ∷ es) =
    let rest = original_entry a h es in if holds_at a h e then earliest e rest else rest

abbrev pub key_of : Option KeyIndexEntry → Option ℕ
key_of none = none
key_of (some e) = some e.public_key

abbrev pub resolved : Option KeyRotation → Option KeyIndexEntry → Option ℕ
resolved (some r) e = some r.new_public_key
resolved none e = key_of e

unfoldable pub active_public_key_from_index_and_registry :
    KeyIndex → KeyRotationRegistry → (agent_id height : ℕ) → Option ℕ
active_public_key_from_index_and_registry es rs a h =
    resolved (active_rotation_at a h rs) (original_entry a h es)

-- The signed bytes, and `verify_strict`.
pub record Signing : Type 0 where
  pub payload : (agent_id old_public_key new_public_key rotation_height : ℕ) → Bytes
  pub verify_strict : (key : ℕ) → Bytes → Bytes → Bool

abbrev pub payload_bytes : Signing → KeyRotation → Bytes
payload_bytes s r = s.payload r.agent_id r.old_public_key r.new_public_key r.rotation_height

abbrev pub old_key_signed : Signing → KeyRotation → Bool
old_key_signed s r = s.verify_strict r.old_public_key (payload_bytes s r) r.signature_by_old_key

abbrev pub new_key_signed : Signing → KeyRotation → Bool
new_key_signed s r = s.verify_strict r.new_public_key (payload_bytes s r) r.signature_by_new_key

-- The error of a call on the registry or the index, under the name that the state gives it.
abbrev pub appended :
    Result KeyRotationError KeyRotationRegistry → Result KeyRotationStateError KeyRotationRegistry
appended (ok rs) = ok rs
appended (err e) = err (registry_append e)

abbrev pub indexed : Result KeyRotationError KeyIndex → Result KeyRotationStateError KeyIndex
indexed (ok es) = ok es
indexed (err e) = err (key_index_error e)

abbrev pub registered :
    (key agent_id height : ℕ)
    → Result KeyRotationError KeyIndex
    → Result KeyRotationStateError KeyIndex
registered k a h (err e) = err (key_index_error e)
registered k a h (ok es) = indexed (register k a h es)

abbrev pub both :
    Result KeyRotationStateError KeyRotationRegistry
    → Result KeyRotationStateError KeyIndex
    → Result KeyRotationStateError (KeyRotationRegistry × KeyIndex)
both (err e) r = err e
both (ok rs) (err e) = err e
both (ok rs) (ok es) = ok (rs, es)

-- The checks of the keys, and the new registry and index.
abbrev pub changed :
    KeyRotation
    → KeyRotationRegistry
    → KeyIndex
    → Option ℕ
    → Result KeyRotationStateError (KeyRotationRegistry × KeyIndex)
changed r rs es none = err agent_not_registered
changed r rs es (some current) =
    if not (current == r.old_public_key)
    then err old_key_not_current
    else if contains_key r.new_public_key es
    then err new_key_already_indexed
    else both (appended (append r rs)) (
        registered r.new_public_key r.agent_id r.rotation_height
          (mark_superseded r.old_public_key r.rotation_height es))

module _ (registries : Codec KeyRotationRegistry) (indexes : Codec KeyIndex) where
  unfoldable pub key_rotation_registry_from_trie :
      ManagedWorldState → Result Bytes KeyRotationRegistry
  key_rotation_registry_from_trie w = read_entry registries [] (get key_rotations_trie_key w)

  unfoldable pub commit_key_rotation_registry :
      KeyRotationRegistry → ManagedWorldState → ManagedWorldState
  commit_key_rotation_registry rs w = commit key_rotations_trie_key (registries.to_bytes rs) w

  unfoldable pub key_index_from_trie : ManagedWorldState → Result Bytes KeyIndex
  key_index_from_trie w = read_entry indexes [] (get key_index_trie_key w)

  unfoldable pub commit_key_index : KeyIndex → ManagedWorldState → ManagedWorldState
  commit_key_index es w = commit key_index_trie_key (indexes.to_bytes es) w

  abbrev pub store_index :
      ManagedWorldState
      → Result KeyRotationStateError KeyIndex
      → Outcome ManagedWorldState KeyRotationStateError (Unit {0})
  store_index w (err e) = (w, err e)
  store_index w (ok es) = (commit_key_index es w, ok tt)

  abbrev pub with_index :
      Result Bytes KeyIndex
      → (KeyIndex → Result KeyRotationStateError KeyIndex)
      → Result KeyRotationStateError KeyIndex
  with_index (err e) f = err (storage e)
  with_index (ok es) f = f es

  unfoldable pub register_original_key :
      (agent_id public_key active_from : ℕ)
      → ManagedWorldState
      → Outcome ManagedWorldState KeyRotationStateError (Unit {0})
  register_original_key a k h w =
      store_index w (with_index (key_index_from_trie w) (λ es. indexed (register k a h es)))

  -- The two entries, and what the rotation makes of them.
  abbrev pub with_both :
      KeyRotation
      → Result Bytes KeyRotationRegistry
      → Result Bytes KeyIndex
      → Result KeyRotationStateError (KeyRotationRegistry × KeyIndex)
  with_both r (err e) es = err (storage e)
  with_both r (ok rs) (err e) = err (storage e)
  with_both r (ok rs) (ok es) =
      changed r rs es (active_public_key_from_index_and_registry es rs r.agent_id r.rotation_height)

  abbrev pub store_both :
      ManagedWorldState
      → Result KeyRotationStateError (KeyRotationRegistry × KeyIndex)
      → Outcome ManagedWorldState KeyRotationStateError (Unit {0})
  store_both w (err e) = (w, err e)
  store_both w (ok (rs, es)) = (commit_key_index es (commit_key_rotation_registry rs w), ok tt)

  unfoldable pub apply_key_rotation :
      Signing
      → KeyRotation
      → ManagedWorldState
      → Outcome ManagedWorldState KeyRotationStateError (Unit {0})
  apply_key_rotation s r w =
      if r.old_public_key == r.new_public_key
      then (w, err no_op)
      else if not (old_key_signed s r)
      then (w, err old_key_signature_invalid)
      else if not (new_key_signed s r)
      then (w, err new_key_signature_invalid)
      else store_both w (with_both r (key_rotation_registry_from_trie w) (key_index_from_trie w))

  abbrev pub both_read :
      (agent_id height : ℕ)
      → Result Bytes KeyRotationRegistry
      → Result Bytes KeyIndex
      → Result Bytes (Option ℕ)
  both_read a h (err e) es = err e
  both_read a h (ok rs) (err e) = err e
  both_read a h (ok rs) (ok es) = ok (active_public_key_from_index_and_registry es rs a h)

  unfoldable pub active_public_key :
      (agent_id height : ℕ) → ManagedWorldState → Result Bytes (Option ℕ)
  active_public_key a h w =
      both_read a h (key_rotation_registry_from_trie w) (key_index_from_trie w)
