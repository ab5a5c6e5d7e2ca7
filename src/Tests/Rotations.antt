-- ===== src/Tests/Rotations.antt =====
-- Runs of key rotations.
use scc_blockchain.Prelude.{ℕ, ◌≡◌, refl, false, true, Option, none, some, List, [], ◌∷◌, ap}
use scc_blockchain.Prelude.Result.{ok}
use scc_blockchain.Types.Transition.{Bytes}
use scc_blockchain.Types.KeyRotation.{
  mark_superseded, active_rotation_at, register, KeyRotation, KeyRotationRegistry, KeyIndex,
  KeyIndexEntry, append,
}
use scc_blockchain.State.World.{
  apply_delta, commit, ManagedWorldState, Codec, with_consensus_params, oversized,
}
use scc_blockchain.State.KeyRotationState.{
  active_public_key_from_index_and_registry, commit_key_index, Signing, key_rotations_trie_key,
  register_original_key, apply_key_rotation, active_public_key, old_key_signed, new_key_signed,
  key_rotation_registry_from_trie, key_index_from_trie,
}
use scc_blockchain.State.KeyRotationState.Rotate.{rotation_activates}
use scc_blockchain.State.KeyRotationState.Reach.{
  Follows, Reach-Follows, here, next, registers, rotates,
}
use scc_blockchain.Prelude.Map.{bytes_eq}
use scc_blockchain.Tests.Encodings.{
  codec, list_item, join, split, split-join, until_number, number_until, until_back,
}

abbrev rotation_enc : KeyRotation → Bytes
rotation_enc r = join (
    (r.agent_id ∷ r.old_public_key ∷ r.new_public_key ∷ r.rotation_height ∷ [])
    ∷ r.signature_by_old_key
    ∷ r.signature_by_new_key
    ∷ [])

abbrev rotation_parts : List Bytes → KeyRotation
rotation_parts ((a ∷ k ∷ k' ∷ h ∷ []) ∷ s ∷ s' ∷ []) = record {
  agent_id = a;
  old_public_key = k;
  new_public_key = k';
  rotation_height = h;
  signature_by_old_key = s;
  signature_by_new_key = s';
}
rotation_parts bs = record {
  agent_id = 0;
  old_public_key = 0;
  new_public_key = 0;
  rotation_height = 0;
  signature_by_old_key = [];
  signature_by_new_key = [];
}

abbrev rotation_back : (r : KeyRotation) → rotation_parts (split (rotation_enc r)) ≡ r
rotation_back r = ap rotation_parts (
    split-join (
      (r.agent_id ∷ r.old_public_key ∷ r.new_public_key ∷ r.rotation_height ∷ [])
      ∷ r.signature_by_old_key
      ∷ r.signature_by_new_key
      ∷ []))

abbrev registries : Codec KeyRotationRegistry
registries = codec (
    list_item (record {
      enc = rotation_enc;
      dec = λ bs. rotation_parts (split bs);
      dec_enc = rotation_back;
    }))

abbrev entry_enc : KeyIndexEntry → Bytes
entry_enc e = e.public_key ∷ e.agent_id ∷ e.active_from ∷ until_number e.superseded_at ∷ []

abbrev entry_dec : Bytes → KeyIndexEntry
entry_dec (k ∷ a ∷ h ∷ s ∷ []) = record {
  public_key = k;
  agent_id = a;
  active_from = h;
  superseded_at = number_until s;
}
entry_dec bs = record { public_key = 0; agent_id = 0; active_from = 0; superseded_at = none }

abbrev entry_back : (e : KeyIndexEntry) → entry_dec (entry_enc e) ≡ e
entry_back e = ap (λ (s : Option ℕ). record e { superseded_at = s }) (until_back e.superseded_at)

abbrev indexes : Codec KeyIndex
indexes = codec (list_item (record { enc = entry_enc; dec = entry_dec; dec_enc = entry_back }))

-- A signature is the key followed by the signed bytes.
abbrev signing : Signing
signing = record {
  payload = λ a k k' h. a ∷ k ∷ k' ∷ h ∷ [];
  verify_strict = λ k m s. bytes_eq.beq s (k ∷ m);
}

abbrev rotation : KeyRotation
rotation = record {
  agent_id = 1;
  old_public_key = 11;
  new_public_key = 12;
  rotation_height = 5;
  signature_by_old_key = 11 ∷ 1 ∷ 11 ∷ 12 ∷ 5 ∷ [];
  signature_by_new_key = 12 ∷ 1 ∷ 11 ∷ 12 ∷ 5 ∷ [];
}

abbrev first : KeyIndex
first = record { public_key = 11; agent_id = 1; active_from = 0; superseded_at = none } ∷ []

abbrev registered : ManagedWorldState
registered = (register_original_key registries indexes 1 11 0 (with_consensus_params 100)).0

abbrev rotated : ManagedWorldState
rotated = (apply_key_rotation registries indexes signing rotation registered).0

registered-registry : key_rotation_registry_from_trie registries indexes registered ≡ ok []
unfolding register_original_key register key_index_from_trie commit_key_index commit apply_delta
    with_consensus_params key_rotation_registry_from_trie
registered-registry = refl

registered-index : key_index_from_trie registries indexes registered ≡ ok first
unfolding register_original_key register key_index_from_trie commit_key_index commit apply_delta
    with_consensus_params
registered-index = refl

rotation-accepted : (apply_key_rotation registries indexes signing rotation registered).1 ≡ ok tt
unfolding register_original_key register key_index_from_trie commit_key_index commit apply_delta
    with_consensus_params key_rotation_registry_from_trie apply_key_rotation append
    active_rotation_at mark_superseded active_public_key_from_index_and_registry
rotation-accepted = refl

rotation-appended : append rotation [] ≡ ok (rotation ∷ [])
unfolding append
rotation-appended = refl

registry-fits :
    oversized key_rotations_trie_key (registries.to_bytes (rotation ∷ [])) registered ≡ false
unfolding register_original_key register key_index_from_trie commit_key_index commit apply_delta
    with_consensus_params
registry-fits = refl

rotation_activates_example :
    (old_key_signed signing rotation ≡ true)
    × (new_key_signed signing rotation ≡ true)
    × (active_public_key registries indexes 1 5 registered ≡ ok (some 11))
    × (active_public_key registries indexes 1 5 rotated ≡ ok (some 12))
rotation_activates_example =
    rotation_activates registries indexes signing rotation registered tt [] (rotation ∷ [])
      rotation-accepted registered-registry rotation-appended registry-fits

Reach-Follows_example :
    Follows registries indexes first (register_original_key registries indexes 2 11 7 rotated).0
Reach-Follows_example =
    Reach-Follows registries indexes signing first
      (next (next here (rotates rotation)) (registers 2 11 7)) registered-index (refl, tt)
