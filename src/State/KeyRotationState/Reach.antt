-- ===== src/State/KeyRotationState/Reach.antt =====
-- A key belongs to one agent for good: crates/sccgub-state/src/key_rotation_state.rs.
use scc_blockchain.Prelude.{ℕ, ◌≡◌, sym, ◌∙◌, false, arith, inl, inr, subst}
use scc_blockchain.Prelude.Result.{ok, err, ok_inj, Result-cases}
use scc_blockchain.Prelude.Map.{bytes_eq}
use scc_blockchain.Consensus.Quorum.{IsDistinct}
use scc_blockchain.Types.Transition.{Bytes}
use scc_blockchain.Types.KeyRotation.{KeyRotation, KeyRotationRegistry, KeyIndex, keys, register}
use scc_blockchain.Types.KeyRotation.Owners.{Keeps, register-Keeps, mark_superseded-Keeps}
use scc_blockchain.State.World.{ManagedWorldState, Codec, commit}
use scc_blockchain.State.World.Commit.{get-commit_ne, get-commit_cases, apart}
use scc_blockchain.State.KeyRotationState.{
  key_rotation_registry_from_trie, with_both, key_index_trie_key, Signing, key_index_from_trie,
  register_original_key, apply_key_rotation, commit_key_index, KeyRotationStateError,
}
use scc_blockchain.State.KeyRotationState.Rotate.{apply_key_rotation_ok, index_after, IsRotation}

Keeps-refl : (es : KeyIndex) → IsDistinct (keys es) → Keeps es es
Keeps-refl es d = record { distinct = d; owner = λ k a o. o }

Keeps-trans : (x y z : KeyIndex) → Keeps x y → Keeps y z → Keeps x z
Keeps-trans x y z p q = record {
  distinct = q.distinct;
  owner = λ k a o. q.owner k a (p.owner k a o);
}

rotation-Keeps :
    (r : KeyRotation) (rs rs' : KeyRotationRegistry) (es es' : KeyIndex)
    → IsDistinct (keys es)
    → IsRotation r rs rs' es es'
    → Keeps es es'
rotation-Keeps r rs rs' es es' d x =
    let first =
      mark_superseded-Keeps r.old_public_key r.rotation_height es x.between d x.supersedes in
    Keeps-trans es x.between es' first (
      register-Keeps r.new_public_key r.agent_id r.rotation_height x.between es' first.distinct
        x.registers)

module _ (registries : Codec KeyRotationRegistry) (indexes : Codec KeyIndex) where
  -- The index can be read, and keeps what another one says.
  abbrev pub Follows : KeyIndex → ManagedWorldState → Type 0
  Follows es w =
      (es' : KeyIndex) × (key_index_from_trie registries indexes w ≡ ok es') × Keeps es es'

  -- One call, whatever it answers, or a write of another module to an address of its own.
  pub data Step (s : Signing) (w : ManagedWorldState) : ManagedWorldState → Type 0 where
    registers : (a k h : ℕ) → Step s w (register_original_key registries indexes a k h w).0
    rotates : (r : KeyRotation) → Step s w (apply_key_rotation registries indexes s r w).0
    writes : (k b : Bytes) → bytes_eq.beq key_index_trie_key k ≡ false → Step s w (commit k b w)

  pub data Reach (s : Signing) (w : ManagedWorldState) : ManagedWorldState → Type 0 where
    here : Reach s w w
    next : {t u : ManagedWorldState} → Reach s w t → Step s t u → Reach s w u

  index_committed :
      (x y : KeyIndex) (w : ManagedWorldState)
      → key_index_from_trie registries indexes w ≡ ok x
      → IsDistinct (keys x)
      → Keeps x y
      → Follows x (commit_key_index registries indexes y w)
  unfolding key_index_from_trie commit_key_index
  index_committed x y w h d k = elim (get-commit_cases key_index_trie_key (indexes.to_bytes y) w) [
    | inl e ↦ (y, rw e (indexes.round_trip y), k)
    | inr e ↦ (x, rw e h, Keeps-refl x d)
  ]

  register-Follows :
      (a k h : ℕ) (x : KeyIndex) (w : ManagedWorldState)
      → key_index_from_trie registries indexes w ≡ ok x
      → IsDistinct (keys x)
      → Follows x (register_original_key registries indexes a k h w).0
  unfolding register_original_key
  register-Follows a k h x w p d = elim (Result-cases (register k a h x)) [
    | inl (e, q) ↦ rw (p, q) (x, p, Keeps-refl x d)
    | inr (y, q) ↦ rw (p, q) (index_committed x y w p d (register-Keeps k a h x y d q))
  ]

  rotation_err :
      (s : Signing) (r : KeyRotation) (w : ManagedWorldState) (e : KeyRotationStateError)
      → (apply_key_rotation registries indexes s r w).1 ≡ err e
      → (apply_key_rotation registries indexes s r w).0 ≡ w
  unfolding apply_key_rotation
  rotation_err s r w e h =
      let both =
        with_both registries indexes r (key_rotation_registry_from_trie registries indexes w)
          (key_index_from_trie registries indexes w) in
      elim (Result-cases both) [ inl (x, p) ↦ ground (arith, p) | inr (x, p) ↦ ground (arith, p) ]

  rotate-Follows :
      (s : Signing) (r : KeyRotation) (x : KeyIndex) (w : ManagedWorldState)
      → key_index_from_trie registries indexes w ≡ ok x
      → IsDistinct (keys x)
      → Follows x (apply_key_rotation registries indexes s r w).0
  rotate-Follows s r x w p d = elim (Result-cases (apply_key_rotation registries indexes s r w).1) [
    | inl (e, q) ↦ subst (Follows x) (sym (rotation_err s r w e q)) (x, p, Keeps-refl x d)
    | inr (u, q) ↦
        (let app = (apply_key_rotation_ok registries indexes s r w u q).2 in
          let same : app.old_index ≡ x = ok_inj app.old_index x (sym app.reads_index ∙ p) in
          let keeps : Keeps x app.new_index =
            subst (λ y. Keeps y app.new_index) same
              (rotation-Keeps r app.old_registry app.new_registry app.old_index app.new_index
                (rw same d) app.rotation) in
          subst (Follows x) (sym app.stored)
            (elim (index_after registries indexes app.new_registry app.new_index w x p) [
              | inl e ↦ (app.new_index, e, keeps)
              | inr e ↦ (x, e, Keeps-refl x d)
            ]))
  ]

  Step-Follows :
      (s : Signing) (x : KeyIndex) {w u : ManagedWorldState}
      → Step s w u
      → key_index_from_trie registries indexes w ≡ ok x
      → IsDistinct (keys x)
      → Follows x u
  unfolding key_index_from_trie
  Step-Follows s x {w} (registers a k h) p d = register-Follows a k h x w p d
  Step-Follows s x {w} (rotates r) p d = rotate-Follows s r x w p d
  Step-Follows s x {w} (writes k b n) p d = (
    x,
    rw (get-commit_ne key_index_trie_key k b w (apart key_index_trie_key k n)) p,
    Keeps-refl x d,
  )

  -- From a state whose key index can be read and has no key twice, every state that registrations,
  -- rotations and writes to other addresses reach has an index that can be read, has no key twice,
  -- and gives each key of the first index the agent that it had.
  pub Reach-Follows :
      (s : Signing) (x : KeyIndex) {w u : ManagedWorldState}
      → Reach s w u
      → key_index_from_trie registries indexes w ≡ ok x
      → IsDistinct (keys x)
      → Follows x u
  Reach-Follows s x here p d = (x, p, Keeps-refl x d)
  Reach-Follows s x (next r st) p d =
      let before = Reach-Follows s x r p d in
      let after = Step-Follows s before.0 st before.1 before.2.distinct in
      (after.0, after.1, Keeps-trans x before.0 after.0 before.2 after.2)
