-- ===== src/State/KeyRotationState/Rotate.antt =====
-- What an accepted key rotation needs and leaves: `apply_key_rotation` of
-- crates/sccgub-state/src/key_rotation_state.rs.
use scc_blockchain.Prelude.{
  ◌⊎◌, ℕ, ◌≡◌, refl, sym, ◌∙◌, ap, true, false, some, ◌==◌, ==_iff, Bool-cases, Option-cases, inl,
  inr,
}
use scc_blockchain.Prelude.Result.{Result, ok, err, ok_inj, Result-cases}
use scc_blockchain.Prelude.Map.{bytes_eq}
use scc_blockchain.Types.Transition.{Bytes}
use scc_blockchain.Types.KeyRotation.{
  KeyRotation, KeyRotationRegistry, KeyRotationError, KeyIndex, append, active_rotation_at,
  contains_key, register, mark_superseded,
}
use scc_blockchain.Types.KeyRotation.Active.{append-active_rotation_at}
use scc_blockchain.State.World.{ManagedWorldState, Codec, oversized}
use scc_blockchain.State.World.Commit.{get-commit_self, get-commit_ne, get-commit_cases, apart}
use scc_blockchain.State.KeyRotationState.{
  key_rotations_trie_key, key_index_trie_key, KeyRotationStateError, Signing, old_key_signed,
  new_key_signed, appended, registered, indexed, both, changed, with_both, store_both,
  key_rotation_registry_from_trie, key_index_from_trie, commit_key_rotation_registry,
  commit_key_index, active_public_key_from_index_and_registry, apply_key_rotation,
  active_public_key,
}

-- A change of the keys that goes through.
pub record IsRotation (r : KeyRotation) (rs rs' : KeyRotationRegistry) (es es' : KeyIndex)
    : Type 0 where
  pub current :
      active_public_key_from_index_and_registry es rs r.agent_id r.rotation_height
      ≡ some r.old_public_key
  pub unused : contains_key r.new_public_key es ≡ false
  pub registry : append r rs ≡ ok rs'
  pub between : KeyIndex
  pub supersedes : mark_superseded r.old_public_key r.rotation_height es ≡ ok between
  pub registers : register r.new_public_key r.agent_id r.rotation_height between ≡ ok es'

pub indexed_ok :
    (o : Result KeyRotationError KeyIndex) (es : KeyIndex) → indexed o ≡ ok es → o ≡ ok es
indexed_ok (ok x) es h = cc
indexed_ok (err e) es h = cc

appended_ok :
    (o : Result KeyRotationError KeyRotationRegistry) (rs : KeyRotationRegistry)
    → appended o ≡ ok rs
    → o ≡ ok rs
appended_ok (ok x) rs h = cc
appended_ok (err e) rs h = cc

registered_ok :
    (k a h : ℕ) (o : Result KeyRotationError KeyIndex) (es' : KeyIndex)
    → registered k a h o ≡ ok es'
    → (es : KeyIndex) × (o ≡ ok es) × (register k a h es ≡ ok es')
registered_ok k a h (err e) es' q = absurd (cc q)
registered_ok k a h (ok es) es' q = (es, refl, indexed_ok (register k a h es) es' q)

both_ok :
    (x : Result KeyRotationStateError KeyRotationRegistry)
    (y : Result KeyRotationStateError KeyIndex) (rs : KeyRotationRegistry) (es : KeyIndex)
    → both x y ≡ ok (rs, es)
    → (x ≡ ok rs) × (y ≡ ok es)
both_ok (err e) y rs es h = absurd (cc h)
both_ok (ok x) (err e) rs es h = absurd (cc h)
both_ok (ok x) (ok y) rs es h =
    let same : (x, y) ≡ (rs, es) = ok_inj (x, y) (rs, es) h in
    (ap ok (ap (λ p. p.0) same), ap ok (ap (λ p. p.1) same))

changed_ok :
    (r : KeyRotation) (rs rs' : KeyRotationRegistry) (es es' : KeyIndex)
    → changed r rs es (active_public_key_from_index_and_registry es rs r.agent_id r.rotation_height)
      ≡ ok (rs', es')
    → IsRotation r rs rs' es es'
changed_ok r rs rs' es es' h =
    elim (Option-cases
      (active_public_key_from_index_and_registry es rs r.agent_id r.rotation_height)) [
        | inl n ↦ absurd (cc (rw n at h))
        | inr (k, o) ↦ elim (Bool-cases (k == r.old_public_key)) [
          | inr n ↦ absurd (cc (rw (o, n) at h))
          | inl e ↦ elim (Bool-cases (contains_key r.new_public_key es)) [
            | inl c ↦ absurd (cc (rw (o, e, c) at h))
            | inr c ↦
                let parts =
                  both_ok (appended (append r rs))
                    (registered r.new_public_key r.agent_id r.rotation_height
                      (mark_superseded r.old_public_key r.rotation_height es))
                    rs' es' (rw (o, e, c) at h) in
                let index =
                  registered_ok r.new_public_key r.agent_id r.rotation_height
                    (mark_superseded r.old_public_key r.rotation_height es) es' parts.1 in
                record {
                  current = o ∙ ap some ((==_iff k r.old_public_key).0 e);
                  unused = c;
                  registry = appended_ok (append r rs) rs' parts.0;
                  between = index.0;
                  supersedes = index.1;
                  registers = index.2;
                }
          ]
        ]
      ]

module _ (registries : Codec KeyRotationRegistry) (indexes : Codec KeyIndex) where
  -- The entries before and after an accepted rotation.
  pub record IsApplied (r : KeyRotation) (x : Result Bytes KeyRotationRegistry)
      (y : Result Bytes KeyIndex) (w w' : ManagedWorldState) : Type 0 where
    pub old_registry : KeyRotationRegistry
    pub new_registry : KeyRotationRegistry
    pub old_index : KeyIndex
    pub new_index : KeyIndex
    pub reads_registry : x ≡ ok old_registry
    pub reads_index : y ≡ ok old_index
    pub rotation : IsRotation r old_registry new_registry old_index new_index
    pub stored :
        w'
        ≡ commit_key_index registries indexes new_index
            (commit_key_rotation_registry registries indexes new_registry w)

  stores :
      (r : KeyRotation) (w : ManagedWorldState) (x : Result Bytes KeyRotationRegistry)
      (y : Result Bytes KeyIndex) (u : Unit {0})
      → (store_both registries indexes w (with_both registries indexes r x y)).1 ≡ ok u
      → IsApplied r x y w (store_both registries indexes w (with_both registries indexes r x y)).0
  stores r w (err e) y u h = absurd (cc h)
  stores r w (ok rs) (err e) u h = absurd (cc h)
  stores r w (ok rs) (ok es) u h =
      let o = active_public_key_from_index_and_registry es rs r.agent_id r.rotation_height in
      elim (Result-cases (changed r rs es o)) [
        | inl (e, p) ↦ absurd (cc (rw p at h))
        | inr ((rs', es'), p) ↦ record {
          old_registry = rs;
          new_registry = rs';
          old_index = es;
          new_index = es';
          reads_registry = refl;
          reads_index = refl;
          rotation = changed_ok r rs rs' es es' p;
          stored = rw p refl;
        }
      ]

  -- What an accepted rotation had: both signatures, and entries that it changed.
  pub apply_key_rotation_ok :
      (s : Signing) (r : KeyRotation) (w : ManagedWorldState) (u : Unit {0})
      → (apply_key_rotation registries indexes s r w).1 ≡ ok u
      → (old_key_signed s r ≡ true)
        × (new_key_signed s r ≡ true)
        × IsApplied r
            (key_rotation_registry_from_trie registries indexes w)
            (key_index_from_trie registries indexes w)
            w
            (apply_key_rotation registries indexes s r w).0
  unfolding apply_key_rotation
  apply_key_rotation_ok s r w u h = elim (Bool-cases (r.old_public_key == r.new_public_key)) [
    | inl z ↦ absurd (cc (rw z at h))
    | inr z ↦ elim (Bool-cases (old_key_signed s r)) [
      | inr a ↦ absurd (cc (rw (z, a) at h))
      | inl a ↦ elim (Bool-cases (new_key_signed s r)) [
        | inr b ↦ absurd (cc (rw (z, a, b) at h))
        | inl b ↦
            let done =
              stores r w (key_rotation_registry_from_trie registries indexes w)
                (key_index_from_trie registries indexes w) u (rw (z, a, b) at h) in
            (a, b, rw (z, a, b) done)
      ]
    ]
  ]

  -- The two entries after both commits.
  module _ (rs : KeyRotationRegistry) (es : KeyIndex) (w : ManagedWorldState) where
    abbrev pub with_registry : ManagedWorldState
    with_registry = commit_key_rotation_registry registries indexes rs w

    abbrev pub with_both_entries : ManagedWorldState
    with_both_entries = commit_key_index registries indexes es with_registry

    registry_after :
        oversized key_rotations_trie_key (registries.to_bytes rs) w ≡ false
        → key_rotation_registry_from_trie registries indexes with_both_entries ≡ ok rs
    unfolding key_rotation_registry_from_trie commit_key_index commit_key_rotation_registry
    registry_after f =
        rw
          (
            get-commit_ne key_rotations_trie_key key_index_trie_key (indexes.to_bytes es)
                with_registry (apart key_rotations_trie_key key_index_trie_key refl),
            get-commit_self key_rotations_trie_key (registries.to_bytes rs) w f,
          )
          (registries.round_trip rs)

    pub index_after :
        (x : KeyIndex)
        → key_index_from_trie registries indexes w ≡ ok x
        → (key_index_from_trie registries indexes with_both_entries ≡ ok es)
          ⊎ (key_index_from_trie registries indexes with_both_entries ≡ ok x)
    unfolding key_index_from_trie commit_key_index commit_key_rotation_registry
    index_after x h =
        elim (get-commit_cases key_index_trie_key (indexes.to_bytes es) with_registry) [
          | inl e ↦ inl (rw e (indexes.round_trip es))
          | inr e ↦
              let other =
                get-commit_ne key_index_trie_key key_rotations_trie_key (registries.to_bytes rs) w
                  (apart key_index_trie_key key_rotations_trie_key refl) in
              inr (rw (e, other) h)
        ]

  resolved_after :
      (r : KeyRotation) (rs : KeyRotationRegistry) (x : KeyIndex) (w : ManagedWorldState)
      → key_rotation_registry_from_trie registries indexes w ≡ ok rs
      → key_index_from_trie registries indexes w ≡ ok x
      → active_rotation_at r.agent_id r.rotation_height rs ≡ some r
      → active_public_key registries indexes r.agent_id r.rotation_height w
        ≡ ok (some r.new_public_key)
  unfolding active_public_key active_public_key_from_index_and_registry
  resolved_after r rs x w p q a = rw (p, q, a) refl

  -- A rotation that the state accepts, and whose new registry is not over the size limit, is signed
  -- by the old key and by the new one; the old key was the active key of the agent at the height of
  -- the rotation, and the new key is the active one of that height afterwards.
  pub rotation_activates :
      (s : Signing) (r : KeyRotation) (w : ManagedWorldState) (u : Unit {0})
      (rs rs' : KeyRotationRegistry)
      → (apply_key_rotation registries indexes s r w).1 ≡ ok u
      → key_rotation_registry_from_trie registries indexes w ≡ ok rs
      → append r rs ≡ ok rs'
      → oversized key_rotations_trie_key (registries.to_bytes rs') w ≡ false
      → (old_key_signed s r ≡ true)
        × (new_key_signed s r ≡ true)
        × (active_public_key registries indexes r.agent_id r.rotation_height w
            ≡ ok (some r.old_public_key))
        × (active_public_key registries indexes r.agent_id r.rotation_height
              (apply_key_rotation registries indexes s r w).0
            ≡ ok (some r.new_public_key))
  unfolding active_public_key
  rotation_activates s r w u rs rs' h p q f =
      let done = apply_key_rotation_ok s r w u h in
      let app = done.2 in
      let same : app.old_registry ≡ rs = ok_inj app.old_registry rs (sym app.reads_registry ∙ p) in
      let same' : app.new_registry ≡ rs' =
        ok_inj app.new_registry rs' (sym app.rotation.registry ∙ ap (append r) same ∙ q) in
      let found =
        append-active_rotation_at r app.old_registry app.new_registry app.rotation.registry in
      let registry = registry_after app.new_registry app.new_index w (rw same' f) in
      let after : ManagedWorldState = with_both_entries app.new_registry app.new_index w in
      (
        done.0,
        done.1,
        rw (app.reads_registry, app.reads_index) (ap ok app.rotation.current),
        rw app.stored
            (elim (index_after app.new_registry app.new_index w app.old_index app.reads_index) [
              | inl e ↦ resolved_after r app.new_registry app.new_index after registry e found
              | inr e ↦ resolved_after r app.new_registry app.old_index after registry e found
            ]),
      )
