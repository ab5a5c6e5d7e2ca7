-- ===== src/State/ValidatorSetState/Valid.antt =====
-- What holds of the validator set, the pending changes and the history in every state of the trie:
-- crates/sccgub-state/src/validator_set_state.rs.
use scc_blockchain.Prelude.{
  some_inj, ◌⊎◌, ℕ, ◌≡◌, refl, sym, ◌∙◌, subst, false, some, List, [], ◌∷◌, ◌++◌, Bool-cases, inl,
  inr,
}
use scc_blockchain.Prelude.Result.{ok, ok_inj, Result-cases}
use scc_blockchain.Prelude.Map.{bytes_eq}
use scc_blockchain.Prelude.Sort.{sort_by_pair, IsOrdered, sort_by_pair-IsOrdered}
use scc_blockchain.Consensus.Quorum.{mem, IsDistinct}
use scc_blockchain.Types.Transition.{Bytes}
use scc_blockchain.Types.Sorted.{sort_by_pair-IsDistinct, push-IsDistinct}
use scc_blockchain.Types.ValidatorSet.{ValidatorSet}
use scc_blockchain.Types.ValidatorSet.Accepts.{IsWell}
use scc_blockchain.Types.ValidatorSet.Change.{
  ValidatorSetChange, ChangeHash, change_id_is_consistent,
}
use scc_blockchain.State.World.{ManagedWorldState, Codec, get, commit, read_entry}
use scc_blockchain.State.World.Commit.{get-commit_ne, get-commit_cases, apart}
use scc_blockchain.State.ValidatorSetState.{
  validator_set_trie_key, pending_validator_set_changes_trie_key,
  validator_set_change_history_trie_key, ids, order, validator_set_from_trie, commit_validator_set,
  pending_changes_from_trie, commit_pending_changes, validator_set_change_history_from_trie,
  commit_history, append_admission_to_history, apply_validator_set_change_admission, read_set,
}

-- Changes in the canonical order, no id twice.
abbrev pub IsPending : List ValidatorSetChange → Type 0
IsPending ps = IsOrdered order ps × IsDistinct (ids ps)

module _ (sets : Codec ValidatorSet) (changes : Codec (List ValidatorSetChange)) where
  -- What the three entries hold, where they can be read.
  pub record IsValid (w : ManagedWorldState) : Type 0 where
    pub pending :
        (ps : List ValidatorSetChange) → pending_changes_from_trie changes w ≡ ok ps → IsPending ps
    pub history :
        (hs : List ValidatorSetChange)
        → validator_set_change_history_from_trie changes w ≡ ok hs
        → IsDistinct (ids hs)
    pub active :
        (s : ValidatorSet) → validator_set_from_trie sets w ≡ ok (some s) → IsWell s.records

  -- The list that is read back is the one that was written, or that of before.
  read_back :
      (cs ds : List ValidatorSetChange) (k : Bytes) (w : ManagedWorldState)
      → read_entry changes [] (get k (commit k (changes.to_bytes cs) w)) ≡ ok ds
      → (cs ≡ ds) ⊎ (read_entry changes [] (get k w) ≡ ok ds)
  read_back cs ds k w h = elim (get-commit_cases k (changes.to_bytes cs) w) [
    | inl e ↦ inl (ok_inj cs ds (sym (changes.round_trip cs) ∙ rw e at h))
    | inr e ↦ inr (rw e at h)
  ]

  pub commit_pending-IsValid :
      (ps : List ValidatorSetChange) (w : ManagedWorldState)
      → IsPending ps
      → IsValid w
      → IsValid (commit_pending_changes changes ps w)
  unfolding pending_changes_from_trie commit_pending_changes validator_set_from_trie
      validator_set_change_history_from_trie
  commit_pending-IsValid ps w p v =
      let key : Bytes = pending_validator_set_changes_trie_key in
      let other = λ (k : Bytes) (d : bytes_eq.beq k key ≡ false).
        get-commit_ne k key (changes.to_bytes ps) w (apart k key d) in
      record {
        pending = λ qs h. elim (read_back ps qs key w h) [
          | inl e ↦ subst IsPending e p
          | inr e ↦ v.pending qs e
        ];
        history = λ hs h. v.history hs (rw (other validator_set_change_history_trie_key refl) at h);
        active = λ s h. v.active s (rw (other validator_set_trie_key refl) at h);
      }

  commit_history-IsValid :
      (hs : List ValidatorSetChange) (w : ManagedWorldState)
      → IsDistinct (ids hs)
      → IsValid w
      → IsValid (commit_history changes hs w)
  unfolding pending_changes_from_trie commit_history validator_set_from_trie
      validator_set_change_history_from_trie
  commit_history-IsValid hs w p v =
      let key : Bytes = validator_set_change_history_trie_key in
      let other = λ (k : Bytes) (d : bytes_eq.beq k key ≡ false).
        get-commit_ne k key (changes.to_bytes hs) w (apart k key d) in
      record {
        pending =
            λ qs h. v.pending qs (rw (other pending_validator_set_changes_trie_key refl) at h);
        history = λ qs h. elim (read_back hs qs key w h) [
          | inl e ↦ subst (λ x. IsDistinct (ids x)) e p
          | inr e ↦ v.history qs e
        ];
        active = λ s h. v.active s (rw (other validator_set_trie_key refl) at h);
      }

  set_back : (s t : ValidatorSet) → read_set sets (some (sets.to_bytes s)) ≡ ok (some t) → s ≡ t
  set_back s t h = some_inj s t (ok_inj (some s) (some t) (rw (sets.round_trip s) at h))

  pub commit_set-IsValid :
      (s : ValidatorSet) (w : ManagedWorldState)
      → IsWell s.records
      → IsValid w
      → IsValid (commit_validator_set sets s w)
  unfolding pending_changes_from_trie commit_validator_set validator_set_from_trie
      validator_set_change_history_from_trie
  commit_set-IsValid s w p v =
      let key : Bytes = validator_set_trie_key in
      let other = λ (k : Bytes) (d : bytes_eq.beq k key ≡ false).
        get-commit_ne k key (sets.to_bytes s) w (apart k key d) in
      record {
        pending =
            λ qs h. v.pending qs (rw (other pending_validator_set_changes_trie_key refl) at h);
        history = λ qs h. v.history qs (rw (other validator_set_change_history_trie_key refl) at h);
        active = λ t h. elim (get-commit_cases key (sets.to_bytes s) w) [
          | inl e ↦ subst (λ (x : ValidatorSet). IsWell x.records) (set_back s t (rw e at h)) p
          | inr e ↦ v.active t (rw e at h)
        ];
      }

  -- A commit of another module.
  pub commit_other-IsValid :
      (k b : Bytes) (w : ManagedWorldState)
      → bytes_eq.beq pending_validator_set_changes_trie_key k ≡ false
      → bytes_eq.beq validator_set_change_history_trie_key k ≡ false
      → bytes_eq.beq validator_set_trie_key k ≡ false
      → IsValid w
      → IsValid (commit k b w)
  unfolding pending_changes_from_trie validator_set_from_trie validator_set_change_history_from_trie
  commit_other-IsValid k b w np nh ns v =
      let other =
        λ (j : Bytes) (d : bytes_eq.beq j k ≡ false). get-commit_ne j k b w (apart j k d) in
      record {
        pending = λ qs h. v.pending qs (rw (other pending_validator_set_changes_trie_key np) at h);
        history = λ qs h. v.history qs (rw (other validator_set_change_history_trie_key nh) at h);
        active = λ t h. v.active t (rw (other validator_set_trie_key ns) at h);
      }

  -- The order and the ids of the queue after one change more.
  push-IsPending :
      (c : ValidatorSetChange) (ps : List ValidatorSetChange)
      → mem c.change_id (ids ps) ≡ false
      → IsPending ps
      → IsPending (sort_by_pair order (ps ++ c ∷ []))
  push-IsPending c ps n p =
      let id : ValidatorSetChange → ℕ = (λ x. x.change_id) in
      (
        sort_by_pair-IsOrdered order (ps ++ c ∷ []),
        sort_by_pair-IsDistinct order id (ps ++ c ∷ []) (push-IsDistinct id c ps n (p.1)),
      )

  append-IsValid :
      (c : ValidatorSetChange) (w : ManagedWorldState)
      → IsValid w
      → IsValid (append_admission_to_history changes c w).0
  unfolding append_admission_to_history
  append-IsValid c w v = elim (Result-cases (validator_set_change_history_from_trie changes w)) [
    | inl (e, p) ↦ rw p v
    | inr (hs, p) ↦ elim (Bool-cases (mem c.change_id (ids hs))) [
      | inl m ↦ rw (p, m) v
      | inr m ↦
          rw (p, m)
            (commit_history-IsValid (hs ++ c ∷ []) w
              (push-IsDistinct (λ x. x.change_id) c hs m (v.history hs p)) v)
    ]
  ]

  pub admission-IsValid :
      (compute_change_id : ChangeHash) (c : ValidatorSetChange) (w : ManagedWorldState)
      → IsValid w
      → IsValid (apply_validator_set_change_admission changes compute_change_id c w).0
  unfolding apply_validator_set_change_admission
  admission-IsValid compute_change_id c w v =
      elim (Bool-cases (change_id_is_consistent compute_change_id c)) [
        | inr f ↦ rw f v
        | inl t ↦ elim (Result-cases (pending_changes_from_trie changes w)) [
          | inl (e, p) ↦ rw (t, p) v
          | inr (ps, p) ↦ elim (Bool-cases (mem c.change_id (ids ps))) [
            | inl m ↦ rw (t, p, m) v
            | inr m ↦
                let queue : List ValidatorSetChange = sort_by_pair order (ps ++ c ∷ []) in
                rw (t, p, m)
                  (append-IsValid c (commit_pending_changes changes queue w)
                    (commit_pending-IsValid queue w (push-IsPending c ps m (v.pending ps p)) v))
          ]
        ]
      ]
