-- ===== src/State/ValidatorSetState/History.antt =====
-- Every admitted change is in the history: `apply_validator_set_change_admission` of
-- crates/sccgub-state/src/validator_set_state.rs.
use scc_blockchain.Prelude.{
  ==_iff, ℕ, ◌≡◌, refl, ◌∙◌, true, false, ◌||◌, List, [], ◌∷◌, ◌++◌, ◌==◌, arith, if◌then◌else◌,
  Bool-cases, inl, inr,
}
use scc_blockchain.Prelude.Result.{ok}
use scc_blockchain.Prelude.Sort.{sort_by_pair}
use scc_blockchain.Consensus.Quorum.{mem, Subset}
use scc_blockchain.Types.Sorted.{mem-sort_by_pair, mem-append}
use scc_blockchain.Types.ValidatorSet.Change.{
  ValidatorSetChange, ChangeHash, change_id_is_consistent,
}
use scc_blockchain.State.World.{ManagedWorldState, Codec, oversized}
use scc_blockchain.State.World.Commit.{
  get-commit_self, get-commit_ne, apart, limit-commit, commit-oversized,
}
use scc_blockchain.State.ValidatorSetState.{
  pending_validator_set_changes_trie_key, validator_set_change_history_trie_key, ids, order,
  pending_changes_from_trie, commit_pending_changes, validator_set_change_history_from_trie,
  commit_history, append_admission_to_history, apply_validator_set_change_admission,
}

-- The queue and the history after an admission.
abbrev pub queued : ValidatorSetChange → List ValidatorSetChange → List ValidatorSetChange
queued c ps = sort_by_pair order (ps ++ c ∷ [])

abbrev pub recorded : ValidatorSetChange → List ValidatorSetChange → List ValidatorSetChange
recorded c hs = if mem c.change_id (ids hs) then hs else hs ++ c ∷ []

mem-queued :
    (k : ℕ) (c : ValidatorSetChange) (ps : List ValidatorSetChange)
    → mem k (ids (queued c ps)) ≡ (mem k (ids ps) || k == c.change_id)
mem-queued k c ps =
    let id : ValidatorSetChange → ℕ = (λ x. x.change_id) in
    ground (arith, mem-sort_by_pair order id k (ps ++ c ∷ []), mem-append id k ps (c ∷ []))

mem-recorded :
    (k : ℕ) (c : ValidatorSetChange) (hs : List ValidatorSetChange)
    → mem k (ids (recorded c hs)) ≡ (mem k (ids hs) || k == c.change_id)
mem-recorded k c hs = elim (Bool-cases (mem c.change_id (ids hs))) [
  | inl m ↦ rw m (elim (Bool-cases (k == c.change_id)) [
    | inl e ↦ rw ((==_iff k c.change_id).0 e) (ground (arith, m))
    | inr e ↦ ground (arith, e)
  ])
  | inr m ↦
      let id : ValidatorSetChange → ℕ = (λ x. x.change_id) in
      rw m (ground (arith, mem-append id k hs (c ∷ [])))
]

-- The queue and the history of a state in which the change was just admitted.
pub record Recorded (changes : Codec (List ValidatorSetChange)) (c : ValidatorSetChange)
    (ps hs : List ValidatorSetChange) (w : ManagedWorldState) : Type 0 where
  pub queue : List ValidatorSetChange
  pub history : List ValidatorSetChange
  pub reads_queue : pending_changes_from_trie changes w ≡ ok queue
  pub reads_history : validator_set_change_history_from_trie changes w ≡ ok history
  pub queue_has : (k : ℕ) → mem k (ids queue) ≡ (mem k (ids ps) || k == c.change_id)
  pub history_has : (k : ℕ) → mem k (ids history) ≡ (mem k (ids hs) || k == c.change_id)
  pub complete : Subset (ids queue) (ids history)

module _ (changes : Codec (List ValidatorSetChange)) where
  append_recorded :
      (c : ValidatorSetChange) (hs : List ValidatorSetChange) (w : ManagedWorldState)
      → validator_set_change_history_from_trie changes w ≡ ok hs
      → oversized validator_set_change_history_trie_key (changes.to_bytes (hs ++ c ∷ [])) w ≡ false
      → ((append_admission_to_history changes c w).1 ≡ ok tt)
        × (validator_set_change_history_from_trie changes
              (append_admission_to_history changes c w).0
            ≡ ok (recorded c hs))
        × (pending_changes_from_trie changes (append_admission_to_history changes c w).0
            ≡ pending_changes_from_trie changes w)
  unfolding append_admission_to_history validator_set_change_history_from_trie
      pending_changes_from_trie commit_history
  append_recorded c hs w h f = elim (Bool-cases (mem c.change_id (ids hs))) [
    | inl m ↦ rw (h, m) (refl, h, refl)
    | inr m ↦
        let other =
          get-commit_ne pending_validator_set_changes_trie_key validator_set_change_history_trie_key
            (changes.to_bytes (hs ++ c ∷ [])) w
            (apart pending_validator_set_changes_trie_key validator_set_change_history_trie_key
              refl) in
        rw
          (
            h,
            m,
            other,
            get-commit_self validator_set_change_history_trie_key (changes.to_bytes (hs ++ c ∷ []))
                w f,
            changes.round_trip (hs ++ c ∷ []),
          )
          (refl, refl, refl)
  ]

  -- The state after the first of the two writes.
  module _ (c : ValidatorSetChange) (ps : List ValidatorSetChange) (w : ManagedWorldState) where
    abbrev after_queue : ManagedWorldState
    after_queue = commit_pending_changes changes (queued c ps) w

    admission_appends :
        (compute_change_id : ChangeHash)
        → change_id_is_consistent compute_change_id c ≡ true
        → pending_changes_from_trie changes w ≡ ok ps
        → mem c.change_id (ids ps) ≡ false
        → apply_validator_set_change_admission changes compute_change_id c w
          ≡ append_admission_to_history changes c after_queue
    unfolding apply_validator_set_change_admission
    admission_appends compute_change_id t p m = rw (t, p, m) refl

    queue_reads :
        oversized pending_validator_set_changes_trie_key (changes.to_bytes (queued c ps)) w ≡ false
        → (pending_changes_from_trie changes after_queue ≡ ok (queued c ps))
          × (validator_set_change_history_from_trie changes after_queue
              ≡ validator_set_change_history_from_trie changes w)
    unfolding pending_changes_from_trie validator_set_change_history_from_trie
        commit_pending_changes
    queue_reads f =
        let other =
          get-commit_ne validator_set_change_history_trie_key pending_validator_set_changes_trie_key
            (changes.to_bytes (queued c ps)) w
            (apart validator_set_change_history_trie_key pending_validator_set_changes_trie_key
              refl) in
        (
          rw
              (get-commit_self pending_validator_set_changes_trie_key
                (changes.to_bytes (queued c ps)) w f)
              (changes.round_trip (queued c ps)),
          rw other refl,
        )

  -- Where the queue and the history can be read, the history has the ids of the queue, and the
  -- encodings of both after the admission are within the size limit: the admission of a consistent
  -- change whose id is not in the queue succeeds; afterwards the queue and the history can be read,
  -- the queue has the id of the change and all of before, the history too, and the history still has
  -- the ids of the queue.
  pub admission-Recorded :
      (compute_change_id : ChangeHash) (c : ValidatorSetChange) (ps hs : List ValidatorSetChange)
      (w : ManagedWorldState)
      → change_id_is_consistent compute_change_id c ≡ true
      → pending_changes_from_trie changes w ≡ ok ps
      → validator_set_change_history_from_trie changes w ≡ ok hs
      → Subset (ids ps) (ids hs)
      → mem c.change_id (ids ps) ≡ false
      → oversized pending_validator_set_changes_trie_key (changes.to_bytes (queued c ps)) w ≡ false
      → oversized validator_set_change_history_trie_key (changes.to_bytes (hs ++ c ∷ [])) w ≡ false
      → ((apply_validator_set_change_admission changes compute_change_id c w).1 ≡ ok tt)
        × Recorded changes c ps hs
            (apply_validator_set_change_admission changes compute_change_id c w).0
  unfolding commit_pending_changes
  admission-Recorded compute_change_id c ps hs w t p h sub m f g =
      let reads = queue_reads c ps w f in
      let fits =
        limit-commit validator_set_change_history_trie_key (changes.to_bytes (hs ++ c ∷ []))
          pending_validator_set_changes_trie_key (changes.to_bytes (queued c ps)) w
        ∙ g in
      let appended = append_recorded c hs (after_queue c ps w) (reads.1 ∙ h) fits in
      rw (admission_appends c ps w compute_change_id t p m) (
        appended.0,
        record {
          queue = queued c ps;
          history = recorded c hs;
          reads_queue = appended.2 ∙ reads.0;
          reads_history = appended.1;
          queue_has = λ k. mem-queued k c ps;
          history_has = λ k. mem-recorded k c hs;
          complete = λ k q. ground (arith, mem-queued k c ps, mem-recorded k c hs, sub k, q);
        },
      )

  -- An admission whose history entry would be over the size limit answers `Ok` all the same: where
  -- the queue and the history can be read, the change is consistent, its id is in neither of them,
  -- and the queue fits, the queue has the change afterwards and the history is what it was.
  pub history_overflow_unreported :
      (compute_change_id : ChangeHash) (c : ValidatorSetChange) (ps hs : List ValidatorSetChange)
      (w : ManagedWorldState)
      → change_id_is_consistent compute_change_id c ≡ true
      → pending_changes_from_trie changes w ≡ ok ps
      → validator_set_change_history_from_trie changes w ≡ ok hs
      → mem c.change_id (ids ps) ≡ false
      → mem c.change_id (ids hs) ≡ false
      → oversized pending_validator_set_changes_trie_key (changes.to_bytes (queued c ps)) w ≡ false
      → oversized validator_set_change_history_trie_key (changes.to_bytes (hs ++ c ∷ [])) w ≡ true
      → ((apply_validator_set_change_admission changes compute_change_id c w).1 ≡ ok tt)
        × (pending_changes_from_trie changes
              (apply_validator_set_change_admission changes compute_change_id c w).0
            ≡ ok (queued c ps))
        × (validator_set_change_history_from_trie changes
              (apply_validator_set_change_admission changes compute_change_id c w).0
            ≡ ok hs)
  unfolding append_admission_to_history commit_history commit_pending_changes
  history_overflow_unreported compute_change_id c ps hs w t p h m n f g =
      let reads = queue_reads c ps w f in
      let over =
        limit-commit validator_set_change_history_trie_key (changes.to_bytes (hs ++ c ∷ []))
          pending_validator_set_changes_trie_key (changes.to_bytes (queued c ps)) w
        ∙ g in
      rw
        (
          admission_appends c ps w compute_change_id t p m,
          reads.1,
          h,
          n,
          commit-oversized validator_set_change_history_trie_key (changes.to_bytes (hs ++ c ∷ []))
              (after_queue c ps w) over,
        )
        (refl, reads.0, reads.1 ∙ h)
