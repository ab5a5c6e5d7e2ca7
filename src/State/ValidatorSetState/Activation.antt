-- ===== src/State/ValidatorSetState/Activation.antt =====
-- The activation sweep: `advance_validator_set_to_height` of
-- crates/sccgub-state/src/validator_set_state.rs.
use scc_blockchain.Prelude.{
  ◌⊎◌, ℕ, ◌<◌, ◌≡◌, refl, ap, subst, true, false, some, List, [], ◌∷◌, ◌==◌, ==_iff, All, arith,
  Bool-cases, inl, inr,
}
use scc_blockchain.Prelude.Result.{ok, ok_inj, Result-cases}
use scc_blockchain.Types.ValidatorSet.{ValidatorSet, RemovalReason, remove, effective_height}
use scc_blockchain.Types.ValidatorSet.Accepts.{IsWell}
use scc_blockchain.Types.ValidatorSet.Change.{ValidatorSetChange, ChangeHash}
use scc_blockchain.State.World.{ManagedWorldState, Codec, oversized, with_consensus_params}
use scc_blockchain.State.World.Commit.{get-commit_self, get-commit_ne, apart}
use scc_blockchain.State.ValidatorRecords.{apply_kind_to_set}
use scc_blockchain.State.ValidatorRecords.Rebuild.{apply_kind_to_set-IsWell}
use scc_blockchain.State.ValidatorRecords.Removal.{
  IsGone, IsInactiveFrom, IsGone-inactive, apply_kind_to_set-IsGone, removal-IsGone,
}
use scc_blockchain.State.ValidatorSetState.{
  validator_set_trie_key, pending_validator_set_changes_trie_key, apply_changes, not_due, due,
  validator_set_from_trie, commit_validator_set, pending_changes_from_trie, commit_pending_changes,
  advance_validator_set_to_height,
}
use scc_blockchain.State.ValidatorSetState.Reach.{Reach, Reach-IsValid, apply_changes_err}

-- Among the changes is a removal of the agent at the height.
abbrev pub Removes : ℕ → ℕ → List ValidatorSetChange → Type 0
Removes a h [] = ⊥
Removes a h (c ∷ cs) = ((reason : RemovalReason) × (c.kind ≡ remove a reason h)) ⊎ Removes a h cs

abbrev AreDue : ℕ → List ValidatorSetChange → Type 0
AreDue h cs = All (λ c. effective_height c.kind ≡ h) cs

due-AreDue : (h : ℕ) (cs : List ValidatorSetChange) → AreDue h (due h cs)
due-AreDue h [] = tt
due-AreDue h (c ∷ cs) = elim (Bool-cases (effective_height c.kind == h)) [
  | inl e ↦ rw e ((==_iff (effective_height c.kind) h).0 e, due-AreDue h cs)
  | inr e ↦ rw e (due-AreDue h cs)
]

Removes-due : (a h : ℕ) (cs : List ValidatorSetChange) → Removes a h cs → Removes a h (due h cs)
unfolding effective_height
Removes-due a h [] r = elim r [ ]
Removes-due a h (c ∷ cs) (inl (reason, k)) =
    let now : (effective_height c.kind == h) ≡ true = rw k (ground arith) in
    rw now (inl (reason, k))
Removes-due a h (c ∷ cs) (inr r) = elim (Bool-cases (effective_height c.kind == h)) [
  | inl e ↦ rw e (inr (Removes-due a h cs r))
  | inr e ↦ rw e (Removes-due a h cs r)
]

apply_changes-IsGone :
    (a h : ℕ) (cs : List ValidatorSetChange) (s s' : ValidatorSet)
    → apply_changes cs (ok s) ≡ ok s'
    → AreDue h cs
    → IsGone a h s.records
    → IsGone a h s'.records
apply_changes-IsGone a h [] s s' e d g =
    subst (λ (x : ValidatorSet). IsGone a h x.records) (ok_inj s s' e) g
apply_changes-IsGone a h (c ∷ cs) s s' e d g = elim (Result-cases (apply_kind_to_set c.kind s)) [
  | inl (f, p) ↦ absurd (cc (apply_changes_err cs f, rw p at e))
  | inr (t, p) ↦
      apply_changes-IsGone a h cs t s' (rw p at e) d.1
        (apply_kind_to_set-IsGone c.kind a h s t p d.0 g)
]

apply_changes-Removes :
    (a h : ℕ) (cs : List ValidatorSetChange) (s s' : ValidatorSet)
    → apply_changes cs (ok s) ≡ ok s'
    → AreDue h cs
    → IsWell s.records
    → Removes a h cs
    → IsGone a h s'.records
apply_changes-Removes a h [] s s' e d w r = elim r [ ]
apply_changes-Removes a h (c ∷ cs) s s' e d w r = elim (Result-cases (apply_kind_to_set c.kind s)) [
  | inl (f, p) ↦ absurd (cc (apply_changes_err cs f, rw p at e))
  | inr (t, p) ↦ elim r [
    | inl (reason, k) ↦
        apply_changes-IsGone a h cs t s' (rw p at e) d.1
          (removal-IsGone c.kind a h reason s t k p w)
    | inr rest ↦
        apply_changes-Removes a h cs t s' (rw p at e) d.1 (apply_kind_to_set-IsWell c.kind s t p w)
          rest
  ]
]

module _ (sets : Codec ValidatorSet) (changes : Codec (List ValidatorSetChange)) where
  -- A sweep with a removal in the queue goes through the changes that are due.
  advance-Removes :
      (a h : ℕ) (ps : List ValidatorSetChange) (s s' : ValidatorSet) (w : ManagedWorldState)
      → pending_changes_from_trie changes w ≡ ok ps
      → Removes a h ps
      → validator_set_from_trie sets w ≡ ok (some s)
      → apply_changes (due h ps) (ok s) ≡ ok s'
      → advance_validator_set_to_height sets changes h w ≡ (
        commit_pending_changes changes (not_due h ps) (commit_validator_set sets s' w),
        ok (due h ps),
      )
  unfolding advance_validator_set_to_height
  advance-Removes a h [] s s' w p r q e = elim r [ ]
  advance-Removes a h (c ∷ cs) s s' w p r q e = rw (p, q, e) refl

  -- In a state that an empty trie reaches, a sweep to a height above 0 whose queue has a removal of
  -- an agent at that height, whose due changes can all be applied to the stored set, and whose
  -- changed set is not over the size limit when it is encoded, answers these changes and stores the
  -- changed set, in which no record of the agent is active at this height or a later one.
  pub removed_inactive :
      (compute_change_id : ChangeHash) (limit a h : ℕ) (ps : List ValidatorSetChange)
      (s s' : ValidatorSet) (w : ManagedWorldState)
      → Reach sets changes compute_change_id (with_consensus_params limit) w
      → 0 < h
      → pending_changes_from_trie changes w ≡ ok ps
      → Removes a h ps
      → validator_set_from_trie sets w ≡ ok (some s)
      → apply_changes (due h ps) (ok s) ≡ ok s'
      → oversized validator_set_trie_key (sets.to_bytes s') w ≡ false
      → ((advance_validator_set_to_height sets changes h w).1 ≡ ok (due h ps))
        × (validator_set_from_trie sets (advance_validator_set_to_height sets changes h w).0
            ≡ ok (some s'))
        × All (IsInactiveFrom a h) s'.records
  unfolding validator_set_from_trie commit_validator_set commit_pending_changes
  removed_inactive compute_change_id limit a h ps s s' w r z p m q e f =
      let run = advance-Removes a h ps s s' w p m q e in
      let well = (Reach-IsValid sets changes compute_change_id limit r).active s q in
      let gone =
        apply_changes-Removes a h (due h ps) s s' e (due-AreDue h ps) well (Removes-due a h ps m) in
      let other =
        get-commit_ne validator_set_trie_key pending_validator_set_changes_trie_key
          (changes.to_bytes (not_due h ps)) (commit_validator_set sets s' w)
          (apart validator_set_trie_key pending_validator_set_changes_trie_key refl) in
      (
        ap (λ o. o.1) run,
        rw
            (
              run,
              other,
              get-commit_self validator_set_trie_key (sets.to_bytes s') w f,
              sets.round_trip s',
            )
            refl,
        IsGone-inactive a h s'.records z gone.1,
      )
