-- ===== src/State/ValidatorSetState/Reach.antt =====
-- The states of the trie that the functions of crates/sccgub-state/src/validator_set_state.rs can
-- reach, and what holds in all of them.
use scc_blockchain.Prelude.{
  ℕ, ◌≡◌, refl, subst, false, none, some, List, [], ◌∷◌, ◌==◌, arith, Bool-cases, inl, inr,
}
use scc_blockchain.Prelude.Result.{ok, err, ok_inj, Result-cases}
use scc_blockchain.Prelude.Map.{bytes_eq}
use scc_blockchain.Prelude.Sort.{IsBelow, IsOrdered, IsOrdered-IsBelow, IsBelow-IsOrdered}
use scc_blockchain.Consensus.Quorum.{mem, IsDistinct}
use scc_blockchain.Types.Transition.{Bytes}
use scc_blockchain.Types.ValidatorSet.{ValidatorRecord, ValidatorSet, effective_height}
use scc_blockchain.Types.ValidatorSet
use scc_blockchain.Types.ValidatorSet.Accepts.{IsWell, new-IsWell}
use scc_blockchain.Types.ValidatorSet.Change.{ValidatorSetChange, ChangeHash}
use scc_blockchain.State.World.{ManagedWorldState, Codec, commit, with_consensus_params}
use scc_blockchain.State.ValidatorRecords.{ValidatorSetStateError, apply_kind_to_set}
use scc_blockchain.State.ValidatorRecords.Rebuild.{apply_kind_to_set-IsWell}
use scc_blockchain.State.ValidatorSetState.{
  validator_set_trie_key, pending_validator_set_changes_trie_key,
  validator_set_change_history_trie_key, apply_changes, ids, order, not_due, due,
  validator_set_from_trie, commit_validator_set, pending_changes_from_trie,
  validator_set_change_history_from_trie, apply_validator_set_change_admission, activate,
  advance_validator_set_to_height,
}
use scc_blockchain.State.ValidatorSetState.Valid.{
  IsPending, IsValid, admission-IsValid, commit_set-IsValid, commit_other-IsValid,
  commit_pending-IsValid,
}

not_due-IsBelow :
    (h : ℕ) (c : ValidatorSetChange) (cs : List ValidatorSetChange)
    → IsBelow order c cs
    → IsBelow order c (not_due h cs)
not_due-IsBelow h c [] b = tt
not_due-IsBelow h c (d ∷ cs) b = elim (Bool-cases (effective_height d.kind == h)) [
  | inl e ↦ rw e (not_due-IsBelow h c cs b.1)
  | inr e ↦ rw e (b.0, not_due-IsBelow h c cs b.1)
]

not_due-IsOrdered :
    (h : ℕ) (cs : List ValidatorSetChange) → IsOrdered order cs → IsOrdered order (not_due h cs)
not_due-IsOrdered h [] o = tt
not_due-IsOrdered h (c ∷ cs) o =
    let parts = IsOrdered-IsBelow order c cs o in
    let rest = not_due-IsOrdered h cs parts.1 in
    elim (Bool-cases (effective_height c.kind == h)) [
      | inl e ↦ rw e rest
      | inr e ↦
          rw e (IsBelow-IsOrdered order c (not_due h cs) (not_due-IsBelow h c cs parts.0) rest)
    ]

mem-not_due :
    (k h : ℕ) (cs : List ValidatorSetChange)
    → mem k (ids cs) ≡ false
    → mem k (ids (not_due h cs)) ≡ false
mem-not_due k h [] m = refl
mem-not_due k h (c ∷ cs) m = ground (arith, mem-not_due k h cs)

not_due-IsDistinct :
    (h : ℕ) (cs : List ValidatorSetChange) → IsDistinct (ids cs) → IsDistinct (ids (not_due h cs))
not_due-IsDistinct h [] d = tt
not_due-IsDistinct h (c ∷ cs) d =
    ground (arith, not_due-IsDistinct h cs, mem-not_due c.change_id h cs)

not_due-IsPending : (h : ℕ) (cs : List ValidatorSetChange) → IsPending cs → IsPending (not_due h cs)
not_due-IsPending h cs p = (not_due-IsOrdered h cs p.0, not_due-IsDistinct h cs p.1)

pub apply_changes_err :
    (cs : List ValidatorSetChange) (e : ValidatorSetStateError) → apply_changes cs (err e) ≡ err e
apply_changes_err [] e = refl
apply_changes_err (c ∷ cs) e = refl

pub apply_changes-IsWell :
    (cs : List ValidatorSetChange) (s s' : ValidatorSet)
    → apply_changes cs (ok s) ≡ ok s'
    → IsWell s.records
    → IsWell s'.records
apply_changes-IsWell [] s s' h w = subst (λ (x : ValidatorSet). IsWell x.records) (ok_inj s s' h) w
apply_changes-IsWell (c ∷ cs) s s' h w = elim (Result-cases (apply_kind_to_set c.kind s)) [
  | inl (e, p) ↦ absurd (cc (apply_changes_err cs e, rw p at h))
  | inr (t, p) ↦ apply_changes-IsWell cs t s' (rw p at h) (apply_kind_to_set-IsWell c.kind s t p w)
]

module _ (sets : Codec ValidatorSet) (changes : Codec (List ValidatorSetChange)) where
  activate-IsValid :
      (h : ℕ) (ps : List ValidatorSetChange) (w : ManagedWorldState)
      → IsPending ps
      → IsValid sets changes w
      → IsValid sets changes (activate sets changes h ps w (validator_set_from_trie sets w)).0
  activate-IsValid h ps w p v = elim (Result-cases (validator_set_from_trie sets w)) [
    | inl (e, q) ↦ rw q v
    | inr (none, q) ↦ rw q v
    | inr (some s, q) ↦ elim (Result-cases (apply_changes (due h ps) (ok s))) [
      | inl (e, r) ↦ rw (q, r) v
      | inr (s', r) ↦
          let well = apply_changes-IsWell (due h ps) s s' r (v.active s q) in
          let stored = commit_set-IsValid sets changes s' w well v in
          rw (q, r)
            (commit_pending-IsValid sets changes (not_due h ps) (commit_validator_set sets s' w)
              (not_due-IsPending h ps p) stored)
    ]
  ]

  advance-IsValid :
      (h : ℕ) (w : ManagedWorldState)
      → IsValid sets changes w
      → IsValid sets changes (advance_validator_set_to_height sets changes h w).0
  unfolding advance_validator_set_to_height
  advance-IsValid h w v = elim (Result-cases (pending_changes_from_trie changes w)) [
    | inl (e, p) ↦ rw p v
    | inr ([], p) ↦ rw p v
    | inr (c ∷ cs, p) ↦ rw p (activate-IsValid h (c ∷ cs) w (v.pending (c ∷ cs) p) v)
  ]

  -- One call, whatever it answers, a set from `new` committed at genesis, or a write of another
  -- module to an address of its own.
  pub data Step (compute_change_id : ChangeHash) (w : ManagedWorldState)
      : ManagedWorldState → Type 0 where
    admits :
        (c : ValidatorSetChange)
        → Step compute_change_id w
            (apply_validator_set_change_admission changes compute_change_id c w).0
    advances :
        (h : ℕ) → Step compute_change_id w (advance_validator_set_to_height sets changes h w).0
    seeds :
        (records : List ValidatorRecord) (s : ValidatorSet)
        → ValidatorSet.new records ≡ ok s
        → Step compute_change_id w (commit_validator_set sets s w)
    writes :
        (k b : Bytes)
        → bytes_eq.beq pending_validator_set_changes_trie_key k ≡ false
        → bytes_eq.beq validator_set_change_history_trie_key k ≡ false
        → bytes_eq.beq validator_set_trie_key k ≡ false
        → Step compute_change_id w (commit k b w)

  pub data Reach (compute_change_id : ChangeHash) (w : ManagedWorldState)
      : ManagedWorldState → Type 0 where
    here : Reach compute_change_id w w
    next :
        {t u : ManagedWorldState}
        → Reach compute_change_id w t
        → Step compute_change_id t u
        → Reach compute_change_id w u

  Step-IsValid :
      (compute_change_id : ChangeHash) {w u : ManagedWorldState}
      → Step compute_change_id w u
      → IsValid sets changes w
      → IsValid sets changes u
  Step-IsValid compute_change_id {w} (admits c) v =
      admission-IsValid sets changes compute_change_id c w v
  Step-IsValid compute_change_id {w} (advances h) v = advance-IsValid h w v
  Step-IsValid compute_change_id {w} (seeds rs s n) v =
      commit_set-IsValid sets changes s w ((new-IsWell rs s n).1) v
  Step-IsValid compute_change_id {w} (writes k b p q r) v =
      commit_other-IsValid sets changes k b w p q r v

  new-IsValid : (limit : ℕ) → IsValid sets changes (with_consensus_params limit)
  unfolding pending_changes_from_trie validator_set_from_trie validator_set_change_history_from_trie
      with_consensus_params
  new-IsValid limit = record {
    pending = λ ps h. subst IsPending (ok_inj [] ps h) (tt, tt);
    history = λ hs h. subst (λ x. IsDistinct (ids x)) (ok_inj [] hs h) tt;
    active = λ s h. absurd (cc h);
  }

  -- In every state that an empty trie reaches by admissions, activation sweeps, sets from `new` and
  -- writes to other addresses: a pending queue that can be read is in the order of effective height
  -- and change id without a change id twice, a history that can be read has no change id twice, and
  -- a set that can be read has neither an agent nor a key twice.
  pub Reach-IsValid :
      (compute_change_id : ChangeHash) (limit : ℕ) {w : ManagedWorldState}
      → Reach compute_change_id (with_consensus_params limit) w
      → IsValid sets changes w
  Reach-IsValid compute_change_id limit here = new-IsValid limit
  Reach-IsValid compute_change_id limit (next r st) =
      Step-IsValid compute_change_id st (Reach-IsValid compute_change_id limit r)
