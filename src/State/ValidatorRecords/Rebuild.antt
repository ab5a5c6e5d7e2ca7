-- ===== src/State/ValidatorRecords/Rebuild.antt =====
-- A change of a validator set leaves agents and keys that stand once, so that the set can always be
-- built again: `apply_kind_to_set` of crates/sccgub-state/src/validator_set_state.rs.
use scc_blockchain.Prelude.{
  ℕ, ◌≡◌, ◌≢◌, refl, ap, ◌∙◌, false, Option, none, some, List, [], ◌∷◌, ◌++◌, ◌==◌, ==_iff, arith,
  subst, Bool-cases, inl, inr,
}
use scc_blockchain.Prelude.Result.{err_inj, ok, err, ok_inj, Result-cases}
use scc_blockchain.Consensus.Quorum.{mem, IsDistinct}
use scc_blockchain.Types.Sorted.{push-IsDistinct}
use scc_blockchain.Types.ValidatorSet.{
  ValidatorRecord, ValidatorSet, ValidatorSetError, ValidatorSetChangeKind, add, remove,
  rotate_power, rotate_key, find_agent,
}
use scc_blockchain.Types.ValidatorSet
use scc_blockchain.Types.ValidatorSet.Accepts.{IsWell, new_accepts, new-IsWell}
use scc_blockchain.State.ValidatorRecords.{
  set_rebuild_failed, agents, keys, update_agent, used_by_other, ends, with_power, with_key,
  rotated, records_after, rebuilt, apply_kind_to_set,
}

module _ (f : ValidatorRecord → ValidatorRecord) where
  pub agents-update_agent :
      (a : ℕ) (rs : List ValidatorRecord)
      → ((r : ValidatorRecord) → (f r).agent_id ≡ r.agent_id)
      → agents (update_agent a f rs) ≡ agents rs
  agents-update_agent a [] h = refl
  agents-update_agent a (r ∷ rs) h = ground (arith, agents-update_agent a rs h, h r)

  keys-update_agent :
      (a : ℕ) (rs : List ValidatorRecord)
      → ((r : ValidatorRecord) → (f r).validator_id ≡ r.validator_id)
      → keys (update_agent a f rs) ≡ keys rs
  keys-update_agent a [] h = refl
  keys-update_agent a (r ∷ rs) h = ground (arith, keys-update_agent a rs h, h r)

-- A key that no other agent uses is not there when the agent is not.
unused :
    (a k : ℕ) (rs : List ValidatorRecord)
    → used_by_other a k rs ≡ false
    → mem a (agents rs) ≡ false
    → mem k (keys rs) ≡ false
unused a k [] u n = refl
unused a k (r ∷ rs) u n = ground (arith, unused a k rs)

mem-with_key :
    (v a k : ℕ) (rs : List ValidatorRecord)
    → (v == k) ≡ false
    → mem v (keys rs) ≡ false
    → mem v (keys (update_agent a (with_key k) rs)) ≡ false
mem-with_key v a k [] n m = refl
mem-with_key v a k (r ∷ rs) n m = ground (arith, mem-with_key v a k rs n)

with_key-IsDistinct :
    (a k : ℕ) (rs : List ValidatorRecord)
    → used_by_other a k rs ≡ false
    → IsWell rs
    → IsDistinct (keys (update_agent a (with_key k) rs))
with_key-IsDistinct a k [] u w = tt
with_key-IsDistinct a k (r ∷ rs) u w = elim (Bool-cases (a == r.agent_id)) [
  | inl e ↦
      let absent : mem a (agents rs) ≡ false = rw ((==_iff a r.agent_id).0 e) (w.0.0) in
      let rest : used_by_other a k rs ≡ false = ground (arith, u) in
      rw e (unused a k rs rest absent, w.1.1)
  | inr e ↦
      let rest : used_by_other a k rs ≡ false = ground (arith, u) in
      let other : (r.validator_id == k) ≡ false = ground (arith, u) in
      rw e (
        mem-with_key r.validator_id a k rs other (w.1.0),
        with_key-IsDistinct a k rs rest (w.0.1, w.1.1),
      )
]

same_ids-IsWell :
    (a : ℕ) (f : ValidatorRecord → ValidatorRecord) (rs : List ValidatorRecord)
    → ((r : ValidatorRecord) → (f r).agent_id ≡ r.agent_id)
    → ((r : ValidatorRecord) → (f r).validator_id ≡ r.validator_id)
    → IsWell rs
    → IsWell (update_agent a f rs)
same_ids-IsWell a f rs h g w = rw (agents-update_agent f a rs h, keys-update_agent f a rs g) w

new_key-IsWell :
    (a k : ℕ) (rs : List ValidatorRecord)
    → used_by_other a k rs ≡ false
    → IsWell rs
    → IsWell (update_agent a (with_key k) rs)
new_key-IsWell a k rs u w =
    (rw (agents-update_agent (with_key k) a rs (λ r. refl)) (w.0), with_key-IsDistinct a k rs u w)

push-IsWell :
    (r : ValidatorRecord) (rs : List ValidatorRecord)
    → mem r.agent_id (agents rs) ≡ false
    → mem r.validator_id (keys rs) ≡ false
    → IsWell rs
    → IsWell (rs ++ r ∷ [])
push-IsWell r rs n m w = (
  push-IsDistinct (λ t. t.agent_id) r rs n (w.0),
  push-IsDistinct (λ t. t.validator_id) r rs m (w.1),
)

pub rotated-ok :
    (a old k : ℕ) (rs rs' : List ValidatorRecord) (o : Option ValidatorRecord)
    → rotated a old k rs o ≡ ok rs'
    → update_agent a (with_key k) rs ≡ rs'
rotated-ok a old k rs rs' none h = cc
rotated-ok a old k rs rs' (some r) h = elim (Bool-cases (r.validator_id == old)) [
  | inl e ↦ ok_inj (update_agent a (with_key k) rs) rs' (rw e at h)
  | inr e ↦ absurd (cc (rw e at h))
]

pub records_after-IsWell :
    (kind : ValidatorSetChangeKind) (rs rs' : List ValidatorRecord)
    → records_after kind rs ≡ ok rs'
    → IsWell rs
    → IsWell rs'
records_after-IsWell (add r) rs rs' h w = elim (Bool-cases (mem r.agent_id (agents rs))) [
  | inl e ↦ absurd (cc (rw e at h))
  | inr e ↦ elim (Bool-cases (mem r.validator_id (keys rs))) [
    | inl f ↦ absurd (cc (rw (e, f) at h))
    | inr f ↦ subst IsWell (ok_inj (rs ++ r ∷ []) rs' (rw (e, f) at h)) (push-IsWell r rs e f w)
  ]
]
records_after-IsWell (remove a reason k) rs rs' h w = elim (Bool-cases (mem a (agents rs))) [
  | inl e ↦
      subst IsWell (ok_inj (update_agent a (ends k) rs) rs' (rw e at h))
        (same_ids-IsWell a (ends k) rs (λ r. refl) (λ r. refl) w)
  | inr e ↦ absurd (cc (rw e at h))
]
records_after-IsWell (rotate_power a p k) rs rs' h w = elim (Bool-cases (p == 0)) [
  | inl z ↦ absurd (cc (rw z at h))
  | inr z ↦ elim (Bool-cases (mem a (agents rs))) [
    | inl e ↦
        subst IsWell (ok_inj (update_agent a (with_power p) rs) rs' (rw (z, e) at h))
          (same_ids-IsWell a (with_power p) rs (λ r. refl) (λ r. refl) w)
    | inr e ↦ absurd (cc (rw (z, e) at h))
  ]
]
records_after-IsWell (rotate_key a old k n) rs rs' h w = elim (Bool-cases (old == k)) [
  | inl z ↦ absurd (cc (rw z at h))
  | inr z ↦ elim (Bool-cases (used_by_other a k rs)) [
    | inl e ↦ absurd (cc (rw (z, e) at h))
    | inr e ↦
        subst IsWell (rotated-ok a old k rs rs' (find_agent a rs) (rw (z, e) at h))
          (new_key-IsWell a k rs e w)
  ]
]

-- None of the checks before the rebuild answers with the error of the rebuild.
rotated_refused :
    (a old k : ℕ) (rs : List ValidatorRecord) (e : ValidatorSetError) (o : Option ValidatorRecord)
    → rotated a old k rs o ≢ err (set_rebuild_failed e)
rotated_refused a old k rs e none h = ground arith
rotated_refused a old k rs e (some r) h = ground arith

refused :
    (kind : ValidatorSetChangeKind) (rs : List ValidatorRecord) (e : ValidatorSetError)
    → records_after kind rs ≢ err (set_rebuild_failed e)
refused (add r) rs e h = ground arith
refused (remove a reason k) rs e h = ground arith
refused (rotate_power a p k) rs e h = ground arith
refused (rotate_key a old k n) rs e h =
    ground (arith, rotated_refused a old k rs e (find_agent a rs))

-- Where a change succeeds, the set is built of the records after the change.
pub apply_kind_to_set_ok :
    (kind : ValidatorSetChangeKind) (s s' : ValidatorSet)
    → apply_kind_to_set kind s ≡ ok s'
    → (rs : List ValidatorRecord) × (records_after kind s.records ≡ ok rs)
      × (ValidatorSet.new rs ≡ ok s')
unfolding apply_kind_to_set
apply_kind_to_set_ok kind s s' h = elim (Result-cases (records_after kind s.records)) [
  | inl (e, p) ↦ absurd (cc (rw p at h))
  | inr (rs, p) ↦
      let made : rebuilt (ValidatorSet.new rs) ≡ ok s' = rw p at h in
      elim (Result-cases (ValidatorSet.new rs)) [
        | inl (e, q) ↦ absurd (cc (rw q at made))
        | inr (t, q) ↦ (rs, p, q ∙ ap ok (ok_inj t s' (rw q at made)))
      ]
]

-- A change that is applied to a set whose agents and keys stand once gives such a set again.
pub apply_kind_to_set-IsWell :
    (kind : ValidatorSetChangeKind) (s s' : ValidatorSet)
    → apply_kind_to_set kind s ≡ ok s'
    → IsWell s.records
    → IsWell s'.records
apply_kind_to_set-IsWell kind s s' h w =
    let after = apply_kind_to_set_ok kind s s' h in (new-IsWell after.0 s' after.2).1

-- The rebuild after a change never fails: from a set whose agents and keys stand once,
-- `apply_kind_to_set` answers no `SetRebuildFailed`.
pub rebuild_never_fails :
    (kind : ValidatorSetChangeKind) (s : ValidatorSet) (e : ValidatorSetError)
    → IsWell s.records
    → apply_kind_to_set kind s ≢ err (set_rebuild_failed e)
unfolding apply_kind_to_set
rebuild_never_fails kind s e w h = elim (Result-cases (records_after kind s.records)) [
  | inl (f, p) ↦
      refused kind s.records e (p ∙ ap err (err_inj f (set_rebuild_failed e) (rw p at h)))
  | inr (rs, p) ↦
      let accepted = new_accepts rs (records_after-IsWell kind s.records rs p w) in
      cc (rw (p, accepted) at h)
]
