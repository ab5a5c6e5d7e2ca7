-- ===== src/State/ValidatorRecords/Removal.antt =====
-- What a removal leaves of a validator: `apply_kind_to_set` of
-- crates/sccgub-state/src/validator_set_state.rs.
use scc_blockchain.Prelude.{
  ℕ, ◌-◌, ◌≤◌, ◌<◌, ◌≡◌, refl, sym, ap, ◌∙◌, true, false, some, List, [], ◌∷◌, ◌++◌, ◌==◌, ==_iff,
  All, arith, subst, Bool-cases, inl, inr,
}
use scc_blockchain.Prelude.Result.{ok, ok_inj}
use scc_blockchain.Consensus.Quorum.{mem, IsDistinct}
use scc_blockchain.Types.Sorted.{mem-append}
use scc_blockchain.Types.ValidatorSet.{
  ValidatorRecord, ValidatorSet, ValidatorSetChangeKind, RemovalReason, add, remove, rotate_power,
  rotate_key, effective_height, find_agent, is_active_at,
}
use scc_blockchain.Types.ValidatorSet.Power.{mem-sort_by_key}
use scc_blockchain.Types.ValidatorSet.Canonical.{map-sort_by_key}
use scc_blockchain.Types.ValidatorSet.Accepts.{IsWell, by_agent, new-IsWell, All-sort_by_key}
use scc_blockchain.State.ValidatorRecords.{
  keys, agents, update_agent, used_by_other, ends, with_power, with_key, records_after,
  apply_kind_to_set,
}
use scc_blockchain.State.ValidatorRecords.Rebuild.{
  apply_kind_to_set_ok, agents-update_agent, rotated-ok,
}

abbrev IsEnded : ℕ → ℕ → ValidatorRecord → Type 0
IsEnded a h r = r.agent_id ≡ a → r.active_until ≡ some (h - 1)

-- The agent is there, and the last height of its records is the one before `h`.
abbrev pub IsGone : ℕ → ℕ → List ValidatorRecord → Type 0
IsGone a h rs = (mem a (agents rs) ≡ true) × All (IsEnded a h) rs

-- Nobody of a list without the agent.
absent-IsEnded :
    (a h : ℕ) (rs : List ValidatorRecord) → mem a (agents rs) ≡ false → All (IsEnded a h) rs
absent-IsEnded a h [] n = tt
absent-IsEnded a h (r ∷ rs) n =
    (λ e. absurd (ground (arith, n, e)), absent-IsEnded a h rs (ground (arith, n)))

ends-IsEnded :
    (a h : ℕ) (rs : List ValidatorRecord)
    → IsDistinct (agents rs)
    → All (IsEnded a h) (update_agent a (ends h) rs)
ends-IsEnded a h [] d = tt
ends-IsEnded a h (r ∷ rs) d = elim (Bool-cases (a == r.agent_id)) [
  | inl e ↦ rw e (λ q. refl, absent-IsEnded a h rs (rw ((==_iff a r.agent_id).0 e) (d.0)))
  | inr e ↦ rw e (λ q. absurd (ground (arith, q)), ends-IsEnded a h rs (d.1))
]

-- An update that leaves the agent and its end, or sets that end.
update-IsEnded :
    (a b h : ℕ) (f : ValidatorRecord → ValidatorRecord) (rs : List ValidatorRecord)
    → ((r : ValidatorRecord) → IsEnded a h r → IsEnded a h (f r))
    → All (IsEnded a h) rs
    → All (IsEnded a h) (update_agent b f rs)
update-IsEnded a b h f [] k g = tt
update-IsEnded a b h f (r ∷ rs) k g = elim (Bool-cases (b == r.agent_id)) [
  | inl e ↦ rw e (k r g.0, g.1)
  | inr e ↦ rw e (g.0, update-IsEnded a b h f rs k g.1)
]

update-IsGone :
    (a b h : ℕ) (f : ValidatorRecord → ValidatorRecord) (rs : List ValidatorRecord)
    → ((r : ValidatorRecord) → (f r).agent_id ≡ r.agent_id)
    → ((r : ValidatorRecord) → IsEnded a h r → IsEnded a h (f r))
    → IsGone a h rs
    → IsGone a h (update_agent b f rs)
update-IsGone a b h f rs g k gone =
    (ap (mem a) (agents-update_agent f b rs g) ∙ gone.0, update-IsEnded a b h f rs k gone.1)

All-push :
    (P : ValidatorRecord → Type 0) (r : ValidatorRecord) (rs : List ValidatorRecord)
    → P r
    → All P rs
    → All P (rs ++ r ∷ [])
All-push P r [] p a = (p, tt)
All-push P r (t ∷ rs) p a = (a.0, All-push P r rs p a.1)

push-IsGone :
    (a h : ℕ) (r : ValidatorRecord) (rs : List ValidatorRecord)
    → mem r.agent_id (agents rs) ≡ false
    → IsGone a h rs
    → IsGone a h (rs ++ r ∷ [])
push-IsGone a h r rs n gone =
    let agent : ValidatorRecord → ℕ = (λ t. t.agent_id) in
    let found = mem-append agent a rs (r ∷ []) in
    (
      ground (arith, found, gone.0),
      All-push (IsEnded a h) r rs (λ q. absurd (cc (rw q at n, gone.0))) gone.1,
    )

records_after-IsGone :
    (kind : ValidatorSetChangeKind) (a h : ℕ) (rs rs' : List ValidatorRecord)
    → records_after kind rs ≡ ok rs'
    → effective_height kind ≡ h
    → IsGone a h rs
    → IsGone a h rs'
unfolding effective_height
records_after-IsGone (add r) a h rs rs' e t g = elim (Bool-cases (mem r.agent_id (agents rs))) [
  | inl m ↦ absurd (cc (rw m at e))
  | inr m ↦ elim (Bool-cases (mem r.validator_id (keys rs))) [
    | inl n ↦ absurd (cc (rw (m, n) at e))
    | inr n ↦
        subst (IsGone a h) (ok_inj (rs ++ r ∷ []) rs' (rw (m, n) at e)) (push-IsGone a h r rs m g)
  ]
]
records_after-IsGone (remove b reason k) a h rs rs' e t g = elim (Bool-cases (mem b (agents rs))) [
  | inl m ↦
      subst (IsGone a h) (ok_inj (update_agent b (ends k) rs) rs' (rw m at e))
        (update-IsGone a b h (ends k) rs (λ r. refl) (λ r n q. ap (λ x. some (x - 1)) t) g)
  | inr m ↦ absurd (cc (rw m at e))
]
records_after-IsGone (rotate_power b p k) a h rs rs' e t g = elim (Bool-cases (p == 0)) [
  | inl z ↦ absurd (cc (rw z at e))
  | inr z ↦ elim (Bool-cases (mem b (agents rs))) [
    | inl m ↦
        subst (IsGone a h) (ok_inj (update_agent b (with_power p) rs) rs' (rw (z, m) at e))
          (update-IsGone a b h (with_power p) rs (λ r. refl) (λ r n. n) g)
    | inr m ↦ absurd (cc (rw (z, m) at e))
  ]
]
records_after-IsGone (rotate_key b old k n) a h rs rs' e t g = elim (Bool-cases (old == k)) [
  | inl z ↦ absurd (cc (rw z at e))
  | inr z ↦ elim (Bool-cases (used_by_other b k rs)) [
    | inl m ↦ absurd (cc (rw (z, m) at e))
    | inr m ↦
        subst (IsGone a h) (rotated-ok b old k rs rs' (find_agent b rs) (rw (z, m) at e))
          (update-IsGone a b h (with_key k) rs (λ r. refl) (λ r n. n) g)
  ]
]

-- The removal itself.
removes-IsGone :
    (a h : ℕ) (reason : RemovalReason) (rs rs' : List ValidatorRecord)
    → records_after (remove a reason h) rs ≡ ok rs'
    → IsWell rs
    → IsGone a h rs'
removes-IsGone a h reason rs rs' e w = elim (Bool-cases (mem a (agents rs))) [
  | inl m ↦
      subst (IsGone a h) (ok_inj (update_agent a (ends h) rs) rs' (rw m at e))
        (ap (mem a) (agents-update_agent (ends h) a rs (λ r. refl)) ∙ m, ends-IsEnded a h rs (w.0))
  | inr m ↦ absurd (cc (rw m at e))
]

by_agent-IsGone : (a h : ℕ) (rs : List ValidatorRecord) → IsGone a h rs → IsGone a h (by_agent rs)
by_agent-IsGone a h rs g = (
  ap (mem a) (map-sort_by_key (λ r. r.agent_id) rs) ∙ mem-sort_by_key a (agents rs) ∙ g.0,
  All-sort_by_key (λ r. r.agent_id) (IsEnded a h) rs g.1,
)

pub apply_kind_to_set-IsGone :
    (kind : ValidatorSetChangeKind) (a h : ℕ) (s s' : ValidatorSet)
    → apply_kind_to_set kind s ≡ ok s'
    → effective_height kind ≡ h
    → IsGone a h s.records
    → IsGone a h s'.records
apply_kind_to_set-IsGone kind a h s s' e t g =
    let after = apply_kind_to_set_ok kind s s' e in
    subst (IsGone a h) (sym ((new-IsWell after.0 s' after.2).0))
      (by_agent-IsGone a h after.0 (records_after-IsGone kind a h s.records after.0 after.1 t g))

pub removal-IsGone :
    (kind : ValidatorSetChangeKind) (a h : ℕ) (reason : RemovalReason) (s s' : ValidatorSet)
    → kind ≡ remove a reason h
    → apply_kind_to_set kind s ≡ ok s'
    → IsWell s.records
    → IsGone a h s'.records
removal-IsGone kind a h reason s s' k e w =
    let after = apply_kind_to_set_ok kind s s' e in
    subst (IsGone a h) (sym ((new-IsWell after.0 s' after.2).0)) (
      by_agent-IsGone a h after.0 (removes-IsGone a h reason s.records after.0 (rw k at after.1) w))

-- The record of the agent is active at no height from `h` on.
abbrev pub IsInactiveFrom : ℕ → ℕ → ValidatorRecord → Type 0
IsInactiveFrom a h r = (g : ℕ) → r.agent_id ≡ a → h ≤ g → is_active_at g r ≡ false

pub IsGone-inactive :
    (a h : ℕ) (rs : List ValidatorRecord)
    → 0 < h
    → All (IsEnded a h) rs
    → All (IsInactiveFrom a h) rs
unfolding is_active_at
IsGone-inactive a h [] p g = tt
IsGone-inactive a h (r ∷ rs) p g =
    (λ k e l. (let end = g.0 e in ground (arith, end)), IsGone-inactive a h rs p (g.1))
