-- ===== src/Governance/Concentration/Consecutive.antt =====
-- No validator proposes too many blocks in a row:
-- crates/sccgub-governance/src/anti_concentration.rs.
use scc_blockchain.Prelude.{
  ap, subst, ◌∙◌, ◌∙◌, ℕ, suc, ◌+◌, ◌%◌, ◌≤◌, ◌≡◌, refl, true, false, none, some, List, [], ◌∷◌,
  ◌==◌, ==_iff, leb, if◌then◌else◌, max, arith, Bool-cases, inl, inr,
}
use scc_blockchain.Prelude.Words.{u32_max}
use scc_blockchain.Prelude.Map.{lookup, nat_eq, lookup-insert_self}
use scc_blockchain.Prelude.Result.{ok}
use scc_blockchain.Governance.Concentration.{
  AgentId, GovernanceLimits, GovernancePowerTracker, new_tracker, or_none, is_last, check_proposal,
  record_proposal, record_action, grant_authority, revoke_authority, reset_epoch,
}

-- How many blocks the validator proposed last, one after the other, in a history with the newest
-- proposer first.
abbrev pub in_a_row : AgentId → List AgentId → ℕ
in_a_row v [] = 0
in_a_row v (x ∷ h) = let rest = in_a_row v h in if x == v then suc rest else 0

-- The proposers so far, and what the operations made of a new tracker, when each proposal was
-- checked before it was recorded.
pub data Reach (limits : GovernanceLimits) : List AgentId → GovernancePowerTracker → Type 0 where
  start : Reach limits [] new_tracker
  proposed :
      {h : List AgentId} {t : GovernancePowerTracker}
      → Reach limits h t
      → (v : AgentId) → check_proposal v limits t ≡ ok tt
      → Reach limits (v ∷ h) (record_proposal v t)
  acted :
      {h : List AgentId} {t : GovernancePowerTracker}
      → Reach limits h t
      → (agent : AgentId) → Reach limits h (record_action agent t)
  granted :
      {h : List AgentId} {t : GovernancePowerTracker}
      → Reach limits h t
      → (agent : AgentId) (epoch : ℕ) → Reach limits h (grant_authority agent epoch t)
  revoked :
      {h : List AgentId} {t : GovernancePowerTracker}
      → Reach limits h t
      → (agent : AgentId) (epoch : ℕ) → Reach limits h (revoke_authority agent epoch limits t)
  reset :
      {h : List AgentId} {t : GovernancePowerTracker}
      → Reach limits h t
      → Reach limits h (reset_epoch t)

-- The last proposer is the newest of the history, and its counter is its run.
abbrev Counts : GovernanceLimits → List AgentId → GovernancePowerTracker → Type 0
Counts limits [] t = t.last_proposer ≡ none
Counts limits (x ∷ h) t =
    (t.last_proposer ≡ some x)
    × (or_none (lookup x t.consecutive_proposals) ≡ in_a_row x (x ∷ h))
    × (in_a_row x (x ∷ h) ≤ max 1 limits.max_consecutive_proposals)

record_proposal-Counts :
    (limits : GovernanceLimits) (h : List AgentId) (t : GovernancePowerTracker) (v : AgentId)
    → limits.max_consecutive_proposals ≤ u32_max
    → Counts limits h t
    → check_proposal v limits t ≡ ok tt
    → Counts limits (v ∷ h) (record_proposal v t)
unfolding check_proposal record_proposal
record_proposal-Counts limits [] t v b c k = rw c (refl, ground arith, ground arith)
record_proposal-Counts limits (x ∷ h) t v b c k = elim (Bool-cases (x == v)) [
  | inl e ↦
      let last : is_last v t.last_proposer ≡ true = rw (c.0, e) refl in
      let same : x ≡ v = (==_iff x v).0 e in
      let count : or_none (lookup v t.consecutive_proposals) ≡ in_a_row v (x ∷ h) =
        subst (λ y. or_none (lookup y t.consecutive_proposals) ≡ in_a_row y (x ∷ h)) same (c.1) in
      let room : leb limits.max_consecutive_proposals (or_none (lookup v t.consecutive_proposals))
          ≡ false =
        ground (arith, last, k) in
      rw
        (
          last,
          lookup-insert_self v ((or_none (lookup v t.consecutive_proposals) + 1) % (u32_max + 1))
              t.consecutive_proposals,
        )
        (c.0 ∙ ap some same, ground (arith, count, room), ground (arith, count, room))
  | inr e ↦
      let last : is_last v t.last_proposer ≡ false = rw (c.0, e) refl in
      rw (last, e) (refl, ground arith, ground arith)
]

-- The other operations leave both fields.
Counts-kept :
    (limits : GovernanceLimits) (h : List AgentId) (t u : GovernancePowerTracker)
    → u.last_proposer ≡ t.last_proposer
    → u.consecutive_proposals ≡ t.consecutive_proposals
    → Counts limits h t
    → Counts limits h u
Counts-kept limits [] t u p q c = p ∙ c
Counts-kept limits (x ∷ h) t u p q c = (p ∙ c.0, rw q (c.1), c.2)

Reach-Counts :
    (limits : GovernanceLimits) (h : List AgentId) (t : GovernancePowerTracker)
    → limits.max_consecutive_proposals ≤ u32_max
    → Reach limits h t
    → Counts limits h t
unfolding record_action grant_authority revoke_authority reset_epoch
Reach-Counts limits _ _ b start = refl
Reach-Counts limits _ _ b (proposed {h} {t} r v k) =
    record_proposal-Counts limits h t v b (Reach-Counts limits h t b r) k
Reach-Counts limits _ _ b (acted {h} {t} r agent) =
    Counts-kept limits h t (record_action agent t) refl refl (Reach-Counts limits h t b r)
Reach-Counts limits _ _ b (granted {h} {t} r agent epoch) =
    Counts-kept limits h t (grant_authority agent epoch t) refl refl (Reach-Counts limits h t b r)
Reach-Counts limits _ _ b (revoked {h} {t} r agent epoch) =
    Counts-kept limits h t (revoke_authority agent epoch limits t) refl refl
      (Reach-Counts limits h t b r)
Reach-Counts limits _ _ b (reset {h} {t} r) =
    Counts-kept limits h t (reset_epoch t) refl refl (Reach-Counts limits h t b r)

in_a_row-bounded :
    (limits : GovernanceLimits) (h : List AgentId) (t : GovernancePowerTracker) (v : AgentId)
    → Counts limits h t
    → in_a_row v h ≤ max 1 limits.max_consecutive_proposals
in_a_row-bounded limits [] t v c = omega arith
in_a_row-bounded limits (x ∷ h) t v c = elim (Bool-cases (x == v)) [
  | inl e ↦
      subst (λ y. in_a_row y (x ∷ h) ≤ max 1 limits.max_consecutive_proposals) ((==_iff x v).0 e)
        (c.2)
  | inr e ↦ rw e (omega arith)
]

-- If each proposal passes `check_proposal` before it is recorded, whatever else the tracker is used
-- for, no validator ever has more than `max_consecutive_proposals` of the newest blocks in a row
-- (one, where the limit is 0, and with a limit that a u32 holds).
pub Reach-in_a_row :
    (limits : GovernanceLimits) (h : List AgentId) (t : GovernancePowerTracker) (v : AgentId)
    → limits.max_consecutive_proposals ≤ u32_max
    → Reach limits h t
    → in_a_row v h ≤ max 1 limits.max_consecutive_proposals
Reach-in_a_row limits h t v b r = in_a_row-bounded limits h t v (Reach-Counts limits h t b r)
