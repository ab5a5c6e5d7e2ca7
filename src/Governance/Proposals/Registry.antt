-- ===== src/Governance/Proposals/Registry.antt =====
-- The registry of proposals over any sequence of calls:
-- crates/sccgub-governance/src/proposals.rs.
use scc_blockchain.Prelude.{
  Option-cases, some_inj, ℕ, suc, zero, ◌≤◌, Bool, Option, some, List, [], ◌∷◌, ◌++◌, leb, ltb,
  length, get_elem?, set, All, ◌≡◌, refl, subst, Bool-cases, inl, inr, arith,
}
use scc_blockchain.Prelude.Result.{ok_inj, Result-cases, Result, ok, err}
use scc_blockchain.Prelude.Map.{nat_eq, lookup}
use scc_blockchain.Consensus.Quorum.{Hash}
use scc_blockchain.Types.Governance.{PrecedenceLevel}
use scc_blockchain.Governance.Proposals.{
  panicked, required_for, not_found, rank, Norm, max_proposals, ProposalKind, GovernanceProposal,
  ProposalRegistry, ProposalError, submit, fresh, at, on, cast, vote, close_all, finalize, enact,
  activate, timelocked, activated,
}
use scc_blockchain.Governance.Proposals.Lifecycle.{
  IsProposal, cast-IsProposal, enact-IsProposal, close-IsProposal, enact_ok,
}

module _ {A : Type 0} (P : A → Type 0) where
  All-append : (xs ys : List A) → All P xs → All P ys → All P (xs ++ ys)
  All-append [] ys h k = k
  All-append (x ∷ xs) ys (a, h) k = (a, All-append xs ys h k)

  All-set : (xs : List A) (i : ℕ) (v : A) → All P xs → P v → All P (set xs i v)
  All-set [] i v h k = tt
  All-set (x ∷ xs) zero v (a, h) k = (k, h)
  All-set (x ∷ xs) (suc i) v (a, h) k = (a, All-set xs i v h k)

  All-get : (xs : List A) (i : ℕ) (v : A) → get_elem? xs i ≡ some v → All P xs → P v
  All-get [] i v e h = absurd (cc)
  All-get (x ∷ xs) zero v e (a, h) = subst P (some_inj x v e) a
  All-get (x ∷ xs) (suc i) v e (a, h) = All-get xs i v e h

abbrev pub IsRegistry : ProposalRegistry → Type 0
IsRegistry r = All IsProposal r.proposals

-- A call that keeps the property on the proposal that it changes keeps it on the registry.
on-IsRegistry :
    {A : Type 0} (id : Hash)
    (f : GovernanceProposal → Result ProposalError (GovernanceProposal × A))
    → ((p q : GovernanceProposal) (a : A) → IsProposal p → f p ≡ ok (q, a) → IsProposal q)
    → (r : ProposalRegistry) → IsRegistry r
    → IsRegistry ((on id f r).0)
on-IsRegistry id f k r h = elim (Option-cases (lookup id r.index)) [
  | inl n ↦ rw (n, on) h
  | inr (i, e) ↦ elim (Option-cases (get_elem? r.proposals i)) [
    | inl n ↦ rw (e, n, on, at) h
    | inr (p, g) ↦ elim (Result-cases (f p)) [
      | inl (x, d) ↦ rw (e, g, d, on, at) h
      | inr ((q, a), d) ↦
          rw (e, g, d, on, at)
            (All-set IsProposal r.proposals i q h
              (k p q a (All-get IsProposal r.proposals i p g h) d))
    ]
  ]
]

-- An accepted call has found a proposal, and writes back what it makes of it.
on_ok :
    {A : Type 0} (id : Hash)
    (f : GovernanceProposal → Result ProposalError (GovernanceProposal × A)) (r : ProposalRegistry)
    (a : A)
    → (on id f r).1 ≡ ok a
    → (i : ℕ) × (p q : GovernanceProposal) × (lookup id r.index ≡ some i)
      × (get_elem? r.proposals i ≡ some p)
      × (f p ≡ ok (q, a))
      × ((on id f r).0.proposals ≡ set r.proposals i q)
on_ok id f r a e = elim (Option-cases (lookup id r.index)) [
  | inl n ↦ let bad : err not_found ≡ ok a = rw (n, on) at e in absurd (cc)
  | inr (i, n) ↦ elim (Option-cases (get_elem? r.proposals i)) [
    | inl m ↦ let bad : err panicked ≡ ok a = rw (n, m, on, at) at e in absurd (cc)
    | inr (p, m) ↦ elim (Result-cases (f p)) [
      | inl (x, d) ↦ let bad : err x ≡ ok a = rw (n, m, d, on, at) at e in absurd (cc)
      | inr ((q, b), d) ↦
          let same : b ≡ a = ok_inj b a (rw (n, m, d, on, at) at e) in
          (i, p, q, n, m, rw (← same) d, rw (n, m, d, on, at))
    ]
  ]
]

close_all-IsRegistry :
    (h : ℕ) (ps : List GovernanceProposal) → All IsProposal ps → All IsProposal ((close_all h ps).0)
unfolding close_all
close_all-IsRegistry h [] a = tt
close_all-IsRegistry h (p ∷ ps) (a, b) = (close-IsProposal h p a, close_all-IsRegistry h ps b)

module _ (proposal_id : Hash → ProposalKind → ℕ → Hash) where
  -- The registry after one call, whatever the call returns.
  pub data Step (r : ProposalRegistry) : ProposalRegistry → Type 0 where
    submits :
        (proposer : Hash) (level : PrecedenceLevel) (kind : ProposalKind) (height period : ℕ)
        → Step r ((submit proposal_id proposer level kind height period r).0)
    votes :
        (id voter : Hash) (level : PrecedenceLevel) (approve : Bool) (height : ℕ)
        → Step r ((vote id voter level approve height r).0)
    finalizes : (height : ℕ) → Step r ((finalize height r).0)
    activates : (id : Hash) (height : ℕ) → Step r ((activate id height r).0)

  pub data Reach : ProposalRegistry → Type 0 where
    start : Reach (record { proposals = []; index = [] })
    then_step : {r s : ProposalRegistry} → Reach r → Step r s → Reach s

  submit-IsRegistry :
      (proposer : Hash) (level : PrecedenceLevel) (kind : ProposalKind) (height period : ℕ)
      (r : ProposalRegistry)
      → IsRegistry r
      → IsRegistry ((submit proposal_id proposer level kind height period r).0)
  unfolding submit
  submit-IsRegistry proposer level kind height period r h =
      elim (Bool-cases (leb max_proposals (length r.proposals))) [
        | inl full ↦ rw full h
        | inr full ↦ elim (Bool-cases (ltb (rank (required_for kind)) (rank level))) [
          | inl low ↦ rw full (rw low h)
          | inr low ↦ rw full (
              rw low (
                All-append IsProposal r.proposals
                  (fresh (proposal_id proposer kind height) proposer kind height period ∷ []) h
                  ((tt, omega arith, tt), tt)))
        ]
      ]

  Step-IsRegistry : {r s : ProposalRegistry} → Step r s → IsRegistry r → IsRegistry s
  unfolding vote finalize activate
  Step-IsRegistry {r} (submits a l k h p) i = submit-IsRegistry a l k h p r i
  Step-IsRegistry {r} (votes id v l b h) i =
      on-IsRegistry id (cast v l b h) (λ p q u. cast-IsProposal v l b h p q) r i
  Step-IsRegistry {r} (finalizes h) i = close_all-IsRegistry h r.proposals i
  Step-IsRegistry {r} (activates id h) i =
      on-IsRegistry id (enact h) (λ p q n. enact-IsProposal h p q n) r i

  -- After any sequence of calls on an empty registry, each proposal has at most one vote for each
  -- agent of its set of voters; one that has passed has more votes for than against and a timelock
  -- of at least its class's delay after its deadline, in sums that saturate at `u64::MAX`; a rejected
  -- one has no majority; and no proposal has one of the reserved statuses.
  pub Reach-IsRegistry : (r : ProposalRegistry) → Reach r → IsRegistry r
  Reach-IsRegistry r start = tt
  Reach-IsRegistry r (then_step w s) = Step-IsRegistry s (Reach-IsRegistry _ w)

-- An activation that is accepted finds the proposal timelocked and its timelock expired, makes it
-- activated and changes no other proposal.
pub activate_ok :
    (id : Hash) (h : ℕ) (r : ProposalRegistry) (n : Option Norm)
    → (activate id h r).1 ≡ ok n
    → (i : ℕ) × (p : GovernanceProposal) × (lookup id r.index ≡ some i)
      × (get_elem? r.proposals i ≡ some p)
      × (p.status ≡ timelocked)
      × (p.timelock_until ≤ h)
      × ((activate id h r).0.proposals ≡ set r.proposals i (record p { status = activated }))
unfolding activate
activate_ok id h r n e =
    let (i, p, q, l, g, d, w) = on_ok id (enact h) r n e in
    let (t, k, c) = enact_ok h p q n d in (i, p, l, g, t, k, rw (c, w) refl)
