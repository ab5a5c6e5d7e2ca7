-- ===== src/Governance/Proposals/Lifecycle.antt =====
-- The life of a proposal: what each operation of crates/sccgub-governance/src/proposals.rs keeps of
-- its votes, its status and its timelock.
use mathlib.Core.Bool.{true≢false}
use scc_blockchain.Prelude.{
  ◌∙◌, ◌≢◌, ℕ, ◌+◌, ◌≤◌, ◌<◌, Bool, true, false, Option, ◌∷◌, length, ◌≡◌, sym, subst, arith,
}
use scc_blockchain.Prelude.Words.{sat_add64}
use scc_blockchain.Prelude.Result.{ok}
use scc_blockchain.Consensus.Quorum.{Hash, mem, IsDistinct}
use scc_blockchain.Types.Governance.{PrecedenceLevel, rank}
use scc_blockchain.Governance.Proposals.{
  Norm, GovernanceProposal, ProposalStatus, voting, rejected, timelocked, activated, cast, close,
  enact, tally, timelock_duration, is_voting, is_timelocked,
}

-- What a status says of the votes and the timelock: a proposal that has passed has more votes for
-- than against, and its timelock is at least its class's delay after the deadline.
abbrev pub IsStatus : GovernanceProposal → ProposalStatus → Type 0
IsStatus p voting = Unit
IsStatus p rejected = p.votes_for ≤ p.votes_against
IsStatus p timelocked =
    (p.votes_against < p.votes_for)
    × (sat_add64 p.voting_deadline (timelock_duration p.kind) ≤ p.timelock_until)
IsStatus p activated =
    (p.votes_against < p.votes_for)
    × (sat_add64 p.voting_deadline (timelock_duration p.kind) ≤ p.timelock_until)
IsStatus p s = ⊥

-- The votes are at most one for each agent of the set of voters.
abbrev pub IsProposal : GovernanceProposal → Type 0
IsProposal p =
    IsDistinct p.voters × (p.votes_for + p.votes_against ≤ length p.voters) × IsStatus p p.status

is_voting-eq : (s : ProposalStatus) → is_voting s ≡ true → s ≡ voting
is_voting-eq s h = ground arith

is_timelocked-eq : (s : ProposalStatus) → is_timelocked s ≡ true → s ≡ timelocked
is_timelocked-eq s h = ground arith

-- A vote that is accepted: the proposal is open, the voter has the level and has not voted, and
-- the vote is counted once.
pub cast_ok :
    (v : Hash) (l : PrecedenceLevel) (b : Bool) (h : ℕ) (p q : GovernanceProposal)
    → cast v l b h p ≡ ok (q, tt)
    → (is_voting p.status ≡ true)
      × (h ≤ p.voting_deadline)
      × (rank l ≤ rank p.required_level)
      × (mem v p.voters ≡ false)
      × (tally b (record p { voters = v ∷ p.voters }) ≡ q)
unfolding cast
cast_ok v l b h p q e = ground arith

pub enact_ok :
    (h : ℕ) (p q : GovernanceProposal) (n : Option Norm)
    → enact h p ≡ ok (q, n)
    → (p.status ≡ timelocked) × (p.timelock_until ≤ h) × (record p { status = activated } ≡ q)
unfolding enact
enact_ok h p q n e = ground arith

pub close-IsProposal : (h : ℕ) (p : GovernanceProposal) → IsProposal p → IsProposal (close h p)
unfolding close
close-IsProposal h p i = ground arith

tally-IsProposal :
    (v : Hash) (b : Bool) (p : GovernanceProposal)
    → IsProposal p
    → p.status ≡ voting
    → mem v p.voters ≡ false
    → IsProposal (tally b (record p { voters = v ∷ p.voters }))
tally-IsProposal v true p (d, c, s) e m = (
  (m, d),
  ground arith,
  subst (IsStatus (tally true (record p { voters = v ∷ p.voters }))) (sym e) tt,
)
tally-IsProposal v false p (d, c, s) e m = (
  (m, d),
  ground arith,
  subst (IsStatus (tally false (record p { voters = v ∷ p.voters }))) (sym e) tt,
)

pub cast-IsProposal :
    (v : Hash) (l : PrecedenceLevel) (b : Bool) (h : ℕ) (p q : GovernanceProposal)
    → IsProposal p
    → cast v l b h p ≡ ok (q, tt)
    → IsProposal q
cast-IsProposal v l b h p q i e =
    let facts = cast_ok v l b h p q e in
    subst IsProposal facts.4 (tally-IsProposal v b p i (is_voting-eq p.status facts.0) facts.3)

pub enact-IsProposal :
    (h : ℕ) (p q : GovernanceProposal) (n : Option Norm)
    → IsProposal p
    → enact h p ≡ ok (q, n)
    → IsProposal q
enact-IsProposal h p q n (d, c, s) e =
    let facts = enact_ok h p q n e in subst IsProposal facts.2 (d, c, subst (IsStatus p) facts.0 s)

tally-voters :
    (v : Hash) (b : Bool) (p : GovernanceProposal)
    → mem v (tally b (record p { voters = v ∷ p.voters })).voters ≡ true
tally-voters v true p = ground arith
tally-voters v false p = ground arith

-- An agent votes at most once: on the proposal that an accepted vote leaves, no vote of the same
-- agent is accepted, with whatever level, choice and height.
pub cast_once :
    (v : Hash) (l l' : PrecedenceLevel) (b b' : Bool) (h h' : ℕ) (p q r : GovernanceProposal)
    → cast v l b h p ≡ ok (q, tt)
    → cast v l' b' h' q ≢ ok (r, tt)
cast_once v l l' b b' h h' p q r e = λ (e' : cast v l' b' h' q ≡ ok (r, tt)).
    let made = cast_ok v l b h p q e in
    let voted : mem v q.voters ≡ true =
      subst (λ x. mem v x.voters ≡ true) made.4 (tally-voters v b p) in
    let again : mem v q.voters ≡ false = (cast_ok v l' b' h' q r e').3 in
    true≢false (sym voted ∙ again)
