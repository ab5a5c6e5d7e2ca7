-- ===== src/Governance/Proposals.antt =====
-- The proposal registry: crates/sccgub-governance/src/proposals.rs, without the submission of typed
-- parameters, whose validation is in patch_04.rs. The id of a proposal is the BLAKE3 hash of the
-- canonical bytes of its proposer, kind and height; hash and encoding are libraries, so
-- `proposal_id` is a parameter.
pub mod Lifecycle
pub mod Registry
use scc_blockchain.Prelude.{
  ◌&&◌, ℕ, suc, ◌+◌, ◌-◌, Bool, true, false, Option, none, some, List, [], ◌∷◌, ◌++◌, leb, ltb,
  if◌then◌else◌, length, get_elem?, set, count_if,
}
use scc_blockchain.Prelude.Int.{pos}
use scc_blockchain.Prelude.Words.{sat_add64, sat_add32}
use scc_blockchain.Prelude.Map.{Map, lookup, insert, nat_eq}
use scc_blockchain.Prelude.Result.{Result, ok, err, Outcome}
use scc_blockchain.Types.Tension.{TensionValue}
use scc_blockchain.Types.Governance.{
  PrecedenceLevel, meaning, safety, rank, Norm, ConsensusParamField, ConsensusParamValue,
}
use scc_blockchain.Consensus.Quorum.{Hash, mem}

pub data ProposalKind : Type 0 where
  add_norm :
      (name description : List ℕ) (initial_fitness enforcement_cost : TensionValue) → ProposalKind
  deactivate_norm : (norm_id : Hash) → ProposalKind
  modify_parameter : (key value : List ℕ) → ProposalKind
  activate_emergency deactivate_emergency : ProposalKind
  modify_consensus_param :
      ConsensusParamField → ConsensusParamValue → (activation_height : ℕ) → ProposalKind

pub data ProposalStatus : Type 0 where
  submitted voting accepted rejected timelocked activated expired : ProposalStatus

-- `voters` is a set: an agent stands in it once.
pub record GovernanceProposal : Type 0 where
  pub id : Hash
  pub proposer : Hash
  pub kind : ProposalKind
  pub status : ProposalStatus
  pub submitted_at : ℕ
  pub votes_for : ℕ
  pub votes_against : ℕ
  pub required_level : PrecedenceLevel
  pub voting_deadline : ℕ
  pub voters : List Hash
  pub timelock_until : ℕ

pub record ProposalRegistry : Type 0 where
  pub proposals : List GovernanceProposal
  pub index : Map Hash ℕ

-- `panicked` stands for an index out of bounds.
pub data ProposalError : Type 0 where
  registry_full not_found not_voting voting_ended already_voted not_timelocked panicked :
      ProposalError
  insufficient_authority : (have need : PrecedenceLevel) → ProposalError
  lacks_level : ProposalError
  timelock_active : (until current : ℕ) → ProposalError

abbrev pub max_proposals : ℕ
max_proposals = 10000

abbrev pub ordinary : ℕ
ordinary = 50

abbrev pub constitutional : ℕ
constitutional = 200

abbrev pub Call : Type 0 → Type 0
Call A = Outcome ProposalRegistry ProposalError A

unfoldable pub required_for : ProposalKind → PrecedenceLevel
required_for (add_norm n d f c) = meaning
required_for (deactivate_norm n) = meaning
required_for k = safety

unfoldable pub timelock_duration : ProposalKind → ℕ
timelock_duration (add_norm n d f c) = ordinary
timelock_duration (deactivate_norm n) = ordinary
timelock_duration k = constitutional

abbrev pub is_voting : ProposalStatus → Bool
is_voting voting = true
is_voting s = false

abbrev pub is_timelocked : ProposalStatus → Bool
is_timelocked timelocked = true
is_timelocked s = false

-- The proposal that `submit` makes.
abbrev pub fresh : Hash → Hash → ProposalKind → ℕ → ℕ → GovernanceProposal
fresh id proposer kind height period = record {
  id = id;
  proposer = proposer;
  kind = kind;
  status = voting;
  submitted_at = height;
  votes_for = 0;
  votes_against = 0;
  required_level = required_for kind;
  voting_deadline = sat_add64 height period;
  voters = [];
  timelock_until = 0;
}

module _ (proposal_id : Hash → ProposalKind → ℕ → Hash) where
  unfoldable pub submit :
      (proposer : Hash) (level : PrecedenceLevel) (kind : ProposalKind) (height period : ℕ)
      → ProposalRegistry
      → Call Hash
  unfolding required_for
  submit proposer level kind height period r =
      if leb max_proposals (length r.proposals)
      then (r, err registry_full)
      else if ltb (rank (required_for kind)) (rank level)
      then (r, err (insufficient_authority level (required_for kind)))
      else let id = proposal_id proposer kind height in
        (
          record {
            proposals = r.proposals ++ fresh id proposer kind height period ∷ [];
            index = insert id (length r.proposals) r.index;
          },
          ok id,
        )

-- `index.get(id)` and `proposals[idx]`, with what a call does on the proposal found there.
abbrev pub at :
    {A : Type 0}
    → (GovernanceProposal → Result ProposalError (GovernanceProposal × A))
    → ProposalRegistry
    → ℕ
    → Call A
at f r i = elim (get_elem? r.proposals i) [
  | none ↦ (r, err panicked)
  | some p ↦ elim (f p) [
    | err e ↦ (r, err e)
    | ok x ↦ (record r { proposals = set r.proposals i x.0 }, ok x.1)
  ]
]

abbrev pub on :
    {A : Type 0}
    → Hash
    → (GovernanceProposal → Result ProposalError (GovernanceProposal × A))
    → ProposalRegistry
    → Call A
on id f r = elim (lookup id r.index) [ none ↦ (r, err not_found) | some i ↦ at f r i ]

abbrev pub tally : Bool → GovernanceProposal → GovernanceProposal
tally true p = record p { votes_for = sat_add32 p.votes_for 1 }
tally false p = record p { votes_against = sat_add32 p.votes_against 1 }

-- A vote on the proposal itself.
unfoldable pub cast :
    (voter : Hash) (level : PrecedenceLevel) (approve : Bool) (height : ℕ)
    → GovernanceProposal
    → Result ProposalError (GovernanceProposal × Unit {0})
cast voter level approve height p =
    if is_voting p.status
    then if ltb p.voting_deadline height
      then err voting_ended
      else if ltb (rank p.required_level) (rank level)
      then err lacks_level
      else if mem voter p.voters
      then err already_voted
      else ok (tally approve (record p { voters = voter ∷ p.voters }), tt)
    else err not_voting

unfoldable pub vote :
    (id voter : Hash) (level : PrecedenceLevel) (approve : Bool) (height : ℕ)
    → ProposalRegistry
    → Call (Unit {0})
unfolding cast
vote id voter level approve height r = on id (cast voter level approve height) r

-- One turn of the loop of `finalize`.
unfoldable pub close : ℕ → GovernanceProposal → GovernanceProposal
unfolding timelock_duration
close height p =
    if is_voting p.status
    then if leb height p.voting_deadline
      then p
      else if ltb p.votes_against p.votes_for
      then record p {
        timelock_until = sat_add64 height (timelock_duration p.kind);
        status = timelocked;
      }
      else record p { status = rejected }
    else p

-- The proposals after the loop, and those that this call accepted.
unfoldable pub close_all :
    ℕ → List GovernanceProposal → List GovernanceProposal × List GovernanceProposal
unfolding close
close_all height [] = ([], [])
close_all height (p ∷ ps) =
    let rest = close_all height ps in
    let q = close height p in
    (q ∷ rest.0, if is_voting p.status && is_timelocked q.status then q ∷ rest.1 else rest.1)

unfoldable pub finalize : ℕ → ProposalRegistry → ProposalRegistry × List GovernanceProposal
unfolding close_all
finalize height r =
    let done = close_all height r.proposals in (record r { proposals = done.0 }, done.1)

-- The norm of an accepted proposal: the share is `SCALE / 10`.
unfoldable pub norm_of : GovernanceProposal → Option Norm
norm_of p = elim p.kind [
  | add_norm name description fitness cost ↦ some (record {
    id = p.id;
    name = name;
    description = description;
    precedence = p.required_level;
    population_share = pos 100000000000000000;
    fitness = fitness;
    enforcement_cost = cost;
    active = true;
    created_at_height = p.submitted_at;
  })
  | _ ↦ none
]

-- The activation of the proposal itself.
unfoldable pub enact :
    ℕ → GovernanceProposal → Result ProposalError (GovernanceProposal × Option Norm)
unfolding norm_of
enact height p =
    if is_timelocked p.status
    then if ltb height p.timelock_until
      then err (timelock_active p.timelock_until height)
      else ok (record p { status = activated }, norm_of p)
    else err not_timelocked

unfoldable pub activate : Hash → ℕ → ProposalRegistry → Call (Option Norm)
unfolding enact
activate id height r = on id (enact height) r

unfoldable pub active_count : ProposalRegistry → ℕ
active_count r = count_if (λ p. is_voting p.status) r.proposals
