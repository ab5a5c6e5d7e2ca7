-- ===== src/Governance/Concentration.antt =====
-- Limits on the power of one agent: crates/sccgub-governance/src/anti_concentration.rs, without the
-- concentration score, which is in floating point. `+= 1`, `+` and `-` wrap, as in a release build.
pub mod Consecutive
use scc_blockchain.Prelude.{
  ℕ, ◌+◌, ◌-◌, ◌*◌, ◌/◌, ◌%◌, Bool, true, false, Option, none, some, List, [], ◌∷◌, ◌++◌, ◌==◌, leb,
  ltb, if◌then◌else◌, length, min,
}
use scc_blockchain.Prelude.Words.{u32_max, u64_max, sat_add32}
use scc_blockchain.Prelude.Map.{Map, lookup, insert, erase, nat_eq}
use scc_blockchain.Prelude.Result.{Result, ok, err}
use scc_blockchain.Consensus.Quorum.{mem}
use scc_blockchain.Types.Governance.{
  PrecedenceLevel, genesis, safety, meaning, emotion, optimization,
}

abbrev pub AgentId : Type 0
AgentId = ℕ

pub record GovernanceLimits : Type 0 where
  pub max_actions_per_agent_pct : ℕ
  pub safety_change_min_signers : ℕ
  pub genesis_change_min_signers : ℕ
  pub max_consecutive_proposals : ℕ
  pub max_authority_term_epochs : ℕ
  pub authority_cooldown_epochs : ℕ

-- `GovernanceLimits::default`
abbrev pub default_limits : GovernanceLimits
default_limits = record {
  max_actions_per_agent_pct = 33;
  safety_change_min_signers = 3;
  genesis_change_min_signers = 5;
  max_consecutive_proposals = 3;
  max_authority_term_epochs = 100;
  authority_cooldown_epochs = 10;
}

pub record GovernancePowerTracker : Type 0 where
  pub actions_this_epoch : Map AgentId ℕ
  pub total_actions_epoch : ℕ
  pub consecutive_proposals : Map AgentId ℕ
  pub last_proposer : Option AgentId
  pub authority_granted_at : Map AgentId ℕ
  pub cooldown_until : Map AgentId ℕ

-- `GovernancePowerTracker::default`
abbrev pub new_tracker : GovernancePowerTracker
new_tracker = record {
  actions_this_epoch = [];
  total_actions_epoch = 0;
  consecutive_proposals = [];
  last_proposer = none;
  authority_granted_at = [];
  cooldown_until = [];
}

pub data LimitError : Type 0 where
  too_many_actions : (pct : ℕ) → LimitError
  too_many_proposals : (consecutive : ℕ) → LimitError
  in_cooldown : (cooldown_end : ℕ) → LimitError
  term_exceeded : LimitError
  too_few_signers : (required got : ℕ) → LimitError

-- `get(..).copied().unwrap_or(0)`
abbrev pub or_none : Option ℕ → ℕ
or_none none = 0
or_none (some n) = n

unfoldable pub check_action :
    AgentId → GovernanceLimits → GovernancePowerTracker → Result LimitError (Unit {0})
check_action agent limits t =
    let pct = or_none (lookup agent t.actions_this_epoch) * 100 / t.total_actions_epoch in
    if t.total_actions_epoch == 0
    then ok tt
    else if leb limits.max_actions_per_agent_pct pct
    then err (too_many_actions pct)
    else ok tt

unfoldable pub record_action : AgentId → GovernancePowerTracker → GovernancePowerTracker
record_action agent t = record t {
  actions_this_epoch =
      insert agent (sat_add32 (or_none (lookup agent t.actions_this_epoch)) 1) t.actions_this_epoch;
  total_actions_epoch = sat_add32 t.total_actions_epoch 1;
}

-- Whether the last proposer is this validator.
abbrev pub is_last : AgentId → Option AgentId → Bool
is_last v none = false
is_last v (some last) = last == v

unfoldable pub check_proposal :
    AgentId → GovernanceLimits → GovernancePowerTracker → Result LimitError (Unit {0})
check_proposal v limits t =
    let consecutive = or_none (lookup v t.consecutive_proposals) in
    if is_last v t.last_proposer
    then if leb limits.max_consecutive_proposals consecutive
      then err (too_many_proposals consecutive)
      else ok tt
    else ok tt

unfoldable pub record_proposal : AgentId → GovernancePowerTracker → GovernancePowerTracker
record_proposal v t =
    if is_last v t.last_proposer
    then record t {
      consecutive_proposals =
          insert v ((or_none (lookup v t.consecutive_proposals) + 1) % (u32_max + 1))
            t.consecutive_proposals;
    }
    else record t { consecutive_proposals = (v, 1) ∷ []; last_proposer = some v }

-- The check of the term, after that of the cooldown.
abbrev check_term : Option ℕ → (current_epoch : ℕ) → GovernanceLimits → Result LimitError (Unit {0})
check_term none current_epoch limits = ok tt
check_term (some granted_at) current_epoch limits =
    if ltb limits.max_authority_term_epochs
      ((current_epoch + (u64_max + 1) - granted_at) % (u64_max + 1))
    then err term_exceeded
    else ok tt

abbrev check_cooldown :
    Option ℕ → (current_epoch : ℕ) → Result LimitError (Unit {0}) → Result LimitError (Unit {0})
check_cooldown none current_epoch rest = rest
check_cooldown (some cooldown_end) current_epoch rest =
    if ltb current_epoch cooldown_end then err (in_cooldown cooldown_end) else rest

unfoldable pub check_authority_term :
    AgentId → ℕ → GovernanceLimits → GovernancePowerTracker → Result LimitError (Unit {0})
check_authority_term agent current_epoch limits t =
    check_cooldown (lookup agent t.cooldown_until) current_epoch
      (check_term (lookup agent t.authority_granted_at) current_epoch limits)

unfoldable pub grant_authority : AgentId → ℕ → GovernancePowerTracker → GovernancePowerTracker
grant_authority agent epoch t = record t {
  authority_granted_at = insert agent epoch t.authority_granted_at;
}

unfoldable pub revoke_authority :
    AgentId → ℕ → GovernanceLimits → GovernancePowerTracker → GovernancePowerTracker
revoke_authority agent current_epoch limits t = record t {
  authority_granted_at = erase agent t.authority_granted_at;
  cooldown_until =
      insert agent ((current_epoch + limits.authority_cooldown_epochs) % (u64_max + 1))
        t.cooldown_until;
}

-- The set of signers.
abbrev pub unique : List AgentId → List AgentId
unique [] = []
unique (s ∷ ss) = let rest = unique ss in if mem s rest then rest else s ∷ rest

abbrev pub required_signers : PrecedenceLevel → GovernanceLimits → ℕ
required_signers genesis limits = limits.genesis_change_min_signers
required_signers safety limits = limits.safety_change_min_signers
required_signers meaning limits = 1
required_signers emotion limits = 1
required_signers optimization limits = 1

unfoldable pub check_multi_sig :
    List AgentId → PrecedenceLevel → GovernanceLimits → Result LimitError (Unit {0})
check_multi_sig signers level limits =
    if ltb (min (length (unique signers)) u32_max) (required_signers level limits)
    then err (too_few_signers (required_signers level limits) (length (unique signers)))
    else ok tt

unfoldable pub reset_epoch : GovernancePowerTracker → GovernancePowerTracker
reset_epoch t = record t { actions_this_epoch = []; total_actions_epoch = 0 }
