-- ===== src/Consensus/Partition.antt =====
-- Network partitions: crates/sccgub-consensus/src/partition.rs. The `BTreeMap` of heights is an
-- association list in the order of its keys. The hash of a group's last block is never set.
pub mod Heights
pub mod Groups
use scc_blockchain.Prelude.{
  ℕ, ◌+◌, ◌-◌, ◌/◌, ◌%◌, Bool, true, false, List, [], ◌∷◌, ◌==◌, leb, if◌then◌else◌, length, min,
  max,
}
use scc_blockchain.Prelude.Words.{u64_max}
use scc_blockchain.Prelude.Map.{Map}
use scc_blockchain.Consensus.Quorum.{Hash}
use scc_blockchain.Consensus.LawSync.{put}

pub record PartitionConfig : Type 0 where
  pub divergence_threshold : ℕ
  pub max_rollback_depth : ℕ

unfoldable pub default_config : PartitionConfig
default_config = record { divergence_threshold = 10; max_rollback_depth = 100 }

-- `PartitionDetector`, a struct of this one field.
abbrev pub PartitionDetector : Type 0
PartitionDetector = Map Hash ℕ

pub record ValidatorGroup : Type 0 where
  pub validators : List Hash
  pub max_height : ℕ

-- `groups` always has two elements.
pub data PartitionStatus : Type 0 where
  healthy : (min_height max_height : ℕ) → PartitionStatus
  partitioned : (low high : ValidatorGroup) (canonical_group_index : ℕ) → PartitionStatus

unfoldable pub report_height : Hash → ℕ → PartitionDetector → PartitionDetector
report_height validator height d = put validator height d

-- `values().min()` and `values().max()` of a map that is not empty, from its first value.
abbrev pub least : ℕ → PartitionDetector → ℕ
least h [] = h
least h ((v, g) ∷ d) = least (min h g) d

abbrev pub greatest : ℕ → PartitionDetector → ℕ
greatest h [] = h
greatest h ((v, g) ∷ d) = greatest (max h g) d

abbrev pub with_member : Hash → ℕ → ValidatorGroup → ValidatorGroup
with_member v h g = record { validators = v ∷ g.validators; max_height = max h g.max_height }

abbrev pub no_members : ValidatorGroup
no_members = record { validators = []; max_height = 0 }

-- The loop that splits the validators, from its end; `push` keeps their order.
abbrev pub low_group : ℕ → PartitionDetector → ValidatorGroup
low_group midpoint [] = no_members
low_group midpoint ((v, h) ∷ d) =
    let rest = low_group midpoint d in if leb h midpoint then with_member v h rest else rest

abbrev pub high_group : ℕ → PartitionDetector → ValidatorGroup
high_group midpoint [] = no_members
high_group midpoint ((v, h) ∷ d) =
    let rest = high_group midpoint d in if leb h midpoint then rest else with_member v h rest

-- `(min + max) / 2` of u64s, which wraps in a release build.
abbrev pub midpoint_of : ℕ → ℕ → ℕ
midpoint_of low high = ((low + high) % (u64_max + 1)) / 2

abbrev pub canonical_index : ValidatorGroup → ValidatorGroup → ℕ
canonical_index low high = if leb (length high.validators) (length low.validators) then 0 else 1

abbrev pub split_at : ℕ → PartitionDetector → PartitionStatus
split_at midpoint d =
    let low = low_group midpoint d in
    let high = high_group midpoint d in partitioned low high (canonical_index low high)

unfoldable pub detect : PartitionConfig → PartitionDetector → PartitionStatus
detect config [] = healthy 0 0
detect config ((v, h) ∷ d) =
    let low = least h d in
    let high = greatest h d in
    if leb (high - low) config.divergence_threshold
    then healthy low high
    else split_at (midpoint_of low high) ((v, h) ∷ d)

pub data RecoveryAction : Type 0 where
  no_action : RecoveryAction
  rollback : (minority_validators : List Hash) (rollback_to_height : ℕ) → RecoveryAction
  manual_intervention :
      (gap : ℕ) (minority_validators canonical_validators : List Hash) → RecoveryAction

abbrev pub plan :
    PartitionConfig
    → (canonical minority : ValidatorGroup) (current_finalized_height : ℕ) → RecoveryAction
plan config canonical minority finalized =
    let gap =
      max canonical.max_height minority.max_height - min canonical.max_height minority.max_height in
    if leb gap config.max_rollback_depth
    then rollback minority.validators finalized
    else manual_intervention gap minority.validators canonical.validators

unfoldable pub plan_recovery :
    PartitionStatus → PartitionConfig → (current_finalized_height : ℕ) → RecoveryAction
plan_recovery (healthy low high) config finalized = no_action
plan_recovery (partitioned low high index) config finalized =
    if index == 0 then plan config low high finalized else plan config high low finalized
