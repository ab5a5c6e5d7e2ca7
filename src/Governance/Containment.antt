-- ===== src/Governance/Containment.antt =====
-- Containment of hostile nodes: crates/sccgub-governance/src/containment.rs. A node id is the number
-- that its 32 bytes spell; division of an i128 goes toward zero.
pub mod Release
pub mod Levels
use scc_blockchain.Prelude.{
  ℕ, zero, suc, ◌+◌, ◌-◌, ◌*◌, ◌/◌, ◌%◌, Bool, true, false, ◌&&◌, not, Option, none, some, List, [],
  ◌∷◌, ◌==◌, leb, if◌then◌else◌, length,
}
use scc_blockchain.Prelude.Int.{ℤ, pos, negsuc, pos_part, sub_ℕ, ◌+ℤ◌, leb_ℤ, ltb_ℤ}
use scc_blockchain.Prelude.Words.{sat, sat_add64}
use scc_blockchain.Prelude.Map.{Map, lookup, insert, contains, nat_eq}
use scc_blockchain.Types.Tension.{
  rem_trunc, div_trunc, times, TensionValue, tension_zero, scale, from_integer, add, sub,
  unsigned_abs,
}

abbrev pub NodeId : Type 0
NodeId = ℕ

-- `unrestricted` is `None`.
pub data ContainmentLevel : Type 0 where
  unrestricted : ContainmentLevel
  reduced_throughput : (max_txs_per_block : ℕ) → ContainmentLevel
  increased_proof_requirements : ContainmentLevel
  quarantine : (blocks_remaining : ℕ) → ContainmentLevel

pub record NodeBehaviorProfile : Type 0 where
  pub node_id : NodeId
  pub positive_delta : TensionValue
  pub negative_delta : TensionValue
  pub containment : ContainmentLevel
  pub invalid_count : ℕ
  pub valid_count : ℕ

pub record ContainmentState : Type 0 where
  pub nodes : Map NodeId NodeBehaviorProfile
  pub hostility_threshold : TensionValue
  pub epsilon : TensionValue

-- `ContainmentState::default`
unfoldable pub default : ContainmentState
unfolding from_integer
default = record { nodes = []; hostility_threshold = from_integer (pos 2); epsilon = pos 1 }

-- `NodeBehaviorProfile::new`
unfoldable pub new : NodeId → NodeBehaviorProfile
new node_id = record {
  node_id = node_id;
  positive_delta = tension_zero;
  negative_delta = tension_zero;
  containment = unrestricted;
  invalid_count = 0;
  valid_count = 0;
}

unfoldable pub hostility_index : TensionValue → NodeBehaviorProfile → TensionValue
unfolding add sat
hostility_index epsilon p =
    let denominator = add p.positive_delta epsilon in
    let d = pos_part denominator in
    let whole = sat (times (div_trunc p.negative_delta d) scale) in
    let frac = div_trunc (sat (times (rem_trunc p.negative_delta d) scale)) d in
    if leb_ℤ denominator (pos 0) then tension_zero else add whole frac

abbrev pub max_tracked_nodes : ℕ
max_tracked_nodes = 10000

-- `entry(..).or_insert_with(..)`
abbrev pub profile_of : NodeId → Option NodeBehaviorProfile → NodeBehaviorProfile
profile_of k none = record {
  node_id = k;
  positive_delta = tension_zero;
  negative_delta = tension_zero;
  containment = unrestricted;
  invalid_count = 0;
  valid_count = 0;
}
profile_of k (some p) = p

abbrev pub credit : TensionValue → NodeBehaviorProfile → NodeBehaviorProfile
credit delta p = record {
  node_id = p.node_id;
  positive_delta = add p.positive_delta delta;
  negative_delta = p.negative_delta;
  containment = p.containment;
  invalid_count = p.invalid_count;
  valid_count = sat_add64 p.valid_count 1;
}

abbrev pub debit : TensionValue → NodeBehaviorProfile → NodeBehaviorProfile
debit delta p = record {
  node_id = p.node_id;
  positive_delta = p.positive_delta;
  negative_delta = add p.negative_delta delta;
  containment = p.containment;
  invalid_count = sat_add64 p.invalid_count 1;
  valid_count = p.valid_count;
}

abbrev with_nodes : Map NodeId NodeBehaviorProfile → ContainmentState → ContainmentState
with_nodes m s = record {
  nodes = m;
  hostility_threshold = s.hostility_threshold;
  epsilon = s.epsilon;
}

unfoldable pub record_valid : NodeId → TensionValue → ContainmentState → ContainmentState
record_valid k delta s =
    if not (contains k s.nodes) && leb max_tracked_nodes (length s.nodes)
    then s
    else with_nodes (insert k (credit delta (profile_of k (lookup k s.nodes))) s.nodes) s

unfoldable pub record_invalid : NodeId → TensionValue → ContainmentState → ContainmentState
record_invalid k delta s =
    if not (contains k s.nodes) && leb max_tracked_nodes (length s.nodes)
    then s
    else with_nodes (insert k (debit delta (profile_of k (lookup k s.nodes))) s.nodes) s

abbrev pub escalate : ContainmentLevel → ContainmentLevel
escalate unrestricted = reduced_throughput 1
escalate (reduced_throughput m) = increased_proof_requirements
escalate increased_proof_requirements = quarantine 100
escalate (quarantine b) = quarantine 100

abbrev pub de_escalate : ContainmentLevel → ContainmentLevel
de_escalate (quarantine b) = increased_proof_requirements
de_escalate increased_proof_requirements = reduced_throughput 5
de_escalate (reduced_throughput m) = unrestricted
de_escalate unrestricted = unrestricted

abbrev with_containment : ContainmentLevel → NodeBehaviorProfile → NodeBehaviorProfile
with_containment c p = record {
  node_id = p.node_id;
  positive_delta = p.positive_delta;
  negative_delta = p.negative_delta;
  containment = c;
  invalid_count = p.invalid_count;
  valid_count = p.valid_count;
}

-- The body of the loop of `evaluate`; `de_escalate` leaves an unrestricted node as it is, so the
-- test of the source for `None` needs no case of its own.
unfoldable pub evaluate_profile :
    (threshold epsilon : TensionValue) → NodeBehaviorProfile → NodeBehaviorProfile
evaluate_profile threshold epsilon p =
    let hostility = hostility_index epsilon p in
    if ltb_ℤ threshold hostility
    then with_containment (escalate p.containment) p
    else if leb_ℤ hostility (div_trunc threshold 2)
    then with_containment (de_escalate p.containment) p
    else p

abbrev pub map_values :
    (NodeBehaviorProfile → NodeBehaviorProfile)
    → Map NodeId NodeBehaviorProfile
    → Map NodeId NodeBehaviorProfile
map_values f [] = []
map_values f ((k, p) ∷ m) = (k, f p) ∷ map_values f m

unfoldable pub evaluate : ContainmentState → ContainmentState
evaluate s = with_nodes (map_values (evaluate_profile s.hostility_threshold s.epsilon) s.nodes) s

abbrev pub is_quarantine : ContainmentLevel → Bool
is_quarantine (quarantine b) = true
is_quarantine unrestricted = false
is_quarantine (reduced_throughput m) = false
is_quarantine increased_proof_requirements = false

abbrev allowed : Option NodeBehaviorProfile → Bool
allowed none = true
allowed (some p) = not (is_quarantine p.containment)

unfoldable pub is_allowed : NodeId → ContainmentState → Bool
is_allowed k s = allowed (lookup k s.nodes)

-- The quarantine counter: it goes down while it is over 0, and at 0 the quarantine ends.
abbrev pub tick_level : ContainmentLevel → ContainmentLevel
tick_level (quarantine b) =
    let left = b - 1 in if left == 0 then reduced_throughput 1 else quarantine left
tick_level unrestricted = unrestricted
tick_level (reduced_throughput m) = reduced_throughput m
tick_level increased_proof_requirements = increased_proof_requirements

unfoldable pub tick_profile : NodeBehaviorProfile → NodeBehaviorProfile
unfolding sub
tick_profile p = record {
  node_id = p.node_id;
  positive_delta = p.positive_delta;
  negative_delta = sub p.negative_delta (div_trunc p.negative_delta 100);
  containment = tick_level p.containment;
  invalid_count = p.invalid_count;
  valid_count = p.valid_count;
}

unfoldable pub tick_block : ContainmentState → ContainmentState
unfolding tick_profile
tick_block s = with_nodes (map_values tick_profile s.nodes) s
