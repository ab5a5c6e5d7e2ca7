-- ===== src/Governance/Containment/Levels.antt =====
-- How one evaluation moves a node between levels: crates/sccgub-governance/src/containment.rs.
use scc_blockchain.Prelude.{
  ℕ, suc, ◌+◌, ◌-◌, ◌≤◌, ◌≡◌, refl, false, not, some, [], ◌∷◌, leb, min, Bool-cases, inl, inr, ◌&&◌,
  if◌then◌else◌, arith, length,
}
use scc_blockchain.Prelude.Int.{leb_ℤ, ltb_ℤ}
use scc_blockchain.Prelude.Map.{Map, lookup, insert, contains, nat_eq}
use scc_blockchain.Types.Tension.{div_trunc, TensionValue}
use scc_blockchain.Governance.Containment.{
  NodeId, ContainmentLevel, unrestricted, reduced_throughput, increased_proof_requirements,
  quarantine, NodeBehaviorProfile, ContainmentState, map_values, evaluate, evaluate_profile,
  hostility_index, escalate, de_escalate, record_valid, record_invalid, tick_block, tick_profile,
  max_tracked_nodes, default, credit, debit, profile_of,
}
use scc_blockchain.Governance.Containment.Release.{lookup-map_values}

-- The levels in their order, from no restriction to quarantine.
abbrev pub rank : ContainmentLevel → ℕ
rank unrestricted = 0
rank (reduced_throughput m) = 1
rank increased_proof_requirements = 2
rank (quarantine b) = 3

rank-escalate : (c : ContainmentLevel) → rank (escalate c) ≡ min 3 (rank c + 1)
rank-escalate unrestricted = refl
rank-escalate (reduced_throughput m) = refl
rank-escalate increased_proof_requirements = refl
rank-escalate (quarantine b) = refl

rank-de_escalate : (c : ContainmentLevel) → rank (de_escalate c) ≡ rank c - 1
rank-de_escalate unrestricted = refl
rank-de_escalate (reduced_throughput m) = refl
rank-de_escalate increased_proof_requirements = refl
rank-de_escalate (quarantine b) = refl

-- `evaluate` moves each tracked node by at most one level: one up (quarantine being the last) if its
-- hostility index is over the threshold, one down (no restriction being the first) if it is at most
-- half of the threshold, and not at all between the two.
pub evaluate-rank :
    (node : NodeId) (s : ContainmentState) (p : NodeBehaviorProfile)
    → lookup node s.nodes ≡ some p
    → (q : NodeBehaviorProfile) × (lookup node (evaluate s).nodes ≡ some q)
      × (rank q.containment ≡ (
          if ltb_ℤ s.hostility_threshold (hostility_index s.epsilon p)
          then min 3 (rank p.containment + 1)
          else if leb_ℤ (hostility_index s.epsilon p) (div_trunc s.hostility_threshold 2)
          then rank p.containment - 1
          else rank p.containment))
unfolding evaluate evaluate_profile
evaluate-rank node s p h = (
  evaluate_profile s.hostility_threshold s.epsilon p,
  lookup-map_values (evaluate_profile s.hostility_threshold s.epsilon) node s.nodes p h,
  ground (arith, rank-escalate p.containment, rank-de_escalate p.containment),
)

-- What the operations make of the default state.
pub data Reach : ContainmentState → Type 0 where
  start : Reach default
  valid :
      {s : ContainmentState}
      → Reach s
      → (k : NodeId) (delta : TensionValue) → Reach (record_valid k delta s)
  invalid :
      {s : ContainmentState}
      → Reach s
      → (k : NodeId) (delta : TensionValue) → Reach (record_invalid k delta s)
  evaluated : {s : ContainmentState} → Reach s → Reach (evaluate s)
  ticked : {s : ContainmentState} → Reach s → Reach (tick_block s)

length-map_values :
    (f : NodeBehaviorProfile → NodeBehaviorProfile) (m : Map NodeId NodeBehaviorProfile)
    → length (map_values f m) ≡ length m
length-map_values f [] = refl
length-map_values f ((k, p) ∷ m) = omega (arith, length-map_values f m)

length-insert :
    (k : NodeId) (p : NodeBehaviorProfile) (m : Map NodeId NodeBehaviorProfile)
    → length (insert k p m) ≡ (if contains k m then length m else suc (length m))
length-insert k p [] = refl
length-insert k p ((j, q) ∷ m) = ground (arith, length-insert k p m)

-- A new node is tracked only while there is room.
insert-bounded :
    (k : NodeId) (p : NodeBehaviorProfile) (m : Map NodeId NodeBehaviorProfile)
    → length m ≤ max_tracked_nodes
    → (not (contains k m) && leb max_tracked_nodes (length m)) ≡ false
    → length (insert k p m) ≤ max_tracked_nodes
insert-bounded k p m b h = ground (arith, length-insert k p m)

-- Whatever is recorded, at most 10000 nodes are tracked.
pub Reach-bounded : (s : ContainmentState) → Reach s → length s.nodes ≤ max_tracked_nodes
unfolding default record_valid record_invalid evaluate tick_block
Reach-bounded _ start = omega arith
Reach-bounded _ (valid {s} r k delta) =
    elim (Bool-cases (not (contains k s.nodes) && leb max_tracked_nodes (length s.nodes))) [
      | inl e ↦ rw e (Reach-bounded s r)
      | inr e ↦ rw e (
          insert-bounded k (credit delta (profile_of k (lookup k s.nodes))) s.nodes
            (Reach-bounded s r) e)
    ]
Reach-bounded _ (invalid {s} r k delta) =
    elim (Bool-cases (not (contains k s.nodes) && leb max_tracked_nodes (length s.nodes))) [
      | inl e ↦ rw e (Reach-bounded s r)
      | inr e ↦ rw e (
          insert-bounded k (debit delta (profile_of k (lookup k s.nodes))) s.nodes
            (Reach-bounded s r) e)
    ]
Reach-bounded _ (evaluated {s} r) = omega (
  arith,
  Reach-bounded s r,
  length-map_values (evaluate_profile s.hostility_threshold s.epsilon) s.nodes,
)
Reach-bounded _ (ticked {s} r) =
    omega (arith, Reach-bounded s r, length-map_values tick_profile s.nodes)
