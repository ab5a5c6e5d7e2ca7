-- ===== src/Governance/Containment/Release.antt =====
-- A quarantine ends: crates/sccgub-governance/src/containment.rs.
use scc_blockchain.Prelude.{
  inr, inl, Bool-cases, ℕ, zero, suc, ◌-◌, ◌≡◌, refl, true, false, some, [], ◌∷◌, ◌==◌, leb, max,
  arith, sym, Bool-cases, inl, inr,
}
use scc_blockchain.Prelude.Map.{Map, lookup, nat_eq}
use scc_blockchain.Governance.Containment.{
  NodeId, ContainmentLevel, unrestricted, reduced_throughput, increased_proof_requirements,
  quarantine, NodeBehaviorProfile, ContainmentState, map_values, tick_profile, tick_block,
  tick_level, is_quarantine, is_allowed,
}

-- So many calls of `tick_block`.
abbrev pub ticks : ℕ → ContainmentState → ContainmentState
ticks zero s = s
ticks (suc n) s = ticks n (tick_block s)

pub lookup-map_values :
    (f : NodeBehaviorProfile → NodeBehaviorProfile) (k : NodeId)
    (m : Map NodeId NodeBehaviorProfile) (p : NodeBehaviorProfile)
    → lookup k m ≡ some p
    → lookup k (map_values f m) ≡ some (f p)
lookup-map_values f k [] p h = cc
lookup-map_values f k ((j, q) ∷ m) p h = ground (arith, lookup-map_values f k m p)

released :
    (node : NodeId) (s : ContainmentState) (p : NodeBehaviorProfile) (k : ℕ)
    → lookup node s.nodes ≡ some p
    → is_quarantine p.containment ≡ false
    → is_allowed node (ticks k s) ≡ true
unfolding is_allowed tick_block tick_profile
released node s p zero h q = rw (h, q) refl
released node s p (suc k) h q =
    released node (tick_block s) (tick_profile p) k
      (lookup-map_values tick_profile node s.nodes p h) (kept p.containment q)
  where
    kept : (c : ContainmentLevel) → is_quarantine c ≡ false → is_quarantine (tick_level c) ≡ false
    kept unrestricted e = refl
    kept (reduced_throughput m) e = refl
    kept increased_proof_requirements e = refl
    kept (quarantine b) e = cc

-- A node in quarantine with `b` blocks remaining is refused in each state before its `max 1 b`-th
-- `tick_block`, and it is allowed in each state from then on, so long as no `evaluate` and no record
-- of a transition comes between.
pub is_allowed-ticks :
    (node : NodeId) (s : ContainmentState) (p : NodeBehaviorProfile) (b k : ℕ)
    → lookup node s.nodes ≡ some p
    → p.containment ≡ quarantine b
    → is_allowed node (ticks k s) ≡ leb (max 1 b) k
unfolding is_allowed tick_block tick_profile
is_allowed-ticks node s p b zero h q = rw (h, q) (ground arith)
is_allowed-ticks node s p b (suc k) h q =
    let next = lookup-map_values tick_profile node s.nodes p h in
    elim (Bool-cases ((b - 1) == 0)) [
      | inl e ↦
          let out : is_quarantine (tick_level p.containment) ≡ false = rw (q, e) refl in
          let free = released node (tick_block s) (tick_profile p) k next out in
          let late : leb (max 1 b) (suc k) ≡ true = ground arith in rw late free
      | inr e ↦
          let stay : tick_level p.containment ≡ quarantine (b - 1) = rw (q, e) refl in
          let ih = is_allowed-ticks node (tick_block s) (tick_profile p) (b - 1) k next stay in
          let shift : leb (max 1 (b - 1)) k ≡ leb (max 1 b) (suc k) = ground arith in
          rw (sym shift) ih
    ]
