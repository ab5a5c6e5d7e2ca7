-- ===== src/State/World/Nonces.antt =====
-- The nonces of a block: `validate_nonces` of crates/sccgub-state/src/world.rs.
use scc_blockchain.Prelude.{
  inr, Bool-cases, inl, ℕ, ◌+◌, ◌≡◌, refl, sym, ◌∙◌, ap, List, [], ◌∷◌, ◌==◌, ==_iff, if◌then◌else◌,
  length, arith,
}
use scc_blockchain.Prelude.Map.{Map, lookup-insert_self, lookup-insert_ne, nat_eq}
use scc_blockchain.Prelude.Result.{ok, err, Result-cases}
use scc_blockchain.Types.Transition.{SymbolicTransition}
use scc_blockchain.State.World.{
  ManagedWorldState, NonceError, check_nonce, or_zero, check_all, validate_nonces, set_nonce,
  last_nonce,
}

-- The nonces that the block gives one agent, in the block's order.
abbrev pub nonces_of : ℕ → List SymbolicTransition → List ℕ
nonces_of a [] = []
nonces_of a (tx ∷ txs) =
    let rest = nonces_of a txs in if tx.agent_id == a then tx.nonce ∷ rest else rest

-- The numbers that follow `last`.
abbrev pub IsNext : ℕ → List ℕ → Type 0
IsNext last [] = Unit
IsNext last (n ∷ ns) = (n ≡ last + 1) × IsNext n ns

check_nonce_ok :
    (a n : ℕ) (w : ManagedWorldState) (u : Unit {0})
    → (check_nonce a n w).1 ≡ ok u
    → (n ≡ last_nonce a w.agent_nonces + 1) × ((check_nonce a n w).0 ≡ set_nonce a n w)
unfolding check_nonce
check_nonce_ok a n w u h = ground arith

check_nonce_err :
    (a n : ℕ) (w : ManagedWorldState) (e : NonceError)
    → (check_nonce a n w).1 ≡ err e
    → (check_nonce a n w).0 ≡ w
unfolding check_nonce
check_nonce_err a n w e h = ground arith

abbrev restored : Map ℕ ℕ → ManagedWorldState → ManagedWorldState
restored m w = record w { agent_nonces = m }

check_all_err :
    (m : Map ℕ ℕ) (txs : List SymbolicTransition) (w : ManagedWorldState) (e : NonceError)
    → (check_all m txs w).1 ≡ err e
    → (check_all m txs w).0 ≡ restored m w
check_all_err m [] w e h = cc
check_all_err m (tx ∷ txs) w e h = elim (Result-cases ((check_nonce tx.agent_id tx.nonce w).1)) [
  | inl (f, p) ↦ rw (check_all, p) (ap (restored m) (check_nonce_err tx.agent_id tx.nonce w f p))
  | inr (u, p) ↦
      let step = (check_nonce_ok tx.agent_id tx.nonce w u p).1 in
      rw (check_all, p, step)
        (check_all_err m txs (set_nonce tx.agent_id tx.nonce w) e (rw (check_all, p, step) at h))
]

-- `validate_nonces` that fails leaves the state as it was.
pub validate_nonces_atomic :
    (txs : List SymbolicTransition) (w : ManagedWorldState) (e : NonceError)
    → (validate_nonces txs w).1 ≡ err e
    → (validate_nonces txs w).0 ≡ w
unfolding validate_nonces
validate_nonces_atomic txs w e h = check_all_err w.agent_nonces txs w e h

last_nonce-set_nonce :
    (a b n : ℕ) (w : ManagedWorldState)
    → last_nonce a (set_nonce b n w).agent_nonces
      ≡ (if b == a then n else last_nonce a w.agent_nonces)
last_nonce-set_nonce a b n w = elim (Bool-cases (b == a)) [
  | inl e ↦ rw (e, (==_iff b a).0 e) (ap or_zero (lookup-insert_self a n w.agent_nonces))
  | inr e ↦ rw e (ap or_zero (lookup-insert_ne a b n w.agent_nonces (λ q. ground (arith, q))))
]

check_all_ok :
    (m : Map ℕ ℕ) (txs : List SymbolicTransition) (w : ManagedWorldState) (u : Unit {0}) (a : ℕ)
    → (check_all m txs w).1 ≡ ok u
    → IsNext (last_nonce a w.agent_nonces) (nonces_of a txs)
      × (last_nonce a (check_all m txs w).0.agent_nonces
          ≡ last_nonce a w.agent_nonces + length (nonces_of a txs))
check_all_ok m [] w u a h = (tt, omega arith)
check_all_ok m (tx ∷ txs) w u a h = elim (Result-cases ((check_nonce tx.agent_id tx.nonce w).1)) [
  | inl (f, p) ↦ absurd (cc (rw (check_all, p) at h))
  | inr (v, p) ↦
      let first = check_nonce_ok tx.agent_id tx.nonce w v p in
      let w' : ManagedWorldState = set_nonce tx.agent_id tx.nonce w in
      let ih = check_all_ok m txs w' u a (rw (check_all, p, first.1) at h) in
      rw (check_all, p, first.1)
        (elim (Bool-cases (tx.agent_id == a)) [
          | inl e ↦
              let now : last_nonce a w'.agent_nonces ≡ tx.nonce =
                last_nonce-set_nonce a tx.agent_id tx.nonce w ∙ rw e refl in
              let expected : tx.nonce ≡ last_nonce a w.agent_nonces + 1 =
                rw (sym ((==_iff tx.agent_id a).0 e)) (first.0) in
              rw e ((expected, rw now at (ih.0)), omega (arith, ih.1, now, expected))
          | inr e ↦
              let same_last : last_nonce a w'.agent_nonces ≡ last_nonce a w.agent_nonces =
                last_nonce-set_nonce a tx.agent_id tx.nonce w ∙ rw e refl in
              rw e (rw same_last at ih)
        ])
]

-- In a block whose nonces `validate_nonces` accepts, the nonces of every agent follow its last one
-- without a gap or a repetition, and its last nonce is afterwards that of its last transition: as
-- many more as it has transitions in the block.
pub validate_nonces_ok :
    (txs : List SymbolicTransition) (w : ManagedWorldState) (u : Unit {0}) (a : ℕ)
    → (validate_nonces txs w).1 ≡ ok u
    → IsNext (last_nonce a w.agent_nonces) (nonces_of a txs)
      × (last_nonce a (validate_nonces txs w).0.agent_nonces
          ≡ last_nonce a w.agent_nonces + length (nonces_of a txs))
unfolding validate_nonces
validate_nonces_ok txs w u a h = check_all_ok w.agent_nonces txs w u a h
