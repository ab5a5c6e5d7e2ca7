-- ===== src/Node/Mempool/Drain.antt =====
-- What `drain_validated` gives to a block: crates/sccgub-node/src/mempool.rs.
use scc_blockchain.Prelude.{
  ◌∙◌, ◌≢◌, ℕ, suc, ◌+◌, ◌≤◌, ◌<◌, ◌≡◌, refl, not, ◌||◌, List, [], ◌∷◌, ◌++◌, ◌==◌, ==_iff,
  if◌then◌else◌, length, length-append, arith, Bool-cases, inl, inr, All,
}
use scc_blockchain.Prelude.Words.{u128_max}
use scc_blockchain.Prelude.Map.{lookup, nat_eq, lookup-insert_self, lookup-insert_ne}
use scc_blockchain.Prelude.Result.{ok, Result-cases}
use scc_blockchain.Consensus.Quorum.{Hash}
use scc_blockchain.Types.Transition.{SymbolicTransition}
use scc_blockchain.Execution.Admission.{WorldState, admit_check_structural, nonce_or}
use scc_blockchain.Execution.Admission.Limits.{IsAdmissible, admit_check_structural-IsAdmissible}
use scc_blockchain.Node.Mempool.Order.{
  nonces_of, following, following-snoc, following-IsAscending, sort_txs-nonces_of, All-sort_txs,
}
use scc_blockchain.Node.Mempool.{
  Mempool, Draining, expected_nonce, drain_tx, drain_all, drain_checked, sort_txs, drain_validated,
}

nonces_of-append_one :
    (a : Hash) (t : SymbolicTransition) (ts : List SymbolicTransition)
    → nonces_of a (ts ++ t ∷ [])
      ≡ (if t.agent_id == a then nonces_of a ts ++ t.nonce ∷ [] else nonces_of a ts)
nonces_of-append_one a t [] = refl
nonces_of-append_one a t (u ∷ ts) = ground (arith, nonces_of-append_one a t ts)

-- The nonce that the world state has for the agent.
abbrev pub committed : WorldState → Hash → ℕ
committed state a = nonce_or 0 (lookup a state.agent_nonces)

-- The loop's invariant for one agent: what is validated follows the committed nonce without a gap,
-- and the local nonce is the last of it.
abbrev Follows : WorldState → Hash → Draining → Type 0
Follows state a d =
    (n : ℕ) × (nonces_of a d.validated ≡ following (committed state a) n)
    × (nonce_or (committed state a) (lookup a d.local_nonces) ≡ committed state a + n)
    × (n ≤ length d.validated)

-- All that is validated passed the structural checks.
abbrev pub IsChecked : WorldState → SymbolicTransition → Type 0
IsChecked state t = admit_check_structural t state ≡ ok tt

All-append_one :
    (P : SymbolicTransition → Type 0) (t : SymbolicTransition) (ts : List SymbolicTransition)
    → P t
    → All P ts
    → All P (ts ++ t ∷ [])
All-append_one P t [] p h = (p, tt)
All-append_one P t (u ∷ ts) p h = (h.0, All-append_one P t ts p h.1)

-- What one accepted transition does to the invariant.
accept-Follows :
    (state : WorldState) (t : SymbolicTransition) (d : Draining) (a : Hash)
    → committed state a + length d.validated < u128_max
    → t.nonce ≡ expected_nonce state t.agent_id d.local_nonces
    → Follows state a d
    → Follows state a (drain_checked (ok tt) t d)
unfolding expected_nonce
accept-Follows state t d a b e f = elim (Bool-cases (t.agent_id == a)) [
  | inl s ↦
      let agent : t.agent_id ≡ a = (==_iff t.agent_id a).0 s in
      let next : t.nonce ≡ suc (committed state a + f.0) = omega (arith, rw agent at e, f.2, f.3) in
      (
        suc (f.0),
        rw
            (
              nonces_of-append_one a t d.validated,
              s,
              f.1,
              following-snoc (committed state a) (f.0),
              next,
            )
            refl,
        rw (agent, lookup-insert_self a t.nonce d.local_nonces) (omega (arith, next)),
        omega (arith, f.3, length-append d.validated (t ∷ [])),
      )
  | inr s ↦
      let other : a ≢ t.agent_id = (λ q. ground arith) in
      (
        f.0,
        rw (nonces_of-append_one a t d.validated, s) (f.1),
        rw (lookup-insert_ne a t.agent_id t.nonce d.local_nonces other) (f.2),
        omega (arith, f.3, length-append d.validated (t ∷ [])),
      )
]

drain_tx-Follows :
    (state : WorldState) (t : SymbolicTransition) (d : Draining) (a : Hash)
    → committed state a + length d.validated < u128_max
    → Follows state a d
    → Follows state a (drain_tx state t d)
      × (length (drain_tx state t d).validated ≤ suc (length d.validated))
unfolding drain_tx
drain_tx-Follows state t d a b f =
    elim (Bool-cases
      (t.nonce == 0 || not (t.nonce == expected_nonce state t.agent_id d.local_nonces))) [
        | inl e ↦ rw e (f, omega arith)
        | inr e ↦
            let right : t.nonce ≡ expected_nonce state t.agent_id d.local_nonces = ground arith in
            elim (Result-cases (admit_check_structural t state)) [
              | inl (x, n) ↦ rw (e, n) (f, omega arith)
              | inr (tt, n) ↦
                  rw (e, n)
                    (
                      accept-Follows state t d a b right f,
                      omega (arith, length-append d.validated (t ∷ [])),
                    )
            ]
      ]

drain_tx-IsChecked :
    (state : WorldState) (t : SymbolicTransition) (d : Draining)
    → All (IsChecked state) d.validated
    → All (IsChecked state) (drain_tx state t d).validated
unfolding drain_tx
drain_tx-IsChecked state t d h =
    elim (Bool-cases
      (t.nonce == 0 || not (t.nonce == expected_nonce state t.agent_id d.local_nonces))) [
        | inl e ↦ rw e h
        | inr e ↦ elim (Result-cases (admit_check_structural t state)) [
          | inl (x, n) ↦ rw (e, n) h
          | inr (tt, n) ↦ rw (e, n) (All-append_one (IsChecked state) t d.validated n h)
        ]
      ]

drain_all-IsChecked :
    (state : WorldState) (txs : List SymbolicTransition) (d : Draining)
    → All (IsChecked state) d.validated
    → All (IsChecked state) (drain_all state txs d).validated
unfolding drain_all
drain_all-IsChecked state [] d h = h
drain_all-IsChecked state (t ∷ txs) d h =
    drain_all-IsChecked state txs (drain_tx state t d) (drain_tx-IsChecked state t d h)

drain_all-Follows :
    (state : WorldState) (txs : List SymbolicTransition) (d : Draining) (a : Hash)
    → committed state a + length d.validated + length txs ≤ u128_max
    → Follows state a d
    → Follows state a (drain_all state txs d)
unfolding drain_all
drain_all-Follows state [] d a b f = f
drain_all-Follows state (t ∷ txs) d a b f =
    let one = drain_tx-Follows state t d a (omega arith) f in
    drain_all-Follows state txs (drain_tx state t d) a (omega (arith, one.1)) one.0

All-IsAdmissible :
    (state : WorldState) (ts : List SymbolicTransition)
    → All (IsChecked state) ts
    → All (IsAdmissible state) ts
All-IsAdmissible state [] h = tt
All-IsAdmissible state (t ∷ ts) h =
    ((admit_check_structural-IsAdmissible t state).0 h.0, All-IsAdmissible state ts h.1)

-- If no agent's committed nonce is so large that the nonces of the pending transitions pass a
-- u128, `drain_validated` gives, of each agent, the transitions with the nonces that follow its
-- committed nonce one by one without a gap, in this order, and only transitions that admission
-- accepts.
pub drain_validated-following :
    (state : WorldState) (m : Mempool) (a : Hash)
    → ((b : Hash) → committed state b + length m.pending ≤ u128_max)
    → ((n : ℕ) × (nonces_of a (drain_validated state m).1 ≡ following (committed state a) n))
      × All (IsAdmissible state) (drain_validated state m).1
unfolding drain_validated
drain_validated-following state m a h =
    let empty : Draining = record {
      validated = [];
      to_remove = [];
      local_nonces = [];
      containment = m.containment;
    } in
    let run : (b : Hash) → Follows state b (drain_all state m.pending empty) = (λ b.
      drain_all-Follows state m.pending empty b (omega (arith, h b))
        (0, refl, omega arith, omega arith)) in
    let out = (drain_all state m.pending empty).validated in
    (
      (
        (run a).0,
        sort_txs-nonces_of out a
              (λ b. rw ((run b).1) (following-IsAscending (committed state b) ((run b).0)))
            ∙ (run a).1,
      ),
      All-IsAdmissible state (sort_txs out)
          (All-sort_txs (IsChecked state) out (drain_all-IsChecked state m.pending empty tt)),
    )
