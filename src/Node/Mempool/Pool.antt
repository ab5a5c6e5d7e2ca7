-- ===== src/Node/Mempool/Pool.antt =====
-- What holds of every mempool: crates/sccgub-node/src/mempool.rs.
use scc_blockchain.Prelude.Result.{Result-cases}
use mathlib.Core.List.{append-nil, append_assoc}
use scc_blockchain.Execution.Admission.{admit_check_structural}
use scc_blockchain.Prelude.{
  ℕ, ◌+◌, ◌≤◌, ◌≡◌, refl, sym, ap, true, false, not, ◌||◌, List, [], ◌∷◌, ◌++◌, ◌==◌, leb, length,
  length-append, max, arith, Bool-cases, inl, inr,
}
use scc_blockchain.Consensus.Quorum.{Hash, mem, IsDistinct, mem-select}
use scc_blockchain.Types.Transition.{SymbolicTransition}
use scc_blockchain.Execution.Admission.{WorldState}
use scc_blockchain.Governance.Containment.{ContainmentState, is_allowed}
use scc_blockchain.Node.Mempool.Ids.{
  set_insert-IsDistinct, set_remove-head, confirmed_lem, remove_all_self,
}
use scc_blockchain.Node.Mempool.{
  push, expected_nonce, Mempool, new, set_insert, set_remove, mark_confirmed, evict, add, drain_all,
  drain_tx, retain, drain_validated, max_confirmed_ids, Draining,
}

abbrev pub tx_ids : List SymbolicTransition → List Hash
tx_ids [] = []
tx_ids (t ∷ ts) = t.tx_id ∷ tx_ids ts

-- The set of seen ids is that of the pending transitions, none twice and no more than the limit
-- (one, where the limit is 0); the set of confirmed ids is what its queue holds, and bounded.
abbrev pub IsPool : Mempool → Type 0
IsPool m =
    (m.seen_ids ≡ tx_ids m.pending)
    × IsDistinct m.seen_ids
    × (length m.pending ≤ max 1 m.max_size)
    × (m.confirmed_ids ≡ m.confirmed_order)
    × IsDistinct m.confirmed_ids
    × (length m.confirmed_ids ≤ max_confirmed_ids)

abbrev with_containment : ContainmentState → Mempool → Mempool
with_containment c m = record {
  pending = m.pending;
  seen_ids = m.seen_ids;
  confirmed_ids = m.confirmed_ids;
  confirmed_order = m.confirmed_order;
  max_size = m.max_size;
  containment = c;
}

tx_ids-append_one :
    (t : SymbolicTransition) (ts : List SymbolicTransition)
    → tx_ids (ts ++ t ∷ []) ≡ tx_ids ts ++ t.tx_id ∷ []
tx_ids-append_one t [] = refl
tx_ids-append_one t (u ∷ ts) = ap (λ r. u.tx_id ∷ r) (tx_ids-append_one t ts)

drain_tx-to_remove :
    (state : WorldState) (t : SymbolicTransition) (d : Draining)
    → (drain_tx state t d).to_remove ≡ d.to_remove ++ t.tx_id ∷ []
unfolding drain_tx
drain_tx-to_remove state t d =
    elim (Bool-cases
      (t.nonce == 0 || not (t.nonce == expected_nonce state t.agent_id d.local_nonces))) [
        | inl e ↦ rw e refl
        | inr e ↦ elim (Result-cases (admit_check_structural t state)) [
          | inl (x, a) ↦ rw (e, a) refl
          | inr (x, a) ↦ rw (e, a) refl
        ]
      ]

-- All that `drain_all` goes over is marked for removal.
drain_all-to_remove :
    (state : WorldState) (txs : List SymbolicTransition) (d : Draining)
    → (drain_all state txs d).to_remove ≡ d.to_remove ++ tx_ids txs
unfolding drain_all
drain_all-to_remove state [] d = sym (append-nil d.to_remove)
drain_all-to_remove state (t ∷ txs) d =
    rw (drain_all-to_remove state txs (drain_tx state t d), drain_tx-to_remove state t d)
      (append_assoc d.to_remove (t.tx_id ∷ []) (tx_ids txs))

retain-none :
    (removed : List Hash) (ts : List SymbolicTransition)
    → ((x : Hash) → mem x (tx_ids ts) ≡ true → mem x removed ≡ true)
    → retain removed ts ≡ []
retain-none removed [] h = refl
retain-none removed (t ∷ ts) h =
    let rest = retain-none removed ts (λ x e. h x (ground (arith, e))) in
    let head : mem t.tx_id removed ≡ true = h t.tx_id (ground arith) in ground arith

-- `drain_validated` of a pool whose seen ids are those of its pending transitions leaves nothing
-- pending and no id seen, whatever it refused.
pub drain_validated-empty :
    (state : WorldState) (m : Mempool)
    → IsPool m
    → ((drain_validated state m).0.pending ≡ []) × ((drain_validated state m).0.seen_ids ≡ [])
unfolding drain_validated
drain_validated-empty state m p =
    let marked =
      drain_all-to_remove state m.pending (record {
        validated = [];
        to_remove = [];
        local_nonces = [];
        containment = m.containment;
      }) in
    let distinct : IsDistinct (tx_ids m.pending) = rw (p.0) at (p.1) in
    (
      rw marked (retain-none (tx_ids m.pending) m.pending (λ x e. e)),
      rw (marked, p.0) (remove_all_self (tx_ids m.pending) distinct),
    )

mark_confirmed-IsPool : (xs : List Hash) (m : Mempool) → IsPool m → IsPool (mark_confirmed xs m)
unfolding mark_confirmed
mark_confirmed-IsPool xs m p =
    let kept = confirmed_lem xs m.confirmed_ids m.confirmed_order p.3 p.4 in
    (p.0, p.1, p.2, kept.0, kept.1, kept.2)

evict-IsPool :
    (limit : ℕ) (x : Hash) (pending : List SymbolicTransition) (seen : List Hash)
    → seen ≡ tx_ids pending
    → IsDistinct seen
    → length pending ≤ max 1 limit
    → mem x seen ≡ false
    → ((evict (leb limit (length pending)) pending seen).1
        ≡ tx_ids (evict (leb limit (length pending)) pending seen).0)
      × IsDistinct (evict (leb limit (length pending)) pending seen).1
      × (length (evict (leb limit (length pending)) pending seen).0 + 1 ≤ max 1 limit)
      × (mem x (evict (leb limit (length pending)) pending seen).1 ≡ false)
evict-IsPool limit x pending seen e d b a = elim (Bool-cases (leb limit (length pending))) [
  | inr n ↦ rw n (e, d, ground arith, a)
  | inl n ↦ rw n (full pending e b)
]
  where
    full :
        (pending : List SymbolicTransition)
        → seen ≡ tx_ids pending
        → length pending ≤ max 1 limit
        → ((evict true pending seen).1 ≡ tx_ids (evict true pending seen).0)
          × IsDistinct (evict true pending seen).1
          × (length (evict true pending seen).0 + 1 ≤ max 1 limit)
          × (mem x (evict true pending seen).1 ≡ false)
    full [] e b = (e, d, omega arith, a)
    full (t ∷ ts) e b =
        let distinct : IsDistinct (t.tx_id ∷ tx_ids ts) = rw e at d in
        let rest : set_remove t.tx_id seen ≡ tx_ids ts =
          rw e (set_remove-head t.tx_id (tx_ids ts) distinct.0) in
        (
          rest,
          rw rest (distinct.1),
          omega (arith, b),
          ground (arith, mem-select (λ y. not (t.tx_id == y)) x seen, a),
        )

-- A pool with one transition more, which it has not seen.
push-IsPool :
    (tx : SymbolicTransition) (m : Mempool)
    → IsPool m
    → mem tx.tx_id m.seen_ids ≡ false
    → IsPool (push tx m)
push-IsPool tx m p n =
    let e = evict-IsPool m.max_size tx.tx_id m.pending m.seen_ids p.0 p.1 p.2 n in
    let pending = (evict (leb m.max_size (length m.pending)) m.pending m.seen_ids).0 in
    let seen = (evict (leb m.max_size (length m.pending)) m.pending m.seen_ids).1 in
    let added : set_insert tx.tx_id seen ≡ seen ++ tx.tx_id ∷ [] = rw (e.3) refl in
    (
      rw (added, tx_ids-append_one tx pending) (ap (λ s. s ++ tx.tx_id ∷ []) (e.0)),
      set_insert-IsDistinct tx.tx_id seen (e.1),
      omega (arith, length-append pending (tx ∷ []), e.2),
      p.3,
      p.4,
      p.5,
    )

add-IsPool : (tx : SymbolicTransition) (m : Mempool) → IsPool m → IsPool (add tx m).0
unfolding add
add-IsPool tx m p = elim (Bool-cases (is_allowed tx.agent_id m.containment)) [
  | inr a ↦ rw a p
  | inl a ↦ elim (Bool-cases (mem tx.tx_id m.seen_ids)) [
    | inl s ↦ rw (a, s) p
    | inr s ↦ elim (Bool-cases (mem tx.tx_id m.confirmed_ids)) [
      | inl c ↦ rw (a, s, c) p
      | inr c ↦ rw (a, s, c) (push-IsPool tx m p s)
    ]
  ]
]

drain-IsPool : (state : WorldState) (m : Mempool) → IsPool m → IsPool (drain_validated state m).0
unfolding drain_validated
drain-IsPool state m p =
    let out = drain_validated-empty state m p in
    (rw out.1 (rw out.0 refl), rw out.1 tt, rw out.0 (omega arith), p.3, p.4, p.5)

-- What the operations make of a new pool. The containment state is a public field, which the node
-- also changes by itself.
pub data Reach (max_size : ℕ) : Mempool → Type 0 where
  created : Reach max_size (new max_size)
  confirmed :
      {m : Mempool} → Reach max_size m → (xs : List Hash) → Reach max_size (mark_confirmed xs m)
  added : {m : Mempool} → Reach max_size m → (tx : SymbolicTransition) → Reach max_size (add tx m).0
  drained :
      {m : Mempool}
      → Reach max_size m
      → (state : WorldState) → Reach max_size (drain_validated state m).0
  contained :
      {m : Mempool}
      → Reach max_size m
      → (c : ContainmentState) → Reach max_size (with_containment c m)

-- Whatever calls are made of a new pool: the set of seen ids is that of the pending transitions,
-- none twice, no more than `max_size` are pending (one, where that is 0), and the set of confirmed
-- ids is what its queue holds, none twice, at most 100000.
pub Reach-IsPool :
    (max_size : ℕ) (m : Mempool) → Reach max_size m → IsPool m × (m.max_size ≡ max_size)
unfolding new mark_confirmed add drain_validated
Reach-IsPool max_size _ created = ((refl, tt, omega arith, refl, tt, omega arith), refl)
Reach-IsPool max_size _ (confirmed {m} r xs) =
    let ih = Reach-IsPool max_size m r in (mark_confirmed-IsPool xs m ih.0, ih.1)
Reach-IsPool max_size _ (added {m} r tx) =
    let ih = Reach-IsPool max_size m r in (add-IsPool tx m ih.0, ground (arith, ih.1))
Reach-IsPool max_size _ (drained {m} r state) =
    let ih = Reach-IsPool max_size m r in (drain-IsPool state m ih.0, ih.1)
Reach-IsPool max_size _ (contained {m} r c) = Reach-IsPool max_size m r
