-- ===== src/Node/Mempool/Order.antt =====
-- Nonces in order, and what sorting does to them: crates/sccgub-node/src/mempool.rs.
use scc_blockchain.Prelude.{
  ℕ, zero, suc, ◌+◌, ◌≤◌, ◌<◌, ◌≡◌, refl, ap, List, [], ◌∷◌, ◌++◌, ◌==◌, if◌then◌else◌, arith, All,
}
use scc_blockchain.Prelude.Map.{nat_eq}
use scc_blockchain.Consensus.Quorum.{Hash}
use scc_blockchain.Types.Transition.{SymbolicTransition}
use scc_blockchain.Node.Mempool.{insert_tx, sort_txs}

-- The nonces of one agent, in the order of the transitions.
abbrev pub nonces_of : Hash → List SymbolicTransition → List ℕ
nonces_of a [] = []
nonces_of a (t ∷ ts) = let rest = nonces_of a ts in if t.agent_id == a then t.nonce ∷ rest else rest

-- So many numbers that follow `c`, in order.
abbrev pub following : (c n : ℕ) → List ℕ
following c zero = []
following c (suc n) = suc c ∷ following (suc c) n

pub following-snoc : (c n : ℕ) → following c (suc n) ≡ following c n ++ suc (c + n) ∷ []
following-snoc c zero = ground arith
following-snoc c (suc n) =
    let shift : c + suc n ≡ suc c + n = omega arith in
    rw shift (ap (λ l. suc c ∷ l) (following-snoc (suc c) n))

-- Above every number of the list.
abbrev pub Above : ℕ → List ℕ → Type 0
Above x [] = Unit
Above x (y ∷ ys) = (x < y) × Above x ys

following-Above : (x c n : ℕ) → x ≤ c → Above x (following c n)
following-Above x c zero h = tt
following-Above x c (suc n) h = (omega arith, following-Above x (suc c) n (omega arith))

-- Sorting a transition in: it stands before all of its agent's with a larger nonce.
insert_tx-nonces_of :
    (a : Hash) (t : SymbolicTransition) (ts : List SymbolicTransition)
    → Above t.nonce (nonces_of t.agent_id ts)
    → nonces_of a (insert_tx t ts) ≡ nonces_of a (t ∷ ts)
insert_tx-nonces_of a t [] h = refl
insert_tx-nonces_of a t (u ∷ ts) h = ground (arith, insert_tx-nonces_of a t ts)

abbrev pub IsAscending : List ℕ → Type 0
IsAscending [] = Unit
IsAscending (x ∷ xs) = Above x xs × IsAscending xs

pub following-IsAscending : (c n : ℕ) → IsAscending (following c n)
following-IsAscending c zero = tt
following-IsAscending c (suc n) =
    (following-Above (suc c) (suc c) n (omega arith), following-IsAscending (suc c) n)

-- Sorting keeps the order of an agent's transitions, where their nonces go up.
pub sort_txs-nonces_of :
    (ts : List SymbolicTransition) (a : Hash)
    → ((b : Hash) → IsAscending (nonces_of b ts))
    → nonces_of a (sort_txs ts) ≡ nonces_of a ts
sort_txs-nonces_of [] a h = refl
sort_txs-nonces_of (t ∷ ts) a h =
    let tail : (b : Hash) → nonces_of b (sort_txs ts) ≡ nonces_of b ts =
      (λ b. sort_txs-nonces_of ts b (λ b'. rest b' (h b'))) in
    let own : Above t.nonce (nonces_of t.agent_id ts) = first (h t.agent_id) in
    ground (arith, insert_tx-nonces_of a t (sort_txs ts) (rw (tail t.agent_id) own), tail a)
  where
    rest : (b : Hash) → IsAscending (nonces_of b (t ∷ ts)) → IsAscending (nonces_of b ts)
    rest b i = ground arith

    first : IsAscending (nonces_of t.agent_id (t ∷ ts)) → Above t.nonce (nonces_of t.agent_id ts)
    first i = ground arith

All-insert_tx :
    (P : SymbolicTransition → Type 0) (t : SymbolicTransition) (ts : List SymbolicTransition)
    → P t
    → All P ts
    → All P (insert_tx t ts)
All-insert_tx P t [] p h = (p, tt)
All-insert_tx P t (u ∷ us) p h = ground (arith, All-insert_tx P t us)

pub All-sort_txs :
    (P : SymbolicTransition → Type 0) (ts : List SymbolicTransition)
    → All P ts
    → All P (sort_txs ts)
All-sort_txs P [] h = tt
All-sort_txs P (t ∷ ts) h = All-insert_tx P t (sort_txs ts) h.0 (All-sort_txs P ts h.1)
