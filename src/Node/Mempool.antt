-- ===== src/Node/Mempool.antt =====
-- The mempool: crates/sccgub-node/src/mempool.rs. A `HashSet` of ids is a list without repetition, in
-- the order of insertion.
pub mod Ids
pub mod Order
pub mod Pool
pub mod Drain
use scc_blockchain.Prelude.{
  ℕ, ◌+◌, Bool, true, false, not, ◌||◌, ◌&&◌, Option, none, some, List, [], ◌∷◌, ◌++◌, ◌==◌, leb,
  ltb, if◌then◌else◌, length, map,
}
use scc_blockchain.Prelude.Int.{pos}
use scc_blockchain.Prelude.Words.{sat_add128}
use scc_blockchain.Prelude.Map.{Map, lookup, insert, nat_eq}
use scc_blockchain.Prelude.Result.{Result, ok, err, Outcome}
use scc_blockchain.Consensus.Quorum.{Hash, mem, select}
use scc_blockchain.Types.Tension.{from_integer}
use scc_blockchain.Types.Transition.{SymbolicTransition}
use scc_blockchain.Execution.Admission.{WorldState, AdmitError, admit_check_structural, nonce_or}
use scc_blockchain.Governance.Containment
use scc_blockchain.Governance.Containment.{
  ContainmentState, is_allowed, record_valid, record_invalid, evaluate,
}

abbrev pub max_confirmed_ids : ℕ
max_confirmed_ids = 100000

pub record Mempool : Type 0 where
  pub pending : List SymbolicTransition
  pub seen_ids : List Hash
  pub confirmed_ids : List Hash
  pub confirmed_order : List Hash
  pub max_size : ℕ
  pub containment : ContainmentState

unfoldable pub new : ℕ → Mempool
new max_size = record {
  pending = [];
  seen_ids = [];
  confirmed_ids = [];
  confirmed_order = [];
  max_size = max_size;
  containment = Containment.default;
}

-- `HashSet::insert` and `HashSet::remove`
abbrev pub set_insert : Hash → List Hash → List Hash
set_insert x s = if mem x s then s else s ++ x ∷ []

abbrev pub set_remove : Hash → List Hash → List Hash
set_remove x s = select (λ y. not (x == y)) s

-- The first loop of `mark_confirmed`, on the set and the queue.
unfoldable pub confirm_all : List Hash → (ids order : List Hash) → List Hash × List Hash
confirm_all [] ids order = (ids, order)
confirm_all (x ∷ xs) ids order =
    confirm_all xs (set_insert x ids) (if mem x ids then order else order ++ x ∷ [])

-- Its second loop: the oldest leave until the set is small enough.
unfoldable pub prune : (ids order : List Hash) → List Hash × List Hash
prune ids [] = (ids, [])
prune ids (x ∷ order) =
    let rest = prune (set_remove x ids) order in
    if leb (length ids) max_confirmed_ids then (ids, x ∷ order) else rest

unfoldable pub mark_confirmed : List Hash → Mempool → Mempool
unfolding confirm_all prune
mark_confirmed xs m =
    let (ids, order) = confirm_all xs m.confirmed_ids m.confirmed_order in
    let (kept, kept_order) = prune ids order in
    record {
      pending = m.pending;
      seen_ids = m.seen_ids;
      confirmed_ids = kept;
      confirmed_order = kept_order;
      max_size = m.max_size;
      containment = m.containment;
    }

pub data AddError : Type 0 where
  agent_quarantined duplicate_transaction already_included : AddError

-- The oldest pending transition leaves a full pool, and its id the set.
abbrev pub evict : Bool → List SymbolicTransition → List Hash → List SymbolicTransition × List Hash
evict false pending seen = (pending, seen)
evict true [] seen = ([], seen)
evict true (t ∷ pending) seen = (pending, set_remove t.tx_id seen)

-- The end of `add`: room is made, then the transition comes last.
abbrev pub push : SymbolicTransition → Mempool → Mempool
push tx m =
    let (pending, seen) = evict (leb m.max_size (length m.pending)) m.pending m.seen_ids in
    record {
      pending = pending ++ tx ∷ [];
      seen_ids = set_insert tx.tx_id seen;
      confirmed_ids = m.confirmed_ids;
      confirmed_order = m.confirmed_order;
      max_size = m.max_size;
      containment = m.containment;
    }

unfoldable pub add : SymbolicTransition → Mempool → Outcome Mempool AddError (Unit {0})
add tx m =
    if not (is_allowed tx.agent_id m.containment)
    then (m, err agent_quarantined)
    else if mem tx.tx_id m.seen_ids
    then (m, err duplicate_transaction)
    else if mem tx.tx_id m.confirmed_ids
    then (m, err already_included)
    else (push tx m, ok tt)

-- The local variables of `drain_validated`.
pub record Draining : Type 0 where
  pub validated : List SymbolicTransition
  pub to_remove : List Hash
  pub local_nonces : Map Hash ℕ
  pub containment : ContainmentState

-- A transition that is refused: its id goes, and its agent is charged.
abbrev refuse : SymbolicTransition → Draining → Draining
refuse tx d = record {
  validated = d.validated;
  to_remove = d.to_remove ++ tx.tx_id ∷ [];
  local_nonces = d.local_nonces;
  containment = record_invalid tx.agent_id (from_integer (pos 1)) d.containment;
}

abbrev pub drain_checked : Result AdmitError (Unit {0}) → SymbolicTransition → Draining → Draining
drain_checked (ok u) tx d = record {
  validated = d.validated ++ tx ∷ [];
  to_remove = d.to_remove ++ tx.tx_id ∷ [];
  local_nonces = insert tx.agent_id tx.nonce d.local_nonces;
  containment = record_valid tx.agent_id (from_integer (pos 1)) d.containment;
}
drain_checked (err e) tx d = refuse tx d

-- The next nonce of the agent in this batch.
unfoldable pub expected_nonce : WorldState → Hash → Map Hash ℕ → ℕ
expected_nonce state agent local =
    sat_add128 (nonce_or (nonce_or 0 (lookup agent state.agent_nonces)) (lookup agent local)) 1

-- The body of the loop over the pending transitions.
unfoldable pub drain_tx : WorldState → SymbolicTransition → Draining → Draining
drain_tx state tx d =
    if tx.nonce == 0 || not (tx.nonce == expected_nonce state tx.agent_id d.local_nonces)
    then refuse tx d
    else drain_checked (admit_check_structural tx state) tx d

unfoldable pub drain_all : WorldState → List SymbolicTransition → Draining → Draining
drain_all state [] d = d
drain_all state (tx ∷ txs) d = drain_all state txs (drain_tx state tx d)

-- `retain` of what is not in the set.
abbrev pub retain : List Hash → List SymbolicTransition → List SymbolicTransition
retain removed [] = []
retain removed (t ∷ ts) =
    let rest = retain removed ts in if mem t.tx_id removed then rest else t ∷ rest

abbrev pub remove_all : List Hash → List Hash → List Hash
remove_all [] s = s
remove_all (x ∷ xs) s = remove_all xs (set_remove x s)

-- The order of the result: by nonce, then by id.
abbrev pub before : SymbolicTransition → SymbolicTransition → Bool
before a b = ltb a.nonce b.nonce || (a.nonce == b.nonce && leb a.tx_id b.tx_id)

abbrev pub insert_tx : SymbolicTransition → List SymbolicTransition → List SymbolicTransition
insert_tx t [] = t ∷ []
insert_tx t (u ∷ us) = if before t u then t ∷ u ∷ us else u ∷ insert_tx t us

-- `sort_by`, a stable sort.
abbrev pub sort_txs : List SymbolicTransition → List SymbolicTransition
sort_txs [] = []
sort_txs (t ∷ ts) = insert_tx t (sort_txs ts)

unfoldable pub drain_validated : WorldState → Mempool → Mempool × List SymbolicTransition
unfolding drain_all
drain_validated state m =
    let d =
      drain_all state m.pending (record {
        validated = [];
        to_remove = [];
        local_nonces = [];
        containment = m.containment;
      }) in
    (
      record {
        pending = retain d.to_remove m.pending;
        seen_ids = remove_all d.to_remove m.seen_ids;
        confirmed_ids = m.confirmed_ids;
        confirmed_order = m.confirmed_order;
        max_size = m.max_size;
        containment = evaluate d.containment;
      },
      sort_txs d.validated,
    )
