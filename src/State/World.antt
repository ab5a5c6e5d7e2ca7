-- ===== src/State/World.antt =====
-- The world state that the state crate's modules share: crates/sccgub-state/src/world.rs. The trie
-- is an association list under its keys. Of a symbol it has the data and the version, of the
-- consensus parameters the limit that writes obey; Merkle roots and the durable store are left out.

pub mod Nonces
pub mod Commit
use scc_blockchain.Prelude.{
  ◌≡◌, Bool, ℕ, ◌+◌, Option, none, some, List, [], ◌∷◌, if◌then◌else◌, ltb, ◌||◌, length, min, ◌++◌,
  ◌==◌, ◌%◌, map,
}
use scc_blockchain.Prelude.Words.{u64_max, u128_max}
use scc_blockchain.Prelude.Map.{Map, lookup, insert, erase, bytes_eq, nat_eq}
use scc_blockchain.Prelude.Result.{Result, ok, err, Outcome}
use scc_blockchain.Types.Transition.{Bytes, SymbolicTransition}

pub record SymbolState : Type 0 where
  pub data_bytes : Bytes
  pub version : ℕ

pub record StateDelta : Type 0 where
  pub writes : List (Bytes × Bytes)
  pub deletes : List Bytes

pub record ManagedWorldState : Type 0 where
  pub symbol_store : Map Bytes SymbolState
  pub trie : Map Bytes Bytes
  pub agent_nonces : Map ℕ ℕ
  pub max_state_entry_size : ℕ

unfoldable pub with_consensus_params : (max_state_entry_size : ℕ) → ManagedWorldState
with_consensus_params n = record {
  symbol_store = [];
  trie = [];
  agent_nonces = [];
  max_state_entry_size = n;
}

-- `or_insert_with(...)`, then the new data and one version more.
abbrev pub next_symbol : Bytes → Option SymbolState → SymbolState
next_symbol value none = record { data_bytes = value; version = min (1 + 1) u64_max }
next_symbol value (some s) = record { data_bytes = value; version = min (s.version + 1) u64_max }

-- An accepted write.
abbrev pub store_entry : Bytes → Bytes → ManagedWorldState → ManagedWorldState
store_entry address value w = record w {
  trie = insert address value w.trie;
  symbol_store = insert address (next_symbol value (lookup address w.symbol_store)) w.symbol_store;
}

-- An entry whose address or value is over the limit.
abbrev pub oversized : Bytes → Bytes → ManagedWorldState → Bool
oversized address value w =
    ltb w.max_state_entry_size (length address) || ltb w.max_state_entry_size (length value)

-- The loop over the writes, with the addresses that are rejected.
abbrev pub write_all : List (Bytes × Bytes) → ManagedWorldState → ManagedWorldState × List Bytes
write_all [] w = (w, [])
write_all ((address, value) ∷ ws) w =
    if oversized address value w
    then (let r = write_all ws w in (r.0, address ∷ r.1))
    else write_all ws (store_entry address value w)

abbrev pub delete_all : List Bytes → ManagedWorldState → ManagedWorldState
delete_all [] w = w
delete_all (address ∷ rest) w =
    delete_all rest
      (record w { trie = erase address w.trie; symbol_store = erase address w.symbol_store })

unfoldable pub apply_delta : StateDelta → ManagedWorldState → ManagedWorldState × List Bytes
apply_delta delta w =
    let written = write_all delta.writes w in (delete_all delta.deletes written.0, written.1)

-- `get`
abbrev pub get : Bytes → ManagedWorldState → Option Bytes
get address w = lookup address w.trie

-- One write whose rejection nobody looks at: how the modules of the crate commit an entry.
unfoldable pub commit : Bytes → Bytes → ManagedWorldState → ManagedWorldState
unfolding apply_delta
commit address value w = (apply_delta (record { writes = (address, value) ∷ []; deletes = [] }) w).0

-- How bincode writes and reads the values of a type, and that it reads what it wrote. The text of an
-- error is bytes.
pub record Codec (A : Type 0) : Type 0 where
  pub to_bytes : A → Bytes
  pub from_bytes : Bytes → Result Bytes A
  pub round_trip : (x : A) → from_bytes (to_bytes x) ≡ ok x

module _ {A : Type 0} (codec : Codec A) where
  -- The entry at an address, `default` where there is none.
  abbrev pub read_entry : A → Option Bytes → Result Bytes A
  read_entry default none = ok default
  read_entry default (some bytes) = codec.from_bytes bytes

pub data NonceError : Type 0 where
  nonce_zero nonce_overflow : NonceError
  nonce_not_sequential : (expected got : ℕ) → NonceError

-- `unwrap_or(0)`
abbrev pub or_zero : Option ℕ → ℕ
or_zero none = 0
or_zero (some n) = n

abbrev pub last_nonce : ℕ → Map ℕ ℕ → ℕ
last_nonce a m = or_zero (lookup a m)

abbrev pub set_nonce : ℕ → ℕ → ManagedWorldState → ManagedWorldState
set_nonce a n w = record w { agent_nonces = insert a n w.agent_nonces }

unfoldable pub check_nonce :
    ℕ → ℕ → ManagedWorldState → Outcome ManagedWorldState NonceError (Unit {0})
check_nonce agent_id nonce w =
    let last = last_nonce agent_id w.agent_nonces in
    if nonce == 0
    then (w, err nonce_zero)
    else if last == u128_max
    then (w, err nonce_overflow)
    else if nonce == last + 1
    then (set_nonce agent_id nonce w, ok tt)
    else (w, err (nonce_not_sequential (last + 1) nonce))

-- The loop, which restores the snapshot on the first error.
abbrev pub check_all :
    Map ℕ ℕ
    → List SymbolicTransition
    → ManagedWorldState
    → Outcome ManagedWorldState NonceError (Unit {0})
check_all snapshot [] w = (w, ok tt)
check_all snapshot (tx ∷ txs) w = elim ((check_nonce tx.agent_id tx.nonce w).1) [
  | err e ↦ (record ((check_nonce tx.agent_id tx.nonce w).0) { agent_nonces = snapshot }, err e)
  | ok u ↦ check_all snapshot txs ((check_nonce tx.agent_id tx.nonce w).0)
]

unfoldable pub validate_nonces :
    List SymbolicTransition → ManagedWorldState → Outcome ManagedWorldState NonceError (Unit {0})
validate_nonces txs w = check_all w.agent_nonces txs w
