-- ===== src/State/World/Commit.antt =====
-- What a committed entry leaves in the trie: crates/sccgub-state/src/world.rs.
use scc_blockchain.Prelude.{◌⊎◌, ◌≡◌, ◌≢◌, refl, true, false, some, Bool-cases, inl, inr}
use scc_blockchain.Prelude.Map.{lookup-insert_self, lookup-insert_ne, bytes_eq}
use scc_blockchain.Types.Transition.{Bytes}
use scc_blockchain.State.World.{ManagedWorldState, apply_delta, commit, get, oversized, store_entry}

pub commit-oversized :
    (k v : Bytes) (w : ManagedWorldState) → oversized k v w ≡ true → commit k v w ≡ w
unfolding commit apply_delta
commit-oversized k v w h = rw h refl

pub commit_stored :
    (k v : Bytes) (w : ManagedWorldState)
    → oversized k v w ≡ false
    → commit k v w ≡ store_entry k v w
unfolding commit apply_delta
commit_stored k v w h = rw h refl

pub get-commit_self :
    (k v : Bytes) (w : ManagedWorldState) → oversized k v w ≡ false → get k (commit k v w) ≡ some v
get-commit_self k v w h = rw (commit_stored k v w h) (lookup-insert_self k v w.trie)

-- An entry at another address is what it was.
pub get-commit_ne : (j k v : Bytes) (w : ManagedWorldState) → j ≢ k → get j (commit k v w) ≡ get j w
get-commit_ne j k v w h = elim (Bool-cases (oversized k v w)) [
  | inl e ↦ rw (commit-oversized k v w e) refl
  | inr e ↦ rw (commit_stored k v w e) (lookup-insert_ne j k v w.trie h)
]

-- The entry at the address of the write is the new one or what it was.
pub get-commit_cases :
    (k v : Bytes) (w : ManagedWorldState)
    → (get k (commit k v w) ≡ some v) ⊎ (get k (commit k v w) ≡ get k w)
get-commit_cases k v w = elim (Bool-cases (oversized k v w)) [
  | inl e ↦ inr (rw (commit-oversized k v w e) refl)
  | inr e ↦ inl (get-commit_self k v w e)
]

-- A commit leaves the limit of the entries.
pub limit-commit :
    (j x k v : Bytes) (w : ManagedWorldState) → oversized j x (commit k v w) ≡ oversized j x w
limit-commit j x k v w = elim (Bool-cases (oversized k v w)) [
  | inl e ↦ rw (commit-oversized k v w e) refl
  | inr e ↦ rw (commit_stored k v w e) refl
]

-- Addresses that the equality test tells apart.
pub apart : (j k : Bytes) → bytes_eq.beq j k ≡ false → j ≢ k
apart j k h e = cc (h, (bytes_eq.beq_iff j k).1 e)
