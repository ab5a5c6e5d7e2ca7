-- ===== src/State/Apply/Commits.antt =====
-- What `commit_balance_accounts` leaves in the trie:
-- crates/sccgub-state/src/apply.rs.
use scc_blockchain.Prelude.{
  ◌≡◌, ◌≢◌, ◌≤◌, ◌||◌, ℕ, refl, sym, false, some, List, [], ◌∷◌, ◌==◌, ==_iff, arith, length,
  if◌then◌else◌, Bool-cases, inl, inr,
}
use scc_blockchain.Prelude.Map.{nat_eq}
use scc_blockchain.Consensus.Quorum.{mem}
use scc_blockchain.Types.Transition.{Bytes}
use scc_blockchain.State.Balances.{AgentId, BalanceLedger, balance_of}
use scc_blockchain.State.Treasury.Codec.{encode_tension, starts_with, to_word}
use scc_blockchain.State.Treasury.Codec.Words.{length-le_bytes}
use scc_blockchain.State.World.{ManagedWorldState, get, commit, oversized}
use scc_blockchain.State.World.Commit.{
  get-commit_self, get-commit_ne, commit_stored, commit-oversized,
}
use scc_blockchain.State.Apply.{ns_balance, balance_key, insert_id, commit_each}

pub mem-insert_id : (k a : ℕ) (l : List ℕ) → mem k (insert_id a l) ≡ (k == a || mem k l)
mem-insert_id k a [] = ground arith
mem-insert_id k a (b ∷ l) = ground (arith, mem-insert_id k a l)

pub limit_commit :
    (k v : Bytes) (w : ManagedWorldState)
    → (commit k v w).max_state_entry_size ≡ w.max_state_entry_size
limit_commit k v w = elim (Bool-cases (oversized k v w)) [
  | inl e ↦ rw (commit-oversized k v w e) refl
  | inr e ↦ rw (commit_stored k v w e) refl
]

-- How the keys of the balances are made: one for each agent, and within the limit of the entries,
-- as the 16 bytes of a balance are.
pub record IsKeying (hex_encode : AgentId → Bytes) (w : ManagedWorldState) : Type 0 where
  pub injective : (a b : AgentId) → hex_encode a ≡ hex_encode b → a ≡ b
  pub key_fits : (a : AgentId) → length (balance_key hex_encode a) ≤ w.max_state_entry_size
  pub value_fits : 16 ≤ w.max_state_entry_size

module _ (hex_encode : AgentId → Bytes) where
  abbrev pub key : AgentId → Bytes
  key a = balance_key hex_encode a

  pub key_inj : (a b : AgentId) → key a ≡ key b → hex_encode a ≡ hex_encode b
  key_inj a b h = cc

  pub key_apart : (a : AgentId) (k : Bytes) → starts_with ns_balance k ≡ false → key a ≢ k
  key_apart a k h e = absurd (cc (rw (sym e) at h))

  fits :
      (a : AgentId) (b : BalanceLedger) (w : ManagedWorldState)
      → IsKeying hex_encode w
      → oversized (key a) (encode_tension (balance_of a b)) w ≡ false
  unfolding encode_tension
  fits a b w k =
      let len = length-le_bytes 16 (to_word (balance_of a b)) in
      let short : length (key a) ≤ w.max_state_entry_size = k.key_fits a in
      let room : 16 ≤ w.max_state_entry_size = k.value_fits in rw len (ground arith)

  pub IsKeying-limit :
      (v w : ManagedWorldState)
      → v.max_state_entry_size ≡ w.max_state_entry_size
      → IsKeying hex_encode w
      → IsKeying hex_encode v
  IsKeying-limit v w e k = record {
    injective = k.injective;
    key_fits = λ a. rw e (k.key_fits a);
    value_fits = rw e k.value_fits;
  }

  -- The commit of a list of accounts writes their balances and leaves those of the others.
  pub get-commit_each :
      (a : AgentId) (l : List AgentId) (b : BalanceLedger) (w : ManagedWorldState)
      → IsKeying hex_encode w
      → get (key a) (commit_each hex_encode l b w)
        ≡ (if mem a l then some (encode_tension (balance_of a b)) else get (key a) w)
  get-commit_each a [] b w k = refl
  get-commit_each a (c ∷ l) b w k =
      let w' : ManagedWorldState = commit (key c) (encode_tension (balance_of c b)) w in
      let ih =
        get-commit_each a l b w'
          (IsKeying-limit w' w (limit_commit (key c) (encode_tension (balance_of c b)) w) k) in
      elim (Bool-cases (a == c)) [
        | inl e ↦
            let same : a ≡ c = (==_iff a c).0 e in
            let now : get (key a) w' ≡ some (encode_tension (balance_of a b)) =
              rw same
                (get-commit_self (key c) (encode_tension (balance_of c b)) w (fits c b w k)) in
            rw (ih, e, now) (elim (Bool-cases (mem a l)) [ inl m ↦ rw m refl | inr m ↦ rw m refl ])
        | inr e ↦
            let other : key a ≢ key c = (λ q. ground (arith, k.injective a c (key_inj a c q), e)) in
            rw (ih, e, get-commit_ne (key a) (key c) (encode_tension (balance_of c b)) w other) refl
      ]
