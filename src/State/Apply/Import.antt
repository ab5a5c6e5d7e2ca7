-- ===== src/State/Apply/Import.antt =====
-- The ledger read back from the trie: `balances_from_trie` of crates/sccgub-state/src/apply.rs.
use scc_blockchain.Prelude.{
  subst, ap₂, ◌≡◌, ◌≢◌, ◌⊎◌, refl, sym, ◌∙◌, ap, true, false, Option, none, some, [], ◌∷◌, ◌==◌,
  ==_iff, All, arith, length, Bool-cases, inl, inr, some_inj,
}
use scc_blockchain.Prelude.Words.{InI128}
use scc_blockchain.Prelude.Map.{
  Map, lookup, IsMap, bytes_eq, nat_eq, insert, lookup-insert_self, lookup-insert_ne,
}
use scc_blockchain.Prelude.Result.{ok}
use scc_blockchain.Types.Transition.{Bytes}
use scc_blockchain.Types.Tension.{TensionValue}
use scc_blockchain.State.Entries.{or_zero, value_nonneg}
use scc_blockchain.State.Balances.{AgentId, BalanceLedger, balance_of, import_balance}
use scc_blockchain.State.Balances.Conservation.{IsSound, balance-le-sum}
use scc_blockchain.State.Treasury.Codec.{
  from_le_bytes, from_word, le_bytes, encode_tension, starts_with, to_word,
}
use scc_blockchain.State.Treasury.Codec.Words.{length-le_bytes, from_word-le_bytes}
use scc_blockchain.State.World.{ManagedWorldState}
use scc_blockchain.State.Apply.{
  drop_prefix, ns_balance, agent_of, import_entry, import_agent, import_all, balances_from_trie,
}
use scc_blockchain.State.Apply.Commits.{key, key_apart, key_inj}
use scc_blockchain.State.Apply.Agreement.{Agrees}

-- How the text of an agent id is read.
pub record IsHex (hex_encode : AgentId → Bytes) (hex_decode : Bytes → Option Bytes) : Type 0 where
  pub bytes_of : AgentId → Bytes
  pub decodes : (a : AgentId) → hex_decode (hex_encode a) ≡ some (bytes_of a)
  pub length_of : (a : AgentId) → length (bytes_of a) ≡ 32
  pub spells : (a : AgentId) → agent_of 0 (bytes_of a) ≡ a

balance-InI128 : (a : AgentId) (b : BalanceLedger) → IsSound b → InI128 (balance_of a b)
balance-InI128 a b s =
    let low = value_nonneg a b s.nonneg in
    let high = balance-le-sum a b s in
    let fit = s.fits in (omega (arith, low), omega (arith, high, fit))

-- What the first entry of a map does not say of another key.
lookup-cons_ne : (j k v : Bytes) (m : Map Bytes Bytes) → j ≢ k → lookup j ((k, v) ∷ m) ≡ lookup j m
lookup-cons_ne j k v m h = ground (arith, bytes_eq.beq_iff j k)

module _ (hex_decode : Bytes → Option Bytes) where
  import_agent-some :
      (k v bytes : Bytes) (a : AgentId) (z : TensionValue) (acc : BalanceLedger)
      → length bytes ≡ 32
      → agent_of 0 bytes ≡ a
      → from_word (from_le_bytes v) ≡ z
      → import_agent hex_decode k v (some bytes) acc ≡ ok (insert a z acc)
  unfolding import_balance
  import_agent-some k v bytes a z acc l p q = rw (l, p, q) refl

  import_entry-value :
      (k v : Bytes) (r : Option Bytes) (acc : BalanceLedger)
      → length v ≡ 16
      → hex_decode (drop_prefix ns_balance k) ≡ r
      → import_entry hex_decode k v acc ≡ import_agent hex_decode k v r acc
  import_entry-value k v r acc l h = rw (l, h) refl

module _ (hex_encode : AgentId → Bytes) where
  -- An entry of the namespace of the balances is that of an agent.
  abbrev pub IsKeyed : Bytes × Bytes → Type 0
  IsKeyed (k, v) = starts_with ns_balance k ≡ true → (a : AgentId) × (k ≡ key hex_encode a)

module _ (hex_encode : AgentId → Bytes) (hex_decode : Bytes → Option Bytes)
    (b : BalanceLedger) where
  abbrev IsEntry : Bytes × Bytes → Type 0
  IsEntry (k, v) =
      starts_with ns_balance k ≡ true
      → (a : AgentId) × (k ≡ key hex_encode a) × (v ≡ encode_tension (balance_of a b))

  import_entry-lem :
      (a : AgentId) (acc : BalanceLedger)
      → IsHex hex_encode hex_decode
      → IsSound b
      → import_entry hex_decode (key hex_encode a) (encode_tension (balance_of a b)) acc
        ≡ ok (insert a (balance_of a b) acc)
  unfolding encode_tension
  import_entry-lem a acc x s =
      let k : Bytes = key hex_encode a in
      let v : Bytes = le_bytes 16 (to_word (balance_of a b)) in
      import_entry-value hex_decode k v (some (x.bytes_of a)) acc
        (length-le_bytes 16 (to_word (balance_of a b))) (x.decodes a)
      ∙ import_agent-some hex_decode k v (x.bytes_of a) a (balance_of a b) acc (x.length_of a)
          (x.spells a) (from_word-le_bytes (balance_of a b) (balance-InI128 a b s))

  hex_inj : (a c : AgentId) → IsHex hex_encode hex_decode → hex_encode a ≡ hex_encode c → a ≡ c
  hex_inj a c x h =
      let same =
        some_inj (x.bytes_of a) (x.bytes_of c)
          (sym (x.decodes a) ∙ ap hex_decode h ∙ x.decodes c) in
      sym (x.spells a) ∙ ap (agent_of 0) same ∙ x.spells c

  -- What is read of an agent: its balance, or what was there when the trie has no entry.
  abbrev IsRead : Map Bytes Bytes → BalanceLedger → BalanceLedger → Type 0
  IsRead m acc b' =
      (a : AgentId)
      → (balance_of a b' ≡ balance_of a b)
        ⊎ ((lookup (key hex_encode a) m ≡ none) × (balance_of a b' ≡ balance_of a acc))

  IsRead-skip :
      (k v : Bytes) (m : Map Bytes Bytes) (acc b' : BalanceLedger)
      → starts_with ns_balance k ≡ false
      → IsRead m acc b'
      → IsRead ((k, v) ∷ m) acc b'
  IsRead-skip k v m acc b' n r a = elim (r a) [
    | inl q ↦ inl q
    | inr q ↦ inr (lookup-cons_ne (key hex_encode a) k v m (key_apart hex_encode a k n) ∙ q.0, q.1)
  ]

  IsRead-entry :
      (c : AgentId) (v : Bytes) (m : Map Bytes Bytes) (acc b' : BalanceLedger)
      → IsHex hex_encode hex_decode
      → IsRead m (insert c (balance_of c b) acc) b'
      → IsRead ((key hex_encode c, v) ∷ m) acc b'
  IsRead-entry c v m acc b' x r a = elim (r a) [
    | inl q ↦ inl q
    | inr q ↦ elim (Bool-cases (a == c)) [
      | inl y ↦
          let same : a ≡ c = (==_iff a c).0 y in
          inl (
            q.1
            ∙ ap (λ i. balance_of i (insert c (balance_of c b) acc)) same
            ∙ ap or_zero (lookup-insert_self c (balance_of c b) acc)
            ∙ ap (λ i. balance_of i b) (sym same))
      | inr n ↦
          let apart : a ≢ c = λ h. absurd (cc (rw ((==_iff a c).1 h) at n)) in
          inr (
            lookup-cons_ne (key hex_encode a) (key hex_encode c) v m
                  (λ h. apart (hex_inj a c x (key_inj hex_encode a c h)))
                ∙ q.0,
            q.1 ∙ ap or_zero (lookup-insert_ne a c (balance_of c b) acc apart),
          )
    ]
  ]

  import_all-IsRead :
      (m : Map Bytes Bytes) (acc : BalanceLedger)
      → IsHex hex_encode hex_decode
      → IsSound b
      → All IsEntry m
      → (b' : BalanceLedger) × (import_all hex_decode m (ok acc) ≡ ok b') × IsRead m acc b'
  import_all-IsRead [] acc x s e = (acc, refl, λ a. inr (refl, refl))
  import_all-IsRead ((k, v) ∷ m) acc x s e = elim (Bool-cases (starts_with ns_balance k)) [
    | inr n ↦
        let rest = import_all-IsRead m acc x s e.1 in
        (rest.0, rw n rest.1, IsRead-skip k v m acc rest.0 n rest.2)
    | inl y ↦
        let entry = e.0 y in
        let rest = import_all-IsRead m (insert entry.0 (balance_of entry.0 b) acc) x s e.1 in
        let read =
          ap₂ (λ i j. import_entry hex_decode i j acc) entry.1 entry.2
          ∙ import_entry-lem entry.0 acc x s in
        (
          rest.0,
          rw y (ap (import_all hex_decode m) read ∙ rest.1),
          subst (λ i. IsRead ((i, v) ∷ m) acc rest.0) (sym entry.1)
              (IsRead-entry entry.0 v m acc rest.0 x rest.2),
        )
  ]

  -- What the trie says of a key is the balance.
  abbrev IsFaithful : Map Bytes Bytes → Type 0
  IsFaithful m =
      (a : AgentId) (v : Bytes)
      → lookup (key hex_encode a) m ≡ some v
      → v ≡ encode_tension (balance_of a b)

  IsFaithful-tail :
      (k v : Bytes) (m : Map Bytes Bytes)
      → lookup k m ≡ none
      → IsFaithful ((k, v) ∷ m)
      → IsFaithful m
  IsFaithful-tail k v m n f a u h =
      let apart : key hex_encode a ≢ k = λ e. absurd (cc (rw e at h)) in
      f a u (lookup-cons_ne (key hex_encode a) k v m apart ∙ h)

  lookup-head : (k v : Bytes) (m : Map Bytes Bytes) → lookup k ((k, v) ∷ m) ≡ some v
  lookup-head k v m = ground (arith, bytes_eq.beq_iff k k)

  All-IsEntry :
      (m : Map Bytes Bytes) → IsMap m → All (IsKeyed hex_encode) m → IsFaithful m → All IsEntry m
  All-IsEntry [] h k f = tt
  All-IsEntry ((k, v) ∷ m) h keyed f = (
    λ y.
        let owner = keyed.0 y in
        (
          owner.0,
          owner.1,
          f owner.0 v (ap (λ i. lookup i ((k, v) ∷ m)) (sym owner.1) ∙ lookup-head k v m),
        ),
    All-IsEntry m h.1 keyed.1 (IsFaithful-tail k v m h.0 f),
  )

  Agrees-IsFaithful : (w : ManagedWorldState) → Agrees hex_encode w b → IsFaithful w.trie
  Agrees-IsFaithful w agrees a v h = elim (agrees a) [
    | inl e ↦ some_inj v (encode_tension (balance_of a b)) (sym h ∙ e)
    | inr e ↦ absurd (cc (e.0, h))
  ]

  pub balances_from_trie-Agrees :
      (w : ManagedWorldState)
      → IsHex hex_encode hex_decode
      → IsSound b
      → IsMap w.trie
      → All (IsKeyed hex_encode) w.trie
      → Agrees hex_encode w b
      → (b' : BalanceLedger) × (balances_from_trie hex_decode w ≡ ok b')
        × ((a : AgentId) → balance_of a b' ≡ balance_of a b)
  unfolding balances_from_trie
  balances_from_trie-Agrees w x s m k agrees =
      let r =
        import_all-IsRead w.trie [] x s (All-IsEntry w.trie m k (Agrees-IsFaithful w agrees)) in
      (
        r.0,
        r.1,
        λ a. elim (r.2 a) [
          | inl q ↦ q
          | inr q ↦ elim (agrees a) [ inl e ↦ absurd (cc (q.0, e)) | inr e ↦ q.1 ∙ sym e.1 ]
        ],
      )
