-- ===== src/State/Apply/Agreement.antt =====
-- The trie has the balances of the ledger: `commit_balance_accounts` and `apply_block_transitions` of
-- crates/sccgub-state/src/apply.rs.
use scc_blockchain.Prelude.{
  ap₂, ◌≡◌, ◌≢◌, ◌⊎◌, ℕ, refl, ◌∙◌, ap, false, none, some, List, [], ◌∷◌, ◌==◌, All, arith,
  Bool-cases, inl, inr,
}
use scc_blockchain.Prelude.Int.{pos, leb_ℤ, ltb_ℤ}
use scc_blockchain.Prelude.Map.{lookup-insert_ne, nat_eq}
use scc_blockchain.Prelude.Result.{Result, ok, err, Outcome, Result-cases}
use scc_blockchain.Consensus.Quorum.{mem}
use scc_blockchain.Types.Tension.{TensionValue}
use scc_blockchain.Types.Transition.{
  Bytes, SymbolicTransition, OperationPayload, write, transfer, register_agent, propose_norm,
  deploy_contract, invoke_contract, noop,
}
use scc_blockchain.State.Entries.{or_zero}
use scc_blockchain.State.Balances.{AgentId, BalanceLedger, BalanceError, balance_of, debit}
use scc_blockchain.State.Balances
use scc_blockchain.State.Treasury.Codec.{encode_tension, starts_with}
use scc_blockchain.State.World.{ManagedWorldState, get, commit}
use scc_blockchain.State.World.Commit.{get-commit_ne}
use scc_blockchain.State.Apply.Commits.{
  key, key_apart, IsKeying, IsKeying-limit, get-commit_each, limit_commit, mem-insert_id,
}
use scc_blockchain.State.Apply.{
  ns_balance, Progress, insert_id, commit_each, commit_balance_accounts, transferred, apply_payload,
  apply_each, apply_block_transitions,
}

-- A transfer touches the balances of its two agents, and none when it fails.
transfer_other :
    (from to a : AgentId) (amount : TensionValue) (b : BalanceLedger)
    → a ≢ from
    → a ≢ to
    → balance_of a (Balances.transfer from to amount b).0 ≡ balance_of a b
unfolding Balances.transfer debit Balances.credit
transfer_other from to a amount b f t = elim (Bool-cases (leb_ℤ amount (pos 0))) [
  | inl x ↦ rw x refl
  | inr x ↦ elim (Bool-cases (from == to)) [
    | inl y ↦ rw (x, y) refl
    | inr y ↦ elim (Bool-cases (ltb_ℤ (balance_of from b) amount)) [
      | inl z ↦ rw (x, y, z) refl
      | inr z ↦
          rw (x, y, z) (ap or_zero (lookup-insert_ne a to _ _ t ∙ lookup-insert_ne a from _ b f))
    ]
  ]
]

transfer_err :
    (from to : AgentId) (amount : TensionValue) (b : BalanceLedger) (e : BalanceError)
    → (Balances.transfer from to amount b).1 ≡ err e
    → (Balances.transfer from to amount b).0 ≡ b
unfolding Balances.transfer debit
transfer_err from to amount b e h = elim (Bool-cases (leb_ℤ amount (pos 0))) [
  | inl x ↦ rw x refl
  | inr x ↦ elim (Bool-cases (from == to)) [
    | inl y ↦ rw (x, y) refl
    | inr y ↦ elim (Bool-cases (ltb_ℤ (balance_of from b) amount)) [
      | inl z ↦ rw (x, y, z) refl
      | inr z ↦ absurd (cc (rw (x, y, z) at h))
    ]
  ]
]

outcome :
    {S E A : Type 0} (o : Outcome S E A) (s : S) (r : Result E A) → o.0 ≡ s → o.1 ≡ r → o ≡ (s, r)
outcome o s r p q = ap₂ (λ x y. (x, y)) p q

-- A payload that writes to no address of the balances.
abbrev pub IsElsewhere : OperationPayload → Type 0
IsElsewhere (write key value) = starts_with ns_balance key ≡ false
IsElsewhere x = Unit

module _ (hex_encode : AgentId → Bytes) where
  -- What the loop has left alone: an account that has not changed has its entry and its balance.
  pub record IsTracked (w : ManagedWorldState) (b : BalanceLedger) (p : Progress) : Type 0 where
    pub limit : p.0.max_state_entry_size ≡ w.max_state_entry_size
    pub entries : (a : AgentId) → get (key hex_encode a) p.0 ≡ get (key hex_encode a) w
    pub balances : (a : AgentId) → mem a p.2 ≡ false → balance_of a p.1 ≡ balance_of a b

  transferred-IsTracked :
      (from to : AgentId) (amount : TensionValue) (w : ManagedWorldState) (b : BalanceLedger)
      (p : Progress)
      → IsTracked w b p
      → IsTracked w b (transferred hex_encode from to p (Balances.transfer from to amount p.1)).0
  transferred-IsTracked from to amount w b p t =
      let o : Outcome BalanceLedger BalanceError (Unit {0}) =
        Balances.transfer from to amount p.1 in
      elim (Result-cases o.1) [
        | inl (e, q) ↦
            let same : o ≡ (p.1, err e) =
              outcome o p.1 (err e) (transfer_err from to amount p.1 e q) q in
            rw same t
        | inr (u, q) ↦
            let done : o ≡ (o.0, ok u) = outcome o o.0 (ok u) refl q in
            rw done (record {
              limit = t.limit;
              entries = t.entries;
              balances = λ a m.
                  (let absent = mem-insert_id a to (insert_id from p.2) in
                    let absent' = mem-insert_id a from p.2 in
                    let before : mem a p.2 ≡ false = ground (arith, absent, absent', m) in
                    let f : a ≢ from = (λ r. ground (arith, absent, absent', m, r)) in
                    let g : a ≢ to = (λ r. ground (arith, absent, m, r)) in
                    transfer_other from to a amount p.1 f g ∙ t.balances a before);
            })
      ]

  apply_payload-IsTracked :
      (x : OperationPayload) (w : ManagedWorldState) (b : BalanceLedger) (p : Progress)
      → IsElsewhere x
      → IsTracked w b p
      → IsTracked w b (apply_payload hex_encode x p).0
  unfolding commit
  apply_payload-IsTracked (write k v) w b p e t = record {
    limit = limit_commit k v p.0 ∙ t.limit;
    entries =
        λ a. get-commit_ne (key hex_encode a) k v p.0 (key_apart hex_encode a k e) ∙ t.entries a;
    balances = t.balances;
  }
  apply_payload-IsTracked (transfer from to amount) w b p e t =
      transferred-IsTracked from to amount w b p t
  apply_payload-IsTracked (register_agent k) w b p e t = t
  apply_payload-IsTracked (propose_norm n d) w b p e t = t
  apply_payload-IsTracked (deploy_contract c) w b p e t = t
  apply_payload-IsTracked (invoke_contract c m args) w b p e t = t
  apply_payload-IsTracked noop w b p e t = t

  apply_each-IsTracked :
      (applied : List ℕ) (txs : List SymbolicTransition) (w : ManagedWorldState) (b : BalanceLedger)
      (p : Progress)
      → All (λ tx. IsElsewhere tx.payload) txs
      → IsTracked w b p
      → IsTracked w b (apply_each hex_encode applied txs p).0
  apply_each-IsTracked applied [] w b p e t = t
  apply_each-IsTracked applied (tx ∷ txs) w b p e t = elim (Bool-cases (mem tx.tx_id applied)) [
    | inl m ↦ rw (apply_each, m) (apply_each-IsTracked applied txs w b p e.1 t)
    | inr m ↦
        rw (apply_each, m)
          (apply_each-IsTracked (tx.tx_id ∷ applied) txs w b
            (apply_payload hex_encode tx.payload p).0 e.1
            (apply_payload-IsTracked tx.payload w b p e.0 t))
  ]

  -- Every account has its balance in the trie, or no entry and no balance.
  abbrev pub Agrees : ManagedWorldState → BalanceLedger → Type 0
  Agrees w b =
      (a : AgentId)
      → (get (key hex_encode a) w ≡ some (encode_tension (balance_of a b)))
        ⊎ ((get (key hex_encode a) w ≡ none) × (balance_of a b ≡ pos 0))

  -- Where every account has its balance in the trie, or neither an entry nor a balance, a block whose
  -- `Write` payloads keep out of the namespace of the balances leaves ledger and trie so. Agents have
  -- different texts, and the limit of the entries has room for the keys and the 16 bytes of a balance.
  pub apply_block_transitions-Agrees :
      (txs : List SymbolicTransition) (w : ManagedWorldState) (b : BalanceLedger)
      → IsKeying hex_encode w
      → All (λ tx. IsElsewhere tx.payload) txs
      → Agrees w b
      → let (w', b', deltas) = apply_block_transitions hex_encode txs w b in Agrees w' b'
  unfolding apply_block_transitions commit_balance_accounts
  apply_block_transitions-Agrees txs w b k e agrees a =
      let r = (apply_each hex_encode [] txs (w, b, [])).0 in
      let t =
        apply_each-IsTracked [] txs w b (w, b, []) e
          (record { limit = refl; entries = λ x. refl; balances = λ x m. refl }) in
      let final =
        get-commit_each hex_encode a r.2 r.1 r.0 (IsKeying-limit hex_encode r.0 w t.limit k) in
      elim (Bool-cases (mem a r.2)) [
        | inl m ↦ inl (final ∙ rw m refl)
        | inr m ↦
            let entry : get (key hex_encode a) (commit_each hex_encode r.2 r.1 r.0)
                ≡ get (key hex_encode a) w =
              final ∙ (rw m (t.entries a)) in
            let balance = t.balances a m in rw (entry, balance) (agrees a)
      ]
