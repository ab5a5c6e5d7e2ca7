-- ===== src/State/Apply/Supply.antt =====
-- The transitions of a block keep the supply: `apply_block_transitions` of
-- crates/sccgub-state/src/apply.rs.
use scc_blockchain.Prelude.{◌≡◌, ℕ, suc, refl, ◌∙◌, ap, List, [], ◌∷◌, length, Bool-cases, inl, inr}
use scc_blockchain.Prelude.Result.{Outcome, ok, err}
use scc_blockchain.Consensus.Quorum.{mem}
use scc_blockchain.Types.Transition.{
  Bytes, SymbolicTransition, OperationPayload, write, transfer, register_agent, propose_norm,
  deploy_contract, invoke_contract, noop,
}
use scc_blockchain.State.Balances.{AgentId, BalanceLedger, total_supply}
use scc_blockchain.State.Balances
use scc_blockchain.State.Balances.Conservation.{IsSound}
use scc_blockchain.State.Balances.Transfer.{transfer_conserves}
use scc_blockchain.State.World.{ManagedWorldState}
use scc_blockchain.State.Apply.{
  BalanceError, Progress, apply_payload, apply_each, apply_block_transitions, transferred,
}

abbrev Keeps : BalanceLedger → BalanceLedger → Type 0
Keeps b b' = IsSound b' × (total_supply b' ≡ total_supply b)

module _ (hex_encode : AgentId → Bytes) where
  pub transferred-ledger :
      (from to : AgentId) (p : Progress) (o : Outcome BalanceLedger BalanceError (Unit {0}))
      → (transferred hex_encode from to p o).0.1 ≡ o.0
  transferred-ledger from to p (b, err e) = refl
  transferred-ledger from to p (b, ok u) = refl

  apply_payload-Keeps :
      (x : OperationPayload) (p : Progress)
      → IsSound p.1
      → Keeps p.1 (apply_payload hex_encode x p).0.1
  apply_payload-Keeps (write key value) p s = (s, refl)
  apply_payload-Keeps (transfer from to amount) p s =
      rw (transferred-ledger from to p (Balances.transfer from to amount p.1))
        (transfer_conserves from to amount p.1 s)
  apply_payload-Keeps (register_agent k) p s = (s, refl)
  apply_payload-Keeps (propose_norm n d) p s = (s, refl)
  apply_payload-Keeps (deploy_contract c) p s = (s, refl)
  apply_payload-Keeps (invoke_contract c m args) p s = (s, refl)
  apply_payload-Keeps noop p s = (s, refl)

  apply_each-Keeps :
      (applied : List ℕ) (txs : List SymbolicTransition) (p : Progress)
      → IsSound p.1
      → let (q, deltas) = apply_each hex_encode applied txs p in
        Keeps p.1 q.1 × (length deltas ≡ length txs)
  apply_each-Keeps applied [] p s = ((s, refl), refl)
  apply_each-Keeps applied (tx ∷ txs) p s = elim (Bool-cases (mem tx.tx_id applied)) [
    | inl m ↦ (let r = apply_each-Keeps applied txs p s in rw (apply_each, m) (r.0, ap suc r.1))
    | inr m ↦
        (let now = apply_payload-Keeps tx.payload p s in
          let r =
            apply_each-Keeps (tx.tx_id ∷ applied) txs (apply_payload hex_encode tx.payload p).0
              now.0 in
          rw (apply_each, m) ((r.0.0, r.0.1 ∙ now.1), ap suc r.1))
  ]

  -- On a sound ledger, the transitions of a block leave a sound ledger with the same total supply,
  -- and there is one delta for each transition.
  pub apply_block_transitions_conserves :
      (txs : List SymbolicTransition) (w : ManagedWorldState) (b : BalanceLedger)
      → IsSound b
      → let (w', b', deltas) = apply_block_transitions hex_encode txs w b in
        IsSound b' × (total_supply b' ≡ total_supply b) × (length deltas ≡ length txs)
  unfolding apply_block_transitions
  apply_block_transitions_conserves txs w b s =
      let r = apply_each-Keeps [] txs (w, b, []) s in (r.0.0, r.0.1, r.1)
