-- ===== src/State/Escrow/Reach.antt =====
-- Runs of the escrow operations, in any order.
use scc_blockchain.Prelude.{subst, ℕ, ◌≡◌, refl, ◌∙◌, sym, List}
use scc_blockchain.Prelude.Int.{◌+ℤ◌}
use scc_blockchain.Prelude.Map.{Map}
use scc_blockchain.Types.Tension.{TensionValue}
use scc_blockchain.State.Balances.{BalanceLedger, AgentId, total_supply}
use scc_blockchain.State.Balances.Conservation.{total_supply-eq-sum}
use scc_blockchain.State.Escrow.{
  EscrowRegistry, EscrowCondition, Hash, Bytes, total_locked, create, release, refund,
  check_and_release,
}
use scc_blockchain.State.Escrow.Custody.{Custody, total_locked-eq}
use scc_blockchain.State.Escrow.Settle.{
  held, Keeps, create-Keeps, release-Keeps, refund-Keeps, release_due-Keeps,
}

abbrev pub State : Type 0
State = EscrowRegistry × BalanceLedger

-- One call, whatever it answers.
pub data Step (escrow_id : AgentId → AgentId → TensionValue → ℕ → Hash) (s : State)
    : State → Type 0 where
  creates :
      (sender recipient : AgentId) (amount : TensionValue) (condition : EscrowCondition)
      (height timeout : ℕ)
      → Step escrow_id s
          (create escrow_id sender recipient amount condition height timeout s.0 s.1).0
  releases : (id : Hash) → Step escrow_id s (release id s.0 s.1).0
  refunds : (id : Hash) (height : ℕ) → Step escrow_id s (refund id height s.0 s.1).0
  checks :
      (trie : Map Bytes Bytes) (height : ℕ) (writers : Map Bytes Hash) (r : EscrowRegistry)
      (b : BalanceLedger) (ids : List Hash)
      → check_and_release trie height writers s.0 s.1 ≡ (r, b, ids)
      → Step escrow_id s (r, b)

pub data Reach (escrow_id : AgentId → AgentId → TensionValue → ℕ → Hash) (s : State)
    : State → Type 0 where
  here : Reach escrow_id s s
  next : {t u : State} → Reach escrow_id s t → Step escrow_id t u → Reach escrow_id s u

abbrev KeepsState : State → State → Type 0
KeepsState s t = Keeps s.0.escrows s.1 t.0.escrows t.1

Step-Keeps :
    (escrow_id : AgentId → AgentId → TensionValue → ℕ → Hash) {s t : State}
    → Step escrow_id s t
    → Custody s.0.escrows s.1
    → KeepsState s t
unfolding check_and_release
Step-Keeps escrow_id {s} (creates sender recipient amount condition height timeout) c =
    create-Keeps escrow_id sender recipient amount condition height timeout s.0 s.1 c
Step-Keeps escrow_id {s} (releases id) c = release-Keeps id s.0 s.1 c
Step-Keeps escrow_id {s} (refunds id height) c = refund-Keeps id height s.0 s.1 c
Step-Keeps escrow_id {s} (checks trie height writers r b ids e) c =
    let k = release_due-Keeps trie height writers s.0.escrows s.1 c in
    subst
      (λ (o : EscrowRegistry × BalanceLedger × List Hash). Keeps s.0.escrows s.1 o.0.escrows o.1) e
      k

Reach-Keeps :
    (escrow_id : AgentId → AgentId → TensionValue → ℕ → Hash) {s t : State}
    → Custody s.0.escrows s.1
    → Reach escrow_id s t
    → KeepsState s t
Reach-Keeps escrow_id c here = (c, refl)
Reach-Keeps escrow_id c (next r st) =
    let k = Reach-Keeps escrow_id c r in let l = Step-Keeps escrow_id st k.0 in (l.0, l.1 ∙ k.1)

-- From a state under custody (a sound ledger, no escrow of a negative amount, and a sum of balances
-- and active escrows that an i128 holds), any sequence of calls of `create`, `release`, `refund` and
-- `check_and_release`, failed ones included, leads to a state under custody in which the total
-- supply and the total locked add up to what they did.
pub Reach-conserves :
    (escrow_id : AgentId → AgentId → TensionValue → ℕ → Hash) (s t : State)
    → Custody s.0.escrows s.1
    → Reach escrow_id s t
    → Custody t.0.escrows t.1
      × (total_supply t.1 +ℤ total_locked t.0 ≡ total_supply s.1 +ℤ total_locked s.0)
Reach-conserves escrow_id s t c r =
    let k = Reach-Keeps escrow_id c r in (k.0, code_held t k.0 ∙ k.1 ∙ sym (code_held s c))
  where
    code_held :
        (u : State)
        → Custody u.0.escrows u.1
        → total_supply u.1 +ℤ total_locked u.0 ≡ held u.0.escrows u.1
    code_held u d = rw (total_supply-eq-sum u.1 d.sound, total_locked-eq u.0 u.1 d)
