-- ===== src/State/Balances/Transfer.antt =====
-- Transfers between agents: `BalanceLedger::transfer`.
use scc_blockchain.Prelude.{
  ◌≡◌, ◌≢◌, refl, arith, Bool-cases, inl, inr, ==_false, ◌==◌, ap, sym, ◌∙◌, ◌⊎◌,
}
use scc_blockchain.Prelude.Int.{pos, ltb_ℤ, leb_ℤ, ◌+ℤ◌, ◌-ℤ◌, ◌≤ℤ◌, ◌<ℤ◌, int_laws, leb_ℤ_of_gt}
use scc_blockchain.Prelude.Words.{i128_max}
use scc_blockchain.Prelude.Map.{insert, nat_eq, lookup-insert_self, lookup-insert_ne}
use scc_blockchain.Prelude.Result.{ok, err}
use scc_blockchain.Types.Tension.{TensionValue}
use scc_blockchain.State.Entries.{or_zero}
use scc_blockchain.State.Balances.{
  AgentId, BalanceLedger, BalanceError, balance_of, transfer, total_supply, insufficient_balance,
  amount_not_positive, transfer_to_self,
}
use scc_blockchain.State.Balances.Conservation.{
  IsSound, sum, total_supply-eq-sum, credit_lem, debit_lem, debit_short,
}

-- What a transfer asks for.
pub record CanTransfer (from to : AgentId) (amount : TensionValue) (b : BalanceLedger)
    : Type 0 where
  pub positive : pos 0 <ℤ amount
  pub distinct : from ≢ to
  pub covered : amount ≤ℤ balance_of from b

-- The ledger after the move.
abbrev pub moved : AgentId → AgentId → TensionValue → BalanceLedger → BalanceLedger
moved from to amount b =
    let b' = insert from (balance_of from b -ℤ amount) b in
    insert to (balance_of to b' +ℤ amount) b'

-- A transfer that may go through does, and keeps the sum.
transfer-moved :
    (from to : AgentId) (amount : TensionValue) (b : BalanceLedger)
    → IsSound b
    → CanTransfer from to amount b
    → (transfer from to amount b ≡ (moved from to amount b, ok tt))
      × IsSound (moved from to amount b)
      × (sum (moved from to amount b) ≡ sum b)
unfolding transfer
transfer-moved from to amount b h c =
    let b' : BalanceLedger = insert from (balance_of from b -ℤ amount) b in
    let fit : sum b ≤ℤ pos i128_max = h.fits in
    let positive : pos 0 <ℤ amount = c.positive in
    let d = debit_lem from amount b h (omega arith) c.covered in
    let e : sum b' ≡ sum b -ℤ amount = d.2 in
    let k = credit_lem to amount b' d.1 (omega arith) (rw e (omega int_laws)) in
    (
      rw (leb_ℤ_of_gt amount (pos 0) c.positive, ==_false from to c.distinct, d.0, k.2),
      rw k.2 at k.0,
      (rw k.2 at k.1) ∙ (rw e (omega int_laws)),
    )

-- The checks that a transfer makes decide between an error with the ledger as it was, and the move.
transfer-cases :
    (from to : AgentId) (amount : TensionValue) (b : BalanceLedger)
    → ((x : BalanceError) × (transfer from to amount b ≡ (b, err x))) ⊎ CanTransfer from to amount b
unfolding transfer
transfer-cases from to amount b = elim (Bool-cases (leb_ℤ amount (pos 0))) [
  | inl x ↦ inl (amount_not_positive, rw x)
  | inr x ↦ elim (Bool-cases (from == to)) [
    | inl y ↦ inl (transfer_to_self, rw (x, y))
    | inr y ↦ elim (Bool-cases (ltb_ℤ (balance_of from b) amount)) [
      | inl z ↦ inl (insufficient_balance, rw (x, y, debit_short from amount b (ground arith)))
      | inr z ↦
          inr (record { positive = ground arith; distinct = ground arith; covered = ground arith })
    ]
  ]
]

-- On a sound ledger (no negative balance, and a sum that an i128 holds), whatever the transfer
-- answers, the ledger stays sound and the total supply is what it was.
pub transfer_conserves :
    (from to : AgentId) (amount : TensionValue) (b : BalanceLedger)
    → IsSound b
    → let (b', r) = transfer from to amount b in IsSound b' × (total_supply b' ≡ total_supply b)
transfer_conserves from to amount b h = elim (transfer-cases from to amount b) [
  | inl (x, e) ↦ rw e (h, refl)
  | inr c ↦
      let m = transfer-moved from to amount b h c in
      rw m.0 (
        m.1,
        total_supply-eq-sum (moved from to amount b) m.1 ∙ m.2 ∙ sym (total_supply-eq-sum b h),
      )
]

-- On a sound ledger a positive amount that the sender's balance covers moves from the sender to another agent,
-- and no third balance changes.
pub transfer_moves :
    (from to other : AgentId) (amount : TensionValue) (b : BalanceLedger)
    → IsSound b
    → pos 0 <ℤ amount
    → from ≢ to
    → amount ≤ℤ balance_of from b
    → other ≢ from
    → other ≢ to
    → let (b', r) = transfer from to amount b in
      (r ≡ ok tt)
      × (balance_of from b' ≡ balance_of from b -ℤ amount)
      × (balance_of to b' ≡ balance_of to b +ℤ amount)
      × (balance_of other b' ≡ balance_of other b)
transfer_moves from to other amount b h p ne cover o1 o2 =
    let b' : BalanceLedger = insert from (balance_of from b -ℤ amount) b in
    let c : CanTransfer from to amount b = record {
      positive = p;
      distinct = ne;
      covered = cover;
    } in
    rw (transfer-moved from to amount b h c).0 (
      refl,
      ap or_zero (lookup-insert_ne from to _ b' ne ∙ lookup-insert_self from _ b),
      ap or_zero (lookup-insert_self to _ b')
          ∙ ap (λ o. or_zero o +ℤ amount) (lookup-insert_ne to from _ b (λ e. ne (sym e))),
      ap or_zero (lookup-insert_ne other to _ b' o2 ∙ lookup-insert_ne other from _ b o1),
    )
