-- ===== src/State/Balances/Conservation.antt =====
-- What the ledger operations do to the total supply.
use scc_blockchain.Prelude.{◌≡◌, refl, Bool, true, [], ◌∷◌, arith, ap, ◌∙◌}
use scc_blockchain.Prelude.Int.{
  ℤ, pos, pos_part, neg_part, ◌+ℤ◌, ◌-ℤ◌, ◌≤ℤ◌, ◌<ℤ◌, int_laws, ltb_ℤ_of_ge,
}
use scc_blockchain.Prelude.Words.{i128_max}
use scc_blockchain.Prelude.Map.{insert, nat_eq}
use scc_blockchain.Prelude.Result.{ok, err}
use scc_blockchain.Types.Tension.{TensionValue, add, sub, add_exact, sub_exact}
use scc_blockchain.State.Entries.{
  NonNeg, sum_if, insert-NonNeg, value_nonneg, sum_if-insert, value-le-sum_if, sum_if_nonneg,
}
use scc_blockchain.State.Balances.{
  AgentId, BalanceLedger, balance_of, credit, debit, total_supply, fold_supply,
  insufficient_balance,
}

abbrev pub everyone : AgentId → Bool
everyone k = true

-- The exact sum of the balances.
abbrev pub sum : BalanceLedger → ℤ
sum b = sum_if everyone b

-- No balance is negative, and the sum of all fits the i128 that holds it.
pub record IsSound (b : BalanceLedger) : Type 0 where
  pub nonneg : NonNeg b
  pub fits : sum b ≤ℤ pos i128_max

fold_supply-eq-sum :
    (acc : TensionValue) (b : BalanceLedger)
    → pos 0 ≤ℤ acc
    → NonNeg b
    → acc +ℤ sum b ≤ℤ pos i128_max
    → fold_supply acc b ≡ acc +ℤ sum b
unfolding fold_supply sum_if
fold_supply-eq-sum acc [] p h fits = omega int_laws
fold_supply-eq-sum acc ((k, v) ∷ b) p h fits =
    let s : pos 0 ≤ℤ sum_if everyone b = sum_if_nonneg everyone b h.1 in
    let e : add acc v ≡ acc +ℤ v = add_exact acc v (omega int_laws) in
    rw e (fold_supply-eq-sum (acc +ℤ v) b (omega int_laws) h.1 (omega int_laws) ∙ (omega int_laws))

-- In a sound ledger the saturating total supply is the exact sum.
pub total_supply-eq-sum : (b : BalanceLedger) → IsSound b → total_supply b ≡ sum b
unfolding total_supply
total_supply-eq-sum b h =
    fold_supply-eq-sum (pos 0) b (omega arith) h.nonneg (omega (int_laws, h.fits))
    ∙ (omega int_laws)

-- A write moves the sum by the change of the balance.
pub sum-insert :
    (k : AgentId) (v : TensionValue) (b : BalanceLedger)
    → sum (insert k v b) ≡ sum b -ℤ balance_of k b +ℤ v
sum-insert k v b =
    let e : sum (insert k v b) +ℤ balance_of k b ≡ sum b +ℤ v = sum_if-insert everyone k v b in
    omega (int_laws, ap pos_part e, ap neg_part e)

-- A balance is at most the sum.
pub balance-le-sum : (k : AgentId) (b : BalanceLedger) → IsSound b → balance_of k b ≤ℤ sum b
balance-le-sum k b h = value-le-sum_if everyone k b refl h.nonneg

-- Writing a balance that is not negative keeps the ledger sound while the sum fits.
insert-IsSound :
    (k : AgentId) (v : TensionValue) (b : BalanceLedger)
    → IsSound b
    → pos 0 ≤ℤ v
    → sum b -ℤ balance_of k b +ℤ v ≤ℤ pos i128_max
    → IsSound (insert k v b)
insert-IsSound k v b h p fits = record {
  nonneg = insert-NonNeg k v b p h.nonneg;
  fits = rw (sum-insert k v b) fits;
}

-- A credit that fits the total raises the account and the sum by exactly its amount.
pub credit_lem :
    (agent : AgentId) (amount : TensionValue) (b : BalanceLedger)
    → IsSound b
    → pos 0 ≤ℤ amount
    → sum b +ℤ amount ≤ℤ pos i128_max
    → IsSound (credit agent amount b)
      × (sum (credit agent amount b) ≡ sum b +ℤ amount)
      × (credit agent amount b ≡ insert agent (balance_of agent b +ℤ amount) b)
unfolding credit
credit_lem agent amount b h p fits =
    let low : pos 0 ≤ℤ balance_of agent b = value_nonneg agent b h.nonneg in
    let high : balance_of agent b ≤ℤ sum b = balance-le-sum agent b h in
    let e : add (balance_of agent b) amount ≡ balance_of agent b +ℤ amount =
      add_exact (balance_of agent b) amount (omega int_laws) in
    let after : ℤ = balance_of agent b +ℤ amount in
    rw e (
      insert-IsSound agent after b h (omega int_laws) (omega int_laws),
      sum-insert agent after b ∙ (omega int_laws),
      refl,
    )

-- A covered debit of an amount that is not negative lowers the account and the sum by the amount.
pub debit_lem :
    (agent : AgentId) (amount : TensionValue) (b : BalanceLedger)
    → IsSound b
    → pos 0 ≤ℤ amount
    → amount ≤ℤ balance_of agent b
    → let b' = insert agent (balance_of agent b -ℤ amount) b in
      (debit agent amount b ≡ (b', ok tt)) × IsSound b' × (sum b' ≡ sum b -ℤ amount)
unfolding debit
debit_lem agent amount b h p cover =
    let low : pos 0 ≤ℤ balance_of agent b = value_nonneg agent b h.nonneg in
    let high : balance_of agent b ≤ℤ sum b = balance-le-sum agent b h in
    let fit : sum b ≤ℤ pos i128_max = h.fits in
    let e : sub (balance_of agent b) amount ≡ balance_of agent b -ℤ amount =
      sub_exact (balance_of agent b) amount (omega int_laws) in
    let after : ℤ = balance_of agent b -ℤ amount in
    (
      rw (ltb_ℤ_of_ge (balance_of agent b) amount cover, e),
      insert-IsSound agent after b h (omega int_laws) (omega int_laws),
      sum-insert agent after b ∙ (omega int_laws),
    )

-- A debit that the balance does not cover is refused and changes nothing.
pub debit_short :
    (agent : AgentId) (amount : TensionValue) (b : BalanceLedger)
    → balance_of agent b <ℤ amount
    → debit agent amount b ≡ (b, err insufficient_balance)
unfolding debit
debit_short agent amount b h = ground arith
