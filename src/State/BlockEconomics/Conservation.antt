-- ===== src/State/BlockEconomics/Conservation.antt =====
-- Fees and rewards move value between the ledger and the treasury: `apply_block_economics` of
-- crates/sccgub-state/src/apply.rs.
use scc_blockchain.Prelude.{
  ℕ, ◌≡◌, ◌≢◌, refl, ◌∙◌, ap, ◌&&◌, not, some, List, [], ◌∷◌, ◌==◌, arith, Bool-cases, Option-cases,
  inl, inr, length,
}
use scc_blockchain.Prelude.Int.{ℤ, pos, ◌+ℤ◌, ◌-ℤ◌, ◌≤ℤ◌, ◌<ℤ◌, ltb_ℤ, int_laws}
use scc_blockchain.Prelude.Words.{i128_max}
use scc_blockchain.Prelude.Result.{err_inj, ok, err, Outcome}
use scc_blockchain.Prelude.Map.{insert, nat_eq}
use scc_blockchain.State.Entries.{sum_if_nonneg}
use scc_blockchain.Types.Tension.{TensionValue, add_exact}
use scc_blockchain.Types.Transition.{Bytes, SymbolicTransition}
use scc_blockchain.State.Balances.{
  AgentId, BalanceLedger, BalanceError, balance_of, credit, debit, total_supply,
}
use scc_blockchain.State.Balances.Conservation.{
  everyone, balance-le-sum, IsSound, sum, total_supply-eq-sum, credit_lem, debit_lem,
}
use scc_blockchain.State.Treasury.{Treasury, collect_fee, distribute_reward, clamped, net_balance}
use scc_blockchain.State.Treasury.Conservation.{distribute_reward_lem}
use scc_blockchain.State.Fees.{
  Receipt, EconomicsError, fee_debit_failed, Books, Charged, nothing_charged, charge, charge_all,
  charge_payer, resolve_fee_payer, fee_of,
}
use scc_blockchain.State.BlockEconomics.{
  ManagedWorldState, rewarded, charge_block, settle, apply_block_economics, validator_spend_account,
}

-- A sound ledger whose supply fits an i128 together with the fees that the treasury holds.
pub record IsFunded (k : Books) : Type 0 where
  pub sound : IsSound k.balances
  pub pending : pos 0 ≤ℤ k.treasury.pending_fees
  pub fits : sum k.balances +ℤ k.treasury.pending_fees ≤ℤ pos i128_max

abbrev wealth : Books → ℤ
wealth k = sum k.balances +ℤ k.treasury.pending_fees

abbrev Keeps : Books → Books → Type 0
Keeps k k' = IsFunded k' × (wealth k' ≡ wealth k)

Keeps-trans : (j k l : Books) → Keeps j k → Keeps k l → Keeps j l
Keeps-trans j k l p q = (q.0, q.1 ∙ p.1)

-- The payer of a fee has the fee.
resolve_fee_payer_covers :
    (v : ℕ) (b : BalanceLedger) (tx : SymbolicTransition) (fee : TensionValue) (payer : AgentId)
    → resolve_fee_payer v b tx fee ≡ some payer
    → pos 0 <ℤ fee
    → fee ≤ℤ balance_of payer b
unfolding resolve_fee_payer
resolve_fee_payer_covers v b tx fee payer h p = ground arith

pending-collect_fee :
    (fee : TensionValue) (t : Treasury)
    → pos 0 ≤ℤ t.pending_fees
    → pos 0 <ℤ fee
    → t.pending_fees +ℤ fee ≤ℤ pos i128_max
    → (collect_fee fee t).pending_fees ≡ t.pending_fees +ℤ fee
unfolding collect_fee
pending-collect_fee fee t p q f =
    let same : clamped fee ≡ fee = ground arith in
    rw same (add_exact t.pending_fees fee (omega int_laws))

-- The books after a fee.
abbrev paid_fee : AgentId → TensionValue → Books → Books
paid_fee payer fee k = record k {
  balances = insert payer (balance_of payer k.balances -ℤ fee) k.balances;
  treasury = collect_fee fee k.treasury;
}

paid_fee-Keeps :
    (payer : AgentId) (fee : TensionValue) (k : Books)
    → IsFunded k
    → pos 0 <ℤ fee
    → fee ≤ℤ balance_of payer k.balances
    → (debit payer fee k.balances ≡ ((paid_fee payer fee k).balances, ok tt))
      × Keeps k (paid_fee payer fee k)
paid_fee-Keeps payer fee k f p cover =
    let d = debit_lem payer fee k.balances f.sound (omega arith) cover in
    let sum' : sum (paid_fee payer fee k).balances ≡ sum k.balances -ℤ fee = d.2 in
    let low : pos 0 ≤ℤ k.treasury.pending_fees = f.pending in
    let fits : sum k.balances +ℤ k.treasury.pending_fees ≤ℤ pos i128_max = f.fits in
    let high : balance_of payer k.balances ≤ℤ sum k.balances =
      balance-le-sum payer k.balances f.sound in
    let pending' = pending-collect_fee fee k.treasury low p (omega int_laws) in
    let same : wealth (paid_fee payer fee k) ≡ wealth k = rw (sum', pending') (omega int_laws) in
    (
      d.0,
      (record { sound = d.1; pending = rw pending' (omega int_laws); fits = rw same fits }, same),
    )

-- A turn keeps the wealth, and its debit does not fail.
abbrev IsFair : Books → {A : Type 0} → Outcome Books EconomicsError A → Type 0
IsFair k o = Keeps k o.0 × ((x : BalanceError) → o.1 ≢ err (fee_debit_failed x))

module _ (hex_encode : AgentId → Bytes) where
  charge_payer-IsFair :
      (v : ℕ) (tx : SymbolicTransition) (fee : TensionValue) (c : Charged) (k : Books)
      → IsFunded k
      → IsFair k (charge_payer hex_encode fee c k (resolve_fee_payer v k.balances tx fee))
  charge_payer-IsFair v tx fee c k f = elim (Option-cases (resolve_fee_payer v k.balances tx fee)) [
    | inl n ↦ rw n ((f, refl), λ x h. cc h)
    | inr (payer, e) ↦ elim (Bool-cases (ltb_ℤ (pos 0) fee)) [
      | inr z ↦ rw (e, z) ((f, refl), λ x h. cc h)
      | inl z ↦
          let p : pos 0 <ℤ fee = ground arith in
          let cover = resolve_fee_payer_covers v k.balances tx fee payer e p in
          let d = paid_fee-Keeps payer fee k f p cover in rw (e, z, d.0) (d.1, λ x h. cc h)
    ]
  ]

  charge-IsFair :
      (v : ℕ) (g : TensionValue) (tx : SymbolicTransition) (r : Receipt) (c : Charged) (k : Books)
      → IsFunded k
      → IsFair k (charge hex_encode v g tx r c k)
  charge-IsFair v g tx r c k f = elim (Bool-cases (r.tx_id == tx.tx_id)) [
    | inr n ↦ rw n ((f, refl), λ x h. cc h)
    | inl y ↦ elim (Bool-cases r.is_accepted) [
      | inr n ↦ rw (y, n) ((f, refl), λ x h. cc h)
      | inl z ↦ rw (y, z) (charge_payer-IsFair v tx (fee_of r.compute_steps g) c k f)
    ]
  ]

  charge_all-IsFair :
      (v : ℕ) (g : TensionValue) (txs : List SymbolicTransition) (rs : List Receipt) (k : Books)
      (o : Outcome Books EconomicsError Charged)
      → IsFair k o
      → IsFair k (charge_all hex_encode v g txs rs o)
  charge_all-IsFair v g txs rs k (j, err e) f = f
  charge_all-IsFair v g [] rs k (j, ok c) f = f
  charge_all-IsFair v g (tx ∷ txs) [] k (j, ok c) f = f
  charge_all-IsFair v g (tx ∷ txs) (r ∷ rs) k (j, ok c) f =
      let turn = charge-IsFair v g tx r c j f.0.0 in
      charge_all-IsFair v g txs rs k (charge hex_encode v g tx r c j)
        (Keeps-trans k j (charge hex_encode v g tx r c j).0 f.0 turn.0, turn.1)

  charge_block-IsFair :
      (v : ℕ) (g : TensionValue) (txs : List SymbolicTransition) (rs : List Receipt) (k : Books)
      → IsFunded k
      → IsFair k (charge_block hex_encode v g txs rs k)
  charge_block-IsFair v g txs [] k f = ((f, refl), λ x h. cc h)
  charge_block-IsFair v g txs (r ∷ rs) k f =
      charge_all-IsFair v g txs (r ∷ rs) k (k, ok nothing_charged) ((f, refl), λ x h. cc h)

  -- The reward moves from the treasury to the account.
  reward-Keeps :
      (account : AgentId) (requested : TensionValue) (k : Books) (w : ManagedWorldState)
      → IsFunded k
      → let (t, paid) = distribute_reward requested k.treasury in
        Keeps k (record {
          world = w;
          balances = rewarded hex_encode account paid k.balances;
          treasury = t;
        })
  unfolding net_balance
  reward-Keeps account requested k w f =
      let fits : sum k.balances +ℤ k.treasury.pending_fees ≤ℤ pos i128_max = f.fits in
      let low : pos 0 ≤ℤ k.treasury.pending_fees = f.pending in
      let high : pos 0 ≤ℤ sum k.balances = sum_if_nonneg everyone k.balances f.sound.nonneg in
      let d = distribute_reward_lem requested k.treasury low (omega int_laws) in
      let t : Treasury = (distribute_reward requested k.treasury).0 in
      let paid : TensionValue = (distribute_reward requested k.treasury).1 in
      let up : pos 0 ≤ℤ paid = d.0 in
      let most : paid ≤ℤ k.treasury.pending_fees = d.1 in
      let left : t.pending_fees ≡ k.treasury.pending_fees -ℤ paid = d.3 in
      let rest : pos 0 ≤ℤ t.pending_fees = rw left (omega int_laws) in
      elim (Bool-cases (ltb_ℤ (pos 0) paid)) [
        | inl z ↦
            let c = credit_lem account paid k.balances f.sound up (omega int_laws) in
            let same : sum (credit account paid k.balances) +ℤ t.pending_fees ≡ wealth k =
              rw (c.1, left) (omega int_laws) in
            rw z (record { sound = c.0; pending = rest; fits = rw same fits }, same)
        | inr z ↦
            let none_paid : paid ≤ℤ pos 0 = ground arith in
            let same : sum k.balances +ℤ t.pending_fees ≡ wealth k = rw left (omega int_laws) in
            rw z (record { sound = f.sound; pending = rest; fits = rw same fits }, same)
      ]

  settle-IsFair :
      (account : AgentId) (requested : TensionValue) (k : Books)
      (o : Outcome Books EconomicsError Charged)
      → IsFair k o
      → IsFair k (settle hex_encode account requested o)
  settle-IsFair account requested k (j, err e) f =
      (f.0, λ x h. f.1 x (ap err (err_inj e (fee_debit_failed x) h)))
  settle-IsFair account requested k (j, ok c) f =
      let w = (settle hex_encode account requested (j, ok c)).0.world in
      let r = reward-Keeps account requested j w f.0.0 in
      (Keeps-trans k j (settle hex_encode account requested (j, ok c)).0 f.0 r, λ x h. cc h)

  economics-IsFair :
      (derive : ℕ → AgentId) (v key : ℕ) (g requested : TensionValue)
      (txs : List SymbolicTransition) (rs : List Receipt) (k : Books)
      → IsFunded k
      → IsFair k (apply_block_economics hex_encode derive v key g requested txs rs k)
  unfolding apply_block_economics
  economics-IsFair derive v key g requested txs rs k f =
      elim (Bool-cases (not (length rs == 0) && not (length rs == length txs))) [
        | inl m ↦ rw m ((f, refl), λ x h. cc h)
        | inr m ↦ rw m (
            settle-IsFair (validator_spend_account derive v key) requested k
              (charge_block hex_encode v g txs rs k) (charge_block-IsFair v g txs rs k f))
      ]

  -- On a sound ledger whose supply fits an i128 together with pending fees that are not negative,
  -- `apply_block_economics` leaves books of this kind, and the sum of the total supply and the
  -- treasury's net balance is what it was, whatever it answers, an error included.
  pub apply_block_economics_conserves :
      (derive : ℕ → AgentId) (v key : ℕ) (g requested : TensionValue)
      (txs : List SymbolicTransition) (rs : List Receipt) (k : Books)
      → IsFunded k
      → let (k', r) = apply_block_economics hex_encode derive v key g requested txs rs k in
        IsFunded k'
        × (total_supply k'.balances +ℤ net_balance k'.treasury
            ≡ total_supply k.balances +ℤ net_balance k.treasury)
  unfolding net_balance
  apply_block_economics_conserves derive v key g requested txs rs k f =
      let k' : Books = (apply_block_economics hex_encode derive v key g requested txs rs k).0 in
      let fair = (economics-IsFair derive v key g requested txs rs k f).0 in
      (
        fair.0,
        rw (total_supply-eq-sum k'.balances fair.0.sound, total_supply-eq-sum k.balances f.sound)
            (fair.1),
      )

  -- On such books, the debit of a fee from the payer that was resolved for it never fails.
  pub fee_debit_never_fails :
      (derive : ℕ → AgentId) (v key : ℕ) (g requested : TensionValue)
      (txs : List SymbolicTransition) (rs : List Receipt) (k : Books) (x : BalanceError)
      → IsFunded k
      → (apply_block_economics hex_encode derive v key g requested txs rs k).1
        ≢ err (fee_debit_failed x)
  fee_debit_never_fails derive v key g requested txs rs k x f =
      (economics-IsFair derive v key g requested txs rs k f).1 x
