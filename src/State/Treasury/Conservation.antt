-- ===== src/State/Treasury/Conservation.antt =====
-- Every fee that the treasury took in is pending, distributed or burned.
use scc_blockchain.Prelude.{ap, ◌≡◌, arith, Bool-cases, inl, inr}
use scc_blockchain.Prelude.Int.{
  neg_part, pos_part, ℤ, pos, ltb_ℤ, ◌+ℤ◌, ◌-ℤ◌, ◌≤ℤ◌, int_laws, ltb_ℤ_of_ge,
}
use scc_blockchain.Prelude.Words.{i128_max}
use scc_blockchain.Types.Tension.{TensionValue, add, sub, add_exact, sub_exact}
use scc_blockchain.State.Treasury.{
  Treasury, clamped, payable, collect_fee, distribute_reward, burn, advance_epoch, net_balance,
}

-- The books: the counters are not negative, they add up, and the epoch's are part of the totals.
pub record IsBalanced (t : Treasury) : Type 0 where
  pub pending : pos 0 ≤ℤ t.pending_fees
  pub distributed : pos 0 ≤ℤ t.total_rewards_distributed
  pub burned : pos 0 ≤ℤ t.total_burned
  pub epoch_in : pos 0 ≤ℤ t.epoch_fees
  pub epoch_out : pos 0 ≤ℤ t.epoch_rewards
  pub books :
      t.total_fees_collected ≡ t.pending_fees +ℤ t.total_rewards_distributed +ℤ t.total_burned
  pub fees_part : t.epoch_fees ≤ℤ t.total_fees_collected
  pub rewards_part : t.epoch_rewards ≤ℤ t.total_rewards_distributed
  pub fits : t.total_fees_collected ≤ℤ pos i128_max

clamped_nonneg : (a : TensionValue) → pos 0 ≤ℤ clamped a
clamped_nonneg a = ground arith

payable_bounds :
    (a : TensionValue) (t : Treasury)
    → pos 0 ≤ℤ t.pending_fees
    → (pos 0 ≤ℤ payable a t) × (payable a t ≤ℤ t.pending_fees)
payable_bounds a t h = ground arith

-- The balances of the books as inequalities over the parts of each counter.
module _ (t : Treasury) (h : IsBalanced t) where
  -- The parts of the two sides of the books, for the arithmetic.
  books_parts :
      (pos_part t.total_fees_collected
        ≡ pos_part (t.pending_fees +ℤ t.total_rewards_distributed +ℤ t.total_burned))
      × (neg_part t.total_fees_collected
          ≡ neg_part (t.pending_fees +ℤ t.total_rewards_distributed +ℤ t.total_burned))
  books_parts = (ap pos_part h.books, ap neg_part h.books)

  -- Collecting a fee whose total still fits keeps the books.
  pub collect_fee-IsBalanced :
      (a : TensionValue)
      → t.total_fees_collected +ℤ clamped a ≤ℤ pos i128_max
      → IsBalanced (collect_fee a t)
  unfolding collect_fee
  collect_fee-IsBalanced a room =
      let s : ℤ = clamped a in
      let p : pos 0 ≤ℤ s = clamped_nonneg a in
      let e1 : add t.pending_fees s ≡ t.pending_fees +ℤ s =
        add_exact t.pending_fees s (omega (int_laws, books_parts, h)) in
      let e2 : add t.total_fees_collected s ≡ t.total_fees_collected +ℤ s =
        add_exact t.total_fees_collected s (omega (int_laws, books_parts, h)) in
      let e3 : add t.epoch_fees s ≡ t.epoch_fees +ℤ s =
        add_exact t.epoch_fees s (omega (int_laws, books_parts, h)) in
      rw (e1, e2, e3) (omega (int_laws, books_parts, h))

  distribute_reward-IsBalanced : (a : TensionValue) → IsBalanced (distribute_reward a t).0
  unfolding distribute_reward
  distribute_reward-IsBalanced a =
      let s : ℤ = payable a t in
      let p = payable_bounds a t h.pending in
      let e1 : sub t.pending_fees s ≡ t.pending_fees -ℤ s =
        sub_exact t.pending_fees s (omega (int_laws, books_parts, h)) in
      let e2 : add t.total_rewards_distributed s ≡ t.total_rewards_distributed +ℤ s =
        add_exact t.total_rewards_distributed s (omega (int_laws, books_parts, h)) in
      let e3 : add t.epoch_rewards s ≡ t.epoch_rewards +ℤ s =
        add_exact t.epoch_rewards s (omega (int_laws, books_parts, h)) in
      rw (e1, e2, e3) (omega (int_laws, books_parts, h))

  burn_covered : (a : TensionValue) → pos 0 ≤ℤ a → a ≤ℤ t.pending_fees → IsBalanced (burn a t).0
  unfolding burn
  burn_covered a p c =
      let e1 : sub t.pending_fees a ≡ t.pending_fees -ℤ a =
        sub_exact t.pending_fees a (omega (int_laws, books_parts, h)) in
      let e2 : add t.total_burned a ≡ t.total_burned +ℤ a =
        add_exact t.total_burned a (omega (int_laws, books_parts, h)) in
      rw (ltb_ℤ_of_ge a (pos 0) p, ltb_ℤ_of_ge t.pending_fees a c, e1, e2)
        (omega (int_laws, books_parts, h))

  burn-IsBalanced : (a : TensionValue) → IsBalanced (burn a t).0
  unfolding burn
  burn-IsBalanced a = elim (Bool-cases (ltb_ℤ a (pos 0))) [
    | inl x ↦ rw x h
    | inr x ↦ elim (Bool-cases (ltb_ℤ t.pending_fees a)) [
      | inl y ↦ rw (x, y) h
      | inr y ↦ burn_covered a (ground arith) (ground arith)
    ]
  ]

  advance_epoch-IsBalanced : IsBalanced (advance_epoch t).0
  unfolding advance_epoch
  advance_epoch-IsBalanced = omega (int_laws, books_parts, h)

-- The steps of the treasury; a fee is collected only while the total fits.
pub data Step (t : Treasury) : Treasury → Type 0 where
  collects :
      (a : TensionValue)
      → t.total_fees_collected +ℤ clamped a ≤ℤ pos i128_max
      → Step t (collect_fee a t)
  pays : (a : TensionValue) → Step t (distribute_reward a t).0
  burns : (a : TensionValue) → Step t (burn a t).0
  advances : Step t (advance_epoch t).0

pub data Reach (s : Treasury) : Treasury → Type 0 where
  here : Reach s s
  next : {t u : Treasury} → Reach s t → Step t u → Reach s u

Step-IsBalanced : {t u : Treasury} → Step t u → IsBalanced t → IsBalanced u
Step-IsBalanced {t} (collects a room) h = collect_fee-IsBalanced t h a room
Step-IsBalanced {t} (pays a) h = distribute_reward-IsBalanced t h a
Step-IsBalanced {t} (burns a) h = burn-IsBalanced t h a
Step-IsBalanced {t} advances h = advance_epoch-IsBalanced t h

-- From books that balance, every sequence of fee collections (while the total of fees fits),
-- rewards, burns and epoch changes, failed ones included, leads to books that balance.
pub Reach-IsBalanced : {s t : Treasury} → IsBalanced s → Reach s t → IsBalanced t
Reach-IsBalanced h here = h
Reach-IsBalanced h (next r st) = Step-IsBalanced st (Reach-IsBalanced h r)

-- When the pending fees are not negative and fit, a reward pays at least zero, at most what is
-- pending and at most what is asked (nothing for a negative amount), and takes exactly what it pays
-- from the net balance.
pub distribute_reward_lem :
    (a : TensionValue) (t : Treasury)
    → pos 0 ≤ℤ t.pending_fees
    → t.pending_fees ≤ℤ pos i128_max
    → let (t', paid) = distribute_reward a t in
      (pos 0 ≤ℤ paid)
      × (paid ≤ℤ t.pending_fees)
      × (paid ≤ℤ clamped a)
      × (net_balance t' ≡ net_balance t -ℤ paid)
unfolding distribute_reward net_balance
distribute_reward_lem a t h fits =
    let p = payable_bounds a t h in
    (p.0, p.1, ground arith, sub_exact t.pending_fees (payable a t) (omega int_laws))
