-- ===== src/State/Escrow/Custody.antt =====
-- What is held: the balances and what is locked in active escrows.
use scc_blockchain.Prelude.{
  inr, inl, Bool-cases, ℕ, zero, suc, ◌≡◌, true, false, none, some, List, [], ◌∷◌, ◌++◌, arith,
  get_elem?, set, All, ap, ◌∙◌,
}
use scc_blockchain.Prelude.Int.{ℤ, pos, ◌+ℤ◌, ◌-ℤ◌, ◌≤ℤ◌, int_laws, pos_part, neg_part}
use scc_blockchain.Prelude.Words.{i128_max}
use scc_blockchain.Types.Tension.{TensionValue, add_exact}
use scc_blockchain.State.Entries.{sum_if_nonneg, part}
use scc_blockchain.State.Balances.{BalanceLedger}
use scc_blockchain.State.Balances.Conservation.{everyone, IsSound, sum}
use scc_blockchain.State.Escrow.{
  Escrow, EscrowStatus, EscrowRegistry, is_active, fold_locked, total_locked,
}

-- What one escrow locks.
abbrev pub lock : Escrow → ℤ
lock e = part (is_active e.status) e.amount

-- The exact sum of the amounts in active escrows.
unfoldable pub locked : List Escrow → ℤ
locked [] = pos 0
locked (e ∷ es) = lock e +ℤ locked es

abbrev pub HasAmount : Escrow → Type 0
HasAmount e = pos 0 ≤ℤ e.amount

-- The ledger is sound, no escrow has a negative amount, and all that is held fits an i128.
pub record Custody (es : List Escrow) (b : BalanceLedger) : Type 0 where
  pub sound : IsSound b
  pub amounts : All HasAmount es
  pub fits : sum b +ℤ locked es ≤ℤ pos i128_max

pub lock_nonneg : (e : Escrow) → HasAmount e → pos 0 ≤ℤ lock e
lock_nonneg e h = ground arith

pub locked_nonneg : (es : List Escrow) → All HasAmount es → pos 0 ≤ℤ locked es
unfolding locked
locked_nonneg [] h = omega arith
locked_nonneg (e ∷ es) h = omega (int_laws, lock_nonneg e h.0, locked_nonneg es h.1)

-- A new escrow at the end locks its amount.
pub locked-append : (es : List Escrow) (e : Escrow) → locked (es ++ e ∷ []) ≡ locked es +ℤ lock e
unfolding locked
locked-append [] e = omega int_laws
locked-append (x ∷ es) e = ap (λ t. lock x +ℤ t) (locked-append es e) ∙ (omega int_laws)

pub All-append :
    (es : List Escrow) (e : Escrow) → All HasAmount es → HasAmount e → All HasAmount (es ++ e ∷ [])
All-append [] e h p = (p, tt)
All-append (x ∷ es) e h p = (h.0, All-append es e h.1 p)

-- An escrow of the list has an amount, and locks at most what the list locks.
pub at_amount :
    (es : List Escrow) (i : ℕ) (e : Escrow)
    → All HasAmount es
    → get_elem? es i ≡ some e
    → HasAmount e × (lock e ≤ℤ locked es)
unfolding locked
at_amount [] i e h p = cc
at_amount (x ∷ es) zero e h p =
    let q : x ≡ e = ap (λ o. elim o [ none ↦ e | some y ↦ y ]) p in
    rw (← q) (h.0, omega (int_laws, locked_nonneg es h.1))
at_amount (x ∷ es) (suc i) e h p =
    let ih = at_amount es i e h.1 p in (ih.0, omega (int_laws, lock_nonneg x h.0, ih.1))

-- Closing an active escrow unlocks its amount and nothing else.
pub locked-set :
    (es : List Escrow) (i : ℕ) (e : Escrow) (s : EscrowStatus)
    → get_elem? es i ≡ some e
    → is_active e.status ≡ true
    → is_active s ≡ false
    → locked (set es i (record e { status = s })) ≡ locked es -ℤ e.amount
unfolding locked
locked-set [] i e s p a c = cc
locked-set (x ∷ es) zero e s p a c =
    let q : x ≡ e = ap (λ o. elim o [ none ↦ e | some y ↦ y ]) p in rw (q, a, c) (omega int_laws)
locked-set (x ∷ es) (suc i) e s p a c =
    ap (λ t. lock x +ℤ t) (locked-set es i e s p a c) ∙ (omega int_laws)

pub All-set :
    (es : List Escrow) (i : ℕ) (e : Escrow) (s : EscrowStatus)
    → All HasAmount es
    → HasAmount e
    → All HasAmount (set es i (record e { status = s }))
All-set [] i e s h p = tt
All-set (x ∷ es) zero e s h p = (p, h.1)
All-set (x ∷ es) (suc i) e s h p = (h.0, All-set es i e s h.1 p)

fold_locked-eq :
    (acc : TensionValue) (es : List Escrow)
    → pos 0 ≤ℤ acc
    → All HasAmount es
    → acc +ℤ locked es ≤ℤ pos i128_max
    → fold_locked acc es ≡ acc +ℤ locked es
unfolding fold_locked locked
fold_locked-eq acc [] p h fits = omega int_laws
fold_locked-eq acc (e ∷ es) p h fits = elim (Bool-cases (is_active e.status)) [
  | inl a ↦
      let l : lock e ≡ e.amount = rw a in
      let low : pos 0 ≤ℤ locked es = locked_nonneg es h.1 in
      let room : acc +ℤ e.amount +ℤ locked es ≤ℤ pos i128_max =
        omega (int_laws, ap pos_part l, ap neg_part l, fits) in
      rw (a, add_exact acc e.amount (omega (int_laws, h.0)))
        (fold_locked-eq (acc +ℤ e.amount) es (omega (int_laws, h.0)) h.1 room ∙ (omega int_laws))
  | inr a ↦
      let l : lock e ≡ pos 0 = rw a in
      let room : acc +ℤ locked es ≤ℤ pos i128_max =
        omega (int_laws, ap pos_part l, ap neg_part l, fits) in
      rw a (fold_locked-eq acc es p h.1 room ∙ (omega int_laws))
]

-- Under custody the saturating total is the exact sum of what is locked.
pub total_locked-eq :
    (r : EscrowRegistry) (b : BalanceLedger)
    → Custody r.escrows b
    → total_locked r ≡ locked r.escrows
unfolding total_locked
total_locked-eq r b c =
    let low : pos 0 ≤ℤ sum b = sum_if_nonneg everyone b c.sound.nonneg in
    let room : sum b +ℤ locked r.escrows ≤ℤ pos i128_max = c.fits in
    fold_locked-eq (pos 0) r.escrows (omega arith) c.amounts (omega int_laws) ∙ (omega int_laws)
