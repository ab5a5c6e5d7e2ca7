-- ===== src/State/Escrow/Once.antt =====
-- An escrow is paid out at most once, to the right side and in time.
use scc_blockchain.Prelude.{
  sym, subst, ℕ, ◌≡◌, ◌≤◌, refl, true, false, some, arith, Bool-cases, inl, inr, get_elem?, ltb,
  lt-length_of_get_elem?, get_elem?-set_self,
}
use scc_blockchain.Prelude.Map.{lookup, nat_eq}
use scc_blockchain.Prelude.Result.{ok, err}
use scc_blockchain.State.Balances.{BalanceLedger, credit}
use scc_blockchain.State.Escrow.{
  EscrowStatus, Escrow, EscrowRegistry, Hash, is_active, active, released, refunded, not_active,
  release, refund, find, found, set_status, at,
}
use scc_blockchain.State.Escrow.Settle.{find-cases}

-- What a successful call was made on: an active escrow that the id names.
pub record Paid (id : Hash) (r : EscrowRegistry) : Type 0 where
  pub position : ℕ
  pub escrow : Escrow
  pub named : find id r ≡ found position escrow
  pub was_active : escrow.status ≡ active

active_of : (e : Escrow) → is_active e.status ≡ true → e.status ≡ active
active_of e h = ground arith

-- A release that succeeds is of an active escrow: it credits the recipient with the amount and
-- marks the escrow released.
pub release_ok :
    (id : Hash) (r : EscrowRegistry) (b : BalanceLedger)
    → (release id r b).1 ≡ ok tt
    → (p : Paid id r) × ((release id r b).0
        ≡ (set_status p.position p.escrow released r, credit p.escrow.recipient p.escrow.amount b))
unfolding release
release_ok id r b h = elim (find-cases id r) [
  | inl m ↦ absurd (ground (arith, m))
  | inr (inl m) ↦ absurd (ground (arith, m))
  | inr (inr (i, e, f, p)) ↦ elim (Bool-cases (is_active e.status)) [
    | inl a ↦
        (record { position = i; escrow = e; named = f; was_active = active_of e a }, rw (f, a))
    | inr a ↦ absurd (ground (arith, f))
  ]
]

-- A refund that succeeds is of an active escrow whose expiry height has come: it credits the sender
-- with the amount and marks the escrow refunded.
pub refund_ok :
    (id : Hash) (height : ℕ) (r : EscrowRegistry) (b : BalanceLedger)
    → (refund id height r b).1 ≡ ok tt
    → (p : Paid id r) × (p.escrow.expires_at ≤ height)
      × ((refund id height r b).0
          ≡ (set_status p.position p.escrow refunded r, credit p.escrow.sender p.escrow.amount b))
unfolding refund
refund_ok id height r b h = elim (find-cases id r) [
  | inl m ↦ absurd (ground (arith, m))
  | inr (inl m) ↦ absurd (ground (arith, m))
  | inr (inr (i, e, f, p)) ↦ elim (Bool-cases (is_active e.status)) [
    | inl a ↦ elim (Bool-cases (ltb height e.expires_at)) [
      | inl early ↦ absurd (ground (arith, f))
      | inr late ↦ (
        record { position = i; escrow = e; named = f; was_active = active_of e a },
        ground arith,
        rw (f, a, late),
      )
    ]
    | inr a ↦ absurd (ground (arith, f))
  ]
]

pub found-parts :
    (id : Hash) (r : EscrowRegistry) (i : ℕ) (e : Escrow)
    → find id r ≡ found i e
    → (lookup id r.index ≡ some i) × (get_elem? r.escrows i ≡ some e)
found-parts id r i e h = ground arith

-- After an escrow was closed under an id, the id leads to it in its new status.
find-set_status :
    (id : Hash) (r : EscrowRegistry) (p : Paid id r) (s : EscrowStatus)
    → find id (set_status p.position p.escrow s r)
      ≡ found p.position (record (p.escrow) { status = s })
find-set_status id r p s =
    let f = found-parts id r p.position p.escrow p.named in
    let g =
      get_elem?-set_self r.escrows p.position (record (p.escrow) { status = s })
        (lt-length_of_get_elem? r.escrows p.position p.escrow f.1) in
    rw (f.0, g, find, at)

closed_unpaid :
    (id : Hash) (height i : ℕ) (e : Escrow) (r : EscrowRegistry) (b : BalanceLedger)
    → find id r ≡ found i e
    → is_active e.status ≡ false
    → (release id r b ≡ ((r, b), err (not_active e.status)))
      × (refund id height r b ≡ ((r, b), err (not_active e.status)))
unfolding release refund
closed_unpaid id height i e r b f a = (rw (f, a), rw (f, a))

-- After a release that succeeded, neither a second release nor a refund of the id at any height
-- does anything: the escrow is reported as released, and registry and ledger stay as they are.
pub release_once :
    (id : Hash) (height : ℕ) (r : EscrowRegistry) (b : BalanceLedger)
    → (release id r b).1 ≡ ok tt
    → let s = (release id r b).0 in
      (release id s.0 s.1 ≡ (s, err (not_active released)))
      × (refund id height s.0 s.1 ≡ (s, err (not_active released)))
release_once id height r b h =
    let (p, e) = release_ok id r b h in
    let r' : EscrowRegistry = set_status p.position p.escrow released r in
    let b' : BalanceLedger = credit p.escrow.recipient p.escrow.amount b in
    subst
      (λ (s : EscrowRegistry × BalanceLedger).
        (release id s.0 s.1 ≡ (s, err (not_active released)))
        × (refund id height s.0 s.1 ≡ (s, err (not_active released))))
      (sym e)
      (closed_unpaid id height p.position (record (p.escrow) { status = released }) r' b'
        (find-set_status id r p released) refl)
