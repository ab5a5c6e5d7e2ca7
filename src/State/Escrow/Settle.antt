-- ===== src/State/Escrow/Settle.antt =====
-- The operations on escrows move funds between balances and escrows, and lose nothing.
use scc_blockchain.Prelude.{
  ℕ, ◌≡◌, refl, true, false, some, List, [], ◌∷◌, ◌++◌, arith, Bool-cases, inl, inr, ◌⊎◌, get_elem?,
  set, ap, ◌∙◌, Option-cases, ltb, ◌==◌,
}
use scc_blockchain.Prelude.Int.{
  ℤ, pos, ◌+ℤ◌, ◌-ℤ◌, ◌≤ℤ◌, ◌<ℤ◌, int_laws, pos_part, neg_part, leb_ℤ, ltb_ℤ,
}
use scc_blockchain.Prelude.Words.{i128_max}
use scc_blockchain.Prelude.Map.{Map, lookup, nat_eq, insert}
use scc_blockchain.Types.Tension.{TensionValue}
use scc_blockchain.State.Balances.{BalanceLedger, AgentId, balance_of, credit, debit}
use scc_blockchain.State.Balances.Conservation.{sum, credit_lem, debit_lem, debit_short}
use scc_blockchain.State.Escrow.{
  Escrow, EscrowRegistry, EscrowCondition, EscrowStatus, Hash, Bytes, is_active, active, released,
  refunded, create, release, refund, release_due, find, missing, out_of_bounds, found, at, store,
  fresh, is_due,
}
use scc_blockchain.State.Escrow.Custody.{
  lock_nonneg, Custody, locked, lock, locked-append, locked-set, All-append, All-set, at_amount,
  locked_nonneg,
}

-- All that the registry and the ledger hold.
abbrev pub held : List Escrow → BalanceLedger → ℤ
held es b = sum b +ℤ locked es

-- Custody afterwards, with as much held as before.
abbrev pub Keeps : List Escrow → BalanceLedger → List Escrow → BalanceLedger → Type 0
Keeps es b es' b' = Custody es' b' × (held es' b' ≡ held es b)

-- Paying out an active escrow and closing it.
settle-Keeps :
    (es : List Escrow) (b : BalanceLedger) (i : ℕ) (e : Escrow) (s : EscrowStatus) (to : AgentId)
    → Custody es b
    → get_elem? es i ≡ some e
    → is_active e.status ≡ true
    → is_active s ≡ false
    → Keeps es b (set es i (record e { status = s })) (credit to e.amount b)
settle-Keeps es b i e s to c p a d =
    let (has, most) = at_amount es i e c.amounts p in
    let l : lock e ≡ e.amount = rw a in
    let room : sum b +ℤ locked es ≤ℤ pos i128_max = c.fits in
    let k =
      credit_lem to e.amount b c.sound has (omega (int_laws, ap pos_part l, ap neg_part l, most)) in
    let paid : sum (credit to e.amount b) ≡ sum b +ℤ e.amount = k.1 in
    let closed : locked (set es i (record e { status = s })) ≡ locked es -ℤ e.amount =
      locked-set es i e s p a d in
    let same : held (set es i (record e { status = s })) (credit to e.amount b) ≡ held es b =
      rw (paid, closed) (omega int_laws) in
    (record { sound = k.0; amounts = All-set es i e s c.amounts has; fits = rw same room }, same)

-- Where an id leads in the registry.
pub find-cases :
    (id : Hash) (r : EscrowRegistry)
    → (find id r ≡ missing)
      ⊎ (find id r ≡ out_of_bounds)
      ⊎ ((i : ℕ) × (e : Escrow) × (find id r ≡ found i e) × (get_elem? r.escrows i ≡ some e))
find-cases id r = elim (Option-cases (lookup id r.index)) [
  | inl n ↦ inl (rw (n, find))
  | inr (i, q) ↦ elim (Option-cases (get_elem? r.escrows i)) [
    | inl n ↦ inr (inl (rw (q, n, find, at)))
    | inr (e, p) ↦ inr (inr (i, e, rw (q, p, find, at), p))
  ]
]

pub release-Keeps :
    (id : Hash) (r : EscrowRegistry) (b : BalanceLedger)
    → Custody r.escrows b
    → let ((r', b'), x) = release id r b in Keeps r.escrows b r'.escrows b'
unfolding release
release-Keeps id r b c = elim (find-cases id r) [
  | inl m ↦ rw m (c, refl)
  | inr (inl m) ↦ rw m (c, refl)
  | inr (inr (i, e, f, p)) ↦ elim (Bool-cases (is_active e.status)) [
    | inl a ↦ rw (f, a) (settle-Keeps r.escrows b i e released e.recipient c p a refl)
    | inr a ↦ rw (f, a) (c, refl)
  ]
]

pub refund-Keeps :
    (id : Hash) (height : ℕ) (r : EscrowRegistry) (b : BalanceLedger)
    → Custody r.escrows b
    → let ((r', b'), x) = refund id height r b in Keeps r.escrows b r'.escrows b'
unfolding refund
refund-Keeps id height r b c = elim (find-cases id r) [
  | inl m ↦ rw m (c, refl)
  | inr (inl m) ↦ rw m (c, refl)
  | inr (inr (i, e, f, p)) ↦ elim (Bool-cases (is_active e.status)) [
    | inl a ↦ elim (Bool-cases (ltb height e.expires_at)) [
      | inl early ↦ rw (f, a, early) (c, refl)
      | inr late ↦ rw (f, a, late) (settle-Keeps r.escrows b i e refunded e.sender c p a refl)
    ]
    | inr a ↦ rw (f, a) (c, refl)
  ]
]

-- Debiting the sender and pushing an active escrow of the amount.
lock-Keeps :
    (r : EscrowRegistry) (b : BalanceLedger) (e : Escrow)
    → Custody r.escrows b
    → e.status ≡ active
    → pos 0 <ℤ e.amount
    → e.amount ≤ℤ balance_of e.sender b
    → let ((r', b'), x) = store e r (debit e.sender e.amount b) in Keeps r.escrows b r'.escrows b'
lock-Keeps r b e c a p cover =
    let d = debit_lem e.sender e.amount b c.sound (omega arith) cover in
    let b' : BalanceLedger = insert e.sender (balance_of e.sender b -ℤ e.amount) b in
    let room : sum b +ℤ locked r.escrows ≤ℤ pos i128_max = c.fits in
    let l : lock e ≡ e.amount = rw a in
    let less : sum b' ≡ sum b -ℤ e.amount = d.2 in
    let more : locked (r.escrows ++ e ∷ []) ≡ locked r.escrows +ℤ e.amount =
      locked-append r.escrows e ∙ ap (λ t. locked r.escrows +ℤ t) l in
    let same : held (r.escrows ++ e ∷ []) b' ≡ held r.escrows b =
      rw (less, more) (omega int_laws) in
    rw d.0 (
      record {
        sound = d.1;
        amounts = All-append r.escrows e c.amounts (omega arith);
        fits = rw same room;
      },
      same,
    )

module _ (escrow_id : AgentId → AgentId → TensionValue → ℕ → Hash) where
  pub create-Keeps :
      (sender recipient : AgentId) (amount : TensionValue) (condition : EscrowCondition)
      (height timeout : ℕ) (r : EscrowRegistry) (b : BalanceLedger)
      → Custody r.escrows b
      → let ((r', b'), x) = create escrow_id sender recipient amount condition height timeout r b in
        Keeps r.escrows b r'.escrows b'
  unfolding create
  create-Keeps sender recipient amount condition height timeout r b c =
      elim (Bool-cases (leb_ℤ amount (pos 0))) [
        | inl x ↦ rw x (c, refl)
        | inr x ↦ elim (Bool-cases (sender == recipient)) [
          | inl y ↦ rw (x, y) (c, refl)
          | inr y ↦ elim (Bool-cases (timeout == 0)) [
            | inl z ↦ rw (x, y, z) (c, refl)
            | inr z ↦ elim (Bool-cases (ltb_ℤ (balance_of sender b) amount)) [
              | inl w ↦ rw (x, y, z, debit_short sender amount b (ground arith)) (c, refl)
              | inr w ↦
                  rw (x, y, z)
                    (lock-Keeps r b
                      (fresh escrow_id sender recipient amount condition height timeout) c refl
                      (ground arith) (ground arith))
            ]
          ]
        ]
      ]

-- An escrow in front that locks `x` beside what the others keep.
cons-Keeps :
    (x : ℤ) (e : Escrow) (es es1 : List Escrow) (b0 b1 : BalanceLedger)
    → pos 0 ≤ℤ e.amount
    → lock e ≡ x
    → Keeps es b0 es1 b1
    → held es b0 +ℤ x ≤ℤ pos i128_max
    → Custody (e ∷ es1) b1 × (held (e ∷ es1) b1 ≡ held es b0 +ℤ x)
unfolding locked
cons-Keeps x e es es1 b0 b1 has l k room =
    let same : held (e ∷ es1) b1 ≡ held es b0 +ℤ x =
      rw l (omega (int_laws, ap pos_part k.1, ap neg_part k.1)) in
    (record { sound = k.0.sound; amounts = (has, k.0.amounts); fits = rw same room }, same)

module _ (trie : Map Bytes Bytes) (height : ℕ) (writers : Map Bytes Hash) where
  active_of_due : (e : Escrow) → is_due trie height writers e ≡ true → is_active e.status ≡ true
  active_of_due e d = ground arith

  pub release_due-Keeps :
      (es : List Escrow) (b : BalanceLedger)
      → Custody es b
      → let (es', b', ids) = release_due trie height writers es b in Keeps es b es' b'
  unfolding release_due locked
  release_due-Keeps [] b c = (c, refl)
  release_due-Keeps (e ∷ es) b c = elim (Bool-cases (is_due trie height writers e)) [
    | inl d ↦
        let l : lock e ≡ e.amount = rw (active_of_due e d) in
        let l1 : pos_part (lock e) ≡ pos_part e.amount = ap pos_part l in
        let l2 : neg_part (lock e) ≡ neg_part e.amount = ap neg_part l in
        let low : pos 0 ≤ℤ locked es = locked_nonneg es c.amounts.1 in
        let room : sum b +ℤ (lock e +ℤ locked es) ≤ℤ pos i128_max = c.fits in
        let k = credit_lem e.recipient e.amount b c.sound c.amounts.0 (omega int_laws) in
        let b0 : BalanceLedger = credit e.recipient e.amount b in
        let paid : held es b0 ≡ held (e ∷ es) b = rw (k.1, l) (omega int_laws) in
        let ih =
          release_due-Keeps es b0
            (record { sound = k.0; amounts = c.amounts.1; fits = rw paid room }) in
        let done =
          cons-Keeps (pos 0) (record e { status = released }) es
            (release_due trie height writers es b0).0 b0 (release_due trie height writers es b0).1
            c.amounts.0 refl ih (rw paid (omega int_laws)) in
        rw d (done.0, done.1 ∙ (rw paid (omega int_laws)))
    | inr d ↦
        let room : sum b +ℤ (lock e +ℤ locked es) ≤ℤ pos i128_max = c.fits in
        let p : pos 0 ≤ℤ lock e = lock_nonneg e c.amounts.0 in
        let ih =
          release_due-Keeps es b
            (record { sound = c.sound; amounts = c.amounts.1; fits = omega int_laws }) in
        let done =
          cons-Keeps (lock e) e es (release_due trie height writers es b).0 b
            (release_due trie height writers es b).1 c.amounts.0 refl ih (omega int_laws) in
        rw d (done.0, done.1 ∙ (omega int_laws))
  ]
