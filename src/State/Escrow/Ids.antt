-- ===== src/State/Escrow/Ids.antt =====
-- Ids of escrows: in every run the index is in order, and what a repeated id does.
use scc_blockchain.Prelude.{
  lt-length_of_get_elem?, ◌∷◌, [], length-append, some_inj, ==_iff, subst, ltb, ℕ, ◌≡◌, ◌≢◌, refl,
  sym, some, List, length, ◌∙◌, arith, Bool-cases, inl, inr, ◌==◌,
}
use scc_blockchain.Prelude.Map.{lookup, nat_eq, lookup-insert_self, lookup-insert_ne}
use scc_blockchain.Prelude.Result.{Outcome, ok, err}
use scc_blockchain.Types.Tension.{TensionValue}
use scc_blockchain.State.Balances.{BalanceError, debit, BalanceLedger, AgentId}
use scc_blockchain.State.Escrow.{
  refunded, pos, released, is_active, leb_ℤ, EscrowRegistry, EscrowCondition, Escrow, Hash, new,
  create, release, refund, find, found, out_of_bounds, panicked, store, fresh, push,
}
use scc_blockchain.State.Escrow.Index.{
  IsIndexed, push-IsIndexed, find_in_bounds, set_status-IsIndexed, check_and_release-IsIndexed,
}
use scc_blockchain.State.Escrow.Settle.{find-cases}
use scc_blockchain.State.Escrow.Once.{found-parts}
use scc_blockchain.State.Escrow.Reach.{
  State, Step, creates, releases, refunds, checks, Reach, here, next,
}

release-IsIndexed :
    (id : Hash) (r : EscrowRegistry) (b : BalanceLedger)
    → IsIndexed r
    → IsIndexed (release id r b).0.0
unfolding release
release-IsIndexed id r b h = elim (find-cases id r) [
  | inl m ↦ rw m h
  | inr (inl m) ↦ rw m h
  | inr (inr (i, e, f, p)) ↦ elim (Bool-cases (is_active e.status)) [
    | inl a ↦ rw (f, a) (set_status-IsIndexed i e released r p h)
    | inr a ↦ rw (f, a) h
  ]
]

refund-IsIndexed :
    (id : Hash) (height : ℕ) (r : EscrowRegistry) (b : BalanceLedger)
    → IsIndexed r
    → IsIndexed (refund id height r b).0.0
unfolding refund
refund-IsIndexed id height r b h = elim (find-cases id r) [
  | inl m ↦ rw m h
  | inr (inl m) ↦ rw m h
  | inr (inr (i, e, f, p)) ↦ elim (Bool-cases (is_active e.status)) [
    | inl a ↦ elim (Bool-cases (ltb height e.expires_at)) [
      | inl early ↦ rw (f, a, early) h
      | inr late ↦ rw (f, a, late) (set_status-IsIndexed i e refunded r p h)
    ]
    | inr a ↦ rw (f, a) h
  ]
]

store-IsIndexed :
    (e : Escrow) (r : EscrowRegistry) (o : Outcome BalanceLedger BalanceError (Unit {0}))
    → IsIndexed r
    → IsIndexed (store e r o).0.0
store-IsIndexed e r (b, ok u) h = push-IsIndexed e r h
store-IsIndexed e r (b, err x) h = h

module _ (escrow_id : AgentId → AgentId → TensionValue → ℕ → Hash) where
  create-IsIndexed :
      (sender recipient : AgentId) (amount : TensionValue) (condition : EscrowCondition)
      (height timeout : ℕ) (r : EscrowRegistry) (b : BalanceLedger)
      → IsIndexed r
      → IsIndexed (create escrow_id sender recipient amount condition height timeout r b).0.0
  unfolding create
  create-IsIndexed sender recipient amount condition height timeout r b h =
      let e : Escrow = fresh escrow_id sender recipient amount condition height timeout in
      elim (Bool-cases (leb_ℤ amount (pos 0))) [
        | inl x ↦ rw x h
        | inr x ↦ elim (Bool-cases (sender == recipient)) [
          | inl y ↦ rw (x, y) h
          | inr y ↦ elim (Bool-cases (timeout == 0)) [
            | inl z ↦ rw (x, y, z) h
            | inr z ↦ rw (x, y, z) (store-IsIndexed e r (debit sender amount b) h)
          ]
        ]
      ]

Step-IsIndexed :
    (escrow_id : AgentId → AgentId → TensionValue → ℕ → Hash) {s t : State}
    → Step escrow_id s t
    → IsIndexed s.0
    → IsIndexed t.0
Step-IsIndexed escrow_id {s} (creates sender recipient amount condition height timeout) h =
    create-IsIndexed escrow_id sender recipient amount condition height timeout s.0 s.1 h
Step-IsIndexed escrow_id {s} (releases id) h = release-IsIndexed id s.0 s.1 h
Step-IsIndexed escrow_id {s} (refunds id height) h = refund-IsIndexed id height s.0 s.1 h
Step-IsIndexed escrow_id {s} (checks trie height writers r b ids e) h =
    subst (λ (o : EscrowRegistry × BalanceLedger × List Hash). IsIndexed o.0) e
      (check_and_release-IsIndexed trie height writers s.0 s.1 h)

Reach-IsIndexed :
    (escrow_id : AgentId → AgentId → TensionValue → ℕ → Hash) {s t : State}
    → IsIndexed s.0
    → Reach escrow_id s t
    → IsIndexed t.0
Reach-IsIndexed escrow_id h here = h
Reach-IsIndexed escrow_id h (next r st) =
    Step-IsIndexed escrow_id st (Reach-IsIndexed escrow_id h r)

release-no_panic :
    (id : Hash) (r : EscrowRegistry) (b : BalanceLedger)
    → find id r ≢ out_of_bounds
    → (release id r b).1 ≢ err panicked
unfolding release
release-no_panic id r b h = elim (find-cases id r) [
  | inl m ↦ rw m (λ q. cc)
  | inr (inl m) ↦ absurd (h m)
  | inr (inr (i, e, f, p)) ↦ elim (Bool-cases (is_active e.status)) [
    | inl a ↦ rw (f, a) (λ q. cc)
    | inr a ↦ rw (f, a) (λ q. cc)
  ]
]

refund-no_panic :
    (id : Hash) (height : ℕ) (r : EscrowRegistry) (b : BalanceLedger)
    → find id r ≢ out_of_bounds
    → (refund id height r b).1 ≢ err panicked
unfolding refund
refund-no_panic id height r b h = elim (find-cases id r) [
  | inl m ↦ rw m (λ q. cc)
  | inr (inl m) ↦ absurd (h m)
  | inr (inr (i, e, f, p)) ↦ elim (Bool-cases (is_active e.status)) [
    | inl a ↦ elim (Bool-cases (ltb height e.expires_at)) [
      | inl early ↦ rw (f, a, early) (λ q. cc)
      | inr late ↦ rw (f, a, late) (λ q. cc)
    ]
    | inr a ↦ rw (f, a) (λ q. cc)
  ]
]

-- In every state that a run of the escrow calls reaches from the empty registry, an id of the index
-- leads to an escrow of that id, and neither `release` nor `refund` of any id indexes out of bounds.
pub Reach-in_bounds :
    (escrow_id : AgentId → AgentId → TensionValue → ℕ → Hash) (b : BalanceLedger) (t : State)
    → Reach escrow_id (new, b) t
    → IsIndexed t.0
      × ((id : Hash) → (release id t.0 t.1).1 ≢ err panicked)
      × ((id : Hash) (height : ℕ) → (refund id height t.0 t.1).1 ≢ err panicked)
Reach-in_bounds escrow_id b t r =
    let h : IsIndexed t.0 =
      Reach-IsIndexed escrow_id {s = (new, b)} (record { leads = λ id i q. cc }) r in
    (
      h,
      λ id. release-no_panic id t.0 t.1 (find_in_bounds id t.0 h),
      λ id height. refund-no_panic id height t.0 t.1 (find_in_bounds id t.0 h),
    )

push_duplicate :
    (e e2 x : Escrow) (r : EscrowRegistry) (id : Hash)
    → IsIndexed r
    → e.id ≡ e2.id
    → find id (push e2 (push e r)) ≢ found (length r.escrows) x
push_duplicate e e2 x r id h same f =
    let n : ℕ = length r.escrows in
    let r1 : EscrowRegistry = push e r in
    let r2 : EscrowRegistry = push e2 r1 in
    let at_n : lookup id r2.index ≡ some n = (found-parts id r2 n x f).0 in
    elim (Bool-cases (id == e2.id)) [
      | inl s ↦
          let k : id ≡ e2.id = (==_iff id e2.id).0 s in
          let m : length r1.escrows ≡ n =
            some_inj (length r1.escrows) n
              (sym (lookup-insert_self e2.id (length r1.escrows) r1.index) ∙ (rw k at at_n)) in
          omega (arith, m, length-append {0} r.escrows (e ∷ []))
      | inr o ↦
          let ne2 : id ≢ e2.id = λ (k : id ≡ e2.id). ground arith in
          let ne : id ≢ e.id = λ (k : id ≡ e.id). ne2 (k ∙ same) in
          let old : lookup id r.index ≡ some n =
            sym (
              lookup-insert_ne id e2.id (length r1.escrows) r1.index ne2
              ∙ lookup-insert_ne id e.id n r.index ne)
            ∙ at_n in
          let (y, p, s) = h.leads id n old in
          omega (arith, lt-length_of_get_elem? {0} r.escrows n y p)
    ]

module _ (escrow_id : AgentId → AgentId → TensionValue → ℕ → Hash) where
  -- A successful `create` pushes the new escrow.
  create_ok :
      (sender recipient : AgentId) (amount : TensionValue) (condition : EscrowCondition)
      (height timeout : ℕ) (r : EscrowRegistry) (b : BalanceLedger) (id : Hash)
      → (create escrow_id sender recipient amount condition height timeout r b).1 ≡ ok id
      → (create escrow_id sender recipient amount condition height timeout r b).0.0
        ≡ push (fresh escrow_id sender recipient amount condition height timeout) r
  unfolding create debit
  create_ok sender recipient amount condition height timeout r b id h = ground arith

-- Two escrows of the same sender, recipient, amount and height have the same id: once the second
-- was created, whatever its condition, no id leads to the first, so that no `release` and no
-- `refund` reaches its funds.
pub duplicate_unreachable :
    (escrow_id : AgentId → AgentId → TensionValue → ℕ → Hash) (sender recipient : AgentId)
    (amount : TensionValue) (first second : EscrowCondition) (height t1 t2 : ℕ) (r : EscrowRegistry)
    (b : BalanceLedger) (id1 id2 id : Hash) (e : Escrow)
    → IsIndexed r
    → (create escrow_id sender recipient amount first height t1 r b).1 ≡ ok id1
    → (create escrow_id sender recipient amount second height t2
        (create escrow_id sender recipient amount first height t1 r b).0.0
        (create escrow_id sender recipient amount first height t1 r b).0.1).1
      ≡ ok id2
    → let s = (create escrow_id sender recipient amount first height t1 r b).0 in
      find id (create escrow_id sender recipient amount second height t2 s.0 s.1).0.0
      ≢ found (length r.escrows) e
duplicate_unreachable escrow_id sender recipient amount first second height t1 t2 r b id1 id2 id e h
      p q =
    let one = create_ok escrow_id sender recipient amount first height t1 r b id1 p in
    let s = (create escrow_id sender recipient amount first height t1 r b).0 in
    let two = create_ok escrow_id sender recipient amount second height t2 s.0 s.1 id2 q in
    rw two (
      rw one (
        push_duplicate (fresh escrow_id sender recipient amount first height t1)
          (fresh escrow_id sender recipient amount second height t2) e r id h refl))
