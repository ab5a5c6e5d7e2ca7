-- ===== src/State/Escrow/Index.antt =====
-- The index of the registry leads from an id to an escrow of that id.
use scc_blockchain.Prelude.{
  zero, if◌then◌else◌, get_elem?-set_ne, get_elem?-set_self, some_inj, Option-cases, ℕ, suc, ◌≡◌,
  ◌≢◌, refl, sym, some, List, [], ◌∷◌, length, get_elem?, arith, ap, ◌∙◌, inl, inr,
  get_elem?-append_last, get_elem?-append_left, lt-length_of_get_elem?, Bool-cases, ==_iff, ◌==◌,
}
use scc_blockchain.Prelude.Map.{Map, lookup, nat_eq, lookup-insert_self, lookup-insert_ne}
use scc_blockchain.State.Escrow.{
  credit, released, is_due, BalanceLedger, check_and_release, release_due, Bytes, set_status,
  EscrowStatus, Escrow, EscrowRegistry, Hash, find, out_of_bounds, push,
}

-- Every entry of the index is the position of an escrow with that id.
pub record IsIndexed (r : EscrowRegistry) : Type 0 where
  pub leads :
      (id : Hash) (i : ℕ)
      → lookup id r.index ≡ some i
      → (e : Escrow) × (get_elem? r.escrows i ≡ some e) × (e.id ≡ id)

pub push-IsIndexed : (e : Escrow) (r : EscrowRegistry) → IsIndexed r → IsIndexed (push e r)
push-IsIndexed e r h = record {
  leads = λ id i q. elim (Bool-cases (id == e.id)) [
    | inl same ↦
        let k : id ≡ e.id = (==_iff id e.id).0 same in
        let n : some (length r.escrows) ≡ some i =
          sym (lookup-insert_self e.id (length r.escrows) r.index) ∙ (rw k at q) in
        let n' : length r.escrows ≡ i = cc in
        (e, rw (← n') (get_elem?-append_last r.escrows e), sym k)
    | inr other ↦
        let ne : id ≢ e.id = λ (k : id ≡ e.id). ground arith in
        let old : lookup id r.index ≡ some i =
          sym (lookup-insert_ne id e.id (length r.escrows) r.index ne) ∙ q in
        let (x, p, s) = h.leads id i old in (x, get_elem?-append_left r.escrows (e ∷ []) i x p, s)
  ];
}

-- With the index in order no lookup panics.
pub find_in_bounds : (id : Hash) (r : EscrowRegistry) → IsIndexed r → find id r ≢ out_of_bounds
find_in_bounds id r h = λ o. elim (Option-cases (lookup id r.index)) [
  | inl n ↦ ground arith
  | inr (i, q) ↦ let (x, p, s) = h.leads id i q in ground arith
]

-- Closing an escrow keeps its id, and so the index.
pub set_status-IsIndexed :
    (i : ℕ) (e : Escrow) (s : EscrowStatus) (r : EscrowRegistry)
    → get_elem? r.escrows i ≡ some e
    → IsIndexed r
    → IsIndexed (set_status i e s r)
set_status-IsIndexed i e s r p h = record {
  leads = λ id j q. elim (Bool-cases (i == j)) [
    | inl same ↦
        let k : i ≡ j = (==_iff i j).0 same in
        let (x, px, sx) = h.leads id j q in
        let x' : x ≡ e = some_inj x e (sym px ∙ (rw k at p)) in
        (
          record e { status = s },
          rw (← k) (
              get_elem?-set_self r.escrows i (record e { status = s })
                (lt-length_of_get_elem? r.escrows i e p)),
          ap (λ (y : Escrow). y.id) (sym x') ∙ sx,
        )
    | inr other ↦
        let ne : i ≢ j = λ (k : i ≡ j). ground arith in
        let (x, px, sx) = h.leads id j q in
        (x, get_elem?-set_ne r.escrows i j (record e { status = s }) ne ∙ px, sx)
  ];
}

module _ (trie : Map Bytes Bytes) (height : ℕ) (writers : Map Bytes Hash) where
  -- The loop over due escrows keeps every position and id.
  release_due-id :
      (es : List Escrow) (b : BalanceLedger) (i : ℕ) (e : Escrow)
      → get_elem? es i ≡ some e
      → (x : Escrow) × (get_elem? (release_due trie height writers es b).0 i ≡ some x)
        × (x.id ≡ e.id)
  unfolding release_due
  release_due-id [] b i e p = cc
  release_due-id (y ∷ es) b zero e p = elim (Bool-cases (is_due trie height writers y)) [
    | inl d ↦ (record y { status = released }, rw d, ap (λ (z : Escrow). z.id) (some_inj y e p))
    | inr d ↦ (e, rw d p, refl)
  ]
  release_due-id (y ∷ es) b (suc i) e p =
      let b0 : BalanceLedger =
        if is_due trie height writers y then credit y.recipient y.amount b else b in
      let (x, q, s) = release_due-id es b0 i e p in
      elim (Bool-cases (is_due trie height writers y)) [
        | inl d ↦ (x, rw d (rw d at q), s)
        | inr d ↦ (x, rw d (rw d at q), s)
      ]

  pub check_and_release-IsIndexed :
      (r : EscrowRegistry) (b : BalanceLedger)
      → IsIndexed r
      → IsIndexed (check_and_release trie height writers r b).0
  unfolding check_and_release
  check_and_release-IsIndexed r b h = record {
    leads = λ id i q.
        let (x, p, s) = h.leads id i q in
        let (y, p', s') = release_due-id r.escrows b i x p in (y, p', s' ∙ s);
  }
