-- ===== src/State/Assets/Runs.antt =====
-- Runs of the asset operations.
use scc_blockchain.Prelude.{
  ◌≡◌, ◌≢◌, refl, sym, ap, ◌∙◌, true, none, some, Option-cases, Bool-cases, inl, inr, ◌==◌, ==_iff,
  arith,
}
use scc_blockchain.Prelude.Int.{pos, ◌+ℤ◌, ◌-ℤ◌, ◌≤ℤ◌, int_laws, leb_ℤ, ltb_ℤ}
use scc_blockchain.Prelude.Words.{i128_max}
use scc_blockchain.Prelude.Map.{
  contains_of_none, contains_of_some, Map, lookup, insert, nat_eq, pair_eq, lookup-insert_self,
  lookup-insert_ne,
}
use scc_blockchain.Types.Tension.{TensionValue, add_exact, sub_exact, tension_zero}
use scc_blockchain.State.Entries.{value-le-sum_if, value, or_zero, insert-NonNeg, value_nonneg}
use scc_blockchain.State.Balances.{AgentId}
use scc_blockchain.State.Assets.{
  AssetId, MultiAssetLedger, AssetInfo, balance_of, supply_of, register_asset, mint, burn, transfer,
  freeze_asset, move,
}
use scc_blockchain.State.Assets.Supply.{
  of_asset, IsConserved, holdings, holdings-insert_self, holdings-insert_ne, balance-le-supply,
  issue-IsConserved, destroy-IsConserved,
}

-- Moving a positive amount that the sender's balance covers to another agent.
move-IsConserved :
    (a : AssetId) (from to : AgentId) (amount : TensionValue) (l : MultiAssetLedger)
    → IsConserved l
    → pos 0 ≤ℤ amount
    → amount ≤ℤ balance_of from a l
    → IsConserved (move a from to amount l)
move-IsConserved a from to amount l h p cover =
    let low : pos 0 ≤ℤ balance_of from a l = value_nonneg (from, a) l.balances h.nonneg in
    let high : balance_of from a l ≤ℤ supply_of a l = balance-le-supply from a l h in
    let top : supply_of a l ≤ℤ pos i128_max = h.fits a in
    let m : Map (AgentId × AssetId) TensionValue =
      insert (from, a) (balance_of from a l -ℤ amount) l.balances in
    let e1 = sub_exact (balance_of from a l) amount (omega int_laws) in
    let nonneg_m =
      insert-NonNeg (from, a) (balance_of from a l -ℤ amount) l.balances (omega int_laws)
        h.nonneg in
    let low2 : pos 0 ≤ℤ value (to, a) m = value_nonneg (to, a) m nonneg_m in
    let all_m : holdings a m ≡ supply_of a l -ℤ amount =
      holdings-insert_self a from (balance_of from a l -ℤ amount) l.balances
      ∙ (rw (h.supplied a) (omega int_laws)) in
    let high2 : value (to, a) m ≤ℤ holdings a m =
      value-le-sum_if (of_asset a) (to, a) m ((==_iff a a).1 refl) nonneg_m in
    let high3 : value (to, a) m ≤ℤ supply_of a l -ℤ amount = rw all_m at high2 in
    let e2 = add_exact (value (to, a) m) amount (omega int_laws) in
    rw (e1, e2)
      (record {
        nonneg = insert-NonNeg (to, a) (value (to, a) m +ℤ amount) m (omega int_laws) nonneg_m;
        supplied = λ c. elim (Bool-cases (c == a)) [
          | inl s ↦
              let same : c ≡ a = (==_iff c a).0 s in
              rw same (
                holdings-insert_self a to (value (to, a) m +ℤ amount) m
                ∙ (rw all_m (omega int_laws)))
          | inr s ↦
              let ne : c ≢ a = λ (q : c ≡ a). ground arith in
              holdings-insert_ne a c to (value (to, a) m +ℤ amount) m ne
              ∙ holdings-insert_ne a c from (balance_of from a l -ℤ amount) l.balances ne
              ∙ h.supplied c
        ];
        fits = h.fits;
        unregistered = h.unregistered;
      })

transfer-IsConserved :
    (a : AssetId) (from to : AgentId) (amount : TensionValue) (l : MultiAssetLedger)
    → IsConserved l
    → IsConserved (transfer a from to amount l).0
unfolding transfer
transfer-IsConserved a from to amount l h = elim (Bool-cases (leb_ℤ amount (pos 0))) [
  | inl x ↦ rw x h
  | inr x ↦ elim (Bool-cases (from == to)) [
    | inl y ↦ rw (x, y) h
    | inr y ↦ elim (Option-cases (lookup a l.asset_info)) [
      | inl n ↦ rw (x, y, n) h
      | inr (info, k) ↦ elim (Bool-cases info.frozen) [
        | inl f ↦ rw (x, y, k, f) h
        | inr f ↦ elim (Bool-cases (ltb_ℤ (balance_of from a l) amount)) [
          | inl w ↦ rw (x, y, k, f, w) h
          | inr w ↦
              rw (x, y, k, f, w)
                (move-IsConserved a from to amount l h (ground arith) (ground arith))
        ]
      ]
    ]
  ]
]

mint-IsConserved :
    (a : AssetId) (to : AgentId) (amount : TensionValue) (l : MultiAssetLedger)
    → IsConserved l
    → supply_of a l +ℤ amount ≤ℤ pos i128_max
    → IsConserved (mint a to amount l).0
unfolding mint
mint-IsConserved a to amount l h room = elim (Option-cases (lookup a l.asset_info)) [
  | inl n ↦ rw n h
  | inr (info, k) ↦ elim (Bool-cases info.frozen) [
    | inl f ↦ rw (k, f) h
    | inr f ↦ elim (Bool-cases (leb_ℤ amount (pos 0))) [
      | inl w ↦ rw (k, f, w) h
      | inr w ↦ rw (k, f, w) (issue-IsConserved a to amount l h info k (ground arith) room)
    ]
  ]
]

burn-IsConserved :
    (a : AssetId) (from : AgentId) (amount : TensionValue) (l : MultiAssetLedger)
    → IsConserved l
    → supply_of a l -ℤ amount ≤ℤ pos i128_max
    → IsConserved (burn a from amount l).0
unfolding burn
burn-IsConserved a from amount l h room = elim (Option-cases (lookup a l.asset_info)) [
  | inl n ↦ rw n h
  | inr (info, k) ↦ elim (Bool-cases info.frozen) [
    | inl f ↦ rw (k, f) h
    | inr f ↦ elim (Bool-cases (ltb_ℤ (balance_of from a l) amount)) [
      | inl w ↦ rw (k, f, w) h
      | inr w ↦ rw (k, f, w) (destroy-IsConserved a from amount l h info k (ground arith) room).0
    ]
  ]
]

-- A new asset starts with no supply, which is what an unregistered one has.
zero_supply :
    (info : AssetInfo) (l : MultiAssetLedger) (c : AssetId)
    → IsConserved l
    → lookup info.id l.asset_info ≡ none
    → value c (insert info.id tension_zero l.total_supply) ≡ supply_of c l
zero_supply info l c h n = elim (Bool-cases (c == info.id)) [
  | inl s ↦
      let same : c ≡ info.id = (==_iff c info.id).0 s in
      rw same (
        ap or_zero (lookup-insert_self info.id tension_zero l.total_supply)
        ∙ sym (h.unregistered info.id n))
  | inr s ↦
      let ne : c ≢ info.id = λ (q : c ≡ info.id). ground arith in
      ap or_zero (lookup-insert_ne c info.id tension_zero l.total_supply ne)
]

-- An asset that no insert made known was not known before.
unknown_before :
    (info : AssetInfo) (a c : AssetId) (m : Map AssetId AssetInfo)
    → lookup c (insert a info m) ≡ none
    → lookup c m ≡ none
unknown_before info a c m q = elim (Bool-cases (c == a)) [
  | inl s ↦
      let same : c ≡ a = (==_iff c a).0 s in
      let found : lookup c (insert a info m) ≡ some info = rw same (lookup-insert_self a info m) in
      absurd (cc)
  | inr s ↦ let ne : c ≢ a = λ (k : c ≡ a). ground arith in sym (lookup-insert_ne c a info m ne) ∙ q
]

register_asset-IsConserved :
    (info : AssetInfo) (l : MultiAssetLedger)
    → IsConserved l
    → IsConserved (register_asset info l).0
unfolding register_asset
register_asset-IsConserved info l h = elim (Option-cases (lookup info.id l.asset_info)) [
  | inr (old, k) ↦ rw (contains_of_some info.id old l.asset_info k) h
  | inl n ↦ rw (contains_of_none info.id l.asset_info n) (record {
    nonneg = h.nonneg;
    supplied = λ c. h.supplied c ∙ sym (zero_supply info l c h n);
    fits = λ c. rw (zero_supply info l c h n) (h.fits c);
    unregistered = λ c q.
        zero_supply info l c h n ∙ h.unregistered c (unknown_before info info.id c l.asset_info q);
  })
]

freeze_asset-IsConserved :
    (a : AssetId) (l : MultiAssetLedger) → IsConserved l → IsConserved (freeze_asset a l).0
unfolding freeze_asset
freeze_asset-IsConserved a l h = elim (Option-cases (lookup a l.asset_info)) [
  | inl n ↦ rw n h
  | inr (info, k) ↦ rw k (record {
    nonneg = h.nonneg;
    supplied = h.supplied;
    fits = h.fits;
    unregistered =
        λ c q. h.unregistered c (unknown_before (record info { frozen = true }) a c l.asset_info q);
  })
]

-- The calls on the ledger. A mint, and a burn (of a negative amount), has room in the supply.
pub data Step (l : MultiAssetLedger) : MultiAssetLedger → Type 0 where
  registers : (info : AssetInfo) → Step l (register_asset info l).0
  mints :
      (a : AssetId) (to : AgentId) (amount : TensionValue)
      → supply_of a l +ℤ amount ≤ℤ pos i128_max
      → Step l (mint a to amount l).0
  burns :
      (a : AssetId) (from : AgentId) (amount : TensionValue)
      → supply_of a l -ℤ amount ≤ℤ pos i128_max
      → Step l (burn a from amount l).0
  transfers :
      (a : AssetId) (from to : AgentId) (amount : TensionValue)
      → Step l (transfer a from to amount l).0
  freezes : (a : AssetId) → Step l (freeze_asset a l).0

pub data Reach (s : MultiAssetLedger) : MultiAssetLedger → Type 0 where
  here : Reach s s
  next : {t u : MultiAssetLedger} → Reach s t → Step t u → Reach s u

Step-IsConserved : {l m : MultiAssetLedger} → Step l m → IsConserved l → IsConserved m
Step-IsConserved {l} (registers info) h = register_asset-IsConserved info l h
Step-IsConserved {l} (mints a to amount room) h = mint-IsConserved a to amount l h room
Step-IsConserved {l} (burns a from amount room) h = burn-IsConserved a from amount l h room
Step-IsConserved {l} (transfers a from to amount) h = transfer-IsConserved a from to amount l h
Step-IsConserved {l} (freezes a) h = freeze_asset-IsConserved a l h

-- From a ledger in which no balance is negative, the supply of every asset fits an i128 and is the
-- sum of its balances, and an asset that is not registered has none (the empty ledger is one), any
-- sequence of registrations, mints and burns that the supply has room for, transfers and freezes,
-- refused ones included, leads to such a ledger again.
pub Reach-IsConserved : {s t : MultiAssetLedger} → IsConserved s → Reach s t → IsConserved t
Reach-IsConserved h here = h
Reach-IsConserved h (next r st) = Step-IsConserved st (Reach-IsConserved h r)
