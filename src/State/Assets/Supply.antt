-- ===== src/State/Assets/Supply.antt =====
-- The supply of each asset is the sum of its balances.
use scc_blockchain.Prelude.{
  ◌≡◌, ◌≢◌, refl, sym, ap, ◌∙◌, Bool, true, false, none, some, Bool-cases, inl, inr, ◌==◌, ==_iff,
  ==_false, arith,
}
use scc_blockchain.Prelude.Int.{ℤ, pos, pos_part, neg_part, ◌+ℤ◌, ◌-ℤ◌, ◌≤ℤ◌, int_laws}
use scc_blockchain.Prelude.Words.{i128_max}
use scc_blockchain.Prelude.Map.{
  Map, lookup, insert, nat_eq, pair_eq, lookup-insert_self, lookup-insert_ne,
}
use scc_blockchain.Types.Tension.{TensionValue, add_exact, sub_exact}
use scc_blockchain.State.Entries.{
  NonNeg, sum_if, value, or_zero, insert-NonNeg, value_nonneg, sum_if-insert, value-le-sum_if,
}
use scc_blockchain.State.Balances.{AgentId}
use scc_blockchain.State.Assets.{
  AssetId, MultiAssetLedger, AssetInfo, balance_of, supply_of, issue, destroy,
}

-- The keys of one asset.
abbrev pub of_asset : AssetId → AgentId × AssetId → Bool
of_asset asset k = asset == k.1

-- The exact sum of the balances of an asset.
abbrev pub holdings : AssetId → Map (AgentId × AssetId) TensionValue → ℤ
holdings asset m = sum_if (of_asset asset) m

-- No balance is negative, every supply fits an i128 and is the sum of the asset's balances, and an
-- asset that is not registered has none.
pub record IsConserved (l : MultiAssetLedger) : Type 0 where
  pub nonneg : NonNeg l.balances
  pub supplied : (a : AssetId) → holdings a l.balances ≡ supply_of a l
  pub fits : (a : AssetId) → supply_of a l ≤ℤ pos i128_max
  pub unregistered : (a : AssetId) → lookup a l.asset_info ≡ none → supply_of a l ≡ pos 0

-- A write to a balance moves the holdings of its asset, and of no other.
pub holdings-insert_self :
    (a : AssetId) (k : AgentId) (v : ℤ) (m : Map (AgentId × AssetId) TensionValue)
    → holdings a (insert (k, a) v m) ≡ holdings a m -ℤ value (k, a) m +ℤ v
holdings-insert_self a k v m =
    let own : (a == a) ≡ true = (==_iff a a).1 refl in
    let e = sum_if-insert (of_asset a) (k, a) v m in
    let e' : holdings a (insert (k, a) v m) +ℤ value (k, a) m ≡ holdings a m +ℤ v = rw own at e in
    omega (int_laws, ap pos_part e', ap neg_part e')

pub holdings-insert_ne :
    (a c : AssetId) (k : AgentId) (v : ℤ) (m : Map (AgentId × AssetId) TensionValue)
    → c ≢ a
    → holdings c (insert (k, a) v m) ≡ holdings c m
holdings-insert_ne a c k v m ne =
    let other : (c == a) ≡ false = ==_false c a ne in
    let e = sum_if-insert (of_asset c) (k, a) v m in
    let e' : holdings c (insert (k, a) v m) +ℤ pos 0 ≡ holdings c m +ℤ pos 0 = rw other at e in
    omega (int_laws, ap pos_part e', ap neg_part e')

-- A balance is at most the supply.
pub balance-le-supply :
    (agent : AgentId) (a : AssetId) (l : MultiAssetLedger)
    → IsConserved l
    → balance_of agent a l ≤ℤ supply_of a l
balance-le-supply agent a l h =
    let e : holdings a l.balances ≡ supply_of a l = h.supplied a in
    let b : balance_of agent a l ≤ℤ holdings a l.balances =
      value-le-sum_if (of_asset a) (agent, a) l.balances ((==_iff a a).1 refl) h.nonneg in
    rw e at b

-- Writing a balance and the supply of its asset by the same change.
write-IsConserved :
    (a : AssetId) (k : AgentId) (v w : ℤ) (l : MultiAssetLedger) (info : AssetInfo)
    → IsConserved l
    → lookup a l.asset_info ≡ some info
    → pos 0 ≤ℤ v
    → w ≡ supply_of a l -ℤ balance_of k a l +ℤ v
    → w ≤ℤ pos i128_max
    → IsConserved (record l {
      balances = insert (k, a) v l.balances;
      total_supply = insert a w l.total_supply;
    })
write-IsConserved a k v w l info h known p e room = record {
  nonneg = insert-NonNeg (k, a) v l.balances p h.nonneg;
  supplied = λ c. elim (Bool-cases (c == a)) [
    | inl s ↦
        let same : c ≡ a = (==_iff c a).0 s in
        rw same (
          holdings-insert_self a k v l.balances
          ∙ ap (λ t. t -ℤ balance_of k a l +ℤ v) (h.supplied a)
          ∙ sym e
          ∙ sym (ap or_zero (lookup-insert_self a w l.total_supply)))
    | inr s ↦
        let ne : c ≢ a = λ (q : c ≡ a). ground arith in
        holdings-insert_ne a c k v l.balances ne
        ∙ h.supplied c
        ∙ sym (ap or_zero (lookup-insert_ne c a w l.total_supply ne))
  ];
  fits = λ c. elim (Bool-cases (c == a)) [
    | inl s ↦
        let same : c ≡ a = (==_iff c a).0 s in rw (same, lookup-insert_self a w l.total_supply) room
    | inr s ↦
        let ne : c ≢ a = λ (q : c ≡ a). ground arith in
        rw (lookup-insert_ne c a w l.total_supply ne) (h.fits c)
  ];
  unregistered = λ c q. elim (Bool-cases (c == a)) [
    | inl s ↦
        let same : c ≡ a = (==_iff c a).0 s in
        let known' : lookup c l.asset_info ≡ some info = rw same known in absurd (cc)
    | inr s ↦
        let ne : c ≢ a = λ (q : c ≡ a). ground arith in
        rw (lookup-insert_ne c a w l.total_supply ne) (h.unregistered c q)
  ];
}

module _ (a : AssetId) (k : AgentId) (amount : TensionValue) (l : MultiAssetLedger)
    (h : IsConserved l) where
  -- Issuing a positive amount that the supply has room for.
  pub issue-IsConserved :
      (info : AssetInfo)
      → lookup a l.asset_info ≡ some info
      → pos 0 ≤ℤ amount
      → supply_of a l +ℤ amount ≤ℤ pos i128_max
      → IsConserved (issue a k amount l)
  issue-IsConserved info known p room =
      let low : pos 0 ≤ℤ balance_of k a l = value_nonneg (k, a) l.balances h.nonneg in
      let high : balance_of k a l ≤ℤ supply_of a l = balance-le-supply k a l h in
      let e1 = add_exact (balance_of k a l) amount (omega int_laws) in
      let e2 = add_exact (supply_of a l) amount (omega int_laws) in
      rw (e1, e2)
        (write-IsConserved a k (balance_of k a l +ℤ amount) (supply_of a l +ℤ amount) l info h known
          (omega int_laws) (omega int_laws) room)

  -- Destroying an amount that the balance covers, where the supply stays in range.
  pub destroy-IsConserved :
      (info : AssetInfo)
      → lookup a l.asset_info ≡ some info
      → amount ≤ℤ balance_of k a l
      → supply_of a l -ℤ amount ≤ℤ pos i128_max
      → IsConserved (destroy a k amount l)
        × (supply_of a (destroy a k amount l) ≡ supply_of a l -ℤ amount)
        × (balance_of k a (destroy a k amount l) ≡ balance_of k a l -ℤ amount)
  destroy-IsConserved info known cover room =
      let low : pos 0 ≤ℤ balance_of k a l = value_nonneg (k, a) l.balances h.nonneg in
      let high : balance_of k a l ≤ℤ supply_of a l = balance-le-supply k a l h in
      let e1 = sub_exact (balance_of k a l) amount (omega int_laws) in
      let e2 = sub_exact (supply_of a l) amount (omega int_laws) in
      rw (e1, e2)
        (
          write-IsConserved a k (balance_of k a l -ℤ amount) (supply_of a l -ℤ amount) l info h
              known (omega int_laws) (omega int_laws) room,
          ap or_zero (lookup-insert_self a (supply_of a l -ℤ amount) l.total_supply),
          ap or_zero (lookup-insert_self (k, a) (balance_of k a l -ℤ amount) l.balances),
        )
