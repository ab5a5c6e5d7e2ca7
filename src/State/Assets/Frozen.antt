-- ===== src/State/Assets/Frozen.antt =====
-- What a frozen asset and a negative burn do.
use scc_blockchain.Prelude.{
  ◌+◌, ℕ, ◌≡◌, ◌≢◌, refl, ◌∙◌, true, false, some, Option-cases, inl, inr, ==_false, arith,
}
use scc_blockchain.Prelude.Int.{pos, negsuc, ◌+ℤ◌, ◌≤ℤ◌, ◌<ℤ◌, int_laws, leb_ℤ_of_gt, ltb_ℤ_of_ge}
use scc_blockchain.Prelude.Words.{i128_max}
use scc_blockchain.Prelude.Map.{lookup, nat_eq, pair_eq, lookup-insert_self}
use scc_blockchain.Prelude.Result.{ok, err}
use scc_blockchain.Types.Tension.{TensionValue}
use scc_blockchain.State.Entries.{value_nonneg}
use scc_blockchain.State.Balances.{AgentId}
use scc_blockchain.State.Assets.{
  AssetId, MultiAssetLedger, AssetInfo, balance_of, supply_of, mint, burn, transfer, freeze_asset,
  is_frozen,
}
use scc_blockchain.State.Assets.Supply.{IsConserved, destroy-IsConserved}

-- Once an asset is frozen, a mint, a burn and a transfer of a positive amount of it between two
-- different agents are refused as frozen and change nothing.
frozen_refuses :
    (a : AssetId) (from to : AgentId) (amount : TensionValue) (l : MultiAssetLedger)
    → (freeze_asset a l).1 ≡ ok tt
    → pos 0 <ℤ amount
    → from ≢ to
    → let l' = (freeze_asset a l).0 in
      (mint a to amount l' ≡ (l', err is_frozen))
      × (burn a from amount l' ≡ (l', err is_frozen))
      × (transfer a from to amount l' ≡ (l', err is_frozen))
unfolding freeze_asset mint burn transfer
frozen_refuses a from to amount l e p ne = elim (Option-cases (lookup a l.asset_info)) [
  | inl n ↦ absurd (ground arith)
  | inr (info, k) ↦
      let f = lookup-insert_self a (record info { frozen = true }) l.asset_info in
      rw (k, f) (refl, refl, rw (leb_ℤ_of_gt amount (pos 0) p, ==_false from to ne))
]

-- On a ledger in which the supply of every asset is the sum of its balances, a burn of a negative
-- amount of a registered asset that is not frozen succeeds for any agent, and raises the agent's
-- balance and the supply by the absolute value, while the supply has room.
pub burn-negative_mints :
    (a : AssetId) (from : AgentId) (n : ℕ) (l : MultiAssetLedger) (info : AssetInfo)
    → IsConserved l
    → lookup a l.asset_info ≡ some info
    → info.frozen ≡ false
    → supply_of a l +ℤ pos (n + 1) ≤ℤ pos i128_max
    → let (l', x) = burn a from (negsuc n) l in
      (x ≡ ok tt)
      × (supply_of a l' ≡ supply_of a l +ℤ pos (n + 1))
      × (balance_of from a l' ≡ balance_of from a l +ℤ pos (n + 1))
unfolding burn
burn-negative_mints a from n l info h k f room =
    let low : pos 0 ≤ℤ balance_of from a l = value_nonneg (from, a) l.balances h.nonneg in
    let d = destroy-IsConserved a from (negsuc n) l h info k (omega int_laws) (omega int_laws) in
    rw (k, f, ltb_ℤ_of_ge (balance_of from a l) (negsuc n) (omega arith))
      (refl, d.1 ∙ (omega int_laws), d.2 ∙ (omega int_laws))
