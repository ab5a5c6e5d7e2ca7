-- ===== src/Tests/Assets.antt =====
-- The asset ledger at concrete inputs, where the conditions of its theorems hold.
use scc_blockchain.Prelude.{◌≡◌, refl, arith, some, false}
use scc_blockchain.Prelude.Int.{pos, ◌+ℤ◌, ◌≤ℤ◌}
use scc_blockchain.Prelude.Map.{lookup, nat_eq}
use scc_blockchain.Prelude.Words.{i128_max}
use scc_blockchain.State.Entries.{sum_if}
use scc_blockchain.State.Assets.{
  AssetInfo, MultiAssetLedger, native, new, supply_of, register_asset, mint,
}
use scc_blockchain.State.Assets.Supply.{IsConserved}
use scc_blockchain.State.Assets.Runs.{Reach-IsConserved, here, next, registers, mints}

abbrev coin : AssetInfo
coin = record {
  id = 3;
  name = "coin";
  asset_type = native;
  issuer = 1;
  created_at_height = 0;
  frozen = false;
}

new-IsConserved : IsConserved new
unfolding sum_if
new-IsConserved = record {
  nonneg = tt;
  supplied = λ a. refl;
  fits = λ a. omega arith;
  unregistered = λ a q. refl;
}

abbrev registered : MultiAssetLedger
registered = (register_asset coin new).0

-- A registration and a mint of 20 to agent 1.
abbrev minted : MultiAssetLedger
minted = (mint 3 1 (pos 20) registered).0

room : supply_of 3 registered +ℤ pos 20 ≤ℤ pos i128_max
unfolding register_asset ◌+ℤ◌
room = omega arith

Reach-IsConserved_example : IsConserved minted
Reach-IsConserved_example =
    Reach-IsConserved {s = new} {t = minted} new-IsConserved
      (next (next here (registers coin)) (mints 3 1 (pos 20) room))

registered-IsConserved : IsConserved registered
registered-IsConserved =
    Reach-IsConserved {s = new} {t = registered} new-IsConserved (next here (registers coin))

coin_known : lookup 3 registered.asset_info ≡ some coin
unfolding register_asset
coin_known = refl

small_room : supply_of 3 registered +ℤ pos 7 ≤ℤ pos i128_max
unfolding register_asset ◌+ℤ◌
small_room = omega arith
