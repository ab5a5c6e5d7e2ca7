-- ===== src/State/Assets.antt =====
-- The multi-asset ledger: crates/sccgub-state/src/assets.rs.
pub mod Supply
pub mod Runs
pub mod Frozen
use Prim.Native.String.{String}
use scc_blockchain.Prelude.{ℕ, ◌≡◌, Bool, true, false, Option, none, some, ◌==◌, if◌then◌else◌, []}
use scc_blockchain.Prelude.Int.{ℤ, pos, ltb_ℤ, leb_ℤ}
use scc_blockchain.Prelude.Map.{Map, lookup, insert, contains, nat_eq, pair_eq}
use scc_blockchain.Prelude.Result.{Result, ok, err, Outcome}
use scc_blockchain.Types.Tension.{TensionValue, tension_zero, add, sub}
use scc_blockchain.State.Entries.{value}
use scc_blockchain.State.Balances.{AgentId}

abbrev pub AssetId : Type 0
AssetId = ℕ

pub data AssetType : Type 0 where
  native real_estate : AssetType
  stablecoin commodity custom : String → AssetType
  bond : ℕ → AssetType

pub record AssetInfo : Type 0 where
  pub id : AssetId
  pub name : String
  pub asset_type : AssetType
  pub issuer : AgentId
  pub created_at_height : ℕ
  pub frozen : Bool

pub record MultiAssetLedger : Type 0 where
  pub balances : Map (AgentId × AssetId) TensionValue
  pub total_supply : Map AssetId TensionValue
  pub asset_info : Map AssetId AssetInfo

pub data AssetError : Type 0 where
  already_registered not_registered is_frozen amount_not_positive insufficient to_self : AssetError

abbrev pub Call : Type 0
Call = Outcome MultiAssetLedger AssetError (Unit {0})

abbrev pub new : MultiAssetLedger
new = record { balances = []; total_supply = []; asset_info = [] }

abbrev pub balance_of : AgentId → AssetId → MultiAssetLedger → TensionValue
balance_of agent asset l = value (agent, asset) l.balances

abbrev pub supply_of : AssetId → MultiAssetLedger → TensionValue
supply_of asset l = value asset l.total_supply

unfoldable pub register_asset : AssetInfo → MultiAssetLedger → Call
register_asset info l = if contains info.id l.asset_info then (l, err already_registered) else (
  record l {
    total_supply = insert info.id tension_zero l.total_supply;
    asset_info = insert info.id info l.asset_info;
  },
  ok tt,
)

-- The writes of `mint`, and of `burn`.
abbrev pub issue : AssetId → AgentId → TensionValue → MultiAssetLedger → MultiAssetLedger
issue asset to amount l = record l {
  balances = insert (to, asset) (add (balance_of to asset l) amount) l.balances;
  total_supply = insert asset (add (supply_of asset l) amount) l.total_supply;
}

abbrev pub destroy : AssetId → AgentId → TensionValue → MultiAssetLedger → MultiAssetLedger
destroy asset from amount l = record l {
  balances = insert (from, asset) (sub (balance_of from asset l) amount) l.balances;
  total_supply = insert asset (sub (supply_of asset l) amount) l.total_supply;
}

-- The writes of `transfer`: the recipient's balance is read after the sender's was written.
abbrev pub move : AssetId → (from to : AgentId) → TensionValue → MultiAssetLedger → MultiAssetLedger
move asset from to amount l =
    let m = insert (from, asset) (sub (balance_of from asset l) amount) l.balances in
    record l { balances = insert (to, asset) (add (value (to, asset) m) amount) m }

-- The `info` lookup that the operations begin with.
abbrev mint_known : Option AssetInfo → AssetId → AgentId → TensionValue → MultiAssetLedger → Call
mint_known none asset to amount l = (l, err not_registered)
mint_known (some info) asset to amount l =
    if info.frozen
    then (l, err is_frozen)
    else if leb_ℤ amount (pos 0)
    then (l, err amount_not_positive)
    else (issue asset to amount l, ok tt)

unfoldable pub mint : AssetId → AgentId → TensionValue → MultiAssetLedger → Call
mint asset to amount l = mint_known (lookup asset l.asset_info) asset to amount l

abbrev burn_known : Option AssetInfo → AssetId → AgentId → TensionValue → MultiAssetLedger → Call
burn_known none asset from amount l = (l, err not_registered)
burn_known (some info) asset from amount l =
    if info.frozen
    then (l, err is_frozen)
    else if ltb_ℤ (balance_of from asset l) amount
    then (l, err insufficient)
    else (destroy asset from amount l, ok tt)

unfoldable pub burn : AssetId → AgentId → TensionValue → MultiAssetLedger → Call
burn asset from amount l = burn_known (lookup asset l.asset_info) asset from amount l

abbrev transfer_known :
    Option AssetInfo → AssetId → (from to : AgentId) → TensionValue → MultiAssetLedger → Call
transfer_known none asset from to amount l = (l, err not_registered)
transfer_known (some info) asset from to amount l =
    if info.frozen
    then (l, err is_frozen)
    else if ltb_ℤ (balance_of from asset l) amount
    then (l, err insufficient)
    else (move asset from to amount l, ok tt)

unfoldable pub transfer : AssetId → (from to : AgentId) → TensionValue → MultiAssetLedger → Call
transfer asset from to amount l =
    if leb_ℤ amount (pos 0)
    then (l, err amount_not_positive)
    else if from == to
    then (l, err to_self)
    else transfer_known (lookup asset l.asset_info) asset from to amount l

abbrev freeze_known : Option AssetInfo → AssetId → MultiAssetLedger → Call
freeze_known none asset l = (l, err not_registered)
freeze_known (some info) asset l =
    (record l { asset_info = insert asset (record info { frozen = true }) l.asset_info }, ok tt)

unfoldable pub freeze_asset : AssetId → MultiAssetLedger → Call
freeze_asset asset l = freeze_known (lookup asset l.asset_info) asset l
