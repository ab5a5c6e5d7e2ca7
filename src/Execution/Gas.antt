-- ===== src/Execution/Gas.antt =====
-- Gas metering: crates/sccgub-execution/src/gas.rs. The name of the operation in an error, and the
-- defaults that `ConsensusParams` supplies, are left out.
pub mod Limits
use scc_blockchain.Prelude.{
  ℕ, suc, ◌+◌, ◌-◌, ◌*◌, ◌/◌, ◌%◌, Bool, true, false, ◌==◌, leb, ltb, if◌then◌else◌, min,
}
use scc_blockchain.Prelude.Int.{ℤ, pos, negsuc}
use scc_blockchain.Prelude.Words.{u32_max, u64_max, sat_add64, sat_mul64, sat_add32, sat}
use scc_blockchain.Prelude.Int.{sub_ℕ}
use scc_blockchain.Prelude.Result.{Result, ok, err, Outcome}
use scc_blockchain.Types.Tension.{TensionValue}

pub record GasPricing : Type 0 where
  pub tx_base : ℕ
  pub compute_step : ℕ
  pub state_read : ℕ
  pub state_write : ℕ
  pub sig_verify : ℕ
  pub hash_op : ℕ
  pub proof_byte : ℕ
  pub payload_byte : ℕ

pub record GasBreakdown : Type 0 where
  pub compute : ℕ
  pub state_reads : ℕ
  pub state_writes : ℕ
  pub sig_verify : ℕ
  pub hashing : ℕ
  pub proof : ℕ

pub record GasMeter : Type 0 where
  pub limit : ℕ
  pub pricing : GasPricing
  pub used : ℕ
  pub breakdown : GasBreakdown

-- `OutOfGas` with what was used and the limit.
pub data GasError : Type 0 where
  out_of_gas : (used limit : ℕ) → GasError

abbrev pub no_breakdown : GasBreakdown
no_breakdown = record {
  compute = 0;
  state_reads = 0;
  state_writes = 0;
  sig_verify = 0;
  hashing = 0;
  proof = 0;
}

unfoldable pub with_pricing : ℕ → GasPricing → GasMeter
with_pricing limit pricing = record {
  limit = limit;
  pricing = pricing;
  used = 0;
  breakdown = no_breakdown;
}

abbrev pub Charge : Type 0
Charge = Outcome GasMeter GasError (Unit {0})

unfoldable pub charge : ℕ → GasMeter → Charge
charge amount m =
    let m' = record m { used = sat_add64 m.used amount } in
    if ltb m'.limit m'.used then (m', err (out_of_gas m'.used m'.limit)) else (m', ok tt)

-- `+=` on a u64, which wraps in a release build.
abbrev pub wrap_add : ℕ → ℕ → ℕ
wrap_add a b = (a + b) % (u64_max + 1)

-- The meter with a new breakdown.
abbrev pub spend : GasBreakdown → GasMeter → GasMeter
spend b m = record m { breakdown = b }

unfoldable pub charge_compute : ℕ → GasMeter → Charge
charge_compute steps m =
    let cost = sat_mul64 steps m.pricing.compute_step in
    charge cost (spend (record (m.breakdown) { compute = wrap_add m.breakdown.compute cost }) m)

unfoldable pub charge_state_read : GasMeter → Charge
charge_state_read m =
    let cost = m.pricing.state_read in
    charge cost
      (spend (record (m.breakdown) { state_reads = wrap_add m.breakdown.state_reads cost }) m)

unfoldable pub charge_state_write : GasMeter → Charge
charge_state_write m =
    let cost = m.pricing.state_write in
    charge cost
      (spend (record (m.breakdown) { state_writes = wrap_add m.breakdown.state_writes cost }) m)

unfoldable pub charge_sig_verify : GasMeter → Charge
charge_sig_verify m =
    let cost = m.pricing.sig_verify in
    charge cost
      (spend (record (m.breakdown) { sig_verify = wrap_add m.breakdown.sig_verify cost }) m)

unfoldable pub charge_hash : GasMeter → Charge
charge_hash m =
    let cost = m.pricing.hash_op in
    charge cost (spend (record (m.breakdown) { hashing = wrap_add m.breakdown.hashing cost }) m)

unfoldable pub charge_proof_bytes : ℕ → GasMeter → Charge
charge_proof_bytes bytes m =
    let cost = sat_mul64 bytes m.pricing.proof_byte in
    charge cost (spend (record (m.breakdown) { proof = wrap_add m.breakdown.proof cost }) m)

unfoldable pub charge_tx_base : GasMeter → Charge
charge_tx_base m = charge m.pricing.tx_base m

unfoldable pub charge_payload : ℕ → GasMeter → Charge
charge_payload bytes m = charge (sat_mul64 bytes m.pricing.payload_byte) m

unfoldable pub remaining : GasMeter → ℕ
remaining m = m.limit - m.used

abbrev times : ℕ → ℤ → ℤ
times n (pos k) = pos (n * k)
times n (negsuc k) = sub_ℕ 0 (n * (k + 1))

unfoldable pub compute_fee : TensionValue → GasMeter → TensionValue
compute_fee gas_price m = sat (times m.used gas_price)

pub record BlockGasMeter : Type 0 where
  pub limit : ℕ
  pub used : ℕ
  pub tx_count : ℕ

unfoldable pub new_block_meter : ℕ → BlockGasMeter
new_block_meter limit = record { limit = limit; used = 0; tx_count = 0 }

unfoldable pub can_fit : ℕ → BlockGasMeter → Bool
can_fit tx_gas m = leb (sat_add64 m.used tx_gas) m.limit

unfoldable pub record_tx : ℕ → BlockGasMeter → BlockGasMeter
record_tx tx_gas m = record m { used = sat_add64 m.used tx_gas; tx_count = sat_add32 m.tx_count 1 }

unfoldable pub block_remaining : BlockGasMeter → ℕ
block_remaining m = m.limit - m.used

unfoldable pub utilization_pct : BlockGasMeter → ℕ
utilization_pct m = if m.limit == 0 then 100 else min (m.used * 100 / m.limit) 100
