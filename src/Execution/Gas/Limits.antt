-- ===== src/Execution/Gas/Limits.antt =====
-- The limits that the gas meters keep: crates/sccgub-execution/src/gas.rs.
use scc_blockchain.Prelude.{
  ℕ, ◌+◌, ◌≤◌, ◌<◌, true, false, List, [], ◌∷◌, ltb, ◌≡◌, refl, arith, ◌↔◌, ◌⊎◌, subst, ◌∙◌,
  Bool-cases, inl, inr,
}
use scc_blockchain.Prelude.Words.{u64_max, sat_add64}
use scc_blockchain.Prelude.Result.{ok, err}
use scc_blockchain.Execution.Gas.{
  sat_mul64, GasMeter, GasError, out_of_gas, Charge, charge, GasPricing, charge_compute,
  charge_state_read, charge_state_write, charge_sig_verify, charge_hash, charge_proof_bytes,
  charge_tx_base, charge_payload, BlockGasMeter, can_fit, record_tx,
}

-- The charges of an execution, with their cost under a pricing.
pub data Op : Type 0 where
  compute : ℕ → Op
  state_read state_write sig_verify hash_op tx_base : Op
  proof_bytes payload : ℕ → Op

abbrev pub perform : Op → GasMeter → Charge
perform (compute n) m = charge_compute n m
perform state_read m = charge_state_read m
perform state_write m = charge_state_write m
perform sig_verify m = charge_sig_verify m
perform hash_op m = charge_hash m
perform tx_base m = charge_tx_base m
perform (proof_bytes n) m = charge_proof_bytes n m
perform (payload n) m = charge_payload n m

abbrev pub cost : GasPricing → Op → ℕ
cost p (compute n) = sat_mul64 n p.compute_step
cost p state_read = p.state_read
cost p state_write = p.state_write
cost p sig_verify = p.sig_verify
cost p hash_op = p.hash_op
cost p tx_base = p.tx_base
cost p (proof_bytes n) = sat_mul64 n p.proof_byte
cost p (payload n) = sat_mul64 n p.payload_byte

abbrev pub total : GasPricing → List Op → ℕ
total p [] = 0
total p (o ∷ os) = cost p o + total p os

abbrev after : (GasMeter → Charge) → Charge → Charge
after f (m, ok u) = f m
after f (m, err e) = (m, err e)

-- One charge after the other, up to the first that fails.
unfoldable pub run : List Op → GasMeter → Charge
run [] m = (m, ok tt)
run (o ∷ os) m = after (run os) (perform o m)

-- What one charge does: it adds its cost, keeps the limit and the pricing, and fails exactly when
-- the sum is past the limit.
abbrev IsCharge : ℕ → GasMeter → Charge → Type 0
IsCharge c m r =
    (r.0.used ≡ sat_add64 m.used c)
    × (r.0.limit ≡ m.limit)
    × (r.0.pricing ≡ m.pricing)
    × (((m.used + c ≤ m.limit) × (r.1 ≡ ok tt))
        ⊎ ((m.limit < m.used + c) × (r.1 ≡ err (out_of_gas r.0.used r.0.limit))))

abbrev charged : ℕ → GasMeter → GasMeter
charged c m = record m { used = sat_add64 m.used c }

charge-over :
    (c : ℕ) (m : GasMeter)
    → ltb m.limit (sat_add64 m.used c) ≡ true
    → charge c m ≡ (charged c m, err (out_of_gas (sat_add64 m.used c) m.limit))
unfolding charge
charge-over c m b = simp b

charge-within :
    (c : ℕ) (m : GasMeter)
    → ltb m.limit (sat_add64 m.used c) ≡ false
    → charge c m ≡ (charged c m, ok tt)
unfolding charge
charge-within c m b = simp b

charge_lem :
    (c : ℕ) (m m' : GasMeter)
    → m'.used ≡ m.used
    → m'.limit ≡ m.limit
    → m'.pricing ≡ m.pricing
    → m.limit < u64_max
    → IsCharge c m (charge c m')
unfolding charge
charge_lem c m m' u l p h = elim (Bool-cases (ltb m'.limit (sat_add64 m'.used c))) [
  | inl b ↦ rw (charge-over c m' b) (rw u refl, l, p, inr (ground arith, refl))
  | inr b ↦ rw (charge-within c m' b) (rw u refl, l, p, inl (ground arith, refl))
]

pub perform_lem :
    (o : Op) (m : GasMeter) → m.limit < u64_max → IsCharge (cost m.pricing o) m (perform o m)
unfolding charge_compute charge_state_read charge_state_write charge_sig_verify charge_hash
    charge_proof_bytes charge_tx_base charge_payload
perform_lem (compute n) m h = charge_lem (cost m.pricing (compute n)) m _ refl refl refl h
perform_lem state_read m h = charge_lem _ m _ refl refl refl h
perform_lem state_write m h = charge_lem _ m _ refl refl refl h
perform_lem sig_verify m h = charge_lem _ m _ refl refl refl h
perform_lem hash_op m h = charge_lem _ m _ refl refl refl h
perform_lem tx_base m h = charge_lem _ m _ refl refl refl h
perform_lem (proof_bytes n) m h = charge_lem _ m _ refl refl refl h
perform_lem (payload n) m h = charge_lem _ m _ refl refl refl h

after-ok : (f : GasMeter → Charge) (r : Charge) → r.1 ≡ ok tt → after f r ≡ f r.0
after-ok f (m, ok tt) e = refl
after-ok f (m, err x) e = absurd (cc)

after-err : (f : GasMeter → Charge) (r : Charge) (x : GasError) → r.1 ≡ err x → after f r ≡ r
after-err f (m, ok tt) x e = absurd (cc)
after-err f (m, err y) x e = refl

-- A run that costs `t`: the limit is kept, and either the sum stays within it and is accepted, or
-- it does not and the run ends out of gas.
abbrev pub IsRun : ℕ → GasMeter → Charge → Type 0
IsRun t m r =
    (r.0.limit ≡ m.limit)
    × (((m.used + t ≤ m.limit) × (r.1 ≡ ok tt) × (r.0.used ≡ m.used + t))
        ⊎ ((m.limit < m.used + t)
            × (m.limit < r.0.used)
            × (r.1 ≡ err (out_of_gas r.0.used r.0.limit))))

IsRun-after :
    (c t : ℕ) (m n : GasMeter) (r : Charge)
    → n.used ≡ m.used + c
    → n.limit ≡ m.limit
    → IsRun t n r
    → IsRun (c + t) m r
IsRun-after c t m n r u l (k, inl (w, o, s)) = (k ∙ l, inl (omega arith, o, omega arith))
IsRun-after c t m n r u l (k, inr (w, o, s)) = (k ∙ l, inr (omega arith, omega arith, s))

-- Charges in a row, on a meter within its limit and with a limit below `u64::MAX`: if what they
-- cost in all stays within the limit, all are accepted and the meter holds the sum; if not, the
-- run fails with out of gas and a use that is past the limit.
pub run_lem :
    (os : List Op) (m : GasMeter)
    → m.limit < u64_max
    → m.used ≤ m.limit
    → IsRun (total m.pricing os) m (run os m)
unfolding run
run_lem [] m h u = (refl, inl (omega arith, refl, omega arith))
run_lem (o ∷ os) m h u =
    let one = perform_lem o m h in
    elim one.3 [
      | inl (w, k) ↦ rw (after-ok (run os) (perform o m) k) (
          IsRun-after (cost m.pricing o) (total m.pricing os) m (perform o m).0
            (run os (perform o m).0) (omega (arith, one.0)) one.1
            (subst (λ p. IsRun (total p os) (perform o m).0 (run os (perform o m).0)) one.2
              (run_lem os (perform o m).0 (omega (arith, one.1)) (omega (arith, one.0, one.1)))))
      | inr (w, k) ↦
          rw
            (after-err (run os) (perform o m)
              (out_of_gas (perform o m).0.used (perform o m).0.limit) k)
            (one.1, inr (omega arith, omega (arith, one.0), k))
    ]

-- On a block meter with a limit below `u64::MAX`, `can_fit` accepts a transaction exactly when
-- recording it adds its gas and stays within the limit.
pub record_tx-fits :
    (g : ℕ) (m : BlockGasMeter)
    → m.limit < u64_max
    → ((can_fit g m ≡ true) ↔ (((record_tx g m).used ≡ m.used + g) × (m.used + g ≤ m.limit)))
unfolding can_fit record_tx
record_tx-fits g m h = ground arith
