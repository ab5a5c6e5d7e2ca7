-- ===== src/Consensus/Finality/Progress.antt =====
-- What `check_finality` does: it returns, and it finalizes the next heights in order, each with
-- a depth below the tip. The code is crates/sccgub-consensus/src/finality.rs.
use mathlib.Core.List.{append-nil, append_assoc}
use scc_blockchain.Prelude.{
  arith, ◌∙◌, sym, sym, ◌⊎◌, ℕ, zero, suc, ◌+◌, ◌-◌, ◌≤◌, ◌<◌, true, false, Option, none, some,
  List, [], ◌∷◌, ◌++◌, leb, ◌≡◌, refl, Option-cases, Bool-cases, inl, inr,
}
use scc_blockchain.Prelude.Words.{sat_add64, u64_max}
use scc_blockchain.Consensus.Quorum.{Hash}
use scc_blockchain.Consensus.Finality.{
  FinalityConfig, FinalityTracker, FinalityCertificate, check_finality, certificate, finalize_at,
}

module _ (config : FinalityConfig) (block_hash_at : ℕ → Option Hash) where
  -- The certificates stand at the heights from `h` on, each of a block the chain has, and each
  -- at least `config.confirmation_depth` below one more than the tip.
  pub data IsNext (tip : ℕ) : ℕ → ℕ → List FinalityCertificate → Type 0 where
    stop : {h : ℕ} → IsNext tip h h []
    next :
        {h h' : ℕ} {cs : List FinalityCertificate} {hash : Hash}
        → block_hash_at (h + 1) ≡ some hash
        → h + config.confirmation_depth ≤ tip
        → IsNext tip (h + 1) h' cs
        → IsNext tip h h'
            (record { block_hash = hash; height = h + 1; confirmations = tip - (h + 1) } ∷ cs)

  -- With the depth reached and the next block known, a turn finalizes it and goes on.
  check_finality-turn :
      (fuel : ℕ) (t : FinalityTracker) (hash : Hash)
      (r : FinalityTracker × List FinalityCertificate) (h : ℕ)
      → leb (sat_add64 t.finalized_height config.confirmation_depth) t.tip_height ≡ true
      → sat_add64 t.finalized_height 1 ≡ h
      → block_hash_at h ≡ some hash
      → check_finality config block_hash_at fuel (finalize_at t h hash) ≡ some r
      → check_finality config block_hash_at (suc fuel) t ≡ some (r.0, certificate t h hash ∷ r.1)
  unfolding check_finality
  check_finality-turn fuel t hash r h d one e k = simp (d, one, e, k)

  check_finality-shallow :
      (fuel : ℕ) (t : FinalityTracker)
      → leb (sat_add64 t.finalized_height config.confirmation_depth) t.tip_height ≡ false
      → check_finality config block_hash_at (suc fuel) t ≡ some (t, [])
  unfolding check_finality
  check_finality-shallow fuel t d = simp d

  check_finality-missing :
      (fuel : ℕ) (t : FinalityTracker) (h : ℕ)
      → sat_add64 t.finalized_height 1 ≡ h
      → block_hash_at h ≡ none
      → check_finality config block_hash_at (suc fuel) t ≡ some (t, [])
  unfolding check_finality
  check_finality-missing fuel t h one e =
      elim (Bool-cases
        (leb (sat_add64 t.finalized_height config.confirmation_depth) t.tip_height)) [
          | inl d ↦ simp (d, one, e)
          | inr d ↦ simp d
        ]

  -- What a run of the loop gives: the rest of the tracker is kept, the new certificates stand
  -- in order from the old finalized height to the new one, and the loop has stopped because the
  -- next block is not deep enough or not known.
  abbrev pub IsRun : FinalityTracker → FinalityTracker × List FinalityCertificate → Type 0
  IsRun t r =
      (r.0.tip_height ≡ t.tip_height)
      × (r.0.certificates ≡ t.certificates ++ r.1)
      × IsNext t.tip_height t.finalized_height r.0.finalized_height r.1
      × ((t.tip_height < r.0.finalized_height + config.confirmation_depth)
          ⊎ (block_hash_at (r.0.finalized_height + 1) ≡ none))

  IsRun-stop :
      (t : FinalityTracker)
      → (t.tip_height < t.finalized_height + config.confirmation_depth)
        ⊎ (block_hash_at (t.finalized_height + 1) ≡ none)
      → IsRun t (t, [])
  IsRun-stop t h = (refl, sym (append-nil t.certificates), stop, h)

  IsRun-next :
      (t : FinalityTracker) (hash : Hash) (r : FinalityTracker × List FinalityCertificate)
      → t.finalized_height + config.confirmation_depth ≤ t.tip_height
      → block_hash_at (t.finalized_height + 1) ≡ some hash
      → IsRun (finalize_at t (t.finalized_height + 1) hash) r
      → IsRun t (r.0, certificate t (t.finalized_height + 1) hash ∷ r.1)
  IsRun-next t hash r d e h = (
    h.0,
    h.1 ∙ append_assoc t.certificates (certificate t (t.finalized_height + 1) hash ∷ []) r.1,
    next e d h.2,
    h.3,
  )

  -- `check_finality` terminates, and what it returns is a run (`IsRun`): the new certificates are of
  -- the heights after the finalized one, in order and of known blocks, each at least the depth below
  -- one more than the tip; they are appended to the tracker; and the next block is not deep enough
  -- or not known. This holds on a tip that is less than `u64::MAX`, with fuel for one turn per height
  -- up to the tip and one more.
  pub check_finality_runs :
      (fuel : ℕ) (t : FinalityTracker)
      → t.tip_height < u64_max
      → t.tip_height + 1 - t.finalized_height < fuel
      → (r : FinalityTracker × List FinalityCertificate) × (check_finality config block_hash_at fuel
            t
          ≡ some r)
        × IsRun t r
  check_finality_runs zero t h f = absurd (omega arith)
  check_finality_runs (suc fuel) t h f =
      elim (Bool-cases
        (leb (sat_add64 t.finalized_height config.confirmation_depth) t.tip_height)) [
          | inr d ↦ ((t, []), check_finality-shallow fuel t d, IsRun-stop t (inl (ground arith)))
          | inl d ↦
              let one : sat_add64 t.finalized_height 1 ≡ t.finalized_height + 1 = ground arith in
              elim (Option-cases (block_hash_at (t.finalized_height + 1))) [
                | inl e ↦ (
                  (t, []),
                  check_finality-missing fuel t (t.finalized_height + 1) one e,
                  IsRun-stop t (inr e),
                )
                | inr (hash, e) ↦
                    let r =
                      check_finality_runs fuel (finalize_at t (t.finalized_height + 1) hash) h
                        (ground arith) in
                    (
                      (r.0.0, certificate t (t.finalized_height + 1) hash ∷ r.0.1),
                      check_finality-turn fuel t hash r.0 (t.finalized_height + 1) d one e r.1,
                      IsRun-next t hash r.0 (ground arith) e r.2,
                    )
              ]
        ]
