-- ===== src/Consensus/Slashing/Penalties.antt =====
-- What a penalty takes from a stake: crates/sccgub-consensus/src/slashing.rs.
use scc_blockchain.Prelude.{
  ◌*◌, ◌/◌, min, Bool-cases, inl, inr, ◌⊎◌, ℕ, ◌+◌, ◌-◌, ◌≤◌, ◌<◌, ◌≡◌, refl, true, some, List, [],
  ◌∷◌, ◌++◌, leb, arith,
}
use scc_blockchain.Prelude.Int.{pos, ◌-ℤ◌}
use scc_blockchain.Prelude.Words.{i128_max, sat_of_InI128}
use scc_blockchain.Prelude.Map.{lookup, lookup-insert_self, erase-insert, erase, nat_eq}
use scc_blockchain.Prelude.Result.{ok}
use scc_blockchain.Consensus.Quorum.{Hash, mem}
use scc_blockchain.Consensus.Slashing.{
  min, equivocation, double_signing, penalty_of, stake_after, SlashingEngine, SlashingEvent,
  SlashingEvidence, ViolationType, EquivocationProof, deduct, slash_double_sign, is_removed,
  remove_empty,
}

sub-pos : (n p : ℕ) → p ≤ n → pos n -ℤ pos p ≡ pos (n - p)
unfolding ◌-ℤ◌
sub-pos n p h = ground arith

penalty_of-le : (pct n : ℕ) → penalty_of pct (pos n) ≤ n
unfolding penalty_of
penalty_of-le pct n = omega arith

-- A penalty on a stake of an i128 takes no more than there is: what is left and the penalty make
-- up the stake.
stake_after_lem : (pct n : ℕ) → n ≤ i128_max → stake_after pct (pos n) + penalty_of pct (pos n) ≡ n
unfolding stake_after
stake_after_lem pct n h =
    let p = penalty_of pct (pos n) in
    let le : penalty_of pct (pos n) ≤ n = penalty_of-le pct n in
    rw (sub-pos n (penalty_of pct (pos n)) le) (
      rw (sat_of_InI128 (pos (n - penalty_of pct (pos n))) (omega arith, omega arith))
        (omega arith))

-- What a slash by a percentage of a validator with the stake `n` does: the penalty of the event is
-- that percentage of `n`, rounded down and at most `n` (the product capped at the largest i128); the
-- stake that is left and the penalty make up `n`; no other stake changes; the event is recorded; and
-- a validator without stake is removed.
abbrev pub IsSlash : ℕ → SlashingEngine → Hash → ℕ → SlashingEngine → SlashingEvent → Type 0
IsSlash pct s v n s' event =
    (k p : ℕ) × (lookup v s'.stakes ≡ some (pos k))
    × (event.penalty ≡ pos p)
    × (p ≡ min (min (n * pct) i128_max / 100) n)
    × (k + p ≡ n)
    × (erase v s'.stakes ≡ erase v s.stakes)
    × (s'.events ≡ s.events ++ event ∷ [])
    × ((0 < k) ⊎ (is_removed v s' ≡ true))

mem-last : (v : Hash) (xs : List Hash) → mem v (xs ++ v ∷ []) ≡ true
mem-last v [] = ground arith
mem-last v (x ∷ xs) = ground (arith, mem-last v xs)

slash_lem :
    (pct : ℕ) (v : Hash) (n : ℕ) (violation : ViolationType) (epoch : ℕ)
    (evidence : SlashingEvidence) (s : SlashingEngine)
    → n ≤ i128_max
    → let d = deduct pct v (pos n) violation epoch evidence s in
      let r = remove_empty (stake_after pct (pos n)) v d in
      (r.1 ≡ ok d.1) × IsSlash pct s v n r.0 d.1
unfolding deduct is_removed penalty_of
slash_lem pct v n violation epoch evidence s h = (
  refl,
  (
    stake_after pct (pos n),
    penalty_of pct (pos n),
    lookup-insert_self v (pos (stake_after pct (pos n))) s.stakes,
    refl,
    refl,
    stake_after_lem pct n h,
    erase-insert v (pos (stake_after pct (pos n))) s.stakes,
    refl,
    elim (Bool-cases (leb (stake_after pct (pos n)) 0)) [
      | inl z ↦ inr (rw z (mem-last v s.removed))
      | inr z ↦ inl (ground arith)
    ],
  ),
)

-- A double sign by a validator that has a stake, not negative and in an i128, is answered with an
-- event, and leaves the engine as `IsSlash` says: the penalty is the configured percentage, rounded
-- down and at most the stake (the product capped at the largest i128); the stake that is left and
-- the penalty make up the stake; all else in the table is kept; the event is recorded; and a
-- validator without stake is removed.
pub slash_double_sign_lem :
    (proof : EquivocationProof) (epoch : ℕ) (s : SlashingEngine) (n : ℕ)
    → lookup proof.validator_id s.stakes ≡ some (pos n)
    → n ≤ i128_max
    → (event : SlashingEvent) × ((slash_double_sign proof epoch s).1 ≡ ok event)
      × IsSlash s.config.double_sign_penalty_pct s proof.validator_id n
          ((slash_double_sign proof epoch s).0)
          event
unfolding slash_double_sign
slash_double_sign_lem proof epoch s n l h =
    let pct = s.config.double_sign_penalty_pct in
    let k = slash_lem pct proof.validator_id n double_signing epoch (equivocation proof) s h in
    rw (l, slash_double_sign) (_, k.0, k.1)
