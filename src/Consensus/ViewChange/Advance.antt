-- ===== src/Consensus/ViewChange/Advance.antt =====
-- Who is admitted to a new round, and that two quorums share voting power:
-- crates/sccgub-consensus/src/view_change.rs.
use scc_blockchain.Prelude.{
  ℕ, ◌+◌, ◌*◌, ◌≤◌, ◌<◌, ◌≡◌, refl, Bool, true, ◌&&◌, ◌||◌, Option, some, List, [], ◌∷◌, ◌==◌,
  ==_iff, arith, Bool-cases, Option-cases, inl, inr, All,
}
use scc_blockchain.Prelude.Words.{u128_max}
use scc_blockchain.Prelude.Map.{
  contains_of_none, Map, insert, contains, IsMap, nat_eq, insert-IsMap,
}
use scc_blockchain.Prelude.Result.{ok}
use scc_blockchain.Consensus.Quorum.{Hash, IsDistinct}
use scc_blockchain.Types.ValidatorSet
use scc_blockchain.Types.ValidatorSet.{
  PublicKey, ValidatorRecord, ValidatorSet, active_at, active_of, find_active, sum_power,
  total_power_at, quorum_power_at, find_active_by_validator_id,
}
use scc_blockchain.Types.ValidatorSet.Power.{
  ids, power_with, power_with-le, power_with-none, power_with-overlap, power_with-cons,
  new-IsDistinct,
}
use scc_blockchain.Consensus.ViewChange.{
  sat_add128, found_power, new, Bytes, NewRoundMessage, RoundAdvance, add_power, admitted_power,
  has_quorum, admit_member, admit,
}

-- The validators with an admitted message.
abbrev pub admits : RoundAdvance → PublicKey → Bool
admits a k = contains k a.admitted

keys_power :
    (k : PublicKey) (v : NewRoundMessage) (l : Map PublicKey NewRoundMessage) (j : PublicKey)
    → contains j ((k, v) ∷ l) ≡ (j == k || contains j l)
keys_power k v l j = ground arith

-- The loop adds up the power of the active validators that are keys of the map.
add_power_lem :
    (sum : ℕ) (l : Map PublicKey NewRoundMessage) (set : ValidatorSet) (height : ℕ)
    → IsMap l
    → IsDistinct (ids set.records)
    → sum + power_with (λ k. contains k l) (active_at height set) ≤ u128_max
    → add_power sum l set height ≡ sum + power_with (λ k. contains k l) (active_at height set)
unfolding add_power active_at find_active_by_validator_id
add_power_lem sum [] set height m d b =
    omega (arith, power_with-none (active_of height set.records))
add_power_lem sum ((k, v) ∷ l) set height m d b =
    let one_more : power_with (λ j. contains j ((k, v) ∷ l)) (active_of height set.records)
        ≡ found_power (find_active k height set.records)
          + power_with (λ j. contains j l) (active_of height set.records) =
      power_with-cons k (λ j. contains j ((k, v) ∷ l)) (λ j. contains j l) height set.records
        (keys_power k v l) (contains_of_none k l m.0) d in
    let exact : sat_add128 sum (found_power (find_active k height set.records))
        ≡ sum + found_power (find_active k height set.records) =
      omega arith in
    let ih =
      add_power_lem (sum + found_power (find_active k height set.records)) l set height m.1 d
        (omega arith) in
    rw exact (omega arith)

-- The power of the active validators that two tests both accept.
abbrev pub shared_power : RoundAdvance → RoundAdvance → ValidatorSet → ℕ → ℕ
shared_power a b set height = power_with (λ k. admits a k && admits b k) (active_at height set)

admitted_power_lem :
    (a : RoundAdvance) (set : ValidatorSet) (height : ℕ)
    → IsMap a.admitted
    → IsDistinct (ids set.records)
    → sum_power (active_at height set) ≤ u128_max
    → admitted_power a set height ≡ power_with (admits a) (active_at height set)
unfolding admitted_power
admitted_power_lem a set height m d b =
    let sum =
      add_power_lem 0 a.admitted set height m d
        (omega (arith, power_with-le (admits a) (active_at height set))) in
    omega (arith, sum)

module _ (encode : ℕ → ℕ → Option Hash → PublicKey → Bytes)
    (verify_strict : PublicKey → Bytes → Bytes → Bool) where
  -- What calls of `admit` for one height and round make of a fresh decision state.
  pub data Reach (set : ValidatorSet) (height round : ℕ) : RoundAdvance → Type 0 where
    fresh : Reach set height round new
    step :
        {a : RoundAdvance}
        → Reach set height round a
        → (msg : NewRoundMessage)
        → Reach set height round (admit encode verify_strict msg set height round a).0

  -- An admitted message: stored under its signer, an active validator, for the height and the round,
  -- with a signature that verifies.
  abbrev pub IsAuthentic : ValidatorSet → (height round : ℕ) → PublicKey × NewRoundMessage → Type 0
  IsAuthentic set height round (k, m) =
      (m.signer ≡ k)
      × (m.height ≡ height)
      × (m.round ≡ round)
      × (verify_strict k (encode height round m.last_prevote k) m.signature ≡ true)
      × ((r : ValidatorRecord) × (find_active_by_validator_id k height set ≡ some r))

  All-insert :
      (P : PublicKey × NewRoundMessage → Type 0) (k : PublicKey) (m : NewRoundMessage)
      (l : Map PublicKey NewRoundMessage)
      → P (k, m)
      → All P l
      → All P (insert k m l)
  All-insert P k m [] p h = (p, tt)
  All-insert P k m ((j, w) ∷ l) p h = ground (arith, All-insert P k m l p h.1)

  admit-IsAuthentic :
      (msg : NewRoundMessage) (set : ValidatorSet) (height round : ℕ) (a : RoundAdvance)
      → IsMap a.admitted
      → All (IsAuthentic set height round) a.admitted
      → IsMap ((admit encode verify_strict msg set height round a).0).admitted
        × All
            (IsAuthentic set height round)
            ((admit encode verify_strict msg set height round a).0).admitted
  unfolding admit
  admit-IsAuthentic msg set height round a m h = elim (Bool-cases (msg.height == height)) [
    | inr e ↦ rw e (m, h)
    | inl e ↦ elim (Bool-cases (msg.round == round)) [
      | inr f ↦ rw (e, f) (m, h)
      | inl f ↦ rw (e, f) (member ((==_iff msg.height height).0 e) ((==_iff msg.round round).0 f))
    ]
  ]
    where
      After : RoundAdvance → Type 0
      After b = IsMap b.admitted × All (IsAuthentic set height round) b.admitted

      member :
          msg.height ≡ height
          → msg.round ≡ round
          → After
              (admit_member encode verify_strict
                (find_active_by_validator_id msg.signer height set)
                msg
                a).0
      member e f = elim (Option-cases (find_active_by_validator_id msg.signer height set)) [
        | inl n ↦ rw n (m, h)
        | inr (r, n) ↦
            elim (Bool-cases (
              verify_strict msg.signer (encode msg.height msg.round msg.last_prevote msg.signer)
                msg.signature)) [
                  | inr v ↦ rw (n, v) (m, h)
                  | inl v ↦ elim (Bool-cases (contains msg.signer a.admitted)) [
                    | inl c ↦ rw (n, v, c) (m, h)
                    | inr c ↦
                        rw (n, v, c)
                          (
                            insert-IsMap msg.signer msg a.admitted m,
                            All-insert (IsAuthentic set height round) msg.signer msg a.admitted
                                (refl, e, f, rw (e, f) at v, (r, n)) h,
                          )
                  ]
                ]
      ]

  -- Whatever messages are given to `admit` for one height and one round, each signer has at most one
  -- admitted message, and each admitted message is its signer's, is for this height and round, has a
  -- signature that verifies, and its signer is an active validator at the height.
  pub Reach-IsAuthentic :
      (set : ValidatorSet) (height round : ℕ) (a : RoundAdvance)
      → Reach set height round a
      → IsMap a.admitted × All (IsAuthentic set height round) a.admitted
  unfolding new
  Reach-IsAuthentic set height round _ fresh = (tt, tt)
  Reach-IsAuthentic set height round _ (step r msg) =
      let ih = Reach-IsAuthentic set height round _ r in
      admit-IsAuthentic msg set height round _ ih.0 ih.1

  -- Two validators that both see a quorum of new-round messages, for a set that `ValidatorSet::new`
  -- accepted and any rounds at the same height, have admitted messages of the same signers with more
  -- than a third of the total power between them (when twice the total power fits a u128).
  pub has_quorum-shared_power :
      (records : List ValidatorRecord) (set : ValidatorSet) (height round round' : ℕ)
      (a b : RoundAdvance)
      → ValidatorSet.new records ≡ ok set
      → Reach set height round a
      → Reach set height round' b
      → 2 * sum_power (active_at height set) ≤ u128_max
      → has_quorum a set height ≡ true
      → has_quorum b set height ≡ true
      → total_power_at height set < 3 * shared_power a b set height
  unfolding has_quorum quorum_power_at total_power_at active_at
  has_quorum-shared_power records set height round round' a b n ra rb bound qa qb =
      let d : IsDistinct (ids set.records) = new-IsDistinct records set n in
      let fits : sum_power (active_at height set) ≤ u128_max = omega arith in
      let pa =
        admitted_power_lem a set height ((Reach-IsAuthentic set height round a ra).0) d fits in
      let pb =
        admitted_power_lem b set height ((Reach-IsAuthentic set height round' b rb).0) d fits in
      ground (arith, pa, pb, power_with-overlap (admits a) (admits b) (active_at height set))
