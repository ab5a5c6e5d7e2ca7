-- ===== src/Consensus/ViewChange/Leader.antt =====
-- The leader of a round and its timeout: crates/sccgub-consensus/src/view_change.rs.
use native.Mathlib.Nat.{zero-mod, zero-mod, mod-lt, mod-add-div, add-mul-mod_self_left}
use Prim.Native.Nat.{◌^◌}
use scc_blockchain.Prelude.{
  some_inj, ℕ, zero, suc, ◌+◌, ◌*◌, ◌/◌, ◌%◌, ◌≤◌, ◌<◌, ◌≡◌, refl, sym, true, false, some, List, [],
  ◌∷◌, ◌++◌, ◌==◌, if◌then◌else◌, length, get_elem?, min, arith, Bool-cases, leb, inl, inr,
}
use scc_blockchain.Prelude.Words.{u128_max, u64_max, u32_max}
use scc_blockchain.Types.ValidatorSet.{
  ValidatorRecord, ValidatorSet, is_active_at, active_of, active_at,
}
use scc_blockchain.Consensus.Quorum.{Hash}
use scc_blockchain.Consensus.ViewChange.{Bytes, le_bytes, reduce, round_timeout_ms, select_leader}

-- The number that bytes spell, the first one most significant.
abbrev pub big_endian : ℕ → Bytes → ℕ
big_endian acc [] = acc
big_endian acc (b ∷ bs) = big_endian (acc * 256 + b) bs

step-mod : (a b n : ℕ) → 0 < n → ((a % n) * 256 + b) % n ≡ (a * 256 + b) % n
step-mod a b n h =
    let split : a * 256 + b ≡ (a % n * 256 + b) + n * (a / n * 256) =
      grind (arith, mod-add-div a n) in
    rw split (sym (add-mul-mod_self_left (a % n * 256 + b) n (a / n * 256)))

reduce_lem :
    (bs : Bytes) (a n : ℕ) → 0 < n → n ≤ u64_max → reduce (a % n) bs n ≡ big_endian a bs % n
unfolding reduce
reduce_lem [] a n p h = refl
reduce_lem (b ∷ bs) a n p h =
    let small : a % n < n = mod-lt a p in
    let free : a % n * 256 % (u128_max + 1) ≡ a % n * 256 = omega arith in
    rw (free, step-mod a b n p, reduce_lem bs (a * 256 + b) n p h)

get_elem?-some :
    (xs : List ValidatorRecord) (i : ℕ)
    → i < length xs
    → (r : ValidatorRecord) × (get_elem? xs i ≡ some r)
get_elem?-some [] i h = absurd (omega arith)
get_elem?-some (x ∷ xs) zero h = (x, refl)
get_elem?-some (x ∷ xs) (suc i) h = get_elem?-some xs i (omega arith)

active_of-get :
    (height : ℕ) (rs : List ValidatorRecord) (i : ℕ) (r : ValidatorRecord)
    → get_elem? (active_of height rs) i ≡ some r
    → is_active_at height r ≡ true
unfolding active_of
active_of-get height [] i r h = cc
active_of-get height (x ∷ rs) i r h = elim (Bool-cases (is_active_at height x)) [
  | inl e ↦ first i (λ j g. active_of-get height rs j r g) (rw e at h) e
  | inr e ↦ active_of-get height rs i r (rw e at h)
]
  where
    first :
        (i : ℕ)
        → ((j : ℕ) → get_elem? (active_of height rs) j ≡ some r → is_active_at height r ≡ true)
        → get_elem? (x ∷ active_of height rs) i ≡ some r
        → is_active_at height x ≡ true
        → is_active_at height r ≡ true
    first zero ih h e = rw (sym (some_inj x r h)) e
    first (suc i) ih h e = ih i h

twice-capped :
    (x cap : ℕ)
    → cap ≤ u32_max
    → min (min (2 * x) u64_max) cap ≡ min (2 * min (min x u64_max) cap) cap
twice-capped x cap c = omega arith

-- Each timeout is twice the one before, up to the cap, for the first 31 rounds, and all later
-- rounds have the timeout of round 31 (with a cap that a u32 holds).
pub round_timeout_ms-double :
    (base_ms cap_ms round : ℕ)
    → cap_ms ≤ u32_max
    → (round_timeout_ms base_ms cap_ms 0 ≡ min base_ms cap_ms)
      × (round_timeout_ms base_ms cap_ms (suc round) ≡ (
          if leb round 30
          then min (2 * round_timeout_ms base_ms cap_ms round) cap_ms
          else round_timeout_ms base_ms cap_ms round))
unfolding round_timeout_ms
round_timeout_ms-double base_ms cap_ms round c =
    let power : base_ms * 2 ^ suc round ≡ 2 * (base_ms * 2 ^ round) = grind arith in
    let start : round_timeout_ms base_ms cap_ms 0 ≡ min base_ms cap_ms = omega arith in
    elim (Bool-cases (leb round 30)) [
      | inl e ↦
          let low : min round 31 ≡ round = ground arith in
          let next : min (suc round) 31 ≡ suc round = ground arith in
          (start, rw (low, next, e, power) (twice-capped (base_ms * 2 ^ round) cap_ms c))
      | inr e ↦
          let low : min round 31 ≡ 31 = ground arith in
          let next : min (suc round) 31 ≡ 31 = ground arith in (start, rw (low, next, e))
    ]

-- With an active validator at the height, and a number of them that a u64 holds, the leader exists:
-- it is the active validator at the index that the digest of the prior block's id, the height and
-- the round, read as one big-endian number, leaves modulo the number of active validators.
pub select_leader-big_endian :
    (digest : Hash → Bytes → Bytes) (set : ValidatorSet) (height round : ℕ) (prior : Hash)
    → 0 < length (active_at height set)
    → length (active_at height set) ≤ u64_max
    → (r : ValidatorRecord) × (select_leader digest set height round prior ≡ some r)
      × (get_elem? (active_at height set) (
            big_endian 0 (digest prior (le_bytes 8 height ++ le_bytes 4 round))
            % length (active_at height set))
          ≡ some r)
      × (is_active_at height r ≡ true)
unfolding select_leader active_at
select_leader-big_endian digest set height round prior p h =
    let bytes : Bytes = digest prior (le_bytes 8 height ++ le_bytes 4 round) in
    let n : ℕ = length (active_at height set) in
    let zero_left : 0 % n ≡ 0 = zero-mod n in
    let index : reduce 0 bytes n ≡ big_endian 0 bytes % n =
      rw zero_left at (reduce_lem bytes 0 n p h) in
    let some_active : (n == 0) ≡ false = ground arith in
    let at_index =
      get_elem?-some (active_at height set) (big_endian 0 bytes % n)
        (mod-lt (big_endian 0 bytes) p) in
    (
      at_index.0,
      rw (some_active, index, at_index.1),
      at_index.1,
      active_of-get height set.records (big_endian 0 bytes % n) at_index.0 at_index.1,
    )
