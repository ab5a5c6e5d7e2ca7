-- ===== src/Types/ValidatorSet.antt =====
-- The on-chain validator set: crates/sccgub-types/src/validator_set.rs, without the canonical
-- encoding. Agent ids and public keys are the numbers that their 32 bytes spell. `sort_by_key` and
-- `sort` are the standard library's stable sort, written as an insertion sort.
pub mod Power
pub mod Canonical
pub mod Change
pub mod Accepts
use scc_blockchain.Prelude.{
  ℕ, ◌+◌, ◌*◌, ◌/◌, ◌%◌, Bool, true, false, ◌&&◌, not, Option, none, some, List, [], ◌∷◌, ◌==◌, leb,
  ltb, if◌then◌else◌, map,
}
use scc_blockchain.Prelude.Words.{u128_max}
use scc_blockchain.Prelude.Result.{Result, ok, err}

abbrev pub PublicKey : Type 0
PublicKey = ℕ

pub record MfidelAtomicSeal : Type 0 where
  pub row : ℕ
  pub column : ℕ

pub record ValidatorRecord : Type 0 where
  pub agent_id : ℕ
  pub validator_id : PublicKey
  pub mfidel_seal : MfidelAtomicSeal
  pub voting_power : ℕ
  pub active_from : ℕ
  pub active_until : Option ℕ

pub record ValidatorSet : Type 0 where
  pub records : List ValidatorRecord

pub data ValidatorSetError : Type 0 where
  duplicate_agent_id : ℕ → ValidatorSetError
  duplicate_validator_id : PublicKey → ValidatorSetError

abbrev within : Option ℕ → ℕ → Bool
within none height = true
within (some u) height = leb height u

unfoldable pub is_active_at : ℕ → ValidatorRecord → Bool
is_active_at height r =
    if r.voting_power == 0
    then false
    else if ltb height r.active_from
    then false
    else within r.active_until height

module _ {A : Type 0} (key : A → ℕ) where
  abbrev pub insert_by : A → List A → List A
  insert_by x [] = x ∷ []
  insert_by x (y ∷ ys) = if leb (key x) (key y) then x ∷ y ∷ ys else y ∷ insert_by x ys

  abbrev pub sort_by_key : List A → List A
  sort_by_key [] = []
  sort_by_key (x ∷ xs) = insert_by x (sort_by_key xs)

  -- The first of `windows(2)` with the same key twice.
  abbrev pub first_duplicate : List A → Option ℕ
  first_duplicate [] = none
  first_duplicate (x ∷ []) = none
  first_duplicate (x ∷ y ∷ r) =
      let rest = first_duplicate (y ∷ r) in if key x == key y then some (key x) else rest

abbrev pub same : ℕ → ℕ
same n = n

abbrev checked_ids : List ValidatorRecord → Option ℕ → Result ValidatorSetError ValidatorSet
checked_ids records (some k) = err (duplicate_validator_id k)
checked_ids records none = ok (record { records = records })

abbrev checked_agents : List ValidatorRecord → Option ℕ → Result ValidatorSetError ValidatorSet
checked_agents records (some k) = err (duplicate_agent_id k)
checked_agents records none =
    checked_ids records
      (first_duplicate same (sort_by_key same (map (λ r. r.validator_id) records)))

unfoldable pub new : List ValidatorRecord → Result ValidatorSetError ValidatorSet
new records =
    let sorted = sort_by_key (λ r. r.agent_id) records in
    checked_agents sorted (first_duplicate (λ r. r.agent_id) sorted)

-- The records that are active at the height.
unfoldable pub active_of : ℕ → List ValidatorRecord → List ValidatorRecord
active_of height [] = []
active_of height (r ∷ rs) =
    let rest = active_of height rs in if is_active_at height r then r ∷ rest else rest

unfoldable pub active_at : ℕ → ValidatorSet → List ValidatorRecord
unfolding active_of
active_at height s = active_of height s.records

-- The exact sum of powers; `sum()` on u128 wraps in a release build.
abbrev pub sum_power : List ValidatorRecord → ℕ
sum_power [] = 0
sum_power (r ∷ rs) = r.voting_power + sum_power rs

unfoldable pub total_power_at : ℕ → ValidatorSet → ℕ
unfolding active_of
total_power_at height s = sum_power (active_of height s.records) % (u128_max + 1)

unfoldable pub quorum_power_at : ℕ → ValidatorSet → ℕ
unfolding total_power_at
quorum_power_at height s = ((total_power_at height s * 2 % (u128_max + 1)) / 3 + 1) % (u128_max + 1)

abbrev pub find_agent : ℕ → List ValidatorRecord → Option ValidatorRecord
find_agent a [] = none
find_agent a (r ∷ rs) = if r.agent_id == a then some r else find_agent a rs

unfoldable pub find_by_agent : ℕ → ValidatorSet → Option ValidatorRecord
find_by_agent a s = find_agent a s.records

unfoldable pub find_active : PublicKey → ℕ → List ValidatorRecord → Option ValidatorRecord
find_active k height [] = none
find_active k height (r ∷ rs) =
    if r.validator_id == k && is_active_at height r then some r else find_active k height rs

unfoldable pub find_active_by_validator_id : PublicKey → ℕ → ValidatorSet → Option ValidatorRecord
unfolding find_active
find_active_by_validator_id k height s = find_active k height s.records

pub data RemovalReason : Type 0 where
  voluntary equivocation inactivity governance : RemovalReason

pub data ValidatorSetChangeKind : Type 0 where
  add : ValidatorRecord → ValidatorSetChangeKind
  remove : (agent_id : ℕ) → RemovalReason → (effective_height : ℕ) → ValidatorSetChangeKind
  rotate_power : (agent_id new_voting_power effective_height : ℕ) → ValidatorSetChangeKind
  rotate_key :
      (agent_id : ℕ) (old_validator_id new_validator_id : PublicKey) (effective_height : ℕ)
      → ValidatorSetChangeKind

unfoldable pub effective_height : ValidatorSetChangeKind → ℕ
effective_height (add r) = r.active_from
effective_height (remove a reason h) = h
effective_height (rotate_power a p h) = h
effective_height (rotate_key a k k' h) = h

unfoldable pub target_agent_id : ValidatorSetChangeKind → ℕ
target_agent_id (add r) = r.agent_id
target_agent_id (remove a reason h) = a
target_agent_id (rotate_power a p h) = a
target_agent_id (rotate_key a k k' h) = a
