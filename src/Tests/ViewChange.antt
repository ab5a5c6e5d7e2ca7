-- ===== src/Tests/ViewChange.antt =====
-- The advance to a new round at concrete inputs: three validators with 30, 30 and 40 of the power.
use mathlib.Core.List.Perm
use scc_blockchain.Types.ValidatorSet.Canonical.{new-Perm}
use scc_blockchain.Consensus.ViewChange.Advance.{admits}
use scc_blockchain.Consensus.ViewChange.Signers.{admit_all, has_valid, admit_all-has_valid}
use scc_blockchain.Prelude.{
  ℕ, ◌*◌, ◌%◌, ◌≤◌, ◌<◌, ◌≡◌, refl, Bool, true, List, [], ◌∷◌, ◌++◌, Option, none, some, length,
  get_elem?, arith,
}
use scc_blockchain.Prelude.Words.{u64_max, u128_max}
use scc_blockchain.Prelude.Map.{bytes_eq, nat_eq}
use scc_blockchain.Prelude.Result.{ok}
use scc_blockchain.Consensus.Quorum.{Hash}
use scc_blockchain.Types.ValidatorSet
use scc_blockchain.Types.ValidatorSet.{
  ValidatorRecord, ValidatorSet, PublicKey, is_active_at, active_of, active_at, total_power_at,
  quorum_power_at, sum_power, find_active, find_active_by_validator_id,
}
use scc_blockchain.Consensus.ViewChange.{
  Bytes, NewRoundMessage, RoundAdvance, le_bytes, select_leader, admit, has_quorum, new,
}
use scc_blockchain.Consensus.ViewChange.Leader.{big_endian, select_leader-big_endian}
use scc_blockchain.Consensus.ViewChange.Advance.{
  Reach, fresh, step, shared_power, has_quorum-shared_power,
}

abbrev validator : ℕ → ℕ → ℕ → ValidatorRecord
validator agent key power = record {
  agent_id = agent;
  validator_id = key;
  mfidel_seal = record { row = 1; column = 1 };
  voting_power = power;
  active_from = 0;
  active_until = none;
}

abbrev three : List ValidatorRecord
three = validator 0 10 30 ∷ validator 1 11 30 ∷ validator 2 12 40 ∷ []

abbrev validators : ValidatorSet
validators = record { records = three }

abbrev encode : ℕ → ℕ → Option Hash → PublicKey → Bytes
encode height round p k = height ∷ round ∷ k ∷ []

-- In place of a signature: the message itself.
abbrev verify_strict : PublicKey → Bytes → Bytes → Bool
verify_strict k message signature = bytes_eq.beq message signature

abbrev digest : Hash → Bytes → Bytes
digest prior message = prior ∷ 200 ∷ message

some_active : 0 < length (active_at 5 validators)
unfolding active_at is_active_at
some_active = omega arith

few_active : length (active_at 5 validators) ≤ u64_max
unfolding active_at is_active_at
few_active = omega arith

select_leader-big_endian_example :
    (r : ValidatorRecord) × (select_leader digest validators 5 0 9 ≡ some r)
    × (get_elem?
          (active_at 5 validators)
          (big_endian 0 (digest 9 (le_bytes 8 5 ++ le_bytes 4 0)) % length (active_at 5 validators))
        ≡ some r)
    × (is_active_at 5 r ≡ true)
select_leader-big_endian_example =
    select_leader-big_endian digest validators 5 0 9 some_active few_active

abbrev signed : PublicKey → NewRoundMessage
signed k = record {
  height = 5;
  round = 1;
  last_prevote = none;
  signer = k;
  signature = 5 ∷ 1 ∷ k ∷ [];
}

-- What a validator has that got the messages of two others.
abbrev after : PublicKey → PublicKey → RoundAdvance
after j k =
    (admit encode verify_strict (signed k) validators 5 1
      (admit encode verify_strict (signed j) validators 5 1 new).0).0

abbrev run : (j k : PublicKey) → Reach encode verify_strict validators 5 1 (after j k)
run j k = step (step fresh (signed j)) (signed k)

-- The message of validator 10 comes twice, and one of a stranger.
abbrev received : List NewRoundMessage
received = signed 12 ∷ signed 10 ∷ signed 99 ∷ signed 10 ∷ []

admit_all-has_valid_example :
    admits (admit_all encode verify_strict received validators 5 1 new) 10
    ≡ has_valid encode verify_strict received validators 5 1 10
admit_all-has_valid_example = admit_all-has_valid encode verify_strict received validators 5 1 10

abbrev swapped : List ValidatorRecord
swapped = validator 1 11 30 ∷ validator 0 10 30 ∷ validator 2 12 40 ∷ []

new-Perm_example : ValidatorSet.new swapped ≡ ValidatorSet.new three
new-Perm_example =
    new-Perm swapped three
      (Perm.swap (validator 0 10 30) (validator 1 11 30) (validator 2 12 40 ∷ []))

accepted : ValidatorSet.new three ≡ ok validators
unfolding ValidatorSet.new
accepted = refl

small : 2 * sum_power (active_at 5 validators) ≤ u128_max
unfolding active_at is_active_at
small = omega arith

enough : has_quorum (after 10 12) validators 5 ≡ true
unfolding has_quorum quorum_power_at admit new find_active_by_validator_id is_active_at
enough = refl

enough_too : has_quorum (after 11 12) validators 5 ≡ true
unfolding has_quorum quorum_power_at admit new find_active_by_validator_id is_active_at
enough_too = refl

has_quorum-shared_power_example :
    total_power_at 5 validators < 3 * shared_power (after 10 12) (after 11 12) validators 5
has_quorum-shared_power_example =
    has_quorum-shared_power encode verify_strict three validators 5 1 1 (after 10 12) (after 11 12)
      accepted (run 10 12) (run 11 12) small enough enough_too
