-- ===== src/Tests/Blocks.antt =====
-- Runs of the nonces, the economics and the transitions of a block.
use scc_blockchain.Prelude.Map.{IsMap, bytes_eq}
use scc_blockchain.Prelude.{
  Option, some, All, inr, ◌∙◌, inl, Bool-cases, ◌+◌, ℕ, ◌≡◌, refl, true, List, [], ◌∷◌, arith,
}
use scc_blockchain.Prelude.Int.{pos, ◌+ℤ◌}
use scc_blockchain.Prelude.Result.{ok}
use scc_blockchain.Types.Transition.{Bytes, SymbolicTransition, transfer}
use scc_blockchain.State.World.{apply_delta, commit, ManagedWorldState, with_consensus_params}
use scc_blockchain.State.Balances.{balance_of, AgentId, BalanceLedger, total_supply}
use scc_blockchain.State.Balances.Conservation.{IsSound}
use scc_blockchain.State.Treasury.{net_balance}
use scc_blockchain.State.Treasury
use scc_blockchain.State.Fees.{Books, Receipt}
use scc_blockchain.State.BlockEconomics.{apply_block_economics}
use scc_blockchain.State.BlockEconomics.Conservation.{IsFunded, apply_block_economics_conserves}
use scc_blockchain.State.Apply.{balances_from_trie, commit_each, apply_block_transitions}
use scc_blockchain.State.Apply.Commits.{get-commit_each, IsKeying}
use scc_blockchain.State.Apply.Import.{IsHex, IsKeyed, balances_from_trie-Agrees}
use scc_blockchain.State.Apply.Agreement.{Agrees, apply_block_transitions-Agrees}
use scc_blockchain.State.Entries.{sum_if}
use scc_blockchain.Consensus.Quorum.{mem}
use scc_blockchain.State.Treasury.Codec.{encode_tension}
use scc_blockchain.State.World.{last_nonce, validate_nonces, check_nonce}
use scc_blockchain.State.World.Nonces.{IsNext, validate_nonces_ok}
use scc_blockchain.Tests.Mempool.{tx}

abbrev hex_of : AgentId → Bytes
hex_of a = a ∷ []

abbrev account_of : ℕ → AgentId
account_of key = key + 1000

abbrev ledger : BalanceLedger
ledger = (5, pos 100) ∷ (6, pos 20) ∷ []

abbrev world : ManagedWorldState
world = with_consensus_params 100

abbrev books : Books
books = record { world = world; balances = ledger; treasury = Treasury.new }

ledger-IsSound : IsSound ledger
unfolding sum_if ◌+ℤ◌
ledger-IsSound = record { nonneg = (omega arith, (omega arith, tt)); fits = omega arith }

books-IsFunded : IsFunded books
unfolding sum_if ◌+ℤ◌
books-IsFunded = record { sound = ledger-IsSound; pending = omega arith; fits = omega arith }

abbrev pays : SymbolicTransition
pays = record (tx 1 5 1) { payload = transfer 5 6 (pos 30) }

abbrev receipt : Receipt
receipt = record { tx_id = 1; is_accepted = true; compute_steps = 3 }

apply_block_economics_conserves_example :
    let (k', r) =
      apply_block_economics hex_of account_of 2 9
        (pos 2)
        (pos 4)
        (pays ∷ [])
        (receipt ∷ [])
        books in
    IsFunded k'
    × (total_supply k'.balances +ℤ net_balance k'.treasury
        ≡ total_supply ledger +ℤ net_balance Treasury.new)
apply_block_economics_conserves_example =
    apply_block_economics_conserves hex_of account_of 2 9 (pos 2) (pos 4) (pays ∷ []) (receipt ∷ [])
      books books-IsFunded

abbrev committed : ManagedWorldState
committed = commit_each hex_of (5 ∷ 6 ∷ []) ledger world

hex_of-IsKeying : IsKeying hex_of world
unfolding with_consensus_params
hex_of-IsKeying = record {
  injective = λ a b e. cc e;
  key_fits = λ a. omega arith;
  value_fits = omega arith;
}

committed-Agrees : Agrees hex_of committed ledger
unfolding with_consensus_params
committed-Agrees a =
    let entry = get-commit_each hex_of a (5 ∷ 6 ∷ []) ledger world hex_of-IsKeying in
    elim (Bool-cases (mem a (5 ∷ 6 ∷ []))) [
      | inl m ↦ inl (entry ∙ rw m refl)
      | inr m ↦ inr (entry ∙ rw m refl, ground (arith, m))
    ]

committed-IsKeying : IsKeying hex_of committed
unfolding commit apply_delta with_consensus_params encode_tension
committed-IsKeying = record {
  injective = λ a b e. cc e;
  key_fits = λ a. omega arith;
  value_fits = omega arith;
}

apply_block_transitions-Agrees_example :
    let (w', b', deltas) = apply_block_transitions hex_of (pays ∷ tx 2 5 2 ∷ []) committed ledger in
    Agrees hex_of w' b'
unfolding with_consensus_params
apply_block_transitions-Agrees_example =
    apply_block_transitions-Agrees hex_of (pays ∷ tx 2 5 2 ∷ []) committed ledger committed-IsKeying
      (tt, (refl, tt)) committed-Agrees

abbrev block : List SymbolicTransition
block = tx 1 5 1 ∷ tx 2 6 1 ∷ tx 3 5 2 ∷ []

block-accepted : (validate_nonces block (with_consensus_params 36)).1 ≡ ok tt
unfolding validate_nonces check_nonce with_consensus_params
block-accepted = refl

validate_nonces_ok_example :
    IsNext 0 (1 ∷ 2 ∷ [])
    × (last_nonce 5 (validate_nonces block (with_consensus_params 36)).0.agent_nonces ≡ 2)
unfolding with_consensus_params
validate_nonces_ok_example = validate_nonces_ok block (with_consensus_params 36) tt 5 block-accepted

-- An id whose 31 first bytes are 0, the last one written alone.
abbrev padded : Bytes → Bytes
padded text =
    0 ∷ 0 ∷ 0 ∷ 0 ∷ 0 ∷ 0 ∷ 0 ∷ 0 ∷ 0 ∷ 0 ∷ 0 ∷ 0 ∷ 0 ∷ 0 ∷ 0 ∷ 0 ∷ 0 ∷ 0 ∷ 0 ∷ 0 ∷ 0 ∷ 0 ∷ 0 ∷ 0
    ∷ 0 ∷ 0 ∷ 0 ∷ 0 ∷ 0 ∷ 0 ∷ 0 ∷ text

abbrev of_hex : Bytes → Option Bytes
of_hex text = some (padded text)

of_hex-IsHex : IsHex hex_of of_hex
of_hex-IsHex = record {
  bytes_of = λ a. padded (a ∷ []);
  decodes = λ a. refl;
  length_of = λ a. refl;
  spells = λ a. omega arith;
}

committed-IsMap : IsMap committed.trie
unfolding commit with_consensus_params encode_tension
committed-IsMap = (refl, (refl, tt))

committed-IsKeyed : All (IsKeyed hex_of) committed.trie
unfolding commit with_consensus_params encode_tension
committed-IsKeyed = (λ y. (5, refl), (λ y. (6, refl), tt))

balances_from_trie-Agrees_example :
    (b' : BalanceLedger) × (balances_from_trie of_hex committed ≡ ok b')
    × ((a : AgentId) → balance_of a b' ≡ balance_of a ledger)
balances_from_trie-Agrees_example =
    balances_from_trie-Agrees hex_of of_hex ledger committed of_hex-IsHex ledger-IsSound
      committed-IsMap committed-IsKeyed committed-Agrees
