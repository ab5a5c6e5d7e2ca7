-- ===== src/Lib.antt =====
-- Models and proofs of the core of the SCCGUB chain.
--
-- The node runs transactions over ledgers, meters their gas, and agrees on blocks by two-phase
-- voting; governance changes its parameters by proposals. The parts and their files:
--   Types/Tension        crates/sccgub-types/src/tension.rs: `TensionValue`, an i128 in units of
--                        10^-18, with saturating sums and products. Every amount is one.
--   Types/Governance     crates/sccgub-types/src/governance.rs and typed_params.rs: levels of
--                        authority, norms and the fields of the consensus parameters.
--   Types/ValidatorSet   crates/sccgub-types/src/validator_set.rs: validators, their power and the
--                        quorum at a height.
--   Types/Transition     crates/sccgub-types/src/transition.rs: transitions.
--   Types/Economics      crates/sccgub-types/src/economics.rs and
--                        crates/sccgub-state/src/tension_history.rs: fees by the median tension.
--   Types/KeyRotation    crates/sccgub-types/src/key_rotation.rs: the registry of rotations and the
--                        index of all keys.
--   Crypto/Merkle        crates/sccgub-crypto/src/merkle.rs: roots, proofs and multi-proofs.
--   State/Balances       crates/sccgub-state/src/balances.rs: balances by agent.
--   State/Treasury       crates/sccgub-state/src/treasury.rs: fees, rewards and burns, by epoch, and
--                        their entries in the trie of State/World (Codec).
--   State/Escrow         crates/sccgub-state/src/escrow.rs: funds that `create` debits from the
--                        balances and `release`, `refund` and `check_and_release` credit back.
--   State/Assets         crates/sccgub-state/src/assets.rs: balances by agent and asset.
--   State/World          crates/sccgub-state/src/world.rs: the trie as the modules of the crate share
--                        it, with the size limit of its entries, and the nonces of a block.
--   State/Apply          crates/sccgub-state/src/apply.rs: the transitions of a block, on State/World
--                        and State/Balances, and the balances read back from the trie. State/Fees
--                        and State/BlockEconomics are its fees and rewards, between State/Balances
--                        and State/Treasury.
--   State/ValidatorSetState crates/sccgub-state/src/validator_set_state.rs: pending changes of the
--                        validator set, their history and their activation; State/ValidatorRecords
--                        is `apply_kind_to_set`.
--   State/KeyRotationState crates/sccgub-state/src/key_rotation_state.rs: rotations in the trie.
--   Execution/Gas        crates/sccgub-execution/src/gas.rs: the meters of a transaction and a block.
--   Execution/Admission  crates/sccgub-execution/src/validate.rs: the checks before a transition may
--                        enter a block.
--   Consensus/Protocol   crates/sccgub-consensus/src/protocol.rs: a voting round.
--   Consensus/Safety     crates/sccgub-consensus/src/safety.rs: certificates that a round leaves,
--                        evidence of equivocation and fork proofs.
--   Consensus/Finality   crates/sccgub-consensus/src/finality.rs: finality by depth.
--   Consensus/ForkChoice crates/sccgub-consensus/src/fork_choice.rs: the canonical tip.
--   Consensus/Slashing   crates/sccgub-consensus/src/slashing.rs: penalties on stakes.
--   Consensus/ViewChange crates/sccgub-consensus/src/view_change.rs: leaders and the advance to a new
--                        round, by the power of Types/ValidatorSet.
--   Consensus/LawSync    crates/sccgub-consensus/src/law_sync.rs: which law set is canonical.
--   Consensus/Partition  crates/sccgub-consensus/src/partition.rs: groups of validators that have
--                        fallen apart.
--   Governance/Proposals crates/sccgub-governance/src/proposals.rs: votes, timelocks, activation.
--   Governance/Containment crates/sccgub-governance/src/containment.rs: hostile nodes.
--   Governance/Concentration crates/sccgub-governance/src/anti_concentration.rs: limits on agents.
--   Node/Mempool         crates/sccgub-node/src/mempool.rs: pending transitions. `add` asks
--                        Governance/Containment, `drain_validated` also Execution/Admission.
-- Prelude holds what they share (tests, lists, maps, integers, machine words, results), and Tests
-- runs the models at concrete inputs.
--
-- A struct is a record, an enum a data type, and a function that takes `&mut self` returns the new
-- state beside its result (`Outcome`), so that what was written before an error stays written. Field
-- and function names are the source's. A `HashMap` is an association list with one entry for each
-- key; its order is not observed. A `BTreeMap` that is iterated over is kept in the order of its
-- keys, but for the state trie: the order in which its entries are read decides only which of several
-- malformed ones is reported. Ids, hashes and keys of 32 bytes are the numbers that they spell.
-- An i128 is an integer that the operations saturate; u32 and u64 are numbers, with the saturating
-- or wrapping operation of the source written out. Texts of errors are constructors.
--
-- The loop of `check_finality` runs on fuel: one turn for each height up to the tip, and
-- one more, is enough when the tip is less than `u64::MAX`. The Merkle loops, which halve a level, run
-- on one turn for each leaf, and a level of n digests needs no more than n. All other loops recurse on
-- a list.
--
-- Not modelled: hashing, encoding and signature verification, which are libraries and enter as
-- parameters (bincode as `Codec`, two functions and their round trip); storage, the network, the
-- HTTP interface and the command line, which are I/O; the state trie's hashes; and the rest of the
-- governance and consensus crates.
pub mod Prelude
pub mod Types
pub mod Crypto
pub mod State
pub mod Consensus
pub mod Execution
pub mod Governance
pub mod Node
pub mod Tests
