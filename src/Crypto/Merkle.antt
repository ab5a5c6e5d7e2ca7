-- ===== src/Crypto/Merkle.antt =====
-- Merkle trees and inclusion proofs: crates/sccgub-crypto/src/merkle.rs. BLAKE3 over the
-- length-prefixed parts is library code, so `hash_concat` is a parameter; a digest is its bytes.
-- The loops that build one level after the other run on fuel, and `none` stands for no fuel.
pub mod Inclusion
use scc_blockchain.Prelude.{
  ℕ, zero, suc, ◌+◌, ◌-◌, ◌/◌, ◌%◌, Bool, true, false, ◌&&◌, ◌||◌, not, Option, none, some, List,
  [], ◌∷◌, ◌++◌, ◌==◌, ltb, leb, if◌then◌else◌, length, get_elem?, map,
}
use scc_blockchain.Prelude.Map.{bytes_eq}

abbrev pub Digest : Type 0
Digest = List ℕ

pub record MerkleProof : Type 0 where
  pub siblings : List (Digest × Bool)

pub record CompactMultiProof : Type 0 where
  pub indices : List ℕ
  pub siblings : List Digest
  pub tree_size : ℕ

abbrev zeros : ℕ → Digest
zeros zero = []
zeros (suc n) = 0 ∷ zeros n

abbrev pub zero_hash : Digest
zero_hash = zeros 32

abbrev pub is_even : ℕ → Bool
is_even i = i % 2 == 0

-- The other index of the pair.
abbrev pub sibling_index : ℕ → ℕ
sibling_index i = if is_even i then i + 1 else i - 1

-- `sibling_index < current_level.len()`, and the entry that the proof gets for it.
abbrev pub push_sibling :
    Option Digest → Bool → Option (List (Digest × Bool)) → Option (List (Digest × Bool))
push_sibling s right none = none
push_sibling none right (some rest) = some rest
push_sibling (some s) right (some rest) = some ((s, right) ∷ rest)

abbrev pub member : Digest → List Digest → Bool
member x [] = false
member x (y ∷ ys) = if bytes_eq.beq x y then true else member x ys

module _ (hash_concat : List (List ℕ) → Digest) where
  unfoldable pub hash_leaf : Digest → Digest
  hash_leaf leaf = hash_concat ((0 ∷ []) ∷ leaf ∷ [])

  unfoldable pub hash_internal : Digest → Digest → Digest
  hash_internal left right = hash_concat ((1 ∷ []) ∷ left ∷ right ∷ [])

  -- One level from the one below: an odd last digest is promoted.
  unfoldable pub next_level : List Digest → List Digest
  next_level [] = []
  next_level (x ∷ []) = x ∷ []
  next_level (x ∷ y ∷ r) = hash_internal x y ∷ next_level r

  -- `while current_level.len() > 1`, and then `current_level[0]`.
  unfoldable pub climb : ℕ → List Digest → Option Digest
  climb zero level = none
  climb (suc fuel) [] = none
  climb (suc fuel) (x ∷ []) = some x
  climb (suc fuel) (x ∷ y ∷ r) = climb fuel (next_level (x ∷ y ∷ r))

  unfoldable pub compute_merkle_root : List Digest → Option Digest
  unfolding climb
  compute_merkle_root [] = some zero_hash
  compute_merkle_root (x ∷ []) = some (hash_leaf x)
  compute_merkle_root (x ∷ y ∷ r) = climb (length (x ∷ y ∷ r)) (map hash_leaf (x ∷ y ∷ r))

  -- The loop of `generate_proof`, over the levels with the index in each.
  unfoldable pub siblings_from : ℕ → List Digest → ℕ → Option (List (Digest × Bool))
  siblings_from zero level i = none
  siblings_from (suc fuel) [] i = some []
  siblings_from (suc fuel) (x ∷ []) i = some []
  siblings_from (suc fuel) (x ∷ y ∷ r) i =
      push_sibling (get_elem? (x ∷ y ∷ r) (sibling_index i)) (is_even i)
        (siblings_from fuel (next_level (x ∷ y ∷ r)) (i / 2))

  abbrev pub with_siblings : Option (List (Digest × Bool)) → Option MerkleProof
  with_siblings none = none
  with_siblings (some s) = some (record { siblings = s })

  unfoldable pub generate_proof : List Digest → ℕ → Option MerkleProof
  unfolding siblings_from
  generate_proof leaves index =
      if leb (length leaves) index
      then none
      else with_siblings (siblings_from (length leaves) (map hash_leaf leaves) index)

  -- One step of `verify_proof`.
  abbrev pub combine : Digest → Digest → Bool → Digest
  combine current sibling is_right =
      if is_right then hash_internal current sibling else hash_internal sibling current

  unfoldable pub fold_proof : Digest → List (Digest × Bool) → Digest
  fold_proof current [] = current
  fold_proof current ((sibling, is_right) ∷ l) = fold_proof (combine current sibling is_right) l

  unfoldable pub verify_proof : Digest → Digest → MerkleProof → Bool
  unfolding fold_proof
  verify_proof root leaf proof = bytes_eq.beq (fold_proof (hash_leaf leaf) proof.siblings) root

  -- The siblings that are not seen yet, in order.
  abbrev pub collect_siblings : List Digest → List (Digest × Bool) → List Digest
  collect_siblings seen [] = seen
  collect_siblings seen ((s, right) ∷ l) =
      collect_siblings (if member s seen then seen else seen ++ s ∷ []) l

  unfoldable pub collect_proofs : List Digest → List ℕ → List Digest → Option (List Digest)
  unfolding generate_proof
  collect_proofs leaves [] seen = some seen
  collect_proofs leaves (i ∷ is) seen = elim (generate_proof leaves i) [
    | none ↦ none
    | some p ↦ collect_proofs leaves is (collect_siblings seen p.siblings)
  ]

  abbrev multi_proof : List Digest → List ℕ → Option (List Digest) → Option CompactMultiProof
  multi_proof leaves indices none = none
  multi_proof leaves indices (some s) =
      some (record { indices = indices; siblings = s; tree_size = length leaves })

  unfoldable pub generate_multi_proof : List Digest → List ℕ → Option CompactMultiProof
  unfolding collect_proofs
  generate_multi_proof [] indices = none
  generate_multi_proof (x ∷ xs) [] = none
  generate_multi_proof (x ∷ xs) (i ∷ is) =
      multi_proof (x ∷ xs) (i ∷ is) (collect_proofs (x ∷ xs) (i ∷ is) [])

  unfoldable pub verify_multi_proof : Digest → List (Digest × ℕ) → List Digest → Bool
  unfolding generate_proof verify_proof
  verify_multi_proof root [] all_leaves = true
  verify_multi_proof root ((leaf, i) ∷ l) all_leaves = elim (generate_proof all_leaves i) [
    | none ↦ false
    | some p ↦ verify_proof root leaf p && verify_multi_proof root l all_leaves
  ]
