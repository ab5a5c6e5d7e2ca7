-- ===== src/Crypto/Merkle/Inclusion.antt =====
-- An inclusion proof that is generated verifies: crates/sccgub-crypto/src/merkle.rs.
use scc_blockchain.Prelude.{
  lt-length_of_get_elem?, some_inj, ℕ, zero, suc, ◌+◌, ◌/◌, ◌%◌, ◌≤◌, ◌<◌, ◌≡◌, refl, ◌∙◌, ap, Bool,
  true, false, Option, none, some, List, [], ◌∷◌, leb, length, get_elem?, map, arith, Option-cases,
  inl, inr,
}
use scc_blockchain.Prelude.Map.{bytes_eq}
use scc_blockchain.Crypto.Merkle.{
  Digest, MerkleProof, is_even, sibling_index, hash_leaf, hash_internal, next_level, climb,
  compute_merkle_root, siblings_from, generate_proof, combine, fold_proof, verify_proof,
}

length-map : (f : Digest → Digest) (xs : List Digest) → length (map f xs) ≡ length xs
length-map f [] = refl
length-map f (x ∷ xs) = ap suc (length-map f xs)

get_elem?-map :
    (f : Digest → Digest) (xs : List Digest) (i : ℕ) (x : Digest)
    → get_elem? xs i ≡ some x
    → get_elem? (map f xs) i ≡ some (f x)
get_elem?-map f [] i x h = cc
get_elem?-map f (y ∷ xs) zero x h = ap (λ o. elim o [ none ↦ none | some z ↦ some (f z) ]) h
get_elem?-map f (y ∷ xs) (suc i) x h = get_elem?-map f xs i x h

is_even-step : (i : ℕ) → is_even (suc (suc i)) ≡ is_even i
is_even-step i = rw mod_step
  where
    mod_step : suc (suc i) % 2 ≡ i % 2
    mod_step = omega arith

sibling_index-step : (i : ℕ) → sibling_index (suc (suc i)) ≡ suc (suc (sibling_index i))
sibling_index-step i = ground arith

module _ (hash_concat : List (List ℕ) → Digest) where
  -- What the level above holds for a digest with that sibling.
  abbrev raised : Digest → Option Digest → Bool → Digest
  raised v none right = v
  raised v (some s) right = combine hash_concat v s right

  next_level-get :
      (level : List Digest) (i : ℕ) (v : Digest)
      → get_elem? level i ≡ some v
      → get_elem? (next_level hash_concat level) (i / 2)
        ≡ some (raised v (get_elem? level (sibling_index i)) (is_even i))
  unfolding next_level
  next_level-get [] i v h = cc
  next_level-get (x ∷ []) zero v h = h
  next_level-get (x ∷ []) (suc i) v h = cc
  next_level-get (x ∷ y ∷ r) zero v h =
      ap (λ z. some (hash_internal hash_concat z y)) (some_inj x v h)
  next_level-get (x ∷ y ∷ r) (suc zero) v h =
      ap (λ z. some (hash_internal hash_concat x z)) (some_inj y v h)
  next_level-get (x ∷ y ∷ r) (suc (suc i)) v h =
      let half : suc (suc i) / 2 ≡ suc (i / 2) = omega arith in
      let even : is_even (suc (suc i)) ≡ is_even i = is_even-step i in
      let sib : sibling_index (suc (suc i)) ≡ suc (suc (sibling_index i)) = sibling_index-step i in
      rw sib (rw even (rw half (next_level-get r i v h)))

  length-next_level :
      (level : List Digest) → length (next_level hash_concat level) ≡ (length level + 1) / 2
  unfolding next_level
  length-next_level [] = refl
  length-next_level (x ∷ []) = refl
  length-next_level (x ∷ y ∷ r) = omega (arith, length-next_level r)

  -- With fuel for the length, the proof of an index leads from its digest to the top.
  siblings_from-climb :
      (fuel : ℕ) (level : List Digest) (i : ℕ) (v : Digest)
      → length level ≤ fuel
      → get_elem? level i ≡ some v
      → (s : List (Digest × Bool)) × (siblings_from hash_concat fuel level i ≡ some s)
        × (climb hash_concat fuel level ≡ some (fold_proof hash_concat v s))
  unfolding siblings_from climb fold_proof
  siblings_from-climb fuel [] i v f h = absurd (cc)
  siblings_from-climb zero (x ∷ r) i v f h = absurd (omega arith)
  siblings_from-climb (suc fuel) (x ∷ []) zero v f h = ([], refl, h)
  siblings_from-climb (suc fuel) (x ∷ []) (suc i) v f h = absurd (cc)
  siblings_from-climb (suc fuel) (x ∷ y ∷ r) i v f h =
      let level : List Digest = x ∷ y ∷ r in
      let up = next_level-get (x ∷ y ∷ r) i v h in
      let len = length-next_level (x ∷ y ∷ r) in
      elim (Option-cases (get_elem? (x ∷ y ∷ r) (sibling_index i))) [
        | inl n ↦
            let ih =
              siblings_from-climb fuel (next_level hash_concat level) (i / 2) v (omega (arith, len))
                (rw n at up) in
            (ih.0, rw (n, ih.1), ih.2)
        | inr (w, n) ↦
            let ih =
              siblings_from-climb fuel (next_level hash_concat level) (i / 2)
                (combine hash_concat v w (is_even i)) (omega (arith, len)) (rw n at up) in
            ((w, is_even i) ∷ ih.0, rw (n, ih.1), ih.2)
      ]

  beq_refl : (x : Digest) → bytes_eq.beq x x ≡ true
  beq_refl x = (bytes_eq.beq_iff x x).1 refl

  root_lem :
      (leaves : List Digest)
      → 0 < length leaves
      → compute_merkle_root hash_concat leaves
        ≡ climb hash_concat (length leaves) (map (hash_leaf hash_concat) leaves)
  unfolding compute_merkle_root
  root_lem [] h = absurd (omega arith)
  root_lem (x ∷ []) h = refl
  root_lem (x ∷ y ∷ r) h = refl

  -- For every index of a leaf, `generate_proof` gives a proof, and it verifies for this leaf against
  -- the root that `compute_merkle_root` gives (the loops end within the fuel of one turn for each
  -- leaf).
  pub verify_proof-generate_proof :
      (leaves : List Digest) (i : ℕ) (leaf : Digest)
      → get_elem? leaves i ≡ some leaf
      → (root : Digest) × (p : MerkleProof) × (compute_merkle_root hash_concat leaves ≡ some root)
        × (generate_proof hash_concat leaves i ≡ some p)
        × (verify_proof hash_concat root leaf p ≡ true)
  unfolding generate_proof verify_proof
  verify_proof-generate_proof leaves i leaf h =
      let lt : i < length leaves = lt-length_of_get_elem? leaves i leaf h in
      let inside : leb (length leaves) i ≡ false = ground arith in
      let run =
        siblings_from-climb (length leaves) (map (hash_leaf hash_concat) leaves) i
          (hash_leaf hash_concat leaf) (omega (arith, length-map (hash_leaf hash_concat) leaves))
          (get_elem?-map (hash_leaf hash_concat) leaves i leaf h) in
      (
        fold_proof hash_concat (hash_leaf hash_concat leaf) run.0,
        record { siblings = run.0 },
        root_lem leaves (omega arith) ∙ run.2,
        rw (inside, run.1),
        beq_refl (fold_proof hash_concat (hash_leaf hash_concat leaf) run.0),
      )
