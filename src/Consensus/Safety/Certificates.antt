-- ===== src/Consensus/Safety/Certificates.antt =====
-- What a certificate that passes its checks shows.
use scc_blockchain.Prelude.{
  All, ℕ, suc, ◌+◌, ◌*◌, ◌/◌, ◌≡◌, ◌≤◌, refl, ap, Bool, true, none, some, List, [], ◌∷◌, ◌==◌,
  ==_iff, Bool-cases, inl, inr, length, arith,
}
use scc_blockchain.Prelude.Map.{Map, lookup, nat_eq}
use scc_blockchain.Prelude.Result.{Result, ok, err}
use scc_blockchain.Consensus.Quorum.{All-of_mem, Hash, mem, IsDistinct, Subset}
use scc_blockchain.Consensus.Protocol.{Bytes, PublicKey, VoteData, vote_sign_data, precommit}
use scc_blockchain.Consensus.Protocol.Finalize.{keys, mem-keys}
use scc_blockchain.Consensus.Safety.{
  Option, SafetyCertificate, CertificateError, signers, collect, verify_structure, check_signature,
  check_signatures, and_then, verify_cryptographic,
}

mem-collect : (x : Hash) (xs : List Hash) → mem x (collect xs) ≡ mem x xs
mem-collect x [] = refl
mem-collect x (y ∷ xs) = elim (Bool-cases (x == y)) [
  | inl e ↦ rw ((==_iff x y).0 e) (ground (arith, mem-collect y xs))
  | inr e ↦ ground (arith, mem-collect x xs)
]

length-collect-le : (xs : List Hash) → length (collect xs) ≤ length xs
length-collect-le [] = omega arith
length-collect-le (x ∷ xs) = ground (arith, length-collect-le xs)

-- Collecting drops no element exactly when none stands twice.
IsDistinct-of_length : (xs : List Hash) → length (collect xs) ≡ length xs → IsDistinct xs
IsDistinct-of_length [] h = tt
IsDistinct-of_length (x ∷ xs) h =
    ground (arith, length-collect-le xs, mem-collect x xs, IsDistinct-of_length xs)

pub collect_distinct : (xs : List Hash) → IsDistinct xs → collect xs ≡ xs
collect_distinct [] h = refl
collect_distinct (x ∷ xs) h = ground (arith, collect_distinct xs h.1)

length-signers : (l : List (Hash × Bytes)) → length (signers l) ≡ length l
length-signers [] = refl
length-signers ((k, s) ∷ l) = ap suc (length-signers l)

-- A certificate of sound structure claims the quorum of its validator count, and has at least that
-- many signers, all different.
pub record IsStructured (c : SafetyCertificate) : Type 0 where
  pub quorum : c.quorum ≡ 2 * c.validator_count / 3 + 1
  pub enough : c.quorum ≤ length (signers c.precommit_signatures)
  pub distinct : IsDistinct (signers c.precommit_signatures)

pub verify_structure_ok : (c : SafetyCertificate) → verify_structure c ≡ ok tt → IsStructured c
unfolding verify_structure
verify_structure_ok c h =
    let len = length-signers c.precommit_signatures in
    record {
      quorum = ground arith;
      enough = ground (arith, len);
      distinct = IsDistinct-of_length (signers c.precommit_signatures) (ground (arith, len));
    }

module _ (encode : VoteData → Bytes) (verify_strict : PublicKey → Bytes → Bytes → Bool) where
  and_then_ok :
      (a b : Result CertificateError (Unit {0}))
      → and_then encode verify_strict a b ≡ ok tt
      → (a ≡ ok tt) × (b ≡ ok tt)
  and_then_ok (ok u) b h = (refl, h)
  and_then_ok (err x) b h = cc

  check_signatures_Subset :
      (c : SafetyCertificate) (v : Map Hash PublicKey) (l : List (Hash × Bytes))
      → check_signatures encode verify_strict c v l ≡ ok tt
      → Subset (signers l) (keys v)
  unfolding check_signatures
  check_signatures_Subset c v [] h x m = cc
  check_signatures_Subset c v ((id, s) ∷ l) h x m =
      let p =
        and_then_ok (check_signature encode verify_strict c (lookup id v) s)
          (check_signatures encode verify_strict c v l) h in
      elim (Bool-cases (x == id)) [
        | inl e ↦ rw ((==_iff x id).0 e) (known (lookup id v) refl p.0)
        | inr e ↦ check_signatures_Subset c v l p.1 x (ground arith)
      ]
    where
      known :
          (o : Option PublicKey)
          → lookup id v ≡ o
          → check_signature encode verify_strict c o s ≡ ok tt
          → mem id (keys v) ≡ true
      known none e q = cc
      known (some pk) e q = mem-keys id pk v e

  pub verify_cryptographic_Subset :
      (c : SafetyCertificate) (v : Map Hash PublicKey)
      → verify_cryptographic encode verify_strict c v ≡ ok tt
      → IsStructured c × Subset (signers c.precommit_signatures) (keys v)
  unfolding verify_cryptographic
  verify_cryptographic_Subset c v h =
      let p =
        and_then_ok (verify_structure c)
          (check_signatures encode verify_strict c v c.precommit_signatures) h in
      (verify_structure_ok c p.0, check_signatures_Subset c v c.precommit_signatures p.1)

  -- A certificate that passes claims the quorum of its validator count, has at least that many
  -- signers, all different, and each of them is a validator of the set.
  pub verify_cryptographic_ok :
      (c : SafetyCertificate) (v : Map Hash PublicKey)
      → verify_cryptographic encode verify_strict c v ≡ ok tt
      → IsStructured c × All (λ k. mem k (keys v) ≡ true) (signers c.precommit_signatures)
  verify_cryptographic_ok c v h =
      let p = verify_cryptographic_Subset c v h in
      (p.0, All-of_mem (λ k. mem k (keys v) ≡ true) (signers c.precommit_signatures) p.1)

  -- A certificate that claims no validators and the quorum 1 passes against a validator set of any
  -- size, with one signature by a member of the set, of 64 bytes or more, that verifies.
  pub undersized_accepted :
      (c : SafetyCertificate) (v : Map Hash PublicKey) (k pk : ℕ) (s : Bytes)
      → c.validator_count ≡ 0
      → c.quorum ≡ 1
      → c.precommit_signatures ≡ (k, s) ∷ []
      → lookup k v ≡ some pk
      → 64 ≤ length s
      → verify_strict pk
          (vote_sign_data encode verify_strict c.chain_id c.epoch c.block_hash c.height c.round
            precommit)
          s
        ≡ true
      → verify_cryptographic encode verify_strict c v ≡ ok tt
  unfolding verify_cryptographic verify_structure check_signatures
  undersized_accepted c v k pk s n q l m len signed = ground arith
