-- ===== src/Consensus/Protocol/Finalize.antt =====
-- What a finalized round shows, and what two of them show together.
use scc_blockchain.Prelude.{
  leb→le, ℕ, suc, ◌≡◌, ◌≤◌, refl, ap, Bool, true, none, some, List, [], ◌∷◌, ◌==◌, ==_iff,
  Bool-cases, inl, inr, length, if◌then◌else◌, arith, count_if,
}
use scc_blockchain.Prelude.Map.{Map, IsMap, lookup, nat_eq}
use scc_blockchain.Consensus.Quorum.{Hash, mem, IsDistinct, Subset}
use scc_blockchain.Consensus.Protocol.{
  Bytes, PublicKey, Vote, VoteData, precommit, ConsensusRound, is_for, has_precommit_quorum,
  evaluate, finalized,
}
use scc_blockchain.Consensus.Protocol.Votes.{IsRound}

-- The validators of a set.
abbrev pub keys : Map Hash PublicKey → List Hash
keys [] = []
keys ((k, p) ∷ m) = k ∷ keys m

pub length-keys : (m : Map Hash PublicKey) → length (keys m) ≡ length m
length-keys [] = refl
length-keys ((k, p) ∷ m) = ap suc (length-keys m)

pub mem-keys :
    (k : Hash) (p : PublicKey) (m : Map Hash PublicKey)
    → lookup k m ≡ some p
    → mem k (keys m) ≡ true
mem-keys k p [] h = cc
mem-keys k p ((j, q) ∷ m) h = ground (arith, mem-keys k p m)

-- Who precommitted to a block.
abbrev pub voters : Hash → Map Hash Vote → List Hash
voters b [] = []
voters b ((k, v) ∷ m) =
    let rest = voters b m in if is_for b precommit (k, v) then k ∷ rest else rest

length-voters :
    (b : Hash) (m : Map Hash Vote) → length (voters b m) ≡ count_if (is_for b precommit) m
length-voters b [] = refl
length-voters b ((k, v) ∷ m) = ground (arith, length-voters b m)

-- A voter has an entry in the store, for the block.
pub voters_lem :
    (b k : Hash) (m : Map Hash Vote)
    → IsMap m
    → mem k (voters b m) ≡ true
    → (v : Vote) × (lookup k m ≡ some v) × (v.block_hash ≡ b)
voters_lem b k [] d h = cc
voters_lem b k ((j, v) ∷ m) d h = elim (Bool-cases (k == j)) [
  | inl s ↦ elim (Bool-cases (is_for b precommit (j, v))) [
    | inl f ↦ (v, rw s, ground arith)
    | inr f ↦
        let same : k ≡ j = (==_iff k j).0 s in
        let inside : mem k (voters b m) ≡ true = rw f at h in
        let (w, p, e) = voters_lem b k m d.1 inside in
        let none_there : lookup k m ≡ none = rw same d.0 in absurd (cc)
  ]
  | inr s ↦
      let inside : mem k (voters b m) ≡ true = ground arith in
      let (w, p, e) = voters_lem b k m d.1 inside in (w, rw s p, e)
]

voters-IsDistinct : (b : Hash) (m : Map Hash Vote) → IsMap m → IsDistinct (voters b m)
voters-IsDistinct b [] d = tt
voters-IsDistinct b ((k, v) ∷ m) d = elim (Bool-cases (mem k (voters b m))) [
  | inl i ↦ let (w, p, e) = voters_lem b k m d.1 i in absurd (cc (d.0))
  | inr o ↦ ground (arith, voters-IsDistinct b m d.1)
]

module _ (encode : VoteData → Bytes) (verify_strict : PublicKey → Bytes → Bytes → Bool) where
  -- The voters of a round are distinct members of its validator set.
  pub voters_members :
      (r : ConsensusRound) (b : Hash)
      → IsRound encode verify_strict r
      → IsDistinct (voters b r.precommits) × Subset (voters b r.precommits) (keys r.validator_set)
  voters_members r b h = (
    voters-IsDistinct b r.precommits h.precommits.one_each,
    λ k i.
        let (v, p, e) = voters_lem b k r.precommits h.precommits.one_each i in
        let a = h.precommits.authentic k v p in mem-keys k a.public_key r.validator_set a.member,
  )

evaluate_finalized :
    (r : ConsensusRound) (b : Hash) (p c : ℕ)
    → (evaluate r).1 ≡ finalized b p c
    → (b ≡ r.block_hash) × (has_precommit_quorum r ≡ true)
unfolding evaluate
evaluate_finalized r b p c h = ground arith

quorum_voters :
    (r : ConsensusRound)
    → has_precommit_quorum r ≡ true
    → r.quorum ≤ length (voters r.block_hash r.precommits)
unfolding has_precommit_quorum
quorum_voters r h = omega (arith, leb→le _ _ h, length-voters r.block_hash r.precommits)

-- A round that `evaluate` finalizes has a quorum of precommits for the block.
pub finalized_quorum :
    (r : ConsensusRound) (b : Hash) (p c : ℕ)
    → (evaluate r).1 ≡ finalized b p c
    → (b ≡ r.block_hash) × (r.quorum ≤ length (voters b r.precommits))
finalized_quorum r b p c h =
    let f = evaluate_finalized r b p c h in (f.0, rw f.0 (quorum_voters r f.1))
