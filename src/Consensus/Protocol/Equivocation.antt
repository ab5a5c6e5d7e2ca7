-- ===== src/Consensus/Protocol/Equivocation.antt =====
-- The search of a round for equivocation: `detect_equivocation` of
-- crates/sccgub-consensus/src/protocol.rs.
use scc_blockchain.Prelude.{
  All, ◌≢◌, ◌≡◌, refl, Bool, true, false, none, some, List, [], ◌∷◌, ◌==◌, if◌then◌else◌, map,
  arith,
}
use scc_blockchain.Prelude.Map.{lookup-insert_ne, Map, lookup, insert, IsMap, nat_eq}
use scc_blockchain.Consensus.Quorum.{Hash, mem, IsDistinct}
use scc_blockchain.Types.ValidatorSet.{sort_by_key}
use scc_blockchain.Types.ValidatorSet.Canonical.{map-sort_by_key, IsDistinct-sort_by_key}
use scc_blockchain.Consensus.Protocol.{Bytes, PublicKey, VoteData, Vote, ConsensusRound, prevote}
use scc_blockchain.Consensus.Protocol.Votes.{IsRound}
use scc_blockchain.Consensus.Slashing.{EquivocationProof}

abbrev pub values : Map Hash Vote → List Vote
values [] = []
values ((k, v) ∷ m) = v ∷ values m

-- The loop over the sorted votes: the first block of each validator is kept in `seen`.
abbrev pub detect_in : List Vote → Map Hash Hash → List EquivocationProof
detect_in [] seen = []
detect_in (v ∷ vs) seen = elim (lookup v.validator_id seen) [
  | none ↦ detect_in vs (insert v.validator_id v.block_hash seen)
  | some prev_block ↦
      let again = detect_in vs seen in
      if prev_block == v.block_hash
      then again
      else record {
        validator_id = v.validator_id;
        height = v.height;
        round = v.round;
        vote_type = prevote;
        block_hash_a = prev_block;
        block_hash_b = v.block_hash;
      }
        ∷ again
]

unfoldable pub detect_equivocation : ConsensusRound → List EquivocationProof
detect_equivocation r = detect_in (sort_by_key (λ v. v.validator_id) (values r.prevotes)) []

abbrev ids : List Vote → List Hash
ids vs = map (λ v. v.validator_id) vs

-- Each vote stands under its voter.
abbrev Voters : Map Hash Vote → Type 0
Voters m = All (λ e. (e.1).validator_id ≡ e.0) m

Voters-of_lookup :
    (m : Map Hash Vote)
    → IsMap m
    → ((k : Hash) (v : Vote) → lookup k m ≡ some v → v.validator_id ≡ k)
    → Voters m
Voters-of_lookup [] d h = tt
Voters-of_lookup ((k, v) ∷ m) d h =
    (h k v (ground arith), Voters-of_lookup m d.1 (λ j w e. h j w (under j w e)))
  where
    under : (j : Hash) (w : Vote) → lookup j m ≡ some w → lookup j ((k, v) ∷ m) ≡ some w
    under j w e = ground (arith, d.0, e)

values-absent :
    (k : Hash) (m : Map Hash Vote) → Voters m → lookup k m ≡ none → mem k (ids (values m)) ≡ false
values-absent k [] h n = refl
values-absent k ((j, v) ∷ m) h n = ground (arith, values-absent k m, h.0)

values-IsDistinct : (m : Map Hash Vote) → IsMap m → Voters m → IsDistinct (ids (values m))
values-IsDistinct [] d h = tt
values-IsDistinct ((k, v) ∷ m) d h =
    (rw (h.0) (values-absent k m h.1 d.0), values-IsDistinct m d.1 h.1)

-- Of votes by different validators, none of them seen, the loop reports nothing.
detect_in-none :
    (vs : List Vote) (seen : Map Hash Hash)
    → IsDistinct (ids vs)
    → ((k : Hash) → mem k (ids vs) ≡ true → lookup k seen ≡ none)
    → detect_in vs seen ≡ []
detect_in-none [] seen d h = refl
detect_in-none (v ∷ vs) seen d h =
    let fresh : lookup v.validator_id seen ≡ none = h v.validator_id (ground arith) in
    rw (fresh, detect_in)
      (detect_in-none vs (insert v.validator_id v.block_hash seen) d.1 (λ k m. unseen k m))
  where
    unseen :
        (k : Hash)
        → mem k (ids vs) ≡ true
        → lookup k (insert v.validator_id v.block_hash seen) ≡ none
    unseen k m =
        let other : k ≢ v.validator_id = (λ e. absurd (cc (rw e at m, d.0))) in
        rw (lookup-insert_ne k v.validator_id v.block_hash seen other) (h k (ground (arith, m)))

module _ (encode : VoteData → Bytes) (verify_strict : PublicKey → Bytes → Bytes → Bool) where
  -- A round of authentic votes, one for each validator, as every run from a new round leaves it, has
  -- no equivocation to find: conflicting votes are refused when they come.
  pub detect_equivocation-none :
      (r : ConsensusRound) → IsRound encode verify_strict r → detect_equivocation r ≡ []
  unfolding detect_equivocation
  detect_equivocation-none r h =
      let key : Vote → Hash = (λ v. v.validator_id) in
      let voters : Voters r.prevotes =
        Voters-of_lookup r.prevotes h.prevotes.one_each
          (λ k v e. (h.prevotes.authentic k v e).voter) in
      let distinct : IsDistinct (ids (sort_by_key key (values r.prevotes))) =
        rw (map-sort_by_key key (values r.prevotes)) (
          IsDistinct-sort_by_key (ids (values r.prevotes))
            (values-IsDistinct r.prevotes h.prevotes.one_each voters)) in
      detect_in-none (sort_by_key key (values r.prevotes)) [] distinct (λ k m. refl)
