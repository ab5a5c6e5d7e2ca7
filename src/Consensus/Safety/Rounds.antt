-- ===== src/Consensus/Safety/Rounds.antt =====
-- Two rounds that finalize a block each.
use scc_blockchain.Prelude.{All, ◌+◌, ◌*◌, ◌/◌, ℕ, ◌≡◌, ◌≤◌, ◌<◌, Bool, true, List, length, arith}
use scc_blockchain.Prelude.Words.{u32_max}
use scc_blockchain.Prelude.Map.{nat_eq}
use scc_blockchain.Consensus.Quorum.{
  All-of_mem, Hash, mem, IsDistinct, Subset, select, select-IsDistinct, mem-select, overlap,
}
use scc_blockchain.Consensus.Protocol.{
  Bytes, PublicKey, Vote, VoteData, ConsensusRound, evaluate, finalized, precommit,
}
use scc_blockchain.Consensus.Protocol.Votes.{IsRound, IsAuthentic, context}
use scc_blockchain.Consensus.Protocol.Finalize.{
  keys, length-keys, voters, voters_lem, voters_members, finalized_quorum,
}
use scc_blockchain.Consensus.Safety.{max_byzantine}
use scc_blockchain.Consensus.Safety.Forks.{byzantine_overlap}

module _ (encode : VoteData → Bytes) (verify_strict : PublicKey → Bytes → Bytes → Bool) where
  -- Two authentic precommits of one validator, one for each block.
  pub record SignedBoth (r s : ConsensusRound) (b c : Hash) (k : Hash) : Type 0 where
    pub first : Vote
    pub second : Vote
    pub first_ok : IsAuthentic encode verify_strict (context r) precommit k first
    pub second_ok : IsAuthentic encode verify_strict (context s) precommit k second
    pub first_for : first.block_hash ≡ b
    pub second_for : second.block_hash ≡ c

  quorum_size :
      (r : ConsensusRound) (b : Hash) (p c : ℕ)
      → IsRound encode verify_strict r
      → length r.validator_set < u32_max
      → (evaluate r).1 ≡ finalized b p c
      → 2 * length r.validator_set / 3 + 1 ≤ length (voters b r.precommits)
  quorum_size r b p c h small f = omega (arith, h.counted, h.quorum, (finalized_quorum r b p c f).1)

  -- When two rounds over the same validator set, of fewer than 2³² - 1 members, with checked votes
  -- finalize a block each, then more different members of the set than it tolerates as faulty have an
  -- authentic precommit in each, for that round's block.
  pub conflicting_rounds :
      (r s : ConsensusRound) (b c : Hash) (p1 c1 p2 c2 : ℕ)
      → IsRound encode verify_strict r
      → IsRound encode verify_strict s
      → r.validator_set ≡ s.validator_set
      → length r.validator_set < u32_max
      → (evaluate r).1 ≡ finalized b p1 c1
      → (evaluate s).1 ≡ finalized c p2 c2
      → (guilty : List Hash) × IsDistinct guilty
        × Subset guilty (keys r.validator_set)
        × (max_byzantine (length r.validator_set) < length guilty)
        × All (SignedBoth r s b c) guilty
  conflicting_rounds r s b c p1 c1 p2 c2 hr hs same small fr fs =
      let xs : List Hash = voters b r.precommits in
      let ys : List Hash = voters c s.precommits in
      let both : List Hash = select (λ x. mem x ys) xs in
      let (dx, mx) = voters_members encode verify_strict r b hr in
      let (dy, my) = voters_members encode verify_strict s c hs in
      let size : length (keys r.validator_set) ≡ length r.validator_set =
        length-keys r.validator_set in
      let small' : length s.validator_set < u32_max = rw same at small in
      let shared = overlap (keys r.validator_set) xs ys dx dy mx (rw (← same) at my) in
      let q1 = quorum_size r b p1 c1 hr small fr in
      let q2 : 2 * length r.validator_set / 3 + 1 ≤ length ys =
        rw same (quorum_size s c p2 c2 hs small' fs) in
      (
        both,
        select-IsDistinct (λ x. mem x ys) xs dx,
        λ k m. mx k (ground (arith, mem-select (λ x. mem x ys) k xs, m)),
        byzantine_overlap (length r.validator_set) (length xs) (length ys) (length both) q1 q2
            (omega (arith, shared, size)),
        All-of_mem (SignedBoth r s b c) both (λ k m.
            let sel = mem-select (λ x. mem x ys) k xs in
            let inx : mem k xs ≡ true = ground (arith, sel) in
            let iny : mem k ys ≡ true = ground (arith, sel) in
            let (v, pv, ev) = voters_lem b k r.precommits hr.precommits.one_each inx in
            let (w, pw, ew) = voters_lem c k s.precommits hs.precommits.one_each iny in
            record {
              first = v;
              second = w;
              first_ok = hr.precommits.authentic k v pv;
              second_ok = hs.precommits.authentic k w pw;
              first_for = ev;
              second_for = ew;
            }),
      )
