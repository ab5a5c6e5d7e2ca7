-- ===== src/Consensus/ForkChoice.antt =====
-- The fork-choice rule: crates/sccgub-consensus/src/fork_choice.rs. A block id is a 32-byte array,
-- which compares as the big-endian number that it spells.
pub mod Best
use Prim.Native.Nat.{compare, Ordering}
use scc_blockchain.Prelude.{
  ℕ, suc, zero, ◌+◌, Bool, true, false, Option, none, some, List, [], ◌∷◌, leb, if◌then◌else◌,
  get_elem?,
}
use scc_blockchain.Prelude.Result.{Result, ok, err}
use scc_blockchain.Consensus.Quorum.{Hash}

pub record ChainTip : Type 0 where
  pub block_id : Hash
  pub height : ℕ
  pub finalized_depth : ℕ
  pub cumulative_voting_power : ℕ

-- The first comparison that is not equal decides.
abbrev pub then_cmp : Ordering → Ordering → Ordering
then_cmp Ordering.eq o = o
then_cmp o p = o

unfoldable pub score_cmp : ChainTip → ChainTip → Ordering
score_cmp a b = then_cmp (compare a.finalized_depth b.finalized_depth) (
    then_cmp (compare a.cumulative_voting_power b.cumulative_voting_power)
      (compare a.block_id b.block_id))

abbrev pub is_greater : Ordering → Bool
is_greater Ordering.gt = true
is_greater o = false

pub data ForkChoiceOutcome : Type 0 where
  selected : ℕ → ForkChoiceOutcome
  no_candidates : ForkChoiceOutcome

-- The loop over the candidates from index `i`, with the best index and tip so far.
unfoldable pub best_from : ℕ → ChainTip → ℕ → List ChainTip → ℕ
unfolding score_cmp
best_from best tip i [] = best
best_from best tip i (t ∷ ts) = elim (is_greater (score_cmp t tip)) [
  | true ↦ best_from i t (i + 1) ts
  | false ↦ best_from best tip (i + 1) ts
]

unfoldable pub select_canonical_tip : List ChainTip → ForkChoiceOutcome
unfolding best_from
select_canonical_tip [] = no_candidates
select_canonical_tip (t ∷ ts) = selected (best_from 0 t 1 ts)

pub data ReorgRejection : Type 0 where
  does_not_outscore : ReorgRejection
  revert_past_finality : (ancestor deepest depth : ℕ) → ReorgRejection

unfoldable pub is_safe_reorg :
    (current alternative : ChainTip) (ancestor deepest depth : ℕ) → Result ReorgRejection (Unit {0})
unfolding score_cmp
is_safe_reorg current alternative ancestor deepest depth =
    if is_greater (score_cmp alternative current)
    then if leb depth deepest then err (revert_past_finality ancestor deepest depth) else ok tt
    else err does_not_outscore
