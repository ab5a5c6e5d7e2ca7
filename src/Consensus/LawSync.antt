-- ===== src/Consensus/LawSync.antt =====
-- Agreement on the law set: crates/sccgub-consensus/src/law_sync.rs. A `BTreeMap` is an association
-- list in the order of its keys, which decides what its iterators give first.
pub mod Canonical
use scc_blockchain.Prelude.{
  ℕ, ◌+◌, ◌*◌, ◌/◌, ◌%◌, Bool, true, false, Option, none, some, List, [], ◌∷◌, ◌==◌, leb, ltb,
  if◌then◌else◌, length, min,
}
use scc_blockchain.Prelude.Words.{u32_max}
use scc_blockchain.Prelude.Map.{Map, lookup, contains, nat_eq}
use scc_blockchain.Prelude.Result.{Result, ok, err, Outcome}
use scc_blockchain.Consensus.Quorum.{Hash, quorum_of}

pub record LawSyncRound : Type 0 where
  pub height : ℕ
  pub proposals : Map Hash Hash
  pub quorum : ℕ
  pub validator_count : ℕ

pub data LawSyncResult : Type 0 where
  consensus :
      (canonical_hash : Hash) (agreeing_validators : ℕ) (divergent_validators : List Hash)
      → LawSyncResult
  no_consensus : (proposals : Map Hash ℕ) → LawSyncResult

pub data SubmitError : Type 0 where
  already_submitted : SubmitError

unfoldable pub new : (height validator_count : ℕ) → LawSyncRound
new height validator_count = record {
  height = height;
  proposals = [];
  quorum = quorum_of validator_count;
  validator_count = validator_count;
}

-- `BTreeMap::insert`
abbrev pub put : {V : Type 0} → Hash → V → Map Hash V → Map Hash V
put k v [] = (k, v) ∷ []
put k v ((j, w) ∷ m) =
    if k == j then (k, v) ∷ m else if ltb k j then (k, v) ∷ (j, w) ∷ m else (j, w) ∷ put k v m

unfoldable pub submit :
    (validator_id law_set_hash : Hash) → LawSyncRound → Outcome LawSyncRound SubmitError (Unit {0})
submit validator_id law_set_hash r =
    if contains validator_id r.proposals
    then (r, err already_submitted)
    else (record r { proposals = put validator_id law_set_hash r.proposals }, ok tt)

-- `or_insert(0)`
abbrev pub or_none : Option ℕ → ℕ
or_none none = 0
or_none (some n) = n

-- The votes for each law set; `+= 1` on a u32 wraps in a release build.
abbrev pub count_votes : Map Hash Hash → Map Hash ℕ → Map Hash ℕ
count_votes [] votes = votes
count_votes ((v, law) ∷ ps) votes =
    count_votes ps (put law ((or_none (lookup law votes) + 1) % (u32_max + 1)) votes)

abbrev pub divergent : Hash → Map Hash Hash → List Hash
divergent law [] = []
divergent law ((v, h) ∷ ps) = let rest = divergent law ps in if h == law then rest else v ∷ rest

-- The first law set with enough votes.
abbrev pub first_quorum : ℕ → Map Hash ℕ → Option (Hash × ℕ)
first_quorum quorum [] = none
first_quorum quorum ((law, count) ∷ votes) =
    if leb quorum count then some (law, count) else first_quorum quorum votes

abbrev pub result_of : Map Hash Hash → Map Hash ℕ → Option (Hash × ℕ) → LawSyncResult
result_of ps votes none = no_consensus votes
result_of ps votes (some (law, count)) = consensus law count (divergent law ps)

unfoldable pub evaluate : LawSyncRound → LawSyncResult
evaluate r =
    let votes = count_votes r.proposals [] in
    result_of r.proposals votes (first_quorum r.quorum votes)

unfoldable pub is_complete : LawSyncRound → Bool
is_complete r = leb r.validator_count (min (length r.proposals) u32_max)
