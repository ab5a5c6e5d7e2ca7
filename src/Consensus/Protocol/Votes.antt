-- ===== src/Consensus/Protocol/Votes.antt =====
-- Every vote that a round holds was checked: `add_prevote`, `add_precommit` and `evaluate`.
use scc_blockchain.Prelude.{
  ℕ, ◌≡◌, ◌≢◌, refl, sym, ◌∙◌, Bool, true, false, not, ◌&&◌, some, ◌==◌, ==_iff, Bool-cases,
  Option-cases, inl, inr, length, min, leb, arith, some_inj,
}
use scc_blockchain.Prelude.Words.{u32_max}
use scc_blockchain.Prelude.Map.{
  Map, IsMap, lookup, insert, contains, nat_eq, lookup-insert_self, lookup-insert_ne, insert-IsMap,
}
use scc_blockchain.Prelude.Result.{Result, ok, err}
use scc_blockchain.Consensus.Quorum.{Hash, quorum_of}
use scc_blockchain.Consensus.Protocol.{
  abort, commit, has_precommit_quorum, ConsensusPhase, admit_precommit, admit_prevote,
  has_prevote_quorum, Bytes, PublicKey, Vote, VoteType, VoteData, VoteError, prevote, precommit,
  same_type, ConsensusRound, new_round, verify_vote, vote_sign_data, add_prevote, add_precommit,
  evaluate,
}

-- What a round binds its votes to.
pub record Context : Type 0 where
  pub chain_id : Hash
  pub epoch : ℕ
  pub height : ℕ
  pub round : ℕ
  pub validator_set : Map Hash PublicKey

abbrev pub context : ConsensusRound → Context
context r = record {
  chain_id = r.chain_id;
  epoch = r.epoch;
  height = r.height;
  round = r.round;
  validator_set = r.validator_set;
}

module _ (encode : VoteData → Bytes) (verify_strict : PublicKey → Bytes → Bytes → Bool) where
  -- A vote of the type by `k` for this height and round, under the key of `k`.
  pub record IsAuthentic (r : Context) (t : VoteType) (k : Hash) (v : Vote) : Type 0 where
    pub voter : v.validator_id ≡ k
    pub typed : same_type v.vote_type t ≡ true
    pub at_height : v.height ≡ r.height
    pub at_round : v.round ≡ r.round
    pub public_key : PublicKey
    pub member : lookup k r.validator_set ≡ some public_key
    pub signed :
        verify_strict public_key
          (vote_sign_data encode verify_strict r.chain_id r.epoch v.block_hash v.height v.round
            v.vote_type)
          v.signature
        ≡ true

  -- A vote that passes is authentic, and the first of its validator.
  verify_vote_ok :
      (r : ConsensusRound) (v : Vote) (t : VoteType) (store : Map Hash Vote)
      → verify_vote encode verify_strict r v t store ≡ ok tt
      → IsAuthentic (context r) t v.validator_id v × (contains v.validator_id store ≡ false)
  unfolding verify_vote
  verify_vote_ok r v t store h = elim (Option-cases (lookup v.validator_id r.validator_set)) [
    | inl n ↦ absurd (ground (arith, n))
    | inr (pk, m) ↦ (
      record {
        voter = refl;
        typed = ground (arith, m);
        at_height = ground (arith, m);
        at_round = ground (arith, m);
        public_key = pk;
        member = m;
        signed = ground (arith, m);
      },
      ground (arith, m),
    )
  ]

  -- Each validator has one entry, and every entry is authentic.
  pub record HasVotes (r : Context) (t : VoteType) (store : Map Hash Vote) : Type 0 where
    pub one_each : IsMap store
    pub authentic : (k : Hash) (v : Vote) → lookup k store ≡ some v → IsAuthentic r t k v

  -- The votes are authentic, and the quorum is that of the validator set.
  pub record IsRound (r : ConsensusRound) : Type 0 where
    pub prevotes : HasVotes (context r) prevote r.prevotes
    pub precommits : HasVotes (context r) precommit r.precommits
    pub counted : r.validator_count ≡ min (length r.validator_set) u32_max
    pub quorum : r.quorum ≡ quorum_of r.validator_count

  insert-HasVotes :
      (r : Context) (t : VoteType) (v : Vote) (store : Map Hash Vote)
      → HasVotes r t store
      → IsAuthentic r t v.validator_id v
      → HasVotes r t (insert v.validator_id v store)
  insert-HasVotes r t v store h a = record {
    one_each = insert-IsMap v.validator_id v store h.one_each;
    authentic = λ k w q. elim (Bool-cases (k == v.validator_id)) [
      | inl s ↦
          let same : k ≡ v.validator_id = (==_iff k v.validator_id).0 s in
          let q' : lookup v.validator_id (insert v.validator_id v store) ≡ some w = rw same at q in
          let e : v ≡ w = some_inj v w (sym (lookup-insert_self v.validator_id v store) ∙ q') in
          rw (same, ← e) a
      | inr s ↦
          let ne : k ≢ v.validator_id = λ (p : k ≡ v.validator_id). ground arith in
          h.authentic k w (sym (lookup-insert_ne k v.validator_id v store ne) ∙ q)
    ];
  }

  add_prevote-IsRound :
      (r : ConsensusRound) (v : Vote) → IsRound r → IsRound (add_prevote encode verify_strict r v).0
  unfolding add_prevote
  add_prevote-IsRound r v h = go (verify_vote encode verify_strict r v prevote r.prevotes) refl
    where
      go :
          (x : Result VoteError (Unit {0}))
          → verify_vote encode verify_strict r v prevote r.prevotes ≡ x
          → IsRound (admit_prevote encode verify_strict r v x).0
      go (err x) e = h
      go (ok u) e = record {
        prevotes =
            insert-HasVotes (context r) prevote v r.prevotes h.prevotes
              (verify_vote_ok r v prevote r.prevotes e).0;
        precommits = h.precommits;
        counted = h.counted;
        quorum = h.quorum;
      }

  add_precommit-IsRound :
      (r : ConsensusRound) (v : Vote)
      → IsRound r
      → IsRound (add_precommit encode verify_strict r v).0
  unfolding add_precommit
  add_precommit-IsRound r v h =
      go (verify_vote encode verify_strict r v precommit r.precommits) refl
    where
      go :
          (x : Result VoteError (Unit {0}))
          → verify_vote encode verify_strict r v precommit r.precommits ≡ x
          → IsRound (admit_precommit encode verify_strict r v x).0
      go (err x) e = h
      go (ok u) e = record {
        prevotes = h.prevotes;
        precommits =
            insert-HasVotes (context r) precommit v r.precommits h.precommits
              (verify_vote_ok r v precommit r.precommits e).0;
        counted = h.counted;
        quorum = h.quorum;
      }

  -- `evaluate` changes the phase alone.
  phase-IsRound :
      (r : ConsensusRound) (p : ConsensusPhase) → IsRound r → IsRound (record r { phase = p })
  phase-IsRound r p h = record {
    prevotes = h.prevotes;
    precommits = h.precommits;
    counted = h.counted;
    quorum = h.quorum;
  }

  evaluate-IsRound : (r : ConsensusRound) → IsRound r → IsRound (evaluate r).0
  unfolding evaluate
  evaluate-IsRound r h = elim (Bool-cases (has_prevote_quorum r && has_precommit_quorum r)) [
    | inl q ↦ rw q (phase-IsRound r commit h)
    | inr q ↦ elim (Bool-cases (leb r.max_rounds r.round)) [
      | inl m ↦ rw (q, m) (phase-IsRound r abort h)
      | inr m ↦
          elim (Bool-cases (
            leb r.validator_count (min (length r.prevotes) u32_max)
            && not (has_prevote_quorum r))) [
              | inl a ↦ rw (q, m, a) h
              | inr a ↦
                  elim (Bool-cases (
                    leb r.validator_count (min (length r.precommits) u32_max)
                    && not (has_precommit_quorum r))) [
                      | inl b ↦ rw (q, m, a, b) h
                      | inr b ↦ rw (q, m, a, b) h
                    ]
            ]
    ]
  ]

  -- The calls on a round, whatever they answer.
  pub data Step (r : ConsensusRound) : ConsensusRound → Type 0 where
    prevotes : (v : Vote) → Step r (add_prevote encode verify_strict r v).0
    precommits : (v : Vote) → Step r (add_precommit encode verify_strict r v).0
    evaluates : Step r (evaluate r).0

  pub data Reach (s : ConsensusRound) : ConsensusRound → Type 0 where
    here : Reach s s
    next : {t u : ConsensusRound} → Reach s t → Step t u → Reach s u

  Step-IsRound : {r s : ConsensusRound} → Step r s → IsRound r → IsRound s
  Step-IsRound {r} (prevotes v) h = add_prevote-IsRound r v h
  Step-IsRound {r} (precommits v) h = add_precommit-IsRound r v h
  Step-IsRound {r} evaluates h = evaluate-IsRound r h

  Reach-IsRound : {r s : ConsensusRound} → IsRound r → Reach r s → IsRound s
  Reach-IsRound h here = h
  Reach-IsRound h (next r st) = Step-IsRound st (Reach-IsRound h r)

  -- From a new round any sequence of votes offered and evaluations leads to a round whose stored
  -- votes are one per validator, by members of the validator set, for the round's height and number,
  -- of the right type and with a verified signature, and whose quorum is that of the set.
  pub new_round-IsRound :
      (chain_id : Hash) (epoch : ℕ) (block_hash : Hash) (height round : ℕ)
      (validator_set : Map Hash PublicKey) (max_rounds : ℕ) (s : ConsensusRound)
      → Reach (new_round chain_id epoch block_hash height round validator_set max_rounds) s
      → IsRound s
  unfolding new_round
  new_round-IsRound chain_id epoch block_hash height round validator_set max_rounds s r =
      Reach-IsRound
        (record {
          prevotes = record { one_each = tt; authentic = λ k v q. cc };
          precommits = record { one_each = tt; authentic = λ k v q. cc };
          counted = refl;
          quorum = refl;
        })
        r
