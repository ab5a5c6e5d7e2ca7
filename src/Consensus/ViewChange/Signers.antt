-- ===== src/Consensus/ViewChange/Signers.antt =====
-- The decision state as a set of signers: crates/sccgub-consensus/src/view_change.rs.
use scc_blockchain.Prelude.{
  ℕ, ◌≡◌, refl, Bool, true, false, ◌&&◌, ◌||◌, Option, none, some, List, [], ◌∷◌, ◌==◌, ==_iff,
  arith, Bool-cases, inl, inr,
}
use scc_blockchain.Prelude.Map.{Map, insert, contains, nat_eq}
use scc_blockchain.Consensus.Quorum.{Hash}
use scc_blockchain.Types.ValidatorSet.{
  PublicKey, ValidatorRecord, ValidatorSet, find_active_by_validator_id,
}
use scc_blockchain.Consensus.ViewChange.{
  Bytes, NewRoundMessage, RoundAdvance, admit_member, admit, new,
}
use scc_blockchain.Consensus.ViewChange.Advance.{admits}

abbrev is_some : {A : Type 0} → Option A → Bool
is_some none = false
is_some (some x) = true

module _ (encode : ℕ → ℕ → Option Hash → PublicKey → Bytes)
    (verify_strict : PublicKey → Bytes → Bytes → Bool) where
  -- The messages one after the other, whatever `admit` answers.
  abbrev pub admit_all :
      List NewRoundMessage → ValidatorSet → (height round : ℕ) → RoundAdvance → RoundAdvance
  admit_all [] set height round a = a
  admit_all (m ∷ ms) set height round a =
      admit_all ms set height round (admit encode verify_strict m set height round a).0

  -- A message for the height and the round by an active validator, with its signature.
  abbrev pub is_valid : ValidatorSet → (height round : ℕ) → NewRoundMessage → Bool
  is_valid set height round m =
      m.height == height
      && m.round == round
      && is_some (find_active_by_validator_id m.signer height set)
      && verify_strict m.signer (encode m.height m.round m.last_prevote m.signer) m.signature

  -- The specification: whether the messages have a valid one of the signer.
  abbrev pub has_valid : List NewRoundMessage → ValidatorSet → (height round : ℕ) → PublicKey → Bool
  has_valid [] set height round k = false
  has_valid (m ∷ ms) set height round k =
      (is_valid set height round m && k == m.signer) || has_valid ms set height round k

  contains-insert :
      (j k : PublicKey) (m : NewRoundMessage) (l : Map PublicKey NewRoundMessage)
      → contains j (insert k m l) ≡ (contains j l || (j == k))
  contains-insert j k m [] = ground arith
  contains-insert j k m ((i, w) ∷ l) = ground (arith, contains-insert j k m l)

  or_false : (b : Bool) → b ≡ (b || false)
  or_false b = ground arith

  -- A key that is there already adds nothing.
  there :
      (j k : PublicKey) (l : Map PublicKey NewRoundMessage)
      → contains k l ≡ true
      → contains j l ≡ (contains j l || (j == k))
  there j k l h = elim (Bool-cases (j == k)) [
    | inl e ↦ rw ((==_iff j k).0 e, h) refl
    | inr e ↦ rw e (or_false (contains j l))
  ]

  admit_member-admits :
      (m : NewRoundMessage) (o : Option ValidatorRecord) (a : RoundAdvance) (k : PublicKey)
      → admits (admit_member encode verify_strict o m a).0 k ≡ (
          admits a k
          || ((is_some o
                && verify_strict m.signer
                    (encode m.height m.round m.last_prevote m.signer)
                    m.signature)
              && k == m.signer))
  admit_member-admits m none a k = ground arith
  admit_member-admits m (some r) a k =
      elim (Bool-cases
        (verify_strict m.signer (encode m.height m.round m.last_prevote m.signer) m.signature)) [
          | inr v ↦ rw v (or_false (contains k a.admitted))
          | inl v ↦ elim (Bool-cases (contains m.signer a.admitted)) [
            | inl c ↦ rw (v, c) (there k m.signer a.admitted c)
            | inr c ↦ rw (v, c) (contains-insert k m.signer m a.admitted)
          ]
        ]

  admit-admits :
      (m : NewRoundMessage) (set : ValidatorSet) (height round : ℕ) (a : RoundAdvance)
      (k : PublicKey)
      → admits (admit encode verify_strict m set height round a).0 k
        ≡ (admits a k || (is_valid set height round m && k == m.signer))
  unfolding admit
  admit-admits m set height round a k = elim (Bool-cases (m.height == height)) [
    | inr h ↦ rw h (or_false (contains k a.admitted))
    | inl h ↦ elim (Bool-cases (m.round == round)) [
      | inr r ↦ rw (h, r) (or_false (contains k a.admitted))
      | inl r ↦
          rw (h, r) (admit_member-admits m (find_active_by_validator_id m.signer height set) a k)
    ]
  ]

  admit_all-from :
      (ms : List NewRoundMessage) (set : ValidatorSet) (height round : ℕ) (a : RoundAdvance)
      (k : PublicKey)
      → admits (admit_all ms set height round a) k ≡ (admits a k || has_valid ms set height round k)
  admit_all-from [] set height round a k = ground arith
  admit_all-from (m ∷ ms) set height round a k = ground (
    arith,
    admit_all-from ms set height round (admit encode verify_strict m set height round a).0 k,
    admit-admits m set height round a k,
  )

  -- From a new decision state, in whatever order and however often messages come, a validator is
  -- among the signers admitted exactly if the messages have a valid one of it: for this height and
  -- round, by an active validator, with a signature that verifies.
  pub admit_all-has_valid :
      (ms : List NewRoundMessage) (set : ValidatorSet) (height round : ℕ) (k : PublicKey)
      → admits (admit_all ms set height round new) k ≡ has_valid ms set height round k
  unfolding new
  admit_all-has_valid ms set height round k = admit_all-from ms set height round new k
