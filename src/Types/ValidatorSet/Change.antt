-- ===== src/Types/ValidatorSet/Change.antt =====
-- Signed changes of the validator set and evidence of equivocation:
-- crates/sccgub-types/src/validator_set.rs. The BLAKE3 hash of the canonical bytes of a kind and a
-- height is a parameter.
use scc_blockchain.Prelude.{
  refl, inr, inl, Bool-cases, arith, ◌≢◌, ℕ, ◌≡◌, Bool, true, false, ◌&&◌, not, Option, none, some,
  List, [], ◌∷◌, ◌==◌, ltb, if◌then◌else◌,
}
use scc_blockchain.Prelude.Result.{Result, ok, err, Outcome}
use scc_blockchain.Prelude.Map.{bytes_eq}
use scc_blockchain.Types.Transition.{Bytes}
use scc_blockchain.Types.ValidatorSet.{
  PublicKey, ValidatorSetChangeKind, ValidatorSetError, duplicate_validator_id, sort_by_key,
  first_duplicate,
}

pub record ValidatorSetChange : Type 0 where
  pub change_id : ℕ
  pub kind : ValidatorSetChangeKind
  pub proposed_at : ℕ
  pub quorum_signatures : List (PublicKey × Bytes)

-- `compute_change_id`
abbrev pub ChangeHash : Type 0
ChangeHash = ValidatorSetChangeKind → ℕ → ℕ

unfoldable pub change_id_is_consistent : ChangeHash → ValidatorSetChange → Bool
change_id_is_consistent compute_change_id c = c.change_id == compute_change_id c.kind c.proposed_at

abbrev pub signer : PublicKey × Bytes → ℕ
signer (k, s) = k

abbrev checked_signers : Option ℕ → Result ValidatorSetError (Unit {0})
checked_signers none = ok tt
checked_signers (some k) = err (duplicate_validator_id k)

-- The signatures stay sorted when a signer stands twice.
unfoldable pub canonicalize_signatures :
    ValidatorSetChange → Outcome ValidatorSetChange ValidatorSetError (Unit {0})
canonicalize_signatures c =
    let sorted = sort_by_key signer c.quorum_signatures in
    (record c { quorum_signatures = sorted }, checked_signers (first_duplicate signer sorted))

pub data EquivocationVoteType : Type 0 where
  prevote precommit : EquivocationVoteType

abbrev pub same_type : EquivocationVoteType → EquivocationVoteType → Bool
same_type prevote prevote = true
same_type precommit precommit = true
same_type x y = false

pub record EquivocationVote : Type 0 where
  pub validator_id : PublicKey
  pub block_hash : ℕ
  pub height : ℕ
  pub round : ℕ
  pub vote_type : EquivocationVoteType
  pub signature : Bytes

pub record EquivocationEvidence : Type 0 where
  pub vote_a : EquivocationVote
  pub vote_b : EquivocationVote

-- `<=` on byte vectors, the order of dictionaries.
abbrev pub bytes_leb : Bytes → Bytes → Bool
bytes_leb [] ys = true
bytes_leb (x ∷ xs) [] = false
bytes_leb (x ∷ xs) (y ∷ ys) = if ltb x y then true else if x == y then bytes_leb xs ys else false

unfoldable pub evidence : EquivocationVote → EquivocationVote → EquivocationEvidence
evidence v1 v2 =
    if bytes_leb v1.signature v2.signature
    then record { vote_a = v1; vote_b = v2 }
    else record { vote_a = v2; vote_b = v1 }

unfoldable pub is_structurally_equivocation : EquivocationEvidence → Bool
is_structurally_equivocation e =
    e.vote_a.validator_id == e.vote_b.validator_id
    && e.vote_a.height == e.vote_b.height
    && e.vote_a.round == e.vote_b.round
    && same_type e.vote_a.vote_type e.vote_b.vote_type
    && not (e.vote_a.block_hash == e.vote_b.block_hash)
    && not (bytes_eq.beq e.vote_a.signature e.vote_b.signature)

bytes_leb_antisym : (xs ys : Bytes) → bytes_leb xs ys ≡ true → bytes_leb ys xs ≡ true → xs ≡ ys
bytes_leb_antisym [] [] h g = refl
bytes_leb_antisym [] (y ∷ ys) h g = cc
bytes_leb_antisym (x ∷ xs) [] h g = cc
bytes_leb_antisym (x ∷ xs) (y ∷ ys) h g = ground (arith, bytes_leb_antisym xs ys)

bytes_leb_total : (xs ys : Bytes) → bytes_leb xs ys ≡ false → bytes_leb ys xs ≡ true
bytes_leb_total [] ys h = cc
bytes_leb_total (x ∷ xs) [] h = refl
bytes_leb_total (x ∷ xs) (y ∷ ys) h = ground (arith, bytes_leb_total xs ys)

-- Two votes with different signatures give the same evidence, whichever comes first.
pub evidence_comm :
    (v w : EquivocationVote) → v.signature ≢ w.signature → evidence v w ≡ evidence w v
unfolding evidence
evidence_comm v w h = elim (Bool-cases (bytes_leb v.signature w.signature)) [
  | inl e ↦ elim (Bool-cases (bytes_leb w.signature v.signature)) [
    | inl f ↦ absurd (h (bytes_leb_antisym v.signature w.signature e f))
    | inr f ↦ rw (e, f) refl
  ]
  | inr e ↦ rw (e, bytes_leb_total v.signature w.signature e) refl
]
