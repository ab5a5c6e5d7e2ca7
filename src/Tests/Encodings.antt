-- ===== src/Tests/Encodings.antt =====
-- Encodings that can be computed: of a list of byte strings as one, by an escape, and of records by
-- their fields in a list.
use scc_blockchain.Prelude.{
  ℕ, zero, suc, ◌≡◌, refl, ◌∙◌, ap, ap₂, Option, none, some, List, [], ◌∷◌, map,
}
use scc_blockchain.Prelude.Result.{Result, ok}
use scc_blockchain.Types.Transition.{Bytes}
use scc_blockchain.Types.ValidatorSet.{
  ValidatorRecord, ValidatorSet, ValidatorSetChangeKind, RemovalReason, voluntary, equivocation,
  inactivity, governance, add, remove, rotate_power, rotate_key,
}
use scc_blockchain.Types.ValidatorSet.Change.{ValidatorSetChange}
use scc_blockchain.State.World.{Codec}

-- Each string with its bytes one higher, and a zero behind it.
abbrev escape : Bytes → Bytes → Bytes
escape [] rest = 0 ∷ rest
escape (b ∷ bs) rest = suc b ∷ escape bs rest

abbrev pub join : List Bytes → Bytes
join [] = []
join (s ∷ ss) = escape s (join ss)

abbrev onto : ℕ → List Bytes → List Bytes
onto b [] = (b ∷ []) ∷ []
onto b (s ∷ ss) = (b ∷ s) ∷ ss

abbrev pub split : Bytes → List Bytes
split [] = []
split (zero ∷ bs) = [] ∷ split bs
split (suc b ∷ bs) = onto b (split bs)

abbrev split-escape : (s rest : Bytes) → split (escape s rest) ≡ s ∷ split rest
split-escape [] rest = refl
split-escape (b ∷ s) rest = ap (onto b) (split-escape s rest)

abbrev pub split-join : (ss : List Bytes) → split (join ss) ≡ ss
split-join [] = refl
split-join (s ∷ ss) = split-escape s (join ss) ∙ ap (◌∷◌ s) (split-join ss)

-- A value as bytes and back.
pub record Item (A : Type 0) : Type 0 where
  pub enc : A → Bytes
  pub dec : Bytes → A
  pub dec_enc : (x : A) → dec (enc x) ≡ x

module _ {A : Type 0} (item : Item A) where
  abbrev all_enc : List A → Bytes
  all_enc xs = join (map item.enc xs)

  abbrev all_dec : Bytes → List A
  all_dec bs = map item.dec (split bs)

  abbrev each : (xs : List A) → map item.dec (map item.enc xs) ≡ xs
  each [] = refl
  each (x ∷ xs) = ap₂ (◌∷◌) (item.dec_enc x) (each xs)

  abbrev all_dec_enc : (xs : List A) → all_dec (all_enc xs) ≡ xs
  all_dec_enc xs = ap (map item.dec) (split-join (map item.enc xs)) ∙ each xs

  abbrev pub list_item : Item (List A)
  list_item = record { enc = all_enc; dec = all_dec; dec_enc = all_dec_enc }

  abbrev decoded : Bytes → Result Bytes A
  decoded bs = ok (item.dec bs)

  abbrev decoded_back : (x : A) → decoded (item.enc x) ≡ ok x
  decoded_back x = ap ok (item.dec_enc x)

  abbrev pub codec : Codec A
  codec = record { to_bytes = item.enc; from_bytes = decoded; round_trip = decoded_back }

abbrev no_record : ValidatorRecord
no_record = record {
  agent_id = 0;
  validator_id = 0;
  mfidel_seal = record { row = 0; column = 0 };
  voting_power = 0;
  active_from = 0;
  active_until = none;
}

abbrev pub until_number : Option ℕ → ℕ
until_number none = 0
until_number (some n) = suc n

abbrev pub number_until : ℕ → Option ℕ
number_until zero = none
number_until (suc n) = some n

abbrev pub until_back : (o : Option ℕ) → number_until (until_number o) ≡ o
until_back none = refl
until_back (some n) = refl

abbrev record_enc : ValidatorRecord → Bytes
record_enc r =
    r.agent_id
    ∷ r.validator_id
    ∷ r.mfidel_seal.row
    ∷ r.mfidel_seal.column
    ∷ r.voting_power
    ∷ r.active_from
    ∷ until_number r.active_until
    ∷ []

abbrev record_dec : Bytes → ValidatorRecord
record_dec (a ∷ k ∷ row ∷ column ∷ p ∷ h ∷ u ∷ []) = record {
  agent_id = a;
  validator_id = k;
  mfidel_seal = record { row = row; column = column };
  voting_power = p;
  active_from = h;
  active_until = number_until u;
}
record_dec bs = no_record

abbrev record_back : (r : ValidatorRecord) → record_dec (record_enc r) ≡ r
record_back r = ap (λ (u : Option ℕ). record r { active_until = u }) (until_back r.active_until)

abbrev record_item : Item ValidatorRecord
record_item = record { enc = record_enc; dec = record_dec; dec_enc = record_back }

abbrev set_item : Item ValidatorSet
set_item = record {
  enc = λ s. all_enc record_item s.records;
  dec = λ bs. record { records = all_dec record_item bs };
  dec_enc = λ s.
      ap (λ (rs : List ValidatorRecord). record { records = rs })
        (all_dec_enc record_item s.records);
}

abbrev pub set_codec : Codec ValidatorSet
set_codec = codec set_item

abbrev reason_number : RemovalReason → ℕ
reason_number voluntary = 0
reason_number equivocation = 1
reason_number inactivity = 2
reason_number governance = 3

abbrev number_reason : ℕ → RemovalReason
number_reason zero = voluntary
number_reason (suc zero) = equivocation
number_reason (suc (suc zero)) = inactivity
number_reason n = governance

abbrev kind_enc : ValidatorSetChangeKind → Bytes
kind_enc (add r) = 0 ∷ record_enc r
kind_enc (remove a reason h) = 1 ∷ a ∷ reason_number reason ∷ h ∷ []
kind_enc (rotate_power a p h) = 2 ∷ a ∷ p ∷ h ∷ []
kind_enc (rotate_key a k k' h) = 3 ∷ a ∷ k ∷ k' ∷ h ∷ []

abbrev kind_dec : Bytes → ValidatorSetChangeKind
kind_dec (suc zero ∷ a ∷ reason ∷ h ∷ []) = remove a (number_reason reason) h
kind_dec (suc (suc zero) ∷ a ∷ p ∷ h ∷ []) = rotate_power a p h
kind_dec (suc (suc (suc zero)) ∷ a ∷ k ∷ k' ∷ h ∷ []) = rotate_key a k k' h
kind_dec (zero ∷ bs) = add (record_dec bs)
kind_dec bs = add no_record

abbrev reason_back : (r : RemovalReason) → number_reason (reason_number r) ≡ r
reason_back voluntary = refl
reason_back equivocation = refl
reason_back inactivity = refl
reason_back governance = refl

abbrev kind_back : (k : ValidatorSetChangeKind) → kind_dec (kind_enc k) ≡ k
kind_back (add r) = ap add (record_back r)
kind_back (remove a reason h) = ap (λ x. remove a x h) (reason_back reason)
kind_back (rotate_power a p h) = refl
kind_back (rotate_key a k k' h) = refl

abbrev signature_enc : ℕ × Bytes → Bytes
signature_enc (k, s) = k ∷ s

abbrev signature_dec : Bytes → ℕ × Bytes
signature_dec [] = (0, [])
signature_dec (k ∷ s) = (k, s)

abbrev signature_back : (s : ℕ × Bytes) → signature_dec (signature_enc s) ≡ s
signature_back (k, s) = refl

abbrev signature_item : Item (ℕ × Bytes)
signature_item = record { enc = signature_enc; dec = signature_dec; dec_enc = signature_back }

abbrev change_enc : ValidatorSetChange → Bytes
change_enc c = join (
    (c.change_id ∷ c.proposed_at ∷ [])
    ∷ kind_enc c.kind
    ∷ all_enc signature_item c.quorum_signatures
    ∷ [])

abbrev change_parts : List Bytes → ValidatorSetChange
change_parts ((id ∷ at_height ∷ []) ∷ kind ∷ signatures ∷ []) = record {
  change_id = id;
  kind = kind_dec kind;
  proposed_at = at_height;
  quorum_signatures = all_dec signature_item signatures;
}
change_parts bs = record {
  change_id = 0;
  kind = add no_record;
  proposed_at = 0;
  quorum_signatures = [];
}

abbrev change_back : (c : ValidatorSetChange) → change_parts (split (change_enc c)) ≡ c
change_back c =
    ap change_parts (
      split-join (
        (c.change_id ∷ c.proposed_at ∷ [])
        ∷ kind_enc c.kind
        ∷ all_enc signature_item c.quorum_signatures
        ∷ []))
    ∙ ap₂
        (λ (k : ValidatorSetChangeKind) (s : List (ℕ × Bytes)). record c {
          kind = k;
          quorum_signatures = s;
        })
        (kind_back c.kind) (all_dec_enc signature_item c.quorum_signatures)

abbrev change_item : Item ValidatorSetChange
change_item = record {
  enc = change_enc;
  dec = λ bs. change_parts (split bs);
  dec_enc = change_back;
}

abbrev pub changes_codec : Codec (List ValidatorSetChange)
changes_codec = codec (list_item change_item)
