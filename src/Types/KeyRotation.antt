-- ===== src/Types/KeyRotation.antt =====
-- Key rotations and the index of all keys: crates/sccgub-types/src/key_rotation.rs, without the
-- canonical encodings.
pub mod Owners
pub mod Active
use scc_blockchain.Prelude.{
  ℕ, Bool, true, false, ◌&&◌, Option, none, some, List, [], ◌∷◌, ◌++◌, ◌==◌, leb, if◌then◌else◌,
  map,
}
use scc_blockchain.Prelude.Result.{Result, ok, err}
use scc_blockchain.Prelude.Sort.{sort_by_pair}
use scc_blockchain.Consensus.Quorum.{mem}
use scc_blockchain.Types.Transition.{Bytes}

pub record KeyRotation : Type 0 where
  pub agent_id : ℕ
  pub old_public_key : ℕ
  pub new_public_key : ℕ
  pub rotation_height : ℕ
  pub signature_by_old_key : Bytes
  pub signature_by_new_key : Bytes

-- A struct of this one field.
abbrev pub KeyRotationRegistry : Type 0
KeyRotationRegistry = List KeyRotation

pub data KeyRotationError : Type 0 where
  duplicate_at_height : (agent_id rotation_height : ℕ) → KeyRotationError
  key_already_indexed key_not_indexed : (public_key : ℕ) → KeyRotationError

abbrev pub conflicts : KeyRotation → KeyRotation → Bool
conflicts x r = r.agent_id == x.agent_id && r.rotation_height == x.rotation_height

-- `any` of them has the same agent and height.
abbrev pub conflict : KeyRotation → KeyRotationRegistry → Bool
conflict x [] = false
conflict x (r ∷ rs) = if conflicts x r then true else conflict x rs

abbrev pub order : KeyRotation → ℕ × ℕ
order r = (r.agent_id, r.rotation_height)

unfoldable pub append :
    KeyRotation → KeyRotationRegistry → Result KeyRotationError KeyRotationRegistry
append x rs =
    if conflict x rs
    then err (duplicate_at_height x.agent_id x.rotation_height)
    else ok (sort_by_pair order (rs ++ x ∷ []))

abbrev pub is_for : (agent_id h : ℕ) → KeyRotation → Bool
is_for a h r = r.agent_id == a && leb r.rotation_height h

-- `or_else`, as `last` takes a later element first.
abbrev pub or_this : Bool → KeyRotation → Option KeyRotation → Option KeyRotation
or_this b r (some x) = some x
or_this true r none = some r
or_this false r none = none

-- The last of `rotations_for_at`.
unfoldable pub active_rotation_at : (agent_id h : ℕ) → KeyRotationRegistry → Option KeyRotation
active_rotation_at a h [] = none
active_rotation_at a h (r ∷ rs) = or_this (is_for a h r) r (active_rotation_at a h rs)

pub record KeyIndexEntry : Type 0 where
  pub public_key : ℕ
  pub agent_id : ℕ
  pub active_from : ℕ
  pub superseded_at : Option ℕ

-- A struct of this one field.
abbrev pub KeyIndex : Type 0
KeyIndex = List KeyIndexEntry

abbrev pub keys : KeyIndex → List ℕ
keys es = map (λ e. e.public_key) es

abbrev pub contains_key : (public_key : ℕ) → KeyIndex → Bool
contains_key k es = mem k (keys es)

abbrev pub place : KeyIndexEntry → ℕ × ℕ
place e = (e.public_key, e.active_from)

abbrev pub fresh : (public_key agent_id active_from : ℕ) → KeyIndexEntry
fresh k a h = record { public_key = k; agent_id = a; active_from = h; superseded_at = none }

unfoldable pub register :
    (public_key agent_id active_from : ℕ) → KeyIndex → Result KeyRotationError KeyIndex
register k a h es =
    if contains_key k es
    then err (key_already_indexed k)
    else ok (sort_by_pair place (es ++ fresh k a h ∷ []))

-- The entry of the key, marked.
abbrev pub marked : (public_key superseded_at : ℕ) → KeyIndex → KeyIndex
marked k h [] = []
marked k h (e ∷ es) =
    let rest = marked k h es in
    if k == e.public_key then record e { superseded_at = some h } ∷ es else e ∷ rest

unfoldable pub mark_superseded :
    (public_key superseded_at : ℕ) → KeyIndex → Result KeyRotationError KeyIndex
mark_superseded k h es = if contains_key k es then ok (marked k h es) else err (key_not_indexed k)

unfoldable pub owning_agent : (public_key : ℕ) → KeyIndex → Option ℕ
owning_agent k [] = none
owning_agent k (e ∷ es) =
    let rest = owning_agent k es in if k == e.public_key then some e.agent_id else rest
