-- ===== src/Types/KeyRotation/Active.antt =====
-- Which rotation is active after a new one: crates/sccgub-types/src/key_rotation.rs.
use scc_blockchain.Prelude.{
  ◌≢◌, Bool, ℕ, ◌≡◌, refl, sym, ◌∙◌, ap, true, false, none, some, [], ◌∷◌, ◌++◌, arith, some_inj,
  Bool-cases, Option-cases, inl, inr,
}
use scc_blockchain.Prelude.Result.{ok, ok_inj}
use scc_blockchain.Prelude.Sort.{pair_leb, insert_pair, sort_by_pair}
use scc_blockchain.Types.KeyRotation.{
  KeyRotation, KeyRotationRegistry, conflict, conflicts, order, append, is_for, or_this,
  active_rotation_at,
}

-- What stands alone is what `last` finds.
only : (y r : KeyRotation) (b : Bool) → or_this b y none ≡ some r → (y ≢ r) → ⊥
only y r true o n = n (some_inj y r o)
only y r false o n = cc

module _ (a h : ℕ) where
  other-active_rotation_at :
      (x : KeyRotation) (l : KeyRotationRegistry)
      → is_for a h x ≡ false
      → active_rotation_at a h (insert_pair order x l) ≡ active_rotation_at a h l
  unfolding active_rotation_at
  other-active_rotation_at x [] n = rw n refl
  other-active_rotation_at x (y ∷ l) n = elim (Bool-cases (pair_leb (order x) (order y))) [
    | inl e ↦ elim (Option-cases (active_rotation_at a h (y ∷ l))) [
      | inl o ↦ rw (e, n, o) refl
      | inr (z, o) ↦ rw (e, n, o) refl
    ]
    | inr e ↦ rw e (ap (or_this (is_for a h y) y) (other-active_rotation_at x l n))
  ]

  earlier-active_rotation_at :
      (x r : KeyRotation) (l : KeyRotationRegistry)
      → active_rotation_at a h l ≡ some r
      → pair_leb (order x) (order r) ≡ true
      → active_rotation_at a h (insert_pair order x l) ≡ some r
  unfolding active_rotation_at
  earlier-active_rotation_at x r [] o p = cc
  earlier-active_rotation_at x r (y ∷ l) o p = elim (Bool-cases (pair_leb (order x) (order y))) [
    | inl e ↦ rw e (ap (or_this (is_for a h x) x) o)
    | inr e ↦ elim (Option-cases (active_rotation_at a h l)) [
      | inr (z, q) ↦
          let found : some z ≡ some r = rw q at o in
          rw e (ap (or_this (is_for a h y) y) (earlier-active_rotation_at x r l (q ∙ found) p))
      | inl q ↦
          let last : or_this (is_for a h y) y none ≡ some r = rw q at o in
          absurd (only y r (is_for a h y) last (λ same. cc (rw same at e, p)))
    ]
  ]

-- An element that has not the agent and height of the new one is for another agent or height, or
-- stands before it.
before :
    (x y : KeyRotation)
    → conflicts x y ≡ false
    → is_for x.agent_id x.rotation_height y ≡ true
    → pair_leb (order y) (order x) ≡ true
before x y c f = ground arith

new-active_rotation_at :
    (x : KeyRotation) (rs : KeyRotationRegistry)
    → conflict x rs ≡ false
    → active_rotation_at x.agent_id x.rotation_height (sort_by_pair order (rs ++ x ∷ [])) ≡ some x
unfolding active_rotation_at
new-active_rotation_at x [] c =
    let now : is_for x.agent_id x.rotation_height x ≡ true = ground arith in rw now refl
new-active_rotation_at x (y ∷ rs) c =
    let sorted : KeyRotationRegistry = sort_by_pair order (rs ++ x ∷ []) in
    let alone : conflicts x y ≡ false = ground (arith, c) in
    let ih = new-active_rotation_at x rs (ground (arith, c)) in
    elim (Bool-cases (is_for x.agent_id x.rotation_height y)) [
      | inl f ↦
          earlier-active_rotation_at x.agent_id x.rotation_height y x sorted ih (before x y alone f)
      | inr f ↦ other-active_rotation_at x.agent_id x.rotation_height y sorted f ∙ ih
    ]

-- A rotation that is appended is the active one of its agent at its height.
pub append-active_rotation_at :
    (x : KeyRotation) (rs rs' : KeyRotationRegistry)
    → append x rs ≡ ok rs'
    → active_rotation_at x.agent_id x.rotation_height rs' ≡ some x
unfolding append
append-active_rotation_at x rs rs' h = elim (Bool-cases (conflict x rs)) [
  | inl c ↦ absurd (cc (rw c at h))
  | inr c ↦
      ap (active_rotation_at x.agent_id x.rotation_height)
        (sym (ok_inj (sort_by_pair order (rs ++ x ∷ [])) rs' (rw c at h)))
      ∙ new-active_rotation_at x rs c
]
