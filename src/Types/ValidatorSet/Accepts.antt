-- ===== src/Types/ValidatorSet/Accepts.antt =====
-- Which records `new` accepts, and that a set holds the records that it was given:
-- crates/sccgub-types/src/validator_set.rs.
use mathlib.Core.List.{Permᴰ}
use mathlib.Core.List.Permᴰ.{nil, cons, swap, trans}
use scc_blockchain.Prelude.{
  ◌↔◌, ℕ, ◌≡◌, refl, sym, ap, ◌∙◌, none, List, [], ◌∷◌, leb, map, All, arith, subst, Bool-cases,
  Option-cases, inl, inr,
}
use scc_blockchain.Prelude.Result.{ok, ok_inj}
use scc_blockchain.Consensus.Quorum.{IsDistinct}
use scc_blockchain.Types.ValidatorSet.{
  ValidatorRecord, ValidatorSet, insert_by, sort_by_key, first_duplicate, same, new,
}
use scc_blockchain.Types.ValidatorSet.Power.{new-IsDistinct, ids-map}
use scc_blockchain.Types.ValidatorSet.Canonical.{
  repeated, repeated-IsDistinct, keys-IsDistinct, first_duplicate-map, map-sort_by_key,
  IsDistinct-sort_by_key,
}

Permᴰ_refl : {A : Type 0} (l : List A) → Permᴰ l l
Permᴰ_refl [] = nil
Permᴰ_refl (x ∷ l) = cons refl (Permᴰ_refl l)

module _ {A : Type 0} (key : A → ℕ) where
  insert_by-Permᴰ : (x : A) (l : List A) → Permᴰ (x ∷ l) (insert_by key x l)
  insert_by-Permᴰ x [] = Permᴰ_refl (x ∷ [])
  insert_by-Permᴰ x (y ∷ l) = elim (Bool-cases (leb (key x) (key y))) [
    | inl e ↦ rw e (Permᴰ_refl (x ∷ y ∷ l))
    | inr e ↦ rw e (trans (swap refl refl) (cons refl (insert_by-Permᴰ x l)))
  ]

  sort_by_key-Permᴰ : (l : List A) → Permᴰ l (sort_by_key key l)
  sort_by_key-Permᴰ [] = nil
  sort_by_key-Permᴰ (x ∷ l) =
      trans (cons refl (sort_by_key-Permᴰ l)) (insert_by-Permᴰ x (sort_by_key key l))

  All-insert_by : (P : A → Type 0) (x : A) (l : List A) → P x → All P l → All P (insert_by key x l)
  All-insert_by P x [] p a = (p, tt)
  All-insert_by P x (y ∷ l) p a = elim (Bool-cases (leb (key x) (key y))) [
    | inl e ↦ rw e (p, a)
    | inr e ↦ rw e (a.0, All-insert_by P x l p a.1)
  ]

  pub All-sort_by_key : (P : A → Type 0) (l : List A) → All P l → All P (sort_by_key key l)
  All-sort_by_key P [] a = tt
  All-sort_by_key P (x ∷ l) a = All-insert_by P x (sort_by_key key l) a.0 (All-sort_by_key P l a.1)

  pub map-sort_by_key-IsDistinct :
      (f : A → ℕ) (l : List A) → IsDistinct (map f l) → IsDistinct (map f (sort_by_key key l))
  map-sort_by_key-IsDistinct f l d = keys-IsDistinct f l (sort_by_key key l) (sort_by_key-Permᴰ l) d

first_duplicate-IsDistinct : (l : List ℕ) → IsDistinct l → first_duplicate same l ≡ none
first_duplicate-IsDistinct [] d = refl
first_duplicate-IsDistinct (x ∷ []) d = refl
first_duplicate-IsDistinct (x ∷ y ∷ l) d = ground (arith, first_duplicate-IsDistinct (y ∷ l) d.1)

repeated-none :
    {A : Type 0} (key : A → ℕ) (l : List A) → IsDistinct (map key l) → repeated key l ≡ none
repeated-none key l d =
    first_duplicate-map key (sort_by_key key l)
    ∙ ap (first_duplicate same) (map-sort_by_key key l)
    ∙ first_duplicate-IsDistinct (sort_by_key same (map key l))
        (IsDistinct-sort_by_key (map key l) d)

abbrev pub by_agent : List ValidatorRecord → List ValidatorRecord
by_agent rs = sort_by_key (λ r. r.agent_id) rs

-- Records with agents and keys that stand once.
abbrev pub IsWell : List ValidatorRecord → Type 0
IsWell rs = IsDistinct (map (λ r. r.agent_id) rs) × IsDistinct (map (λ r. r.validator_id) rs)

pub new_accepts :
    (rs : List ValidatorRecord) → IsWell rs → new rs ≡ ok (record { records = by_agent rs })
unfolding new
new_accepts rs w =
    let agents = repeated-none (λ (r : ValidatorRecord). r.agent_id) rs w.0 in
    let keys =
      first_duplicate-IsDistinct (sort_by_key same (map (λ r. r.validator_id) (by_agent rs))) (
        IsDistinct-sort_by_key (map (λ r. r.validator_id) (by_agent rs))
          (map-sort_by_key-IsDistinct (λ r. r.agent_id) (λ r. r.validator_id) rs w.1)) in
    rw (agents, keys) refl

-- An accepted set has the records that were given, in the order of the agents, and neither an agent
-- nor a key stands twice.
pub new-IsWell :
    (rs : List ValidatorRecord) (s : ValidatorSet)
    → new rs ≡ ok s
    → (s.records ≡ by_agent rs) × IsWell s.records
unfolding new
new-IsWell rs s h =
    let agent : ValidatorRecord → ℕ = (λ r. r.agent_id) in
    let keys : IsDistinct (map (λ r. r.validator_id) s.records) =
      rw (ids-map s.records) (new-IsDistinct rs s h) in
    elim (Option-cases (repeated agent rs)) [
      | inr (k, n) ↦ absurd (cc (rw n at h))
      | inl n ↦
          let distinct =
            map-sort_by_key-IsDistinct agent agent rs (repeated-IsDistinct agent rs n) in
          elim (Option-cases
            (first_duplicate same (sort_by_key same (map (λ r. r.validator_id) (by_agent rs))))) [
              | inr (k, e) ↦ absurd (cc (rw (n, e) at h))
              | inl e ↦
                  let made : record { records = by_agent rs } ≡ s =
                    ok_inj (record { records = by_agent rs }) s (rw (n, e) at h) in
                  (
                    ap (λ t. t.records) (sym made),
                    (subst (λ t. IsDistinct (map agent t.records)) made distinct, keys),
                  )
            ]
    ]

Permᴰ_sym : {A : Type 0} (l m : List A) → Permᴰ l m → Permᴰ m l
Permᴰ_sym _ _ nil = nil
Permᴰ_sym _ _ (cons {l₁ = l} {l₂ = m} e p) = cons (sym e) (Permᴰ_sym l m p)
Permᴰ_sym _ _ (swap e f) = swap (sym f) (sym e)
Permᴰ_sym _ _ (trans {l₁ = l} {l₂ = m} {l₃ = n} p q) = trans (Permᴰ_sym m n q) (Permᴰ_sym l m p)

-- `new` accepts records exactly when neither an agent nor a key stands twice, and the set that it
-- makes of them is then the one with these records in the order of the agents.
pub new_iff :
    (rs : List ValidatorRecord) (s : ValidatorSet)
    → (new rs ≡ ok s) ↔ (IsWell rs × (s ≡ record { records = by_agent rs }))
new_iff rs s = (
  λ h.
      (let made = new-IsWell rs s h in
        let well : IsWell (by_agent rs) = subst IsWell made.0 made.1 in
        let back =
          Permᴰ_sym rs (by_agent rs) (sort_by_key-Permᴰ (λ (r : ValidatorRecord). r.agent_id) rs) in
        (
          (
            keys-IsDistinct (λ (r : ValidatorRecord). r.agent_id) (by_agent rs) rs back well.0,
            keys-IsDistinct (λ (r : ValidatorRecord). r.validator_id) (by_agent rs) rs back well.1,
          ),
          ap (λ (x : List ValidatorRecord). record { records = x }) made.0,
        )),
  λ h. new_accepts rs h.0 ∙ ap ok (sym h.1),
)
