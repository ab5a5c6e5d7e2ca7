-- ===== src/Types/ValidatorSet/Canonical.antt =====
-- A validator set does not depend on the order in which its records are given:
-- crates/sccgub-types/src/validator_set.rs.
use mathlib.Core.List.{Perm, Permᴰ}
use mathlib.Core.List.Permᴰ.{nil, cons, swap, trans}
use mathlib.Core.Logic.{∥∥₁_elim}
use scc_blockchain.Prelude.{
  ℕ, ◌≡◌, refl, sym, ap, ap₂, ◌∙◌, false, Option, none, some, List, [], ◌∷◌, ◌==◌, map, arith,
  Option-cases, inl, inr,
}
use scc_blockchain.Consensus.Quorum.{mem, IsDistinct}
use scc_blockchain.Types.ValidatorSet.{
  ValidatorRecord, insert_by, sort_by_key, first_duplicate, same, new,
}
use scc_blockchain.Types.ValidatorSet.Power.{
  sort_by_key-IsSorted, sorted-IsDistinct, sort_by_key-IsDistinct, mem-insert_by, mem-sort_by_key,
}

insert_same_comm :
    (x y : ℕ) (l : List ℕ)
    → insert_by same x (insert_by same y l) ≡ insert_by same y (insert_by same x l)
insert_same_comm x y [] = ground arith
insert_same_comm x y (z ∷ l) = ground (arith, insert_same_comm x y l)

insert-IsDistinct :
    (x : ℕ) (l : List ℕ) → mem x l ≡ false → IsDistinct l → IsDistinct (insert_by same x l)
insert-IsDistinct x [] h d = (refl, tt)
insert-IsDistinct x (y ∷ l) h d = ground (arith, insert-IsDistinct x l, mem-insert_by y x l)

pub IsDistinct-sort_by_key : (l : List ℕ) → IsDistinct l → IsDistinct (sort_by_key same l)
IsDistinct-sort_by_key [] d = tt
IsDistinct-sort_by_key (x ∷ l) d =
    insert-IsDistinct x (sort_by_key same l) (mem-sort_by_key x l ∙ d.0)
      (IsDistinct-sort_by_key l d.1)

module _ {A : Type 0} (key : A → ℕ) where
  insert_by_comm :
      (x y : A) (l : List A)
      → (key x == key y) ≡ false
      → insert_by key x (insert_by key y l) ≡ insert_by key y (insert_by key x l)
  insert_by_comm x y [] h = ground arith
  insert_by_comm x y (z ∷ l) h = ground (arith, insert_by_comm x y l)

  map-insert_by :
      (x : A) (l : List A) → map key (insert_by key x l) ≡ insert_by same (key x) (map key l)
  map-insert_by x [] = refl
  map-insert_by x (y ∷ l) = ground (arith, map-insert_by x l)

  pub map-sort_by_key : (l : List A) → map key (sort_by_key key l) ≡ sort_by_key same (map key l)
  map-sort_by_key [] = refl
  map-sort_by_key (x ∷ l) =
      map-insert_by x (sort_by_key key l) ∙ ap (insert_by same (key x)) (map-sort_by_key l)

  pub first_duplicate-map : (l : List A) → first_duplicate key l ≡ first_duplicate same (map key l)
  first_duplicate-map [] = refl
  first_duplicate-map (x ∷ []) = refl
  first_duplicate-map (x ∷ y ∷ l) = ground (arith, first_duplicate-map (y ∷ l))

  sorted_keys-Perm :
      (l m : List A) → Permᴰ l m → sort_by_key same (map key l) ≡ sort_by_key same (map key m)
  sorted_keys-Perm _ _ nil = refl
  sorted_keys-Perm _ _ (cons {a} {b} {l₁ = l} {l₂ = m} e p) =
      ap₂ (insert_by same) (ap key e) (sorted_keys-Perm l m p)
  sorted_keys-Perm _ _ (swap {a} {b} {a' = c} {b' = d} {l} e f) =
      rw (e, f) (insert_same_comm (key d) (key c) (sort_by_key same (map key l)))
  sorted_keys-Perm _ _ (trans {l₁ = l} {l₂ = m} {l₃ = n} p q) =
      sorted_keys-Perm l m p ∙ sorted_keys-Perm m n q

  -- The first key that stands twice, after sorting.
  abbrev pub repeated : List A → Option ℕ
  repeated l = first_duplicate key (sort_by_key key l)

  repeated-Perm : (l m : List A) → Permᴰ l m → repeated l ≡ repeated m
  repeated-Perm l m p =
      rw
        (
          first_duplicate-map (sort_by_key key l),
          first_duplicate-map (sort_by_key key m),
          map-sort_by_key l,
          map-sort_by_key m,
        )
        (ap (first_duplicate same) (sorted_keys-Perm l m p))

  pub repeated-IsDistinct : (l : List A) → repeated l ≡ none → IsDistinct (map key l)
  repeated-IsDistinct l h = sort_by_key-IsDistinct (map key l) (
      sorted-IsDistinct (sort_by_key same (map key l)) (sort_by_key-IsSorted (map key l)) (
        ap (first_duplicate same) (sym (map-sort_by_key l))
        ∙ sym (first_duplicate-map (sort_by_key key l))
        ∙ h))

  pub keys-IsDistinct : (l m : List A) → Permᴰ l m → IsDistinct (map key l) → IsDistinct (map key m)
  keys-IsDistinct l m p d =
      sort_by_key-IsDistinct (map key m)
        (rw (sorted_keys-Perm l m p) at (IsDistinct-sort_by_key (map key l) d))

  sort_by_key-Perm :
      (l m : List A) → Permᴰ l m → IsDistinct (map key l) → sort_by_key key l ≡ sort_by_key key m
  sort_by_key-Perm _ _ nil h = refl
  sort_by_key-Perm _ _ (cons {a} {b} {l₁ = l} {l₂ = m} e p) h =
      ap₂ (insert_by key) e (sort_by_key-Perm l m p h.1)
  sort_by_key-Perm _ _ (swap {a} {b} {a' = c} {b' = d} {l} e f) h =
      let apart : (key a == key b) ≡ false = ground (arith, h) in
      insert_by_comm a b (sort_by_key key l) apart
      ∙ ap₂ (λ x y. insert_by key x (insert_by key y (sort_by_key key l))) f e
  sort_by_key-Perm _ _ (trans {l₁ = l} {l₂ = m} {l₃ = n} p q) h =
      sort_by_key-Perm l m p h ∙ sort_by_key-Perm m n q (keys-IsDistinct l m p h)

new-Permᴰ : (xs ys : List ValidatorRecord) → Permᴰ xs ys → new xs ≡ new ys
unfolding new
new-Permᴰ xs ys p =
    let agent : ValidatorRecord → ℕ = (λ r. r.agent_id) in
    elim (Option-cases (repeated agent xs)) [
      | inl n ↦ rw (sort_by_key-Perm agent xs ys p (repeated-IsDistinct agent xs n)) refl
      | inr (k, n) ↦
          let n' : repeated agent ys ≡ some k = sym (repeated-Perm agent xs ys p) ∙ n in
          rw (n, n') refl
    ]

-- `new` gives the same answer, the set or the error, for the same records in any other order.
pub new-Perm : (xs ys : List ValidatorRecord) → Perm xs ys → new xs ≡ new ys
new-Perm xs ys p = ∥∥₁_elim p (hlevel) (λ d. new-Permᴰ xs ys d)
