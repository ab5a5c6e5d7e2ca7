-- ===== src/Types/ValidatorSet/Power.antt =====
-- Sums of voting power, and that a checked set has no validator id twice:
-- crates/sccgub-types/src/validator_set.rs.
use scc_blockchain.Prelude.{
  subst, ℕ, ◌+◌, ◌≤◌, ◌<◌, ◌≡◌, refl, Bool, false, ◌&&◌, ◌||◌, Option, none, some, List, [], ◌∷◌,
  ◌==◌, ==_iff, if◌then◌else◌, map, arith, Bool-cases, Option-cases, inl, inr,
}
use scc_blockchain.Prelude.Result.{ok_inj, ok}
use scc_blockchain.Consensus.Quorum.{mem, IsDistinct}
use scc_blockchain.Types.ValidatorSet.{
  ValidatorRecord, ValidatorSet, insert_by, sort_by_key, first_duplicate, same, new, active_of,
  sum_power, find_active,
}

-- The validator ids of the records.
abbrev pub ids : List ValidatorRecord → List ℕ
ids [] = []
ids (r ∷ rs) = r.validator_id ∷ ids rs

-- The power of the records whose validator id passes a test.
abbrev pub power_with : (ℕ → Bool) → List ValidatorRecord → ℕ
power_with p [] = 0
power_with p (r ∷ rs) =
    let rest = power_with p rs in if p r.validator_id then r.voting_power + rest else rest

pub power_with-le : (p : ℕ → Bool) (rs : List ValidatorRecord) → power_with p rs ≤ sum_power rs
power_with-le p [] = omega arith
power_with-le p (r ∷ rs) = ground (arith, power_with-le p rs)

pub power_with-none : (rs : List ValidatorRecord) → power_with (λ k. false) rs ≡ 0
power_with-none [] = refl
power_with-none (r ∷ rs) = power_with-none rs

-- Two selections share at least what their powers exceed the whole by.
pub power_with-overlap :
    (p q : ℕ → Bool) (rs : List ValidatorRecord)
    → power_with p rs + power_with q rs ≤ sum_power rs + power_with (λ k. p k && q k) rs
power_with-overlap p q [] = omega arith
power_with-overlap p q (r ∷ rs) = ground (arith, power_with-overlap p q rs)

-- A test that fails on the ids of the records selects nothing more.
power_with-absent :
    (k : ℕ) (p q : ℕ → Bool) (height : ℕ) (rs : List ValidatorRecord)
    → ((j : ℕ) → p j ≡ (j == k || q j))
    → mem k (ids rs) ≡ false
    → power_with p (active_of height rs) ≡ power_with q (active_of height rs)
unfolding active_of
power_with-absent k p q height [] h m = refl
power_with-absent k p q height (r ∷ rs) h m =
    ground (arith, power_with-absent k p q height rs h, h r.validator_id)

abbrev pub found_power : Option ValidatorRecord → ℕ
found_power none = 0
found_power (some r) = r.voting_power

-- One key more selects the record that the look-up of the key finds.
pub power_with-cons :
    (k : ℕ) (p q : ℕ → Bool) (height : ℕ) (rs : List ValidatorRecord)
    → ((j : ℕ) → p j ≡ (j == k || q j))
    → q k ≡ false
    → IsDistinct (ids rs)
    → power_with p (active_of height rs)
      ≡ found_power (find_active k height rs) + power_with q (active_of height rs)
unfolding active_of find_active
power_with-cons k p q height [] h m d = refl
power_with-cons k p q height (r ∷ rs) h m d = elim (Bool-cases (r.validator_id == k)) [
  | inl e ↦
      let same_id : r.validator_id ≡ k = (==_iff r.validator_id k).0 e in
      let absent : mem k (ids rs) ≡ false = rw same_id at (d.0) in
      let tail = power_with-absent k p q height rs h absent in
      let ih = power_with-cons k p q height rs h m d.1 in
      let head = h r.validator_id in
      let miss : q r.validator_id ≡ false = rw same_id m in ground arith
  | inr e ↦ ground (arith, power_with-cons k p q height rs h m d.1, h r.validator_id)
]

-- Sorted by the standard order.
abbrev pub IsSorted : List ℕ → Type 0
IsSorted [] = Unit
IsSorted (x ∷ []) = Unit
IsSorted (x ∷ y ∷ r) = (x ≤ y) × IsSorted (y ∷ r)

insert_by-IsSorted : (x : ℕ) (ys : List ℕ) → IsSorted ys → IsSorted (insert_by same x ys)
insert_by-IsSorted x [] s = tt
insert_by-IsSorted x (y ∷ []) s = ground arith
insert_by-IsSorted x (y ∷ z ∷ r) s = ground (arith, insert_by-IsSorted x (z ∷ r) s.1)

pub sort_by_key-IsSorted : (xs : List ℕ) → IsSorted (sort_by_key same xs)
sort_by_key-IsSorted [] = tt
sort_by_key-IsSorted (x ∷ xs) = insert_by-IsSorted x (sort_by_key same xs) (sort_by_key-IsSorted xs)

above : (x y : ℕ) (r : List ℕ) → IsSorted (y ∷ r) → x < y → mem x (y ∷ r) ≡ false
above x y [] s l = ground arith
above x y (z ∷ r) s l = ground (arith, above x z r s.1)

pub sorted-IsDistinct : (xs : List ℕ) → IsSorted xs → first_duplicate same xs ≡ none → IsDistinct xs
sorted-IsDistinct [] s f = tt
sorted-IsDistinct (x ∷ []) s f = (refl, tt)
sorted-IsDistinct (x ∷ y ∷ r) s f = ground (arith, sorted-IsDistinct (y ∷ r) s.1, above x y r s.1)

pub mem-insert_by : (k x : ℕ) (ys : List ℕ) → mem k (insert_by same x ys) ≡ (k == x || mem k ys)
mem-insert_by k x [] = ground arith
mem-insert_by k x (y ∷ ys) = ground (arith, mem-insert_by k x ys)

insert_by-IsDistinct :
    (x : ℕ) (ys : List ℕ) → IsDistinct (insert_by same x ys) → (mem x ys ≡ false) × IsDistinct ys
insert_by-IsDistinct x [] d = (refl, tt)
insert_by-IsDistinct x (y ∷ ys) d = ground (arith, insert_by-IsDistinct x ys, mem-insert_by y x ys)

pub mem-sort_by_key : (k : ℕ) (xs : List ℕ) → mem k (sort_by_key same xs) ≡ mem k xs
mem-sort_by_key k [] = refl
mem-sort_by_key k (x ∷ xs) =
    ground (arith, mem-insert_by k x (sort_by_key same xs), mem-sort_by_key k xs)

pub sort_by_key-IsDistinct : (xs : List ℕ) → IsDistinct (sort_by_key same xs) → IsDistinct xs
sort_by_key-IsDistinct [] d = tt
sort_by_key-IsDistinct (x ∷ xs) d =
    let split = insert_by-IsDistinct x (sort_by_key same xs) d in
    ground (arith, mem-sort_by_key x xs, sort_by_key-IsDistinct xs split.1)

pub ids-map : (rs : List ValidatorRecord) → map (λ r. r.validator_id) rs ≡ ids rs
ids-map [] = refl
ids-map (r ∷ rs) = ground (arith, ids-map rs)

-- No validator id stands twice in a set that `new` accepts.
pub new-IsDistinct :
    (records : List ValidatorRecord) (s : ValidatorSet)
    → new records ≡ ok s
    → IsDistinct (ids s.records)
unfolding new
new-IsDistinct records s h =
    let sorted : List ValidatorRecord = sort_by_key (λ r. r.agent_id) records in
    let picked : List ℕ = sort_by_key same (map (λ r. r.validator_id) sorted) in
    elim (Option-cases (first_duplicate (λ r. r.agent_id) sorted)) [
      | inl n ↦ elim (Option-cases (first_duplicate same picked)) [
        | inl e ↦
            let distinct : IsDistinct (ids sorted) = rw (ids-map sorted) at (
              sort_by_key-IsDistinct (map (λ r. r.validator_id) sorted) (
                sorted-IsDistinct picked (sort_by_key-IsSorted (map (λ r. r.validator_id) sorted))
                  e)) in
            let eq : record { records = sorted } ≡ s =
              ok_inj (record { records = sorted }) s (rw (n, e) at h) in
            subst (λ t. IsDistinct (ids t.records)) eq distinct
        | inr (k, e) ↦ absurd (cc (rw (n, e) at h))
      ]
      | inr (k, n) ↦ absurd (cc (rw n at h))
    ]
