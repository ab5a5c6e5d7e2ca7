-- ===== src/Types/Economics/Median.antt =====
-- The median of a window of tensions: crates/sccgub-types/src/economics.rs.
use scc_blockchain.Prelude.{
  subst, ℕ, zero, suc, ◌+◌, ◌-◌, ◌/◌, ◌%◌, ◌≤◌, ◌<◌, ◌≡◌, refl, sym, some, some_inj, List, [], ◌∷◌,
  ◌==◌, if◌then◌else◌, length, get_elem?, arith, Bool-cases, inl, inr, All,
}
use scc_blockchain.Prelude.Int.{pos, ◌≤ℤ◌, leb_ℤ, ltb_ℤ}
use scc_blockchain.Types.Tension.{TensionValue}
use scc_blockchain.Types.Economics.{insert_tension, sort_tensions, median_of_tensions}

-- How many values are below a bound, and how many are at most it.
abbrev pub count_below : TensionValue → List TensionValue → ℕ
count_below m [] = 0
count_below m (x ∷ xs) = (if ltb_ℤ x m then 1 else 0) + count_below m xs

abbrev pub count_up_to : TensionValue → List TensionValue → ℕ
count_up_to m [] = 0
count_up_to m (x ∷ xs) = (if leb_ℤ x m then 1 else 0) + count_up_to m xs

abbrev IsSorted : List TensionValue → Type 0
IsSorted [] = Unit
IsSorted (x ∷ xs) = All (λ y. x ≤ℤ y) xs × IsSorted xs

insert-All :
    (x y : TensionValue) (ys : List TensionValue)
    → x ≤ℤ y
    → All (λ z. x ≤ℤ z) ys
    → All (λ z. x ≤ℤ z) (insert_tension y ys)
insert-All x y [] h a = (h, tt)
insert-All x y (z ∷ zs) h a = elim (Bool-cases (leb_ℤ y z)) [
  | inl e ↦ rw e (h, a)
  | inr e ↦ rw e (a.0, insert-All x y zs h a.1)
]

All-trans :
    (x y : TensionValue) (ys : List TensionValue)
    → x ≤ℤ y
    → All (λ z. y ≤ℤ z) ys
    → All (λ z. x ≤ℤ z) ys
All-trans x y [] h a = tt
All-trans x y (z ∷ zs) h a = (omega (arith, h, a.0), All-trans x y zs h a.1)

insert-IsSorted :
    (x : TensionValue) (ys : List TensionValue) → IsSorted ys → IsSorted (insert_tension x ys)
insert-IsSorted x [] s = (tt, tt)
insert-IsSorted x (y ∷ ys) s = elim (Bool-cases (leb_ℤ x y)) [
  | inl e ↦ let le : x ≤ℤ y = ground arith in rw e ((le, All-trans x y ys le s.0), s)
  | inr e ↦
      let le : y ≤ℤ x = ground arith in rw e (insert-All y x ys le s.0, insert-IsSorted x ys s.1)
]

sort-IsSorted : (xs : List TensionValue) → IsSorted (sort_tensions xs)
sort-IsSorted [] = tt
sort-IsSorted (x ∷ xs) = insert-IsSorted x (sort_tensions xs) (sort-IsSorted xs)

-- Sorting keeps the counts.
insert-counts :
    (m x : TensionValue) (ys : List TensionValue)
    → (count_below m (insert_tension x ys) ≡ count_below m (x ∷ ys))
      × (count_up_to m (insert_tension x ys) ≡ count_up_to m (x ∷ ys))
      × (length (insert_tension x ys) ≡ suc (length ys))
insert-counts m x [] = (refl, refl, refl)
insert-counts m x (y ∷ ys) = elim (Bool-cases (leb_ℤ x y)) [
  | inl e ↦ rw e (refl, refl, refl)
  | inr e ↦
      let ih = insert-counts m x ys in
      rw e (omega (arith, ih), omega (arith, ih), omega (arith, ih))
]

sort-counts :
    (m : TensionValue) (xs : List TensionValue)
    → (count_below m (sort_tensions xs) ≡ count_below m xs)
      × (count_up_to m (sort_tensions xs) ≡ count_up_to m xs)
      × (length (sort_tensions xs) ≡ length xs)
sort-counts m [] = (refl, refl, refl)
sort-counts m (x ∷ xs) =
    let ih = sort-counts m xs in
    let one = insert-counts m x (sort_tensions xs) in
    (omega (arith, ih, one), omega (arith, ih, one), omega (arith, ih, one))

count_below-none :
    (m : TensionValue) (xs : List TensionValue) → All (λ y. m ≤ℤ y) xs → count_below m xs ≡ 0
count_below-none m [] a = refl
count_below-none m (x ∷ xs) a = ground (arith, count_below-none m xs a.1, a.0)

All-get :
    (P : TensionValue → Type 0) (xs : List TensionValue) (k : ℕ) (m : TensionValue)
    → All P xs
    → get_elem? xs k ≡ some m
    → P m
All-get P [] k m a h = cc
All-get P (x ∷ xs) zero m a h = subst P (some_inj x m h) a.0
All-get P (x ∷ xs) (suc k) m a h = All-get P xs k m a.1 h

-- The entry of a sorted list has so many before it.
sorted-get :
    (xs : List TensionValue) (k : ℕ) (m : TensionValue)
    → IsSorted xs
    → get_elem? xs k ≡ some m
    → (count_below m xs ≤ k) × (k < count_up_to m xs)
sorted-get [] k m s h = cc
sorted-get (x ∷ xs) zero m s h =
    let same : x ≡ m = some_inj x m h in
    let none_below = count_below-none x xs s.0 in
    rw (sym same) (ground (arith, none_below), ground arith)
sorted-get (x ∷ xs) (suc k) m s h =
    let ih = sorted-get xs k m s.1 h in
    let le : x ≤ℤ m = All-get (λ y. x ≤ℤ y) xs k m s.0 h in
    (ground (arith, ih), ground (arith, ih, le))

get-some :
    (xs : List TensionValue) (k : ℕ)
    → k < length xs
    → (m : TensionValue) × (get_elem? xs k ≡ some m)
get-some [] k h = absurd (omega arith)
get-some (x ∷ xs) zero h = (x, refl)
get-some (x ∷ xs) (suc k) h = get-some xs k (omega arith)

-- The source's index is that of the lower middle.
middle :
    (xs : List TensionValue) (m : TensionValue)
    → get_elem? xs ((length xs - 1) / 2) ≡ some m
    → (if length xs % 2 == 0
        then get_elem? xs (length xs / 2 - 1)
        else get_elem? xs (length xs / 2))
      ≡ some m
middle xs m h = elim (Bool-cases (length xs % 2 == 0)) [
  | inl e ↦ let index : length xs / 2 - 1 ≡ (length xs - 1) / 2 = ground arith in rw (e, index) h
  | inr e ↦ let index : length xs / 2 ≡ (length xs - 1) / 2 = ground arith in rw (e, index) h
]

-- A window that is not empty has a median: at most (n - 1) / 2 of its n values are below it, and
-- more than (n - 1) / 2 are at most it, in whatever order they stand.
pub median_of_tensions-counts :
    (values : List TensionValue)
    → 0 < length values
    → (m : TensionValue) × (median_of_tensions values ≡ some m)
      × (count_below m values ≤ (length values - 1) / 2)
      × ((length values - 1) / 2 < count_up_to m values)
unfolding median_of_tensions
median_of_tensions-counts values h =
    let sorted : List TensionValue = sort_tensions values in
    let size = (sort-counts (pos 0) values).2 in
    let entry = get-some sorted ((length values - 1) / 2) (omega (arith, size)) in
    let rank = sorted-get sorted ((length values - 1) / 2) entry.0 (sort-IsSorted values) entry.1 in
    let counts = sort-counts entry.0 values in
    (
      entry.0,
      middle sorted entry.0
          (subst (λ n. get_elem? sorted ((n - 1) / 2) ≡ some entry.0) (sym size) entry.1),
      omega (arith, rank, counts),
      omega (arith, rank, counts),
    )
