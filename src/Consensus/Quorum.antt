-- ===== src/Consensus/Quorum.antt =====
-- Sets of signers as lists without repetition, and how two quorums overlap.
use scc_blockchain.Prelude.{
  All, ◌++◌, ◌||◌, length-append, ℕ, ◌+◌, ◌*◌, ◌/◌, ◌≤◌, ◌<◌, ◌≡◌, refl, Bool, true, false, not,
  ◌&&◌, List, [], ◌∷◌, ◌==◌, ==_iff, Bool-cases, inl, inr, length, arith, if◌then◌else◌, min,
}
use scc_blockchain.Prelude.Words.{u32_max}

abbrev pub Hash : Type 0
Hash = ℕ

-- ⌊2n/3⌋ + 1, computed in u64 and capped to a u32.
abbrev pub quorum_of : ℕ → ℕ
quorum_of n = min (2 * n / 3 + 1) u32_max

-- `contains` of a set of hashes.
abbrev pub mem : Hash → List Hash → Bool
mem x [] = false
mem x (y ∷ ys) = if x == y then true else mem x ys

-- No element stands twice.
abbrev pub IsDistinct : List Hash → Type 0
IsDistinct [] = Unit
IsDistinct (x ∷ xs) = (mem x xs ≡ false) × IsDistinct xs

-- The elements that pass a test.
abbrev pub select : (Hash → Bool) → List Hash → List Hash
select p [] = []
select p (x ∷ xs) = let rest = select p xs in if p x then x ∷ rest else rest

abbrev pub Subset : List Hash → List Hash → Type 0
Subset xs ys = (x : Hash) → mem x xs ≡ true → mem x ys ≡ true

-- What holds of each element that `contains` finds holds of all.
pub All-of_mem :
    (P : Hash → Type 0) (xs : List Hash) → ((k : Hash) → mem k xs ≡ true → P k) → All P xs
All-of_mem P [] h = tt
All-of_mem P (x ∷ xs) h = (h x (ground arith), All-of_mem P xs (λ k m. h k (ground (arith, m))))

pub mem-select :
    (p : Hash → Bool) (x : Hash) (xs : List Hash) → mem x (select p xs) ≡ (p x && mem x xs)
mem-select p x [] = ground arith
mem-select p x (y ∷ xs) = elim (Bool-cases (x == y)) [
  | inl e ↦ rw ((==_iff x y).0 e) (ground (arith, mem-select p y xs))
  | inr e ↦ ground (arith, mem-select p x xs)
]

pub select-IsDistinct :
    (p : Hash → Bool) (xs : List Hash) → IsDistinct xs → IsDistinct (select p xs)
select-IsDistinct p [] h = tt
select-IsDistinct p (x ∷ xs) h = ground (arith, mem-select p x xs, select-IsDistinct p xs h.1)

-- Taking an element out of a list that has it makes the list shorter.
select-le : (p : Hash → Bool) (xs : List Hash) → length (select p xs) ≤ length xs
select-le p [] = omega arith
select-le p (x ∷ xs) = ground (arith, select-le p xs)

other : Hash → Hash → Bool
other x y = not (x == y)

remove-lt : (x : Hash) (ys : List Hash) → mem x ys ≡ true → length (select (other x) ys) < length ys
unfolding other
remove-lt x [] h = cc
remove-lt x (y ∷ ys) h = ground (arith, select-le (other x) ys, remove-lt x ys)

-- A list without repetition is at most as long as one that has all its elements.
pub length-le_of_Subset : (xs ys : List Hash) → IsDistinct xs → Subset xs ys → length xs ≤ length ys
unfolding other
length-le_of_Subset [] ys d s = omega arith
length-le_of_Subset (x ∷ xs) ys d s = omega (
  arith,
  remove-lt x ys (s x (ground arith)),
  length-le_of_Subset xs (select (other x) ys) d.1 (λ z m. kept z m),
)
  where
    kept : (z : Hash) → mem z xs ≡ true → mem z (select (other x) ys) ≡ true
    kept z m = elim (Bool-cases (z == x)) [
      | inl e ↦ let m' : mem x xs ≡ true = rw ((==_iff z x).0 e) at m in absurd (cc (d.0))
      | inr e ↦ ground (arith, mem-select (other x) z ys, s z)
    ]

-- Joining two lists that share no element.
mem-append : (x : Hash) (xs ys : List Hash) → mem x (xs ++ ys) ≡ (mem x xs || mem x ys)
mem-append x [] ys = refl
mem-append x (z ∷ xs) ys = ground (arith, mem-append x xs ys)

-- What of `xs` is not in `ys`, with `ys` behind it.
rest : List Hash → List Hash → List Hash
rest ys xs = select (λ x. not (mem x ys)) xs

append-IsDistinct :
    (xs ys : List Hash) → IsDistinct xs → IsDistinct ys → IsDistinct (rest ys xs ++ ys)
unfolding rest
append-IsDistinct [] ys dx dy = dy
append-IsDistinct (x ∷ xs) ys dx dy = ground (
  arith,
  append-IsDistinct xs ys dx.1 dy,
  mem-append x (rest ys xs) ys,
  mem-select (λ z. not (mem z ys)) x xs,
)

partition :
    (xs ys : List Hash) → length xs ≡ length (select (λ x. mem x ys) xs) + length (rest ys xs)
unfolding rest
partition [] ys = omega arith
partition (x ∷ xs) ys = ground (arith, partition xs ys)

-- Two sets of signers among the same validators have at least as many signers in common as their
-- sizes together exceed the number of validators by.
pub overlap :
    (v xs ys : List Hash)
    → IsDistinct xs
    → IsDistinct ys
    → Subset xs v
    → Subset ys v
    → length xs + length ys ≤ length v + length (select (λ x. mem x ys) xs)
unfolding rest
overlap v xs ys dx dy sx sy =
    let joined : length (rest ys xs ++ ys) ≤ length v =
      length-le_of_Subset (rest ys xs ++ ys) v (append-IsDistinct xs ys dx dy) inside in
    omega (arith, joined, partition xs ys, length-append {0} (rest ys xs) ys)
  where
    inside : Subset (rest ys xs ++ ys) v
    inside z m =
        ground
          (arith, mem-append z (rest ys xs) ys, mem-select (λ x. not (mem x ys)) z xs, sx z, sy z)
