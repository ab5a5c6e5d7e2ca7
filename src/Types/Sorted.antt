-- ===== src/Types/Sorted.antt =====
-- What `sort_by_key` leaves as it was: the elements, and that no number stands twice.
use scc_blockchain.Prelude.{
  inr, inl, Bool-cases, ℕ, ◌≡◌, refl, ◌∙◌, false, ◌||◌, List, [], ◌∷◌, ◌++◌, ◌==◌, map, arith,
}
use scc_blockchain.Prelude.Sort.{insert_pair, sort_by_pair, pair_leb}
use scc_blockchain.Consensus.Quorum.{mem, IsDistinct}

module _ {A : Type 0} (key : A → ℕ × ℕ) (f : A → ℕ) where
  mem-insert_pair :
      (k : ℕ) (x : A) (ys : List A)
      → mem k (map f (insert_pair key x ys)) ≡ (k == f x || mem k (map f ys))
  mem-insert_pair k x [] = ground arith
  mem-insert_pair k x (y ∷ ys) = elim (Bool-cases (pair_leb (key x) (key y))) [
    | inl e ↦ rw e (ground arith)
    | inr e ↦ rw e (ground (arith, mem-insert_pair k x ys))
  ]

  pub mem-sort_by_pair :
      (k : ℕ) (xs : List A) → mem k (map f (sort_by_pair key xs)) ≡ mem k (map f xs)
  mem-sort_by_pair k [] = refl
  mem-sort_by_pair k (x ∷ xs) =
      ground (arith, mem-insert_pair k x (sort_by_pair key xs), mem-sort_by_pair k xs)

  insert_pair-IsDistinct :
      (x : A) (ys : List A)
      → mem (f x) (map f ys) ≡ false
      → IsDistinct (map f ys)
      → IsDistinct (map f (insert_pair key x ys))
  insert_pair-IsDistinct x [] n d = (refl, tt)
  insert_pair-IsDistinct x (y ∷ ys) n d = elim (Bool-cases (pair_leb (key x) (key y))) [
    | inl e ↦ rw e (n, d)
    | inr e ↦
        let tail = insert_pair-IsDistinct x ys in
        rw e (ground (arith, tail, mem-insert_pair (f y) x ys))
  ]

  pub sort_by_pair-IsDistinct :
      (xs : List A) → IsDistinct (map f xs) → IsDistinct (map f (sort_by_pair key xs))
  sort_by_pair-IsDistinct [] d = tt
  sort_by_pair-IsDistinct (x ∷ xs) d =
      insert_pair-IsDistinct x (sort_by_pair key xs) (mem-sort_by_pair (f x) xs ∙ d.0)
        (sort_by_pair-IsDistinct xs d.1)

module _ {A : Type 0} (f : A → ℕ) where
  pub mem-append :
      (k : ℕ) (xs ys : List A) → mem k (map f (xs ++ ys)) ≡ (mem k (map f xs) || mem k (map f ys))
  mem-append k [] ys = refl
  mem-append k (x ∷ xs) ys = ground (arith, mem-append k xs ys)

  -- One element more at the end, with a number of its own.
  pub push-IsDistinct :
      (x : A) (xs : List A)
      → mem (f x) (map f xs) ≡ false
      → IsDistinct (map f xs)
      → IsDistinct (map f (xs ++ x ∷ []))
  push-IsDistinct x [] n d = (refl, tt)
  push-IsDistinct x (y ∷ xs) n d =
      ground (arith, mem-append (f y) xs (x ∷ []), push-IsDistinct x xs)
