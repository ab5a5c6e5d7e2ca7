-- ===== src/Prelude/Sort.antt =====
-- `sort_by_key` with a key of two parts: the standard library's stable sort, written as an insertion
-- sort, and what it leaves as it was.
use Prim.Native.Nat.{ℕ}
use Prim.Native.Nat.{ℕ}
use mathlib.Core.Path.{◌≡◌}
use mathlib.Core.Logic.{inl, inr}
use mathlib.Core.Bool.{Bool, true, false, ◌&&◌, ◌||◌}
use mathlib.Core.List.{List, [], ◌∷◌}
use native.Mathlib.Omega.{arith}
use scc_blockchain.Prelude.Lists.{All}
use scc_blockchain.Prelude.Tests.{◌==◌, if◌then◌else◌, ltb, leb, Bool-cases}

abbrev pub pair_leb : ℕ × ℕ → ℕ × ℕ → Bool
pair_leb (a, b) (c, d) = ltb a c || (a == c && leb b d)

module _ {A : Type 0} (key : A → ℕ × ℕ) where
  abbrev pub insert_pair : A → List A → List A
  insert_pair x [] = x ∷ []
  insert_pair x (y ∷ ys) =
      let rest = insert_pair x ys in if pair_leb (key x) (key y) then x ∷ y ∷ ys else y ∷ rest

  abbrev pub sort_by_pair : List A → List A
  sort_by_pair [] = []
  sort_by_pair (x ∷ xs) = insert_pair x (sort_by_pair xs)

  -- In the order of the keys.
  abbrev pub IsOrdered : List A → Type 0
  IsOrdered [] = Unit
  IsOrdered (x ∷ []) = Unit
  IsOrdered (x ∷ y ∷ r) = (pair_leb (key x) (key y) ≡ true) × IsOrdered (y ∷ r)

  pair_leb_total : (p q : ℕ × ℕ) → pair_leb p q ≡ false → pair_leb q p ≡ true
  pair_leb_total (a, b) (c, d) h = ground arith

  insert_pair-IsOrdered : (x : A) (ys : List A) → IsOrdered ys → IsOrdered (insert_pair x ys)
  insert_pair-IsOrdered x [] o = tt
  insert_pair-IsOrdered x (y ∷ []) o = elim (Bool-cases (pair_leb (key x) (key y))) [
    | inl e ↦ rw e (e, tt)
    | inr e ↦ rw e (pair_leb_total (key x) (key y) e, tt)
  ]
  insert_pair-IsOrdered x (y ∷ z ∷ r) o = elim (Bool-cases (pair_leb (key x) (key y))) [
    | inl e ↦ rw e (e, o)
    | inr e ↦
        let back = pair_leb_total (key x) (key y) e in
        let tail = insert_pair-IsOrdered x (z ∷ r) o.1 in
        rw e (elim (Bool-cases (pair_leb (key x) (key z))) [
          | inl f ↦ rw f (back, rw f at tail)
          | inr f ↦ rw f (o.0, rw f at tail)
        ])
  ]

  pub sort_by_pair-IsOrdered : (xs : List A) → IsOrdered (sort_by_pair xs)
  sort_by_pair-IsOrdered [] = tt
  sort_by_pair-IsOrdered (x ∷ xs) =
      insert_pair-IsOrdered x (sort_by_pair xs) (sort_by_pair-IsOrdered xs)

  module _ (P : A → Type 0) where
    All-insert_pair : (x : A) (ys : List A) → P x → All P ys → All P (insert_pair x ys)
    All-insert_pair x [] p a = (p, tt)
    All-insert_pair x (y ∷ ys) p a = elim (Bool-cases (pair_leb (key x) (key y))) [
      | inl e ↦ rw e (p, a)
      | inr e ↦ rw e (a.0, All-insert_pair x ys p a.1)
    ]

    pub All-sort_by_pair : (xs : List A) → All P xs → All P (sort_by_pair xs)
    All-sort_by_pair [] a = tt
    All-sort_by_pair (x ∷ xs) a = All-insert_pair x (sort_by_pair xs) a.0 (All-sort_by_pair xs a.1)

  pair_leb_trans : (p q r : ℕ × ℕ) → pair_leb p q ≡ true → pair_leb q r ≡ true → pair_leb p r ≡ true
  pair_leb_trans (a, b) (c, d) (e, f) h g = ground arith

  -- What comes after an element in an ordered list.
  abbrev pub IsBelow : A → List A → Type 0
  IsBelow x [] = Unit
  IsBelow x (y ∷ ys) = (pair_leb (key x) (key y) ≡ true) × IsBelow x ys

  IsBelow-trans :
      (x y : A) (l : List A) → pair_leb (key x) (key y) ≡ true → IsBelow y l → IsBelow x l
  IsBelow-trans x y [] h b = tt
  IsBelow-trans x y (z ∷ l) h b =
      (pair_leb_trans (key x) (key y) (key z) h b.0, IsBelow-trans x y l h b.1)

  pub IsOrdered-IsBelow : (x : A) (l : List A) → IsOrdered (x ∷ l) → IsBelow x l × IsOrdered l
  IsOrdered-IsBelow x [] o = (tt, tt)
  IsOrdered-IsBelow x (y ∷ l) o =
      let rest = IsOrdered-IsBelow y l o.1 in ((o.0, IsBelow-trans x y l o.0 rest.0), o.1)

  pub IsBelow-IsOrdered : (x : A) (l : List A) → IsBelow x l → IsOrdered l → IsOrdered (x ∷ l)
  IsBelow-IsOrdered x [] b o = tt
  IsBelow-IsOrdered x (y ∷ l) b o = (b.0, o)
