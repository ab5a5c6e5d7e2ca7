-- ===== src/State/Entries.antt =====
-- Maps from keys to amounts: the value of a key, and the exact sum over the keys of a class.
-- `BalanceLedger` and `MultiAssetLedger` are such maps.
use scc_blockchain.Prelude.{
  ◌≡◌, Bool, true, false, Option, none, some, [], ◌∷◌, arith, Bool-cases, inl, inr,
}
use scc_blockchain.Prelude.Int.{ℤ, pos, ◌+ℤ◌, ◌≤ℤ◌, int_laws, +ℤ_prefix}
use scc_blockchain.Prelude.Map.{Eq, Map, lookup, insert}

-- `copied().unwrap_or(ZERO)`
abbrev pub or_zero : Option ℤ → ℤ
or_zero none = pos 0
or_zero (some v) = v

-- What an entry contributes to the sum of a class.
abbrev pub part : Bool → ℤ → ℤ
part true v = v
part false v = pos 0

module _ {K : Type 0} where
  -- No amount is negative.
  abbrev pub NonNeg : Map K ℤ → Type 0
  NonNeg [] = Unit
  NonNeg ((k, v) ∷ m) = (pos 0 ≤ℤ v) × NonNeg m

  -- The exact sum of the amounts whose key is of the class.
  unfoldable pub sum_if : (K → Bool) → Map K ℤ → ℤ
  sum_if p [] = pos 0
  sum_if p ((k, v) ∷ m) = part (p k) v +ℤ sum_if p m

  pub sum_if_nonneg : (p : K → Bool) (m : Map K ℤ) → NonNeg m → pos 0 ≤ℤ sum_if p m
  unfolding sum_if
  sum_if_nonneg p [] h = omega arith
  sum_if_nonneg p ((k, v) ∷ m) h = grind (int_laws, sum_if_nonneg p m h.1)

module _ {K : Type 0} ⦃e : Eq K⦄ where
  abbrev pub value : K → Map K ℤ → ℤ
  value k m = or_zero (lookup k m)

  pub insert-NonNeg : (k : K) (v : ℤ) (m : Map K ℤ) → pos 0 ≤ℤ v → NonNeg m → NonNeg (insert k v m)
  insert-NonNeg k v [] p h = ground arith
  insert-NonNeg k v ((j, w) ∷ m) p h = ground (arith, insert-NonNeg k v m p h.1)

  pub value_nonneg : (k : K) (m : Map K ℤ) → NonNeg m → pos 0 ≤ℤ value k m
  value_nonneg k [] h = omega arith
  value_nonneg k ((j, w) ∷ m) h = ground (arith, value_nonneg k m h.1)

  -- An insert moves the sum of its key's class by the change of the value.
  pub sum_if-insert :
      (p : K → Bool) (k : K) (v : ℤ) (m : Map K ℤ)
      → sum_if p (insert k v m) +ℤ part (p k) (value k m) ≡ sum_if p m +ℤ part (p k) v
  unfolding sum_if
  sum_if-insert p k v [] = grind int_laws
  sum_if-insert p k v ((j, w) ∷ m) = elim (Bool-cases (e.beq k j)) [
    | inl b ↦ rw (b, ← (e.beq_iff k j).0 b) (omega int_laws)
    | inr b ↦ rw b (
        +ℤ_prefix (part (p j) w) (sum_if p (insert k v m)) (part (p k) (value k m)) (sum_if p m)
          (part (p k) v) (sum_if-insert p k v m))
  ]

  -- A value of the class is at most the sum.
  pub value-le-sum_if :
      (p : K → Bool) (k : K) (m : Map K ℤ) → p k ≡ true → NonNeg m → value k m ≤ℤ sum_if p m
  unfolding sum_if
  value-le-sum_if p k [] c h = omega arith
  value-le-sum_if p k ((j, w) ∷ m) c h =
      grind (int_laws, e.beq_iff k j, value-le-sum_if p k m c h.1, sum_if_nonneg p m h.1)
