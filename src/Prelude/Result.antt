-- ===== src/Prelude/Result.antt =====
-- `Result<A, E>`, and what a call with `&mut self` gives back.
use mathlib.Core.Path.{◌≡◌, Path, refl}
use mathlib.Core.Logic.{◌⊎◌, inl, inr}

pub data Result (E A : Type 0) : Type 0 where
  ok : A → Result E A
  err : E → Result E A

pub Result-cases :
    {E A : Type 0} (r : Result E A) → ((e : E) × (r ≡ err e)) ⊎ ((a : A) × (r ≡ ok a))
Result-cases (ok a) = inr (a, refl)
Result-cases (err e) = inl (e, refl)

pub ok_inj : {E A : Type 0} (a b : A) → Path (Result E A) (ok a) (ok b) → a ≡ b
ok_inj a b h = cc

pub err_inj : {E A : Type 0} (a b : E) → Path (Result E A) (err a) (err b) → a ≡ b
err_inj a b h = cc

-- The state after the call, and its result: what was written before an error stays written.
abbrev pub Outcome : Type 0 → Type 0 → Type 0 → Type 0
Outcome S E A = S × Result E A
