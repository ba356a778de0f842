-- ===== src/Base/Results.antt =====
-- Results of fallible calls: a Go pair `(value, error)` of which one half is set.
use mathlib.Core.Path.{◌≡◌, refl}
use mathlib.Core.Logic.{◌⊎◌, inl, inr}
use mathlib.Core.Bool.{Bool, true, false}

pub data Result {ℓ} (E : Type 0) (A : Type ℓ) : Type ℓ where
  ok : A → Result E A
  err : E → Result E A

module _ {ℓ} {E : Type 0} {A : Type ℓ} where
  pub Result-cases : (r : Result E A) → ((a : A) × (r ≡ ok a)) ⊎ ((e : E) × (r ≡ err e))
  Result-cases (ok a) = inl (a, refl)
  Result-cases (err e) = inr (e, refl)

  -- `err == nil`
  abbrev pub is_ok : Result E A → Bool
  is_ok (ok a) = true
  is_ok (err e) = false

-- `if err != nil { return err }` between two calls that change a state.
abbrev pub next : {E S A B : Type 0} → Result E A × S → (S → Result E B × S) → Result E B × S
next (ok a, s) f = f s
next (err e, s) f = (err e, s)

-- If both calls succeed, the first did, and the second ran on its state.
pub next-ok :
    {E S A B : Type 0} (r : Result E A × S) (f : S → Result E B × S) {b : B}
    → (next r f).0 ≡ ok b
    → (a : A) × (r.0 ≡ ok a) × ((f r.1).0 ≡ ok b) × ((next r f).1 ≡ (f r.1).1)
next-ok (ok a, s) f h = (a, refl, h, refl)
next-ok (err e, s) f h = cc
