-- ===== src/Prelude/Results.antt =====
-- A Go function that returns a value and an error: `ok` beside a nil error, `err` otherwise.
use mathlib.Core.Path.{◌≡◌, refl}
use mathlib.Core.Logic.{◌⊎◌, inl, inr}

pub data Result {ℓ} (E A : Type ℓ) : Type ℓ where
  ok : A → Result E A
  err : E → Result E A

module _ {ℓ} {E A B : Type ℓ} where
  infixl 5 ◌>>=◌ ◌>>◌
  -- `if err != nil { return err }` before the next step
  abbrev pub ◌>>=◌ : Result E A → (A → Result E B) → Result E B
  ◌>>=◌ (err failure) next = err failure
  ◌>>=◌ (ok value) next = next value

  abbrev pub ◌>>◌ : Result E A → Result E B → Result E B
  first >> second = first >>= λ _. second

-- To split on a result and keep the equation.
pub Result-cases {ℓ} :
    {E A : Type ℓ} (r : Result E A) → ((a : A) × (r ≡ ok a)) ⊎ ((e : E) × (r ≡ err e))
Result-cases (ok a) = inl (a, refl)
Result-cases (err e) = inr (e, refl)
