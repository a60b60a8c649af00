-- ===== src/Prelude/Trims.antt =====
-- Trimming one final byte.
use Prim.Native.Nat.{ℕ}
use mathlib.Core.Path.{◌≡◌, refl, ap}
use mathlib.Core.Logic.{◌≢◌, ◌⊎◌, inl, inr}
use mathlib.Core.List.{[], ◌∷◌, ◌++◌}
use native.Mathlib.Omega.{arith}
use clusterctl.Prelude.Tests.{◌==◌, Bool-cases, ==_iff}
use clusterctl.Prelude.Strings.{Bytes, trim_final, Lacks}

pub trim_final_cases : (c : ℕ) (s : Bytes) → (s ≡ trim_final c s) ⊎ (s ≡ trim_final c s ++ c ∷ [])
unfolding trim_final
trim_final_cases c [] = inl refl
trim_final_cases c (b ∷ []) = elim (Bool-cases (b == c)) [
  | inl e ↦ rw e (inr (ap (λ x. x ∷ []) ((==_iff b c).0 e)))
  | inr e ↦ rw e (inl refl)
]
trim_final_cases c (b ∷ d ∷ s) = elim (trim_final_cases c (d ∷ s)) [
  | inl e ↦ inl (ap (λ t. b ∷ t) e)
  | inr e ↦ inr (ap (λ t. b ∷ t) e)
]

pub trim_final-append : (c : ℕ) (s : Bytes) → trim_final c (s ++ c ∷ []) ≡ s
unfolding trim_final
trim_final-append c [] = ground arith
trim_final-append c (b ∷ []) = ground arith
trim_final-append c (b ∷ d ∷ s) = ap (λ t. b ∷ t) (trim_final-append c (d ∷ s))

abbrev pub NotEnding : ℕ → Bytes → Type 0
NotEnding c [] = Unit
NotEnding c (b ∷ []) = b ≢ c
NotEnding c (b ∷ d ∷ s) = NotEnding c (d ∷ s)

pub trim_final_of_NotEnding : (c : ℕ) (s : Bytes) → NotEnding c s → trim_final c s ≡ s
unfolding trim_final
trim_final_of_NotEnding c [] h = refl
trim_final_of_NotEnding c (b ∷ []) h = ground arith
trim_final_of_NotEnding c (b ∷ d ∷ s) h = ap (λ t. b ∷ t) (trim_final_of_NotEnding c (d ∷ s) h)

pub Lacks-NotEnding : (c : ℕ) (s : Bytes) → Lacks c s → NotEnding c s
Lacks-NotEnding c [] h = tt
Lacks-NotEnding c (b ∷ []) (h, _) = h
Lacks-NotEnding c (b ∷ d ∷ s) (_, h) = Lacks-NotEnding c (d ∷ s) h

pub NotEnding-append : (c : ℕ) (s t : Bytes) → t ≢ [] → NotEnding c t → NotEnding c (s ++ t)
NotEnding-append c [] t ne h = h
NotEnding-append c (b ∷ []) [] ne h = absurd (ne refl)
NotEnding-append c (b ∷ []) (d ∷ t) ne h = h
NotEnding-append c (b ∷ d ∷ s) t ne h = NotEnding-append c (d ∷ s) t ne h
