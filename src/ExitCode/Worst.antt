-- ===== src/ExitCode/Worst.antt =====
-- `Worst`: the code of several errors is the one that outranks the others, in whatever order.
use Prim.Native.Nat.{max}
use native.Mathlib.Nat.{ℕ_set}
use mathlib.Core.Logic.{∥∥₁_elim}
use mathlib.Core.List.{Perm, Permᴰ}
use clusterctl.Prelude.{
  ℕ, ◌≤◌, Bool, Option, List, [], ◌∷◌, ◌++◌, ◌≡◌, ◌⊎◌, inl, inr, refl, sym, ap, ◌∙◌, arith, All,
  Exists,
}
use clusterctl.ExitCode.{
  Error, ok_code, target_failed, usage, transport, interrupted, precedence, weigh, worse,
  worst_from, worst,
}

-- The codes that the program guarantees.
abbrev pub IsCode : ℕ → Type 0
IsCode c = (c ≡ ok_code) ⊎ (c ≡ target_failed) ⊎ (c ≡ usage) ⊎ (c ≡ transport) ⊎ (c ≡ interrupted)

eq_of_precedence : (a b : ℕ) → IsCode a → IsCode b → precedence a ≡ precedence b → a ≡ b
unfolding precedence
eq_of_precedence a b h k e = ground arith

worse_assoc : (a b c : ℕ) → worse (worse a b) c ≡ worse a (worse b c)
unfolding worse
worse_assoc a b c = ground arith

precedence-worse : (a b : ℕ) → precedence (worse a b) ≡ max (precedence a) (precedence b)
unfolding worse
precedence-worse a b = ground arith

worse-ok : (c : ℕ) → worse ok_code c ≡ c
unfolding worse precedence
worse-ok c = ground arith

worse_cases : (a b : ℕ) → (worse a b ≡ a) ⊎ (worse a b ≡ b)
unfolding worse
worse_cases a b = ground arith

module _ (is_usage : Error → Bool) where
  worst_from-worse :
      (c : ℕ) (errs : List (Option Error))
      → worst_from is_usage c errs ≡ worse c (worst is_usage errs)
  unfolding worst_from worst
  worst_from-worse c [] = unfold worse precedence in ground arith
  worst_from-worse c (e ∷ es) =
      worst_from-worse (worse c (weigh is_usage e)) es
      ∙ worse_assoc c (weigh is_usage e) (worst is_usage es)
      ∙ ap (worse c) (
          sym (
            worst_from-worse (worse ok_code (weigh is_usage e)) es
            ∙ ap (λ x. worse x (worst is_usage es)) (worse-ok _)))

  worst-cons :
      (e : Option Error) (es : List (Option Error))
      → worst is_usage (e ∷ es) ≡ worse (weigh is_usage e) (worst is_usage es)
  worst-cons e es =
      unfold worst worst_from in
      (worst_from-worse (worse ok_code (weigh is_usage e)) es
        ∙ ap (λ x. worse x (worst is_usage es)) (worse-ok _))

  -- The code of two rounds of errors is that of their codes.
  pub worst-append :
      (xs ys : List (Option Error))
      → worst is_usage (xs ++ ys) ≡ worse (worst is_usage xs) (worst is_usage ys)
  worst-append [] ys = sym (unfold worst worst_from in worse-ok _)
  worst-append (x ∷ xs) ys =
      worst-cons x (xs ++ ys)
      ∙ ap (worse (weigh is_usage x)) (worst-append xs ys)
      ∙ sym (worse_assoc _ _ _)
      ∙ ap (λ c. worse c (worst is_usage ys)) (sym (worst-cons x xs))

  worst_bounds :
      (es : List (Option Error)) (c : ℕ)
      → precedence (worst is_usage es) ≤ precedence c
      → All (λ e. precedence (weigh is_usage e) ≤ precedence c) es
  worst_bounds [] c h = tt
  worst_bounds (e ∷ es) c h =
      let eq =
        ap precedence (worst-cons e es) ∙ precedence-worse (weigh is_usage e) (worst is_usage es) in
      (omega (arith, eq), worst_bounds es c (omega (arith, eq)))

  worst_attained :
      (es : List (Option Error)) (c : ℕ)
      → worst is_usage es ≡ c
      → (c ≡ ok_code) ⊎ Exists (λ e. weigh is_usage e ≡ c) es
  worst_attained [] c q = inl (sym q ∙ unfold worst worst_from in refl)
  worst_attained (e ∷ es) c q = elim (worse_cases (weigh is_usage e) (worst is_usage es)) [
    | inl p ↦ inr (inl (sym p ∙ sym (worst-cons e es) ∙ q))
    | inr p ↦ later (worst_attained es c (sym p ∙ sym (worst-cons e es) ∙ q))
  ]
    where
      later :
          (c ≡ ok_code) ⊎ Exists (λ x. weigh is_usage x ≡ c) es
          → (c ≡ ok_code) ⊎ Exists (λ x. weigh is_usage x ≡ c) (e ∷ es)
      later (inl r) = inl r
      later (inr r) = inr (inr r)

  -- No error outranks the code of `Worst`, and that code is OK or the one of an error.
  pub worst_max :
      (errs : List (Option Error))
      → All (λ e. precedence (weigh is_usage e) ≤ precedence (worst is_usage errs)) errs
        × ((worst is_usage errs ≡ ok_code)
            ⊎ Exists (λ e. weigh is_usage e ≡ worst is_usage errs) errs)
  worst_max errs = (
    worst_bounds errs (worst is_usage errs) (omega arith),
    worst_attained errs (worst is_usage errs) refl,
  )

  precedence-worst_cons :
      (e : Option Error) (es : List (Option Error))
      → precedence (worst is_usage (e ∷ es))
        ≡ max (precedence (weigh is_usage e)) (precedence (worst is_usage es))
  precedence-worst_cons e es = ap precedence (worst-cons e es) ∙ precedence-worse _ _

  precedence-worst_swap :
      (x y : Option Error) (l : List (Option Error))
      → precedence (worst is_usage (x ∷ y ∷ l)) ≡ precedence (worst is_usage (y ∷ x ∷ l))
  precedence-worst_swap x y l = omega (
    arith,
    precedence-worst_cons x (y ∷ l),
    precedence-worst_cons y (x ∷ l),
    precedence-worst_cons x l,
    precedence-worst_cons y l,
  )

  precedence-worst_perm :
      {xs ys : List (Option Error)}
      → Permᴰ xs ys
      → precedence (worst is_usage xs) ≡ precedence (worst is_usage ys)
  precedence-worst_perm Permᴰ.nil = refl
  precedence-worst_perm (Permᴰ.cons {a = x} {b = y} {l₁ = xs} {l₂ = ys} e p) =
      precedence-worst_cons x xs
      ∙ rw (e, precedence-worst_perm p) (sym (precedence-worst_cons y ys))
  precedence-worst_perm (Permᴰ.swap {a = x} {b = y} {a' = x'} {b' = y'} {l = l} e f) =
      rw (e, f) (precedence-worst_swap y' x' l)
  precedence-worst_perm (Permᴰ.trans p q) = precedence-worst_perm p ∙ precedence-worst_perm q

  IsCode-worse : (a b : ℕ) → IsCode a → IsCode b → IsCode (worse a b)
  IsCode-worse a b h k = elim (worse_cases a b) [ inl e ↦ rw e h | inr e ↦ rw e k ]

  IsCode-worst :
      (es : List (Option Error))
      → All (λ e. IsCode (weigh is_usage e)) es
      → IsCode (worst is_usage es)
  IsCode-worst [] h = unfold worst worst_from in inl refl
  IsCode-worst (e ∷ es) (h, hs) =
      rw worst-cons (IsCode-worse (weigh is_usage e) (worst is_usage es) h (IsCode-worst es hs))

  -- The order of the errors does not matter, where each asks for a code that the program guarantees.
  pub worst-perm :
      (xs ys : List (Option Error))
      → Perm xs ys
      → All (λ e. IsCode (weigh is_usage e)) xs
      → All (λ e. IsCode (weigh is_usage e)) ys
      → worst is_usage xs ≡ worst is_usage ys
  worst-perm xs ys p hx hy =
      eq_of_precedence _ _ (IsCode-worst xs hx) (IsCode-worst ys hy)
        (∥∥₁_elim p (ℕ_set _ _) precedence-worst_perm)
