-- ===== src/ExitCode/Laws.antt =====
-- `From` and `Default`, and the classes of the codes.
use clusterctl.Prelude.{ℕ, Bool, Option, none, some, ◌≡◌, ◌⊎◌, ◌↔◌, refl, sym, ◌∙◌, inl, inr, arith}
use clusterctl.ExitCode.{
  Error, Errors, cause, within, coded, classed, several, nil, cons, find_code, first_code, or_else,
  default, code_class, from,
}
use clusterctl.ExitCode.Worst.{IsCode}

-- what the errors of a tree say of the code to exit with: nothing anywhere, or a code, which the first
-- `exitcode.Error` has, a tree's own errors before those behind them
unfoldable mutual
  pub IsSilent : Error → Type 0
  IsSilent (cause c) = Unit
  IsSilent (within m e) = IsSilent e
  IsSilent (coded c e) = ⊥
  IsSilent (classed k e) = IsSilent e
  IsSilent (several m es) = AreSilent es

  pub AreSilent : Errors → Type 0
  AreSilent nil = Unit
  AreSilent (cons e es) = IsSilent e × AreSilent es

unfoldable mutual
  unfolding IsSilent AreSilent

  pub Says : Error → ℕ → Type 0
  Says (cause c) k = ⊥
  Says (within m e) k = Says e k
  Says (coded c e) k = c ≡ k
  Says (classed _ e) k = Says e k
  Says (several m es) k = FirstSays es k

  pub FirstSays : Errors → ℕ → Type 0
  FirstSays nil k = ⊥
  FirstSays (cons e es) k = Says e k ⊎ IsSilent e × FirstSays es k

-- Whether a code is found, and which, tells what the tree says.
abbrev Found : Option ℕ → Type 0 → (ℕ → Type 0) → Type 0
Found none silent says = silent
Found (some c) silent says = says c

Found-or_else :
    (o p : Option ℕ) (S T : Type 0) (P Q : ℕ → Type 0)
    → Found o S P
    → Found p T Q
    → Found (or_else o p) (S × T) (λ k. P k ⊎ S × Q k)
Found-or_else none none S T P Q h h' = (h, h')
Found-or_else none (some c) S T P Q h h' = inr (h, h')
Found-or_else (some c) p S T P Q h h' = inl h

mutual
  unfolding find_code first_code IsSilent AreSilent Says FirstSays

  find_code-Found : (e : Error) → Found (find_code e) (IsSilent e) (Says e)
  find_code-Found (cause c) = tt
  find_code-Found (within m e) = find_code-Found e
  find_code-Found (coded c e) = refl
  find_code-Found (classed k e) = find_code-Found e
  find_code-Found (several m es) = first_code-Found es

  first_code-Found : (es : Errors) → Found (first_code es) (AreSilent es) (FirstSays es)
  first_code-Found nil = tt
  first_code-Found (cons e es) =
      Found-or_else (find_code e) (first_code es) (IsSilent e) (AreSilent es) (Says e)
        (FirstSays es) (find_code-Found e) (first_code-Found es)

mutual
  unfolding IsSilent AreSilent Says FirstSays

  silent-Says : (e : Error) (k : ℕ) → IsSilent e → Says e k → ⊥
  silent-Says (cause c) k h s = s
  silent-Says (within m e) k h s = silent-Says e k h s
  silent-Says (coded c e) k h s = h
  silent-Says (classed _ e) k h s = silent-Says e k h s
  silent-Says (several m es) k h s = silent-FirstSays es k h s

  silent-FirstSays : (es : Errors) (k : ℕ) → AreSilent es → FirstSays es k → ⊥
  silent-FirstSays nil k h s = s
  silent-FirstSays (cons e es) k (h, hs) (inl s) = silent-Says e k h s
  silent-FirstSays (cons e es) k (h, hs) (inr (q, s)) = silent-FirstSays es k hs s

mutual
  unfolding IsSilent AreSilent Says FirstSays

  Says-one : (e : Error) (j k : ℕ) → Says e j → Says e k → j ≡ k
  Says-one (cause c) j k s t = absurd s
  Says-one (within m e) j k s t = Says-one e j k s t
  Says-one (coded c e) j k s t = sym s ∙ t
  Says-one (classed _ e) j k s t = Says-one e j k s t
  Says-one (several m es) j k s t = FirstSays-one es j k s t

  FirstSays-one : (es : Errors) (j k : ℕ) → FirstSays es j → FirstSays es k → j ≡ k
  FirstSays-one nil j k s t = absurd s
  FirstSays-one (cons e es) j k (inl s) (inl t) = Says-one e j k s t
  FirstSays-one (cons e es) j k (inl s) (inr (q, t)) = absurd (silent-Says e j q s)
  FirstSays-one (cons e es) j k (inr (q, s)) (inl t) = absurd (silent-Says e k q t)
  FirstSays-one (cons e es) j k (inr (q, s)) (inr (r, t)) = FirstSays-one es j k s t

module _ (is_usage : Error → Bool) where
  from_default :
      (code k : ℕ) (e : Error) (o : Option ℕ)
      → find_code e ≡ o
      → Found o (IsSilent e) (Says e)
      → (from is_usage (default code (some e)) ≡ k) ↔ (Says e k ⊎ IsSilent e × (code ≡ k))
  unfolding from default find_code
  from_default code k e none p h = (
    λ r. inr (h, rw (default, p, from) at r),
    elim [ inl s ↦ absurd (silent-Says e k h s) | inr (q, c) ↦ rw (default, p, from) c ],
  )
  from_default code k e (some c) p h = (
    λ r. let same : c ≡ k = rw (default, p, from, p) at r in inl (rw same at h),
    elim [
      | inl s ↦ rw (default, p, from, p) (Says-one e c k h s)
      | inr (q, _) ↦ absurd (silent-Says e c q h)
    ],
  )

  -- An error that Default was given a code for exits with a code just when the first `exitcode.Error` of
  -- its tree has that code, however deep it stands, or there is none in the tree and it is the code given.
  pub from-default :
      (code k : ℕ) (e : Error)
      → (from is_usage (default code (some e)) ≡ k) ↔ (Says e k ⊎ IsSilent e × (code ≡ k))
  from-default code k e = from_default code k e (find_code e) refl (find_code-Found e)

-- `Default` gives a code once: a second one changes nothing.
pub default_idem : (a b : ℕ) (err : Option Error) → default b (default a err) ≡ default a err
unfolding default find_code
default_idem a b none = refl
default_idem a b (some e) = ground arith

-- Among the codes that the program guarantees, the class tells which one it was.
pub code_class_injective : (a b : ℕ) → IsCode a → IsCode b → code_class a ≡ code_class b → a ≡ b
unfolding code_class
code_class_injective a b h k e = ground arith
