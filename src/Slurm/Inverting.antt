-- ===== src/Slurm/Inverting.antt =====
-- What a computation that ended with a value went through, step by step.
use clusterctl.Prelude.{Option, none, some, Result, ok, err, ◌≡◌, refl}
use clusterctl.ExitCode.{Error}
use clusterctl.Slurm.Act.{Doing, next_of, require}

module _ {S A B : Type 0} where
  pub next_of-ok :
      (k : A → Doing S B) (m : Result Error A × S) (b : B) (s : S)
      → next_of k m ≡ (ok b, s)
      → (a : A) × (t : S) × (m ≡ (ok a, t)) × (k a t ≡ (ok b, s))
  next_of-ok k (ok a, t) b s e = (a, t, refl, e)
  next_of-ok k (err x, t) b s e = absurd (cc)

module _ {S : Type 0} where
  pub require-ok :
      (o : Option Error) (s t : S) (a : Unit {0}) → require o s ≡ (ok a, t) → (o ≡ none) × (s ≡ t)
  require-ok none s t a e = (refl, cc)
  require-ok (some x) s t a e = absurd (cc)

module _ {S A : Type 0} where
  pub ended-ok :
      (a b : A) (s t : S) → ◌≡◌ {A = Result Error A × S} (ok a, s) (ok b, t) → (a ≡ b) × (s ≡ t)
  ended-ok a b s t e = (cc, cc)

  pub failed-ok :
      (x : Error) (b : A) (s t : S) → ◌≡◌ {A = Result Error A × S} (err x, s) (ok b, t) → ⊥
  failed-ok x b s t e = absurd (cc)

module _ {S A B : Type 0} (P Q : S → Type 0) where
  -- what is so after a step, and so after the next
  pub next_of-keeps :
      (k : A → Doing S B) (m : Result Error A × S)
      → P m.1
      → ((t : S) → P t → Q t)
      → ((a : A) (t : S) → P t → Q (k a t).1)
      → Q (next_of k m).1
  next_of-keeps k (ok a, t) h e f = f a t h
  next_of-keeps k (err x, t) h e f = e t h

module _ {S A B : Type 0} (Q : S → Type 0) where
  -- the same with how the step ended
  pub next_of-split :
      (k : A → Doing S B) (m : Result Error A × S)
      → ((x : Error) (t : S) → m ≡ (err x, t) → Q t)
      → ((a : A) (t : S) → m ≡ (ok a, t) → Q (k a t).1)
      → Q (next_of k m).1
  next_of-split k (ok a, t) e f = f a t refl
  next_of-split k (err x, t) e f = e x t refl
