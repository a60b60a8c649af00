-- ===== src/Slurm/Act.antt =====
-- An operation of the Slurm client: it runs commands, which change the world, may remember the name of
-- the cluster, and ends with a value or an error.
use clusterctl.Prelude.{ℕ, Option, none, some, Bytes, String, codes, Result, ok, err}
use clusterctl.ExitCode.{Error, cause, text, coded}

-- the state: what is outside the program, and `Client.cluster`
pub record Session (W : Type 0) : Type 0 where
  pub world : W
  pub cluster : Bytes

-- an operation that changes a state `S`
abbrev pub Doing : Type 0 → Type 0 → Type 0
Doing S A = S → Result Error A × S

abbrev pub Act : Type 0 → Type 0 → Type 0
Act W A = Doing (Session W) A

-- what is done with the outcome of a step
abbrev pub next_of : {S A B : Type 0} → (A → Doing S B) → Result Error A × S → Result Error B × S
next_of next (ok a, s) = next a s
next_of next (err e, s) = (err e, s)

module _ {S A B : Type 0} where
  infixl 5 ◌>>=◌ ◌>>◌
  abbrev pub ◌>>=◌ : Doing S A → (A → Doing S B) → Doing S B
  m >>= next = λ s. next_of next (m s)

  abbrev pub ◌>>◌ : Doing S A → Doing S B → Doing S B
  m >> k = m >>= λ _. k

module _ {S A : Type 0} where
  abbrev pub pure : A → Doing S A
  pure a = λ s. (ok a, s)

  abbrev pub fail : Error → Doing S A
  fail e = λ s. (err e, s)

  -- the outcome of a computation that touches nothing
  abbrev pub lift : Result Error A → Doing S A
  lift r = λ s. (r, s)

-- exitcode.Errorf; the message without what is formatted into it
abbrev pub refusal : ℕ → String → Error
refusal code m = coded code (cause (text (codes m)))

-- a check that gives an error or none
abbrev pub require : {S : Type 0} → Option Error → Doing S (Unit {0})
require none = λ s. (ok tt, s)
require (some e) = λ s. (err e, s)
