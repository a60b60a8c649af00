-- ===== src/Slurm/Client.antt =====
-- How the Slurm clients are run: Client, `exec`, `read`, `run` and the readers of lines and records, and
-- `Check` and `Lines` of internal/transport/transport.go. `runner` runs a command on the login node; its
-- timeout and what a display is told are left out.
use clusterctl.Prelude.{
  ℕ, zero, suc, Bool, true, false, not, ◌&&◌, Option, none, some, List, [], ◌∷◌, Bytes, Result, ok,
  err, eqb, codes, String, if◌then◌else◌, ℤ, pos, negsuc, split_on, trim_right_of,
}
use clusterctl.Prelude
use clusterctl.ExitCode.{Error, nil, cons, several, has, wrap, default, transport, target_failed}
use clusterctl.Fanout.{RemoteResult, failed}
use clusterctl.Slurm.Act.{Act, Session, ◌>>=◌, ◌>>◌, pure, lift, refusal}
use clusterctl.Slurm.Output.{fields}

-- v1alpha1.SlurmSpec, what the client reads of it
pub record Spec : Type 0 where
  pub default_account : Bytes
  pub default_organization : Bytes

-- Runner: a result, or the error that stopped the run
abbrev pub Run : Type 0 → Type 0
Run W = List Bytes → W → Result Error RemoteResult × W

-- Client, without the fields that only go into requests and messages
pub record Client (W : Type 0) : Type 0 where
  pub runner : Run W
  pub reader : Run W
  pub spec : Spec

-- `r.Err != nil && r.ExitCode <= 0`
abbrev pub is_positive : ℤ → Bool
is_positive (pos (suc n)) = true
is_positive _ = false

-- the error of a result that failed with an exit status; explained of transport.go where Run gave one
abbrev pub explained : Option Error → Error → Error
explained none reason = reason
explained (some e) reason = several [] (cons reason (cons e nil))

-- the rest of `Check` for an error that has no exit code
abbrev pub check_uncoded : RemoteResult → Option Error
check_uncoded r = elim r.error_of [
  | none ↦ some (refusal target_failed "exited")
  | some e ↦
      if is_positive r.exit_code
      then some (explained (some e) (refusal target_failed "exited"))
      else wrap transport (some e)
]

-- Check, the method
unfoldable pub check_result : RemoteResult → Option Error
unfolding failed has wrap
check_result r =
    if not (failed (some r)) then none else if has r.error_of then r.error_of else check_uncoded r

-- Lines: a line's trailing carriage returns go, and lines without text
unfoldable pub keep_lines : List Bytes → List Bytes
unfolding trim_right_of
keep_lines [] = []
keep_lines (l ∷ ls) =
    let rest = keep_lines ls in
    let line = trim_right_of (13 ∷ []) l in if eqb line [] then rest else line ∷ rest

unfoldable pub lines : Bytes → List Bytes
unfolding split_on keep_lines
lines stdout = keep_lines (split_on 10 stdout)

-- fields of every line
unfoldable pub fields_all : List Bytes → ℕ → Result Error (List (List Bytes))
fields_all [] n = ok []
fields_all (l ∷ ls) n =
    Prelude.◌>>=◌ (fields l n) (λ f. Prelude.◌>>=◌ (fields_all ls n) (λ fs. ok (f ∷ fs)))

-- the value of a pair of a result and an error that is returned on
abbrev pub outcome : Option RemoteResult × Option Error → Result Error RemoteResult
outcome (none, none) = err (refusal transport "no result")
outcome (none, some e) = err e
outcome (some r, none) = ok r
outcome (some r, some e) = err e

module _ {W : Type 0} where
  -- exec: the result, where there is one, and the error
  unfoldable pub exec_both :
      Run W → List Bytes → Session W → (Option RemoteResult × Option Error) × Session W
  unfolding default check_result
  exec_both run argv s =
      let (ran, world) = run argv s.world in
      let next = record s { world = world } in
      elim ran as (λ _. (Option RemoteResult × Option Error) × Session W) [
        | err e ↦ ((none, default transport (some e)), next)
        | ok r ↦ ((some r, check_result r), next)
      ]

  unfoldable pub exec : Run W → List Bytes → Act W RemoteResult
  unfolding exec_both
  exec run argv s = let (both, next) = exec_both run argv s in (outcome both, next)

  -- run
  unfoldable pub change : Client W → List Bytes → Act W (Unit {0})
  unfolding exec
  change c argv = do exec c.runner argv; pure tt

  -- read
  unfoldable pub read : Client W → List Bytes → Act W RemoteResult
  unfolding exec
  read c argv = exec c.reader argv

  -- readLines
  unfoldable pub read_lines : Client W → List Bytes → Act W (List Bytes)
  unfolding read lines
  read_lines c argv = do r ← read c argv; pure (lines r.stdout)

  -- readRecords
  unfoldable pub read_records : Client W → List Bytes → ℕ → Act W (List (List Bytes))
  unfolding read_lines fields_all
  read_records c argv n = do ls ← read_lines c argv; lift (fields_all ls n)
