-- ===== src/Fanout.antt =====
-- internal/fanout: what a fan-out makes of the results of its targets (fanout.go, pool.go).
-- The pools are those of go-clikit: `run_each` is given the outcomes of its Map, in the order of the
-- targets, and `failure` is its FailureError over the names and errors of the items that failed.
pub mod Status
pub mod Failing
pub mod Groups
pub mod Grouping
pub mod Hosts
use clusterctl.Prelude.{
  or_text, ℕ, zero, suc, Bool, true, false, not, ◌&&◌, ◌||◌, Option, none, some, List, [], ◌∷◌,
  ◌++◌, map, Bytes, Result, ok, err, ◌>>=◌, eqb, ltb, leb, ◌==◌, if◌then◌else◌, ℤ, pos, negsuc,
}
use clusterctl.ExitCode.{
  Error, Class, class_canceled, coded, classed, from, worst, code_class, is_canceled, transport,
  target_failed, ok_code, wrap, default, find_code,
}
use clusterctl.Hostname
use clusterctl.NodeSet.{NodeSets}
use clusterctl.Config.Value.{lt_bytes}

-- transport.Target, what the fan-out reads of it
pub record Target : Type 0 where
  pub name : Bytes
  pub host : Bytes
  pub role : Bytes

-- transport.Result
pub record RemoteResult : Type 0 where
  pub target : Target
  pub exit_code : ℤ
  pub stdout : Bytes
  pub error_of : Option Error

abbrev pub is_zero : ℤ → Bool
is_zero (pos zero) = true
is_zero _ = false

-- Failed; a nil result is none
unfoldable pub failed : Option RemoteResult → Bool
failed none = true
failed (some r) = elim r.error_of [ some e ↦ true | none ↦ not (is_zero r.exit_code) ]

unfoldable pub name_of : Target → Bytes
name_of t = or_text t.name t.host

-- pool.ItemInfo
pub record ItemInfo : Type 0 where
  pub node : Bytes
  pub host_of : Bytes
  pub role_of : Bytes

-- describeTarget
unfoldable pub describe_target : Target → ItemInfo
describe_target t = record { node = name_of t; host_of = t.host; role_of = t.role }

-- what the error of a target is, next to the result's own
pub data TargetError : Type 0 where
  own : Error → TargetError
  exited : (name : Bytes) → (code : ℤ) → TargetError

-- resultError
unfoldable pub result_error : RemoteResult → Option TargetError
result_error r = elim r.error_of [
  | some e ↦ some (own e)
  | none ↦ if not (failed (some r)) then none else some (exited (name_of r.target) r.exit_code)
]

-- a result with an error in it and no output
abbrev pub without_result : Target → Option Error → RemoteResult
without_result t e = record { target = t; exit_code = negsuc 0; stdout = []; error_of = e }

abbrev pub or_error : Option Error → Option Error → Option Error
or_error none e = e
or_error (some mine) e = some mine

abbrev pub or_result : Target → Option RemoteResult → RemoteResult
or_result t none = without_result t none
or_result t (some r) = r

abbrev pub told_of : RemoteResult → Option Error → RemoteResult
told_of r e = record r { error_of = or_error r.error_of e }

-- the work of `RunEach` on one target, given what the runner returned: the result, and the error that it
-- is reported with; `ended` is whether the context has
unfoldable pub work :
    Bool → Bool → Target → Option RemoteResult → Option Error → RemoteResult × Option TargetError
work answers ended t returned e =
    let told = told_of (or_result t returned) e in
    if answers && not ended then (told, none) else (told, result_error told)

-- pool.Outcome
pub record Outcome : Type 0 where
  pub value : Option RemoteResult
  pub failure_of : Option Error

-- the results of `RunEach`; a target past the outcomes has a nil result
unfoldable pub results_of : List Target → List Outcome → List (Option RemoteResult)
results_of [] outcomes = []
results_of (t ∷ ts) [] = none ∷ results_of ts []
results_of (t ∷ ts) (o ∷ os) =
    elim o.value [ some r ↦ some r | none ↦ some (without_result t o.failure_of) ]
    ∷ results_of ts os

-- Failures
unfoldable pub failures : List (Option RemoteResult) → List (Option RemoteResult)
failures [] = []
failures (r ∷ rs) = let rest = failures rs in if failed r then r ∷ rest else rest

-- Status, by its words
pub data Word : Type 0 where
  no_result : Word
  interrupted_word : Word
  unreachable : Word
  ok_word : Word
  exit_word : ℤ → Word
  failed_word : Word

abbrev pub is_positive : ℤ → Bool
is_positive (pos (suc n)) = true
is_positive _ = false

abbrev pub canceled_by : Option Error → Bool
canceled_by none = false
canceled_by (some e) = is_canceled e

module _ (is_usage : Error → Bool) where
  -- Status
  unfoldable pub status : Option RemoteResult → Word
  status none = no_result
  status (some r) =
      if canceled_by r.error_of
      then interrupted_word
      else if from is_usage r.error_of == transport
      then unreachable
      else if not (failed (some r))
      then ok_word
      else if is_positive r.exit_code
      then exit_word r.exit_code
      else failed_word

  module _ (failure : List (Bytes × Option Error) → Error) where
    -- `cmp.Or(exitcode.Worst(errs...), exitcode.TargetFailed)`
    unfoldable pub summary_code : List (Bytes × Option Error) → ℕ
    summary_code items =
        let code = worst is_usage (map (λ (name, e). e) items) in
        if code == ok_code then target_failed else code

    -- Summarize; `canceled_all` is `s.Canceled`
    unfoldable pub summarize : List (Bytes × Option Error) → Bool → Option Error
    summarize [] canceled_all = none
    summarize (i ∷ is) canceled_all =
        let code = summary_code (i ∷ is) in
        some (
          coded code
            (classed (if canceled_all then class_canceled else code_class code) (failure (i ∷ is))))

    -- the items of `FailureError`; a nil result, which the program would fault on, gives none
    unfoldable pub items : List (Option RemoteResult) → List (Bytes × Option Error)
    items [] = []
    items (none ∷ rs) = items rs
    items (some r ∷ rs) = (r.target.name, r.error_of) ∷ items rs

    -- FailureError
    unfoldable pub failure_error : List (Option RemoteResult) → Option Error
    failure_error rs = summarize (items (failures rs)) false

-- Map, after the pool: the error of a worker that panicked asks for the code of a target that failed
unfoldable pub default_panic : (Error → Bool) → Option Error → Option Error
default_panic is_panic none = none
default_panic is_panic (some e) = if is_panic e then default target_failed (some e) else some e

-- Recovered; `recovered` is go-clikit's
unfoldable pub recovered_error : Error → Option Error
recovered_error e = wrap target_failed (some e)
