-- ===== src/ExitCode.antt =====
-- internal/exitcode/exitcode.go and internal/exitcode/class.go.
-- An error is the tree that `errors.Is` and `errors.As` walk, a nil error is `none`.
-- `cobratree.IsUsage`, of another package, is the parameter `is_usage`.

pub mod Laws
pub mod Worst
use clusterctl.Prelude.{
  ℕ, Bool, true, false, ◌||◌, Option, none, some, List, [], ◌∷◌, Bytes, ltb, ◌==◌, if◌then◌else◌,
}

-- What a display is told about a failure: the `progress.Class` values that the program names.
pub data Class : Type 0 where
  class_none class_target class_usage class_transport class_canceled : Class

pub data Cause : Type 0 where
  -- an error of a library, or one made by `fmt.Errorf` with no %w
  text : Bytes → Cause
  -- context.Canceled
  canceled : Cause
  -- context.DeadlineExceeded
  deadline : Cause
  -- safety.ErrDryRun
  dry_run : Cause

mutual
  pub data Error : Type 0 where
    cause : Cause → Error
    -- `fmt.Errorf` with one %w
    within : Bytes → Error → Error
    -- `exitcode.Error`
    coded : ℕ → Error → Error
    -- `fanout.classed`
    classed : Class → Error → Error
    -- an error whose Unwrap returns several, such as the `FailureError` of a pool
    several : Bytes → Errors → Error

  pub data Errors : Type 0 where
    nil : Errors
    cons : Error → Errors → Errors

abbrev pub ok_code : ℕ
ok_code = 0

abbrev pub target_failed : ℕ
target_failed = 1

abbrev pub usage : ℕ
usage = 2

abbrev pub transport : ℕ
transport = 3

abbrev pub interrupted : ℕ
interrupted = 130

abbrev pub or_else : Option ℕ → Option ℕ → Option ℕ
or_else none o = o
or_else (some c) o = some c

-- `errors.As(err, &coded)`: the code of the first `exitcode.Error` of the tree, depth first
unfoldable mutual
  pub find_code : Error → Option ℕ
  find_code (cause c) = none
  find_code (within m e) = find_code e
  find_code (coded c e) = some c
  find_code (classed k e) = find_code e
  find_code (several m es) = first_code es

  pub first_code : Errors → Option ℕ
  first_code nil = none
  first_code (cons e es) = or_else (find_code e) (first_code es)

abbrev pub is_cancel : Cause → Bool
is_cancel canceled = true
is_cancel _ = false

-- `errors.Is(err, context.Canceled)`
unfoldable mutual
  pub is_canceled : Error → Bool
  is_canceled (cause c) = is_cancel c
  is_canceled (within m e) = is_canceled e
  is_canceled (coded c e) = is_canceled e
  is_canceled (classed k e) = is_canceled e
  is_canceled (several m es) = any_canceled es

  pub any_canceled : Errors → Bool
  any_canceled nil = false
  any_canceled (cons e es) = is_canceled e || any_canceled es

-- Wrap
unfoldable pub wrap : ℕ → Option Error → Option Error
wrap code none = none
wrap code (some e) = some (coded code e)

-- Has
unfoldable pub has : Option Error → Bool
has none = false
has (some e) = elim (find_code e) [ none ↦ false | some c ↦ true ]

-- Default
unfoldable pub default : ℕ → Option Error → Option Error
unfolding wrap has
default code err = if has err then err else wrap code err

unfoldable pub precedence : ℕ → ℕ
precedence code =
    if code == ok_code
    then 0
    else if code == usage
    then 2
    else if code == transport
    then 3
    else if code == interrupted
    then 4
    else 1

-- CodeClass
unfoldable pub code_class : ℕ → Class
code_class code =
    if code == ok_code
    then class_none
    else if code == transport
    then class_transport
    else if code == usage
    then class_usage
    else if code == interrupted
    then class_canceled
    else class_target

-- one round of the loop of `Worst`
unfoldable pub worse : ℕ → ℕ → ℕ
worse code c = if ltb (precedence code) (precedence c) then c else code

module _ (is_usage : Error → Bool) where
  -- From
  unfoldable pub from : Option Error → ℕ
  from none = ok_code
  from (some e) = elim (find_code e) [
    | some c ↦ c
    | none ↦ if is_usage e then usage else target_failed
  ]

  -- the code of one error in the loop of `Worst`
  unfoldable pub weigh : Option Error → ℕ
  unfolding from
  weigh none = from none
  weigh (some e) = if is_canceled e then interrupted else from (some e)

  unfoldable pub worst_from : ℕ → List (Option Error) → ℕ
  worst_from code [] = code
  worst_from code (err ∷ errs) = worst_from (worse code (weigh err)) errs

  -- Worst
  unfoldable pub worst : List (Option Error) → ℕ
  worst errs = worst_from ok_code errs

  -- Class
  unfoldable pub class : Option Error → Class
  class err = code_class (from err)
