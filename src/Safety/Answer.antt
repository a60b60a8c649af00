-- ===== src/Safety/Answer.antt =====
-- The second half of internal/safety/safety.go: judging an answer, and `Confirm` with its prompt.
use clusterctl.Prelude.{
  ℕ, Bool, true, false, not, ◌||◌, String, Option, none, some, List, [], ◌∷◌, map, Bytes, Result,
  ok, err, trim_space, atoi, ◌==◌, eqb, codes, if◌then◌else◌, ℤ, pos,
}
use mathlib.Core.Option
use clusterctl.ExitCode.{Error, cause, within, coded, text, default, usage, interrupted, wrap}
use clusterctl.ExitCode
use clusterctl.NodeSet.{NodeSets}
use clusterctl.Safety.{
  Gate, Action, Refusal, no_hosts, not_resolved, touches_protected, touches_unknown, Forced,
  Preview, preview, check,
}

-- `err != nil || n != p.Count`, turned round
unfoldable pub is_count : Option ℤ → ℕ → Bool
is_count (some (pos n)) count = n == count
is_count _ count = false

module _ (n : NodeSets) (yes_word : Bytes → Bool) where
  -- Accept: whether the action may proceed; `yes_word` is `cliprogress.Yes`
  unfoldable pub accept : Preview n → Bytes → Bool
  unfolding is_count
  accept p answer =
      let trimmed = trim_space answer in
      if p.count_required then is_count (atoi trimmed) p.count else yes_word trimmed

  -- what `Confirm` meets outside the gate: the error of the context when it starts and after the
  -- question, whether there is an input, and what `cliprogress.Ask` reads
  pub record Terminal : Type 0 where
    pub ended : Option Error
    pub has_input : Bool
    pub reply : Result Error Bytes
    pub ended_after : Option Error

  pub data Line : Type 0 where
    would detail_of ask_about : Preview n → Line
    forced_line : Forced n → Line

  pub data Verdict : Type 0 where
    proceed dry_run no_terminal no_input not_confirmed : Verdict
    refused : Refusal n → Verdict
    cancelled : Error → Verdict

  -- ask and Accept
  unfoldable pub ask : Preview n → Terminal → List Line × Verdict
  unfolding accept
  ask p t = if not t.has_input then ([], no_input) else elim t.ended_after [
    | some e ↦ (ask_about p ∷ [], cancelled e)
    | none ↦ elim t.reply [
      | err e ↦ (ask_about p ∷ [], not_confirmed)
      | ok line ↦ (ask_about p ∷ [], if accept p line then proceed else not_confirmed)
    ]
  ]

  -- what `detail` returns is empty without a detail and without forced lines
  unfoldable pub has_detail : Preview n → Bool
  has_detail p = not (eqb p.detail []) || elim p.forced [ [] ↦ false | _ ∷ _ ↦ true ]

  -- Confirm, past the preview
  unfoldable pub confirm_preview : Gate n → Preview n → Terminal → List Line × Verdict
  unfolding ask has_detail
  confirm_preview g p t =
      if g.dry_run
      then (would p ∷ (if has_detail p then detail_of p ∷ [] else []), dry_run)
      else if g.assume_yes
      then (map forced_line p.forced, proceed)
      else if not g.interactive
      then ([], no_terminal)
      else ask p t

  -- Confirm: the lines written, in order, and the outcome
  unfoldable pub confirm : Gate n → Action n → Terminal → List Line × Verdict
  unfolding confirm_preview
  confirm g a t = elim t.ended [
    | some e ↦ ([], cancelled e)
    | none ↦ elim (preview n g a) [ err r ↦ ([], refused r) | ok p ↦ confirm_preview g p t ]
  ]

  -- Announce: the lines written and why the action is refused, if it is
  unfoldable pub announce : Gate n → Action n → List Line × Option (Refusal n)
  announce g a = elim (check n g a) [
    | err r ↦ ([], some r)
    | ok forced ↦ (map forced_line forced, none)
  ]

  -- A message without what is formatted into it.
  abbrev says : String → Error
  says m = cause (text (codes m))

  -- the error of a refusal; that of an entry has the code of its cause, if it says one
  unfoldable pub refusal_error : Refusal n → Option Error
  unfolding default
  refusal_error no_hosts = some (coded usage (says "no hosts were selected"))
  refusal_error (not_resolved u) =
      Option.map (within (codes "the protected hosts could not be worked out"))
        (default usage (some (within (codes "safety.protectedHosts") u.cause)))
  refusal_error (touches_protected hit) = some (coded usage (says "would touch the protected host"))
  refusal_error (touches_unknown unknown) =
      some (coded usage (says "which the inventory does not know"))

  -- the error that `Confirm` returns
  unfoldable pub verdict_error : Verdict → Option Error
  unfolding refusal_error wrap
  verdict_error proceed = none
  verdict_error dry_run = some (cause ExitCode.Cause.dry_run)
  verdict_error no_terminal = some (coded usage (says "there is no terminal to ask on"))
  verdict_error no_input = some (coded interrupted (says "nothing to read a confirmation from"))
  verdict_error not_confirmed = some (coded interrupted (says "not confirmed, nothing was done"))
  verdict_error (refused r) = refusal_error r
  verdict_error (cancelled e) = wrap interrupted (some e)
