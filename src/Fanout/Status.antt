-- ===== src/Fanout/Status.antt =====
-- The words that a result is reported with, and its error (internal/fanout/fanout.go).
use clusterctl.Prelude.{Bool, false, Option, none, some, ◌≡◌, ◌↔◌, arith, inl, inr, Option-cases}
use clusterctl.ExitCode.{Error, from}
use clusterctl.Fanout.{RemoteResult, failed, status, ok_word, result_error}

status-ok-some :
    (is_usage : Error → Bool) (r : RemoteResult)
    → (status is_usage (some r) ≡ ok_word) ↔ (failed (some r) ≡ false)
unfolding status failed from
status-ok-some is_usage r = elim (Option-cases r.error_of) [
  | inl fine ↦ rw fine (ground arith)
  | inr (e, bad) ↦ rw bad (ground arith)
]

-- A target is reported as ok exactly when its result did not fail.
pub status-ok_iff :
    (is_usage : Error → Bool) (r : Option RemoteResult)
    → (status is_usage r ≡ ok_word) ↔ (failed r ≡ false)
unfolding status failed
status-ok_iff is_usage none = (λ e. absurd (cc), λ e. absurd (cc))
status-ok_iff is_usage (some r) = status-ok-some is_usage r

-- A target has an error to be reported with exactly when its result failed.
pub result_error_iff : (r : RemoteResult) → (result_error r ≡ none) ↔ (failed (some r) ≡ false)
unfolding result_error failed
result_error_iff r = elim (Option-cases r.error_of) [
  | inl fine ↦ rw fine (ground arith)
  | inr (e, bad) ↦ rw bad (ground arith)
]
