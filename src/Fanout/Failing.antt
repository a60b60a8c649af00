-- ===== src/Fanout/Failing.antt =====
-- The error that a fan-out ends with, and its exit code (internal/fanout/pool.go).
use clusterctl.Prelude.{
  ℕ, ◌≤◌, Bool, false, Option, none, some, List, [], ◌∷◌, Bytes, map, All, Bool-cases, ==_iff, ◌≡◌,
  ◌≢◌, ◌↔◌, ◌⊎◌, refl, sym, ap, arith, inl, inr,
}
use clusterctl.ExitCode.{Error, from, weigh, worst, precedence, target_failed, ok_code, find_code}
use clusterctl.ExitCode.Worst.{worst_max}
use clusterctl.Fanout.{
  RemoteResult, failed, failures, items, summarize, summary_code, failure_error,
}

-- no result is nil
abbrev pub IsPresent : Option RemoteResult → Type 0
IsPresent r = r ≢ none

ok_outranked : precedence ok_code ≤ precedence target_failed
unfolding precedence
ok_outranked = omega arith

module _ (is_usage : Error → Bool) (failure : List (Bytes × Option Error) → Error) where
  items-nil_iff :
      (rs : List (Option RemoteResult))
      → All IsPresent rs
      → (items is_usage failure (failures rs) ≡ []) ↔ All (λ r. failed r ≡ false) rs
  unfolding items failures
  items-nil_iff [] present = (λ _. tt, λ _. refl)
  items-nil_iff (none ∷ rs) (here, present) = absurd (here refl)
  items-nil_iff (some r ∷ rs) (here, present) = elim (Bool-cases (failed (some r))) [
    | inl bad ↦ (rw bad (λ e. absurd (cc)), λ (fine, _). absurd (ground arith))
    | inr fine ↦
        let ih = items-nil_iff rs present in
        (rw fine (λ e. (refl, ih.0 e)), rw fine (λ (_, all). ih.1 all))
  ]

  summarize-none_iff :
      (is : List (Bytes × Option Error)) (all_canceled : Bool)
      → (summarize is_usage failure is all_canceled ≡ none) ↔ (is ≡ [])
  unfolding summarize
  summarize-none_iff [] all_canceled = (λ _. refl, λ _. refl)
  summarize-none_iff (i ∷ is) all_canceled = (λ e. absurd (cc), λ e. absurd (cc))

  -- A fan-out ends without an error exactly when no target failed, where no result is nil.
  pub failure_error-none_iff :
      (rs : List (Option RemoteResult))
      → All IsPresent rs
      → (failure_error is_usage failure rs ≡ none) ↔ All (λ r. failed r ≡ false) rs
  unfolding failure_error
  failure_error-none_iff rs present =
      let none_iff = summarize-none_iff (items is_usage failure (failures rs)) false in
      let nil_iff = items-nil_iff rs present in
      (λ e. nil_iff.0 (none_iff.0 e), λ all. none_iff.1 (nil_iff.1 all))

  weigh-All :
      (n m : ℕ) (is : List (Bytes × Option Error))
      → n ≤ m
      → All (λ e. precedence (weigh is_usage e) ≤ n) (map (λ (name, e). e) is)
      → All (λ (name, e). precedence (weigh is_usage e) ≤ m) is
  weigh-All n m [] le h = tt
  weigh-All n m ((name, e) ∷ is) le (here, rest) = (omega arith, weigh-All n m is le rest)

  summary_code-cases :
      (is : List (Bytes × Option Error))
      → ((summary_code is_usage failure is ≡ target_failed)
          × (worst is_usage (map (λ (name, e). e) is) ≡ ok_code))
        ⊎ ((summary_code is_usage failure is ≡ worst is_usage (map (λ (name, e). e) is))
            × (worst is_usage (map (λ (name, e). e) is) ≢ ok_code))
  unfolding summary_code
  summary_code-cases is = ground (arith, ==_iff (worst is_usage (map (λ (name, e). e) is)) ok_code)

  summary_code-worst :
      (is : List (Bytes × Option Error))
      → (summary_code is_usage failure is ≢ ok_code)
        × All
            (λ (name, e).
              precedence (weigh is_usage e) ≤ precedence (summary_code is_usage failure is))
            is
  summary_code-worst is =
      let (most, _) = worst_max is_usage (map (λ (name, e). e) is) in
      elim (summary_code-cases is) [
        | inl (code, none_says) ↦ rw code (
          (λ e. absurd (omega arith)),
          weigh-All (precedence (worst is_usage (map (λ (name, e). e) is)))
              (precedence target_failed) is (rw none_says ok_outranked) most,
        )
        | inr (code, says) ↦ rw code (
          says,
          weigh-All (precedence (worst is_usage (map (λ (name, e). e) is)))
              (precedence (worst is_usage (map (λ (name, e). e) is))) is (omega arith) most,
        )
      ]

  summarize-code :
      (is : List (Bytes × Option Error)) (all_canceled : Bool) (e : Error)
      → summarize is_usage failure is all_canceled ≡ some e
      → from is_usage (some e) ≡ summary_code is_usage failure is
  unfolding summarize from find_code
  summarize-code [] all_canceled e h = absurd (cc)
  summarize-code (i ∷ is) all_canceled e h = ap (from is_usage) (sym h)

  -- The exit code of a fan-out that failed is never that of a success, and outranks what every failed
  -- target asks for.
  pub failure_error-outranks :
      (rs : List (Option RemoteResult)) (e : Error)
      → failure_error is_usage failure rs ≡ some e
      → (from is_usage (some e) ≢ ok_code)
        × All
            (λ (name, own). precedence (weigh is_usage own) ≤ precedence (from is_usage (some e)))
            (items is_usage failure (failures rs))
  failure_error-outranks rs e h =
      rw (summarize-code (items is_usage failure (failures rs)) false e (unfold failure_error in h))
        (summary_code-worst (items is_usage failure (failures rs)))
