-- ===== src/Tests/CodeTests.antt =====
-- Exit codes.
use clusterctl.Prelude.{
  ◌≤◌, Bool, false, [], ◌∷◌, none, some, codes, ◌≡◌, ◌⊎◌, ◌↔◌, refl, All, Exists,
}
use clusterctl.ExitCode.{
  Error, cause, within, coded, several, nil, cons, text, canceled, ok_code, usage, transport, from,
  find_code, default, is_canceled, any_canceled, weigh, worse, worst, worst_from, precedence,
}
use clusterctl.ExitCode.Worst.{worst_max}
use clusterctl.ExitCode.Laws.{Says, IsSilent, from-default}

abbrev plain : Error
plain = cause (text (codes "boom"))

abbrev lost : Error
lost = within (codes "ssh") (coded transport plain)

abbrev stopped : Error
stopped = several (codes "2 of 3 hosts failed") (cons plain (cons (cause canceled) nil))

abbrev no_usage : Error → Bool
no_usage _ = false

worst_of_three : worst no_usage (some plain ∷ some lost ∷ none ∷ []) ≡ 3
unfolding worst worst_from worse precedence weigh from find_code is_canceled
worst_of_three = refl

canceled_first : worst no_usage (some lost ∷ some stopped ∷ []) ≡ 130
unfolding worst worst_from worse precedence weigh from find_code is_canceled any_canceled
canceled_first = refl

worst_max_example :
    All
      (λ e. precedence (weigh no_usage e) ≤ precedence (worst no_usage (some lost ∷ none ∷ [])))
      (some lost ∷ none ∷ [])
    × ((worst no_usage (some lost ∷ none ∷ []) ≡ ok_code)
        ⊎ Exists
            (λ e. weigh no_usage e ≡ worst no_usage (some lost ∷ none ∷ []))
            (some lost ∷ none ∷ []))
worst_max_example = worst_max no_usage (some lost ∷ none ∷ [])

-- The code of an error inside another is kept.
lost_keeps : from no_usage (default usage (some lost)) ≡ transport
unfolding from default find_code
lost_keeps = refl

from-default_example :
    (from no_usage (default usage (some lost)) ≡ transport)
    ↔ (Says lost transport ⊎ IsSilent lost × (usage ≡ transport))
from-default_example = from-default no_usage usage transport lost
