-- ===== src/Tests/FanoutTests.antt =====
-- The results of a fan-out, on one target that answered and one that could not be reached.
use clusterctl.Prelude.{
  Bool, false, Option, none, some, List, [], ◌∷◌, Bytes, codes, pos, All, Exists, trim_final,
  split_on, join_with, ok, ◌≡◌, ◌≢◌, ◌↔◌, ◌≤◌, refl,
}
use clusterctl.Hostname
use clusterctl.Config.Value.{lt_bytes}
use clusterctl.Tests.Sets.{list_sets, list_laws}
use clusterctl.Fanout.Groups.{
  Group, group_of, group_by_output, collect, put_in_group, add_named, sort_groups, insert_group,
  comes_before, has_key,
}
use clusterctl.Fanout.Grouping.{Holds, group_by_output-Holds}
use clusterctl.ExitCode.{
  Error, cause, text, coded, classed, from, transport, ok_code, precedence, weigh, find_code,
  code_class, worst, worst_from, worse, is_canceled,
}
use clusterctl.Fanout.{
  Target, RemoteResult, name_of, failed, status, failures, items, summary_code, summarize,
  failure_error, without_result,
}
use clusterctl.Fanout.Failing.{IsPresent, failure_error-none_iff, failure_error-outranks}

abbrev never : Error → Bool
never e = false

abbrev joined : List (Bytes × Option Error) → Error
joined failed_items = cause (text [])

abbrev target : Target
target = record { name = codes "exe1"; host = codes "exe1.hpc"; role = [] }

abbrev answered : RemoteResult
answered = record { target = target; exit_code = pos 0; stdout = codes "up"; error_of = none }

abbrev unreached : RemoteResult
unreached = without_result target (some (coded transport (cause (text []))))

abbrev mixed_results : List (Option RemoteResult)
mixed_results = some answered ∷ some unreached ∷ []

present : All IsPresent mixed_results
present = ((λ e. absurd (cc)), ((λ e. absurd (cc)), tt))

failure_error-none_iff_example :
    (failure_error never joined mixed_results ≡ none) ↔ All (λ r. failed r ≡ false) mixed_results
failure_error-none_iff_example = failure_error-none_iff never joined mixed_results present

abbrev ended_with : Error
ended_with = coded transport (classed (code_class transport) (joined []))

ends_badly : failure_error never joined mixed_results ≡ some ended_with
unfolding failure_error summarize items failures failed summary_code worst worst_from worse
    precedence weigh is_canceled find_code
ends_badly = refl

failure_error-outranks_example :
    (from never (some ended_with) ≢ ok_code)
    × All
        (λ (name, own). precedence (weigh never own) ≤ precedence (from never (some ended_with)))
        (items never joined (failures mixed_results))
failure_error-outranks_example =
    failure_error-outranks never joined mixed_results ended_with ends_badly

list_names : (x : Bytes) → Hostname.check x ≡ none → list_laws.IsName x
list_names x fine = tt

abbrev grouped : List (Group list_sets never)
grouped =
    group_of list_sets never unreached (codes "exe1" ∷ [])
    ∷ group_of list_sets never answered (codes "exe1" ∷ [])
    ∷ []

groups_two : group_by_output list_sets never (answered ∷ unreached ∷ []) ≡ ok grouped
unfolding group_by_output collect put_in_group add_named sort_groups insert_group comes_before
    Hostname.check name_of trim_final Hostname.check_labels split_on Hostname.check_label
    Hostname.is_host_char has_key lt_bytes join_with status from is_canceled failed find_code
groups_two = refl

group_by_output-Holds_example :
    All
      (λ r. Exists (Holds list_sets never list_laws list_names r) grouped)
      (answered ∷ unreached ∷ [])
group_by_output-Holds_example =
    group_by_output-Holds list_sets never list_laws list_names (answered ∷ unreached ∷ []) grouped
      groups_two
