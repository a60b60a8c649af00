-- ===== src/Tests/GateTests.antt =====
-- The gate, on a site with one protected host.
use clusterctl.Prelude.{
  Bool, true, false, List, [], ◌∷◌, Bytes, none, some, Result, ok, err, codes, ◌≡◌, ◌≢◌, ◌↔◌, refl,
  arith, eqb, before, to_lower, atoi, trim_space, trim_left, trim_right, digits, digits_from, pos,
}
use clusterctl.ExitCode.{Error}
use clusterctl.Hostname.{is_ip}
use clusterctl.Hostname.Ip.{parse_ip, ipv4_step, is_digit}
use clusterctl.Naming.{short}
use clusterctl.NodeSet.{Contains}
use clusterctl.Safety.{
  Gate, Guarded, Action, Refusal, no_hosts, check, check_targets, check_resolved, check_hit,
  check_known, let_through, protected, protected_in, resolve_all, add_shorts, add_hits, add_or_skip,
  preview, describe, touches_protected, Forced, protected_hosts,
}
use clusterctl.Safety.Answer.{
  Terminal, proceed, not_confirmed, confirm, confirm_preview, ask, accept, is_count,
}
use clusterctl.Safety.Protection.{check-protects}
use clusterctl.Safety.Forcing.{
  NoTargets, forced-refuses_iff, Tells, forced-reports, with_force, check-known_lem,
}
use clusterctl.Safety.Confirming.{MayProceed, confirm-proceed_iff, confirm-count}
use clusterctl.Tests.Sets.{list_sets, list_laws}

abbrev gate : Gate list_sets
gate = record {
  protected_hosts = codes "db1.hpc" ∷ [];
  resolve = λ s. ok (s ∷ []);
  known = some (codes "db1.hpc" ∷ codes "exe1" ∷ codes "exe2" ∷ []);
  confirm_above = 1;
  assume_yes = false;
  force = false;
  dry_run = false;
  interactive = true;
}

abbrev drain : List Bytes → Action list_sets
drain targets = record {
  verb = codes "drain";
  targets = some targets;
  detail = [];
  not_nodes = false;
}

abbrev yes_word : Bytes → Bool
yes_word = eqb (codes "y")

abbrev typing : Bytes → Terminal list_sets yes_word
typing line = record { ended = none; has_input = true; reply = ok line; ended_after = none }

abbrev two : Action list_sets
two = drain (codes "exe1" ∷ codes "exe2" ∷ [])

abbrev short_db : Action list_sets
short_db = drain (codes "DB1" ∷ [])

runs : Unit {0}
unfolding check check_targets check_resolved check_hit check_known let_through protected
    protected_in resolve_all add_shorts add_hits add_or_skip short before to_lower is_ip parse_ip
    ipv4_step is_digit
runs = tt

-- The short name of a protected host counts, whatever the case of its letters.
refuses_short : check list_sets gate short_db ≡ err (touches_protected (codes "DB1" ∷ []))
unfolding runs
refuses_short = refl

passes_two : check list_sets gate two ≡ ok []
unfolding runs
passes_two = refl

confirms_two : (confirm list_sets yes_word gate two (typing (codes " 2\n"))).1 ≡ proceed
unfolding runs confirm confirm_preview ask accept is_count preview describe atoi trim_space
    trim_left trim_right digits digits_from
confirms_two = refl

refuses_yes : (confirm list_sets yes_word gate two (typing (codes "y"))).1 ≡ not_confirmed
unfolding runs confirm confirm_preview ask accept is_count preview describe atoi trim_space
    trim_left trim_right digits digits_from
refuses_yes = refl

check-protects_example :
    (targets : List Bytes) × (guarded : Guarded list_sets) × (two.targets ≡ some targets)
    × (protected list_sets gate ≡ ok guarded)
    × ((t p : Bytes)
        → Contains list_sets targets t
        → Contains list_sets guarded.hosts p
        → (t ≢ p) × (is_ip t ≡ false → is_ip p ≡ false → to_lower (short t) ≢ to_lower (short p)))
check-protects_example = check-protects list_sets list_laws gate two [] refl passes_two

forced-refuses_iff_example :
    (check list_sets (with_force list_sets gate true) (drain []) ≡ err no_hosts)
    ↔ ((◌≡◌ {A = Refusal list_sets} no_hosts no_hosts) × NoTargets list_sets (drain []))
forced-refuses_iff_example = forced-refuses_iff list_sets gate (drain []) no_hosts

forced-reports_example :
    (forced : List (Forced list_sets)) × (check list_sets (with_force list_sets gate true) short_db
      ≡ ok forced)
    × Tells list_sets forced (check list_sets (with_force list_sets gate false) short_db)
forced-reports_example = forced-reports list_sets gate short_db (codes "DB1" ∷ []) refl refl

-- What a forced gate says when the short name of a protected host is given.
forced_short :
    check list_sets (with_force list_sets gate true) short_db
    ≡ ok (protected_hosts (codes "DB1" ∷ []) ∷ [])
unfolding runs
forced_short = refl

check-known_example :
    Contains list_sets (codes "db1.hpc" ∷ codes "exe1" ∷ codes "exe2" ∷ []) (codes "exe1")
check-known_example =
    check-known_lem list_sets list_laws gate two [] (codes "exe1" ∷ codes "exe2" ∷ []) _
      (codes "exe1") refl refl refl refl passes_two refl

confirm-proceed_iff_example :
    ((confirm list_sets yes_word gate two (typing (codes "2"))).1 ≡ proceed)
    ↔ MayProceed list_sets yes_word gate two (typing (codes "2"))
confirm-proceed_iff_example = confirm-proceed_iff list_sets yes_word gate two (typing (codes "2"))

confirm-count_example :
    (line : Bytes) × (◌≡◌ {A = Result Error Bytes} (ok (codes " 2\n")) (ok line))
    × (atoi (trim_space line) ≡ some (pos 2))
confirm-count_example =
    confirm-count list_sets yes_word gate two (typing (codes " 2\n"))
      (codes "exe1" ∷ codes "exe2" ∷ []) refl refl (omega arith) confirms_two
