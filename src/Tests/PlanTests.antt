-- ===== src/Tests/PlanTests.antt =====
-- A plan to drain two nodes, and the calls that apply it; the command lines that ssh is given.
use mathlib.Core.List.{flat_map}
use clusterctl.ShellQuote.{safe, safe_byte, quote_byte, quote}
use clusterctl.Prelude.{
  trim_right, trim_left, join_with, ℕ, ◌≤◌, length, Bool, true, false, Option, none, some, List, [],
  ◌∷◌, Bytes, Result, ok, codes, ◌≡◌, ◌⊎◌, refl, eqb, pos, arith,
}
use clusterctl.ExitCode.{Error}
use clusterctl.Fanout.{Target}
use clusterctl.Safety.{protected_in, check_targets, protected, Gate, Preview}
use clusterctl.Slurm.Client.{Client, Run}
use clusterctl.ShellQuote.Splitting.{split}
use clusterctl.Transport.{Request, max_arg_bytes, words, remote_command, sent_line}
use clusterctl.Transport.Limits.{sent_words, remote_command-sent}
use clusterctl.Plans.{Change, Terms, Plan}
use clusterctl.Plans.Store.{
  get, get_at, Store, new_store, Call, add_plan, get_plan, ask_plan, take_plan, pass, step,
}
use clusterctl.Plans.Changing.{dry_run, App}
use clusterctl.Plans.Serving.{gate_preview, Running, open_}
use clusterctl.Plans.Asking.{repeats, action_of, repeats, ApplyInput, accepted}
use clusterctl.Plans.Applying.{apply}
use clusterctl.Plans.Once.{count_takes, count_takes-once}
use clusterctl.Plans.Sound.{IsSound, step-IsSound}
use clusterctl.Plans.Standing.{MeansSame, SendsSame}
use clusterctl.Plans.Sending.{sent_by}
use clusterctl.Plans.Carrying.{dried, apply-carries}
use clusterctl.Plans.Confirmed.{Unsent, Confirmed, IsPlanOf, apply-Confirmed}
use clusterctl.Tests.Sets.{list_sets}

abbrev login : Target
login = record { name = codes "login"; host = codes "login.hpc"; role = [] }

abbrev nodes : List Bytes
nodes = codes "exe1" ∷ codes "exe2" ∷ []

abbrev gate : Gate list_sets
gate = record {
  protected_hosts = [];
  resolve = λ s. ok (s ∷ []);
  known = none;
  confirm_above = 5;
  assume_yes = false;
  force = false;
  dry_run = false;
  interactive = false;
}

abbrev shown : Preview list_sets
shown = record {
  verb = codes "resume";
  targets = codes "exe1,exe2";
  count = 2;
  detail = [];
  forced = [];
  count_required = false;
  confirm_above = 5;
}

abbrev sent : List Bytes
sent =
    codes "login (login.hpc): timeout -k 5s 120s scontrol update nodename=exe1,exe2 state=resume"
    ∷ []

abbrev terms : Terms list_sets
terms = record {
  id = codes "p1";
  action = Change.resume;
  nodes = nodes;
  reason = [];
  preview = shown;
  cluster = codes "virgo";
  commands = sent;
}

-- a world that is the list of the commands run so far
abbrev runs : Run (List (List Bytes))
runs argv world =
    (ok (record { target = login; exit_code = pos 0; stdout = []; error_of = none }), argv ∷ world)

abbrev client : Client (List (List Bytes))
client = record {
  runner = runs;
  reader = runs;
  spec = record { default_account = []; default_organization = [] };
}

abbrev site : App list_sets (List (List Bytes))
site = record {
  cluster_name = codes "virgo";
  gate = gate;
  select = λ s. ok (s ∷ []);
  client = ok client;
  target = login;
  timeout = 0;
  ssh_ready = ok tt;
}

abbrev configure : List (List Bytes) → Result Error (App list_sets (List (List Bytes)))
configure _ = ok site

abbrev writable : List (List Bytes) → Option Error
writable _ = none

abbrev valid : Bytes → Bool
valid _ = true

abbrev runes : Bytes → List ℕ
runes s = s

abbrev is_yes : Bytes → Bool
is_yes = eqb (codes "yes")

abbrev plan : Plan list_sets
plan = record { terms = terms; expires = 300; asked = codes "p1.r1"; used = false }

abbrev store : Store list_sets
store = record { ttl = 300; now = 10; live = (codes "p1", 0) ∷ []; heap = plan ∷ [] }

abbrev running : Running list_sets (List (List Bytes))
running = record {
  world = [];
  store = store;
  audit = [];
  entry = record {
    event = codes "apply";
    plan = codes "p1";
    action = [];
    nodes = codes "exe1,exe2";
    count = 2;
    detail = [];
    outcome = open_;
  };
}

abbrev request : ApplyInput
request = record {
  plan_id = codes "p1";
  nodes = codes "exe1,exe2";
  count = 2;
  can_elicit = true;
  response = some (accepted (record { count = none; confirm = true }));
  state = codes "p1.r1";
  random = codes "r2";
}

abbrev resumed : List (List Bytes)
resumed =
    (codes "scontrol" ∷ codes "update" ∷ codes "nodename=exe1,exe2" ∷ codes "state=resume" ∷ [])
    ∷ []

applies :
    ((apply list_sets is_yes valid runes [] configure writable true request running).1.world
      ≡ resumed)
unfolding apply check_targets protected_in protected join_with quote safe safe_byte flat_map
    quote_byte trim_right trim_left
applies = refl

abbrev calls : List (Call list_sets)
calls =
    add_plan terms
    ∷ get_plan (codes "p1")
    ∷ take_plan 0
    ∷ ask_plan 0 (codes "r")
    ∷ pass 5
    ∷ take_plan 0
    ∷ []

taken : count_takes list_sets 0 calls (new_store list_sets 300 0) ≡ 1
unfolding count_takes new_store
taken = refl

count_takes-once_example : count_takes list_sets 0 calls (new_store list_sets 300 0) ≤ 1
count_takes-once_example = count_takes-once list_sets 0 calls (new_store list_sets 300 0)

store-IsSound : IsSound list_sets store
unfolding IsSound get_at
store-IsSound = ((plan, refl, refl, refl), tt)

step-IsSound_example : IsSound list_sets (step list_sets (take_plan 0) store)
step-IsSound_example = step-IsSound list_sets (take_plan 0) store store-IsSound

apply-Confirmed_example :
    Unsent list_sets is_yes valid runes [] configure writable true request running
      (apply list_sets is_yes valid runes [] configure writable true request running).1.world
    ⊎ ((p : Plan list_sets) × IsPlanOf list_sets is_yes valid runes [] configure writable true
          request running p
        × Confirmed list_sets is_yes valid runes [] configure writable true request [] p)
apply-Confirmed_example =
    apply-Confirmed list_sets is_yes valid runes [] configure writable true request running
      store-IsSound

means_same : MeansSame list_sets is_yes valid runes [] configure writable false plan [] shown site
unfolding MeansSame gate_preview action_of check_targets protected_in protected join_with repeats
means_same = (refl, refl, refl, refl)

sends_same : SendsSame list_sets is_yes valid runes [] configure writable false plan [] site client
unfolding SendsSame dry_run join_with quote safe safe_byte flat_map quote_byte
sends_same = (refl, refl)

apply-carries_example :
    (apply list_sets is_yes valid runes [] configure writable false request running).1.world
    ≡ sent_by list_sets is_yes valid runes [] configure writable false client plan
        (dried list_sets is_yes valid runes [] configure writable false site client plan [])
unfolding get repeats
apply-carries_example =
    apply-carries list_sets is_yes valid runes [] configure writable false request running 0 plan
      shown site client refl refl refl refl means_same sends_same refl refl refl

abbrev echo : Request
echo = record {
  argv = codes "echo" ∷ codes "it's" ∷ [];
  script = [];
  timeout = 0;
  no_shell = false;
}

abbrev echo_line : Bytes
echo_line = codes "echo 'it'\\''s'"

spoken : words echo ≡ ok (codes "echo" ∷ codes "it's" ∷ [])
unfolding words
spoken = refl

-- A script is run by bash, under its timeout.
scripted :
    words (record { argv = []; script = codes "id -u"; timeout = 1500; no_shell = false })
    ≡ ok (
        codes "timeout"
        ∷ codes "-k"
        ∷ codes "5s"
        ∷ codes "1.500s"
        ∷ codes "bash"
        ∷ codes "-c"
        ∷ codes "id -u"
        ∷ [])
unfolding words
scripted = refl

rendered : remote_command echo ≡ ok echo_line
unfolding remote_command join_with quote safe safe_byte flat_map quote_byte
rendered = refl

remote_command-sent_example :
    (split (sent_line echo echo_line) ≡ some (sent_words echo (codes "echo" ∷ codes "it's" ∷ [])))
    × (length (sent_line echo echo_line) ≤ max_arg_bytes)
remote_command-sent_example =
    remote_command-sent echo (codes "echo") (codes "it's" ∷ []) echo_line spoken (omega arith)
      rendered
