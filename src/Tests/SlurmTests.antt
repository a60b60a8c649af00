-- ===== src/Tests/SlurmTests.antt =====
-- The Slurm client at concrete answers.
use clusterctl.Prelude.{
  true, none, List, [], ◌∷◌, Bytes, ok, pos, All, Exists, codes, to_lower, trim_space, trim_right,
  trim_left, contains_text, has_prefix, ◌≡◌, ◌↔◌, refl, arith,
}
use clusterctl.NodeSet.{Contains}
use clusterctl.Slurm.Act.{Session}
use clusterctl.Slurm.Output.{new_framed, records}
use clusterctl.Slurm.Client.{Client, Run, read_lines}
use clusterctl.Slurm.Nodes.{
  check_nodes, check_query, is_host_name, refuse_all, add_lines, compare_nodes,
}
use clusterctl.Slurm.Queue.{Job, count_jobs}
use clusterctl.Slurm.Users.{Known, plan}
use clusterctl.Slurm.Separating.{print_records}
use clusterctl.Slurm.Framing.{IsToken, IsRecord, records-print_records}
use clusterctl.Slurm.Checking.{NotAll, Names, check_nodes-exact}
use clusterctl.Slurm.Counting.{tally, total, count_jobs-tally}
use clusterctl.Slurm.Adding.{IsPlan, plan-IsPlan}
use clusterctl.Tests.Sets.{list_sets, list_laws}

abbrev token : Bytes
token = codes "9f3a"

-- a field of the first record holds a separator, and one a line break
abbrev printed_rows : List (List Bytes)
printed_rows = (codes "exe1" ∷ codes "a|b" ∷ []) ∷ ((10 ∷ codes "exe2") ∷ [] ∷ []) ∷ []

token-IsToken : IsToken token
token-IsToken = (
  (λ e. absurd (cc)),
  (omega arith, (omega arith, (omega arith, (omega arith, tt)))),
  (omega arith, (omega arith, (omega arith, (omega arith, tt)))),
)

printed_rows-IsRecord : All (IsRecord token 2) printed_rows
unfolding contains_text has_prefix
printed_rows-IsRecord = ((refl, (refl, (refl, tt))), ((refl, (refl, (refl, tt))), tt))

records-print_records_example :
    records
      (new_framed token (codes "%N" ∷ codes "%E" ∷ []))
      (print_records (new_framed token (codes "%N" ∷ codes "%E" ∷ [])).sep printed_rows)
    ≡ ok printed_rows
records-print_records_example =
    records-print_records token (codes "%N" ∷ codes "%E" ∷ []) printed_rows token-IsToken
      (λ e. absurd (cc)) printed_rows-IsRecord

-- a login node that answers with one text
abbrev answering : Bytes → Run (List (List Bytes))
answering text argv asked = (
  ok (record {
    target = record { name = codes "login"; host = codes "login.hpc"; role = [] };
    exit_code = pos 0;
    stdout = text;
    error_of = none;
  }),
  argv ∷ asked,
)

abbrev client : Client (List (List Bytes))
client = record {
  runner = answering [];
  reader = answering (codes "exe1\nexe2\n");
  spec = record { default_account = []; default_organization = [] };
}

abbrev fresh : Session (List (List Bytes))
fresh = record { world = []; cluster = [] }

abbrev pair : List Bytes
pair = codes "exe2" ∷ codes "exe1" ∷ []

abbrev asked_once : Session (List (List Bytes))
asked_once = record { world = check_query list_sets pair ∷ []; cluster = [] }

pair_checks : check_nodes list_sets client pair fresh ≡ (ok tt, asked_once)
unfolding check_nodes refuse_all to_lower read_lines add_lines is_host_name trim_space trim_right
    trim_left compare_nodes
pair_checks = refl

check_nodes-exact_example :
    All NotAll pair
    × ((ls : List Bytes) × (read_lines client (check_query list_sets pair) fresh
          ≡ (ok ls, asked_once))
        × ((x : Bytes) → Contains list_sets pair x ↔ Exists (Names x) ls))
check_nodes-exact_example =
    check_nodes-exact list_sets list_laws (λ x e. tt) client pair fresh asked_once pair_checks

abbrev job : Bytes → Bytes → Job
job user partition = record {
  id = [];
  user = user;
  account = codes "hpc";
  partition = partition;
  state = codes "RUNNING";
  nodes = [];
  node_count = [];
  cpus = [];
  time_limit = [];
  runtime = [];
  priority = [];
  reason = [];
  work_dir = [];
  command = [];
}

abbrev three_jobs : List Job
three_jobs =
    job (codes "ada") (codes "long")
    ∷ job (codes "bob") (codes "long")
    ∷ job (codes "ada") (codes "long")
    ∷ []

count_jobs-tally_example :
    (tally (count_jobs three_jobs) (job (codes "ada") (codes "long")) ≡ 2)
    × (total (count_jobs three_jobs) ≡ 3)
count_jobs-tally_example = count_jobs-tally three_jobs (job (codes "ada") (codes "long"))

abbrev known : Known
known = record { exists = true; associated = codes "hpc" ∷ []; current = codes "hpc" }

plan-IsPlan_example :
    IsPlan
      (codes "gsi")
      (codes "gsi")
      known
      (plan (codes "ada") (codes "virgo") (codes "gsi") (codes "gsi") known)
plan-IsPlan_example =
    plan-IsPlan (codes "ada") (codes "virgo") (codes "gsi") (λ e. absurd (cc)) (codes "gsi") known
