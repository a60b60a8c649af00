-- ===== src/Slurm/Accounts.antt =====
-- What sacct and sacctmgr are asked: History, Accounts, AccountLimits, Users and Shares. A duration is in
-- nanoseconds, and is rounded up to seconds exactly, as far as a float64 holds its fraction.
use clusterctl.Prelude.{
  ℕ, zero, suc, ◌+◌, Bool, true, false, List, [], ◌∷◌, ◌++◌, map, Bytes, codes, eqb, ltb, ◌==◌,
  join_with, if◌then◌else◌,
}
use Prim.Native.Nat.{◌/◌, ◌%◌}
use clusterctl.Slurm.Act.{Act, ◌>>=◌, pure}
use clusterctl.Slurm.Client.{Client, read_records}
use clusterctl.Slurm.Nodes.{item}
use clusterctl.Slurm.Queue.{users_argument}

-- `%d` of a number of at most `fuel` digits
unfoldable pub decimal_from : ℕ → ℕ → Bytes → Bytes
decimal_from zero n acc = acc
decimal_from (suc fuel) n acc =
    let rest = decimal_from fuel (n / 10) ((48 + n % 10) ∷ acc) in
    if ltb n 10 then (48 + n) ∷ acc else rest

-- an int64 has at most 19 digits
unfoldable pub decimal : ℕ → Bytes
unfolding decimal_from
decimal n = decimal_from 19 n []

-- Accounting
pub record Accounting : Type 0 where
  pub job_id : Bytes
  pub user : Bytes
  pub account : Bytes
  pub state : Bytes
  pub exit_code : Bytes
  pub nodes : Bytes
  pub elapsed : Bytes
  pub start : Bytes
  pub end_time : Bytes
  pub submit : Bytes
  pub partition : Bytes

unfoldable pub accounting_of : List Bytes → Accounting
accounting_of f = record {
  job_id = item 0 f;
  user = item 1 f;
  account = item 2 f;
  state = item 3 f;
  exit_code = item 4 f;
  nodes = item 5 f;
  elapsed = item 6 f;
  start = item 7 f;
  end_time = item 8 f;
  submit = item 9 f;
  partition = item 10 f;
}

-- AccountingFilter; a negative duration is 0 here, as both mean the last hour
pub record AccountingFilter : Type 0 where
  pub states : List Bytes
  pub users : List Bytes
  pub job_ids : List Bytes
  pub since : ℕ
  pub all_users : Bool

abbrev pub nanoseconds : ℕ
nanoseconds = 1000000000

-- the start of the window, in seconds before now
unfoldable pub window : ℕ → ℕ
window since = let wanted = if since == 0 then 3600 else (since + 999999999) / nanoseconds in wanted

abbrev pub jobs_argument : List Bytes → ℕ → List Bytes
jobs_argument [] since = codes "--starttime" ∷ (codes "now-" ++ decimal (window since)) ∷ []
jobs_argument (j ∷ js) since = codes "--jobs" ∷ join_with b',' (j ∷ js) ∷ []

abbrev pub state_argument : List Bytes → List Bytes
state_argument [] = []
state_argument (s ∷ ss) = codes "--state" ∷ join_with b',' (s ∷ ss) ∷ []

abbrev pub owners_argument : List Bytes → Bool → List Bytes
owners_argument (u ∷ us) all_users = users_argument (u ∷ us)
owners_argument [] true = codes "--allusers" ∷ []
owners_argument [] false = []

-- the command line of `History`
unfoldable pub history_args : AccountingFilter → List Bytes
unfolding decimal window
history_args f =
    codes "sacct"
    ∷ codes "--noheader"
    ∷ codes "--parsable2"
    ∷ codes "--allocations"
    ∷ codes "--format"
    ∷ codes "jobid,user,account,state,exitcode,nodelist,elapsed,start,end,submit,partition"
    ∷ (jobs_argument f.job_ids f.since
        ++ (state_argument f.states ++ owners_argument f.users f.all_users))

-- Association
pub record Association : Type 0 where
  pub account : Bytes
  pub user : Bytes
  pub default_account : Bytes
  pub coordinators : Bytes
  pub organization : Bytes
  pub description : Bytes
  pub fair_share : Bytes
  pub max_jobs : Bytes
  pub max_submit : Bytes
  pub max_nodes : Bytes
  pub max_cpus : Bytes
  pub max_wall : Bytes

abbrev pub no_association : Association
no_association = record {
  account = [];
  user = [];
  default_account = [];
  coordinators = [];
  organization = [];
  description = [];
  fair_share = [];
  max_jobs = [];
  max_submit = [];
  max_nodes = [];
  max_cpus = [];
  max_wall = [];
}

unfoldable pub account_of : List Bytes → Association
account_of f = record no_association {
  account = item 0 f;
  description = item 1 f;
  organization = item 2 f;
  coordinators = item 3 f;
}

unfoldable pub limits_of : List Bytes → Association
limits_of f = record no_association {
  account = item 0 f;
  user = item 1 f;
  max_submit = item 2 f;
  max_jobs = item 3 f;
  max_nodes = item 4 f;
  max_cpus = item 5 f;
  max_wall = item 6 f;
  fair_share = item 7 f;
}

unfoldable pub user_of : List Bytes → Association
user_of f = record no_association {
  user = item 0 f;
  account = item 1 f;
  default_account = item 2 f;
  fair_share = item 3 f;
}

unfoldable pub share_of : List Bytes → Association
share_of f = record no_association { account = item 0 f; user = item 1 f; fair_share = item 2 f }

abbrev pub named : Bytes → List Bytes
named name = if eqb name [] then [] else codes "where" ∷ (codes "name=" ++ name) ∷ []

module _ {W : Type 0} (c : Client W) where
  -- History
  unfoldable pub history : AccountingFilter → Act W (List Accounting)
  unfolding history_args read_records accounting_of
  history f = do rows ← read_records c (history_args f) 11; pure (map accounting_of rows)

  -- Accounts
  unfoldable pub accounts : Bytes → Act W (List Association)
  unfolding read_records account_of
  accounts name = do
    rows ←
        read_records c
          (codes "sacctmgr"
            ∷ codes "--noheader"
            ∷ codes "--parsable2"
            ∷ codes "list"
            ∷ codes "account"
            ∷ codes "withcoordinator"
            ∷ codes "format=Account,Description,Organization,Coordinators"
            ∷ named name)
          4
    pure (map account_of rows)

  -- AccountLimits
  unfoldable pub account_limits : Bytes → Act W (List Association)
  unfolding read_records limits_of
  account_limits account = do
    rows ←
        read_records c
          (codes "sacctmgr"
            ∷ codes "--noheader"
            ∷ codes "--parsable2"
            ∷ codes "--associations"
            ∷ codes "list"
            ∷ codes "account"
            ∷ codes "format=Account,User,MaxSubmit,MaxJobs,MaxNodes,MaxCPUs,MaxWall,Fairshare"
            ∷ named account)
          8
    pure (map limits_of rows)

  -- Users
  unfoldable pub users : Bytes → Act W (List Association)
  unfolding read_records user_of
  users user = do
    rows ←
        read_records c
          (codes "sacctmgr"
            ∷ codes "--noheader"
            ∷ codes "--parsable2"
            ∷ codes "show"
            ∷ codes "user"
            ∷ codes "withassoc"
            ∷ codes "format=User,Account,DefaultAccount,Fairshare"
            ∷ named user)
          4
    pure (map user_of rows)

  -- Shares
  unfoldable pub shares : Bytes → Act W (List Association)
  unfolding read_records share_of
  shares account = do
    rows ←
        read_records c
          (codes "sacctmgr"
            ∷ codes "--noheader"
            ∷ codes "--parsable2"
            ∷ codes "list"
            ∷ codes "account"
            ∷ codes "withassoc"
            ∷ codes "format=Account,User,Fairshare"
            ∷ named account)
          3
    pure (map share_of rows)
