-- ===== src/Slurm/Queue.antt =====
-- Partitions, the queue and its counts: Partitions, CountJobs, JobCounts and Jobs.
use clusterctl.Prelude.{
  ℕ, suc, Bool, not, ◌&&◌, Option, List, [], ◌∷◌, ◌++◌, Bytes, codes, eqb, length, ltb, ◌==◌,
  join_with, cut_final, is_one_of, map, if◌then◌else◌,
}
use clusterctl.Config.Value.{lt_bytes}
use clusterctl.NodeSet.{NodeSets}
use clusterctl.Slurm.Act.{Act, ◌>>=◌, pure, lift}
use clusterctl.Slurm.Output.{Framed, new_framed, format, records}
use clusterctl.Slurm.Client.{Client, read, read_records}
use clusterctl.Slurm.Nodes.{item, limited_to, states_argument}

-- Partition
pub record Partition : Type 0 where
  pub name : Bytes
  pub is_default : Bool
  pub available : Bytes
  pub groups : Bytes
  pub nodes : Bytes
  pub node_count : Bytes
  pub default_time : Bytes
  pub max_time : Bytes
  pub memory : Bytes
  pub cpus : Bytes
  pub cpu_state : Bytes

-- a record of sinfo
unfoldable pub partition_of : List Bytes → Partition
unfolding cut_final
partition_of f =
    let (name, marked) = cut_final b'*' (item 0 f) in
    record {
      name = name;
      is_default = marked;
      available = item 1 f;
      groups = item 2 f;
      node_count = item 3 f;
      max_time = item 4 f;
      default_time = item 5 f;
      memory = item 6 f;
      cpus = item 7 f;
      cpu_state = item 8 f;
      nodes = item 9 f;
    }

-- the loop of `Partitions`
unfoldable pub partition_loop : List Bytes → List (List Bytes) → List Partition
unfolding partition_of
partition_loop seen [] = []
partition_loop seen (f ∷ fs) =
    let p = partition_of f in
    let again = partition_loop seen fs in
    let rest = partition_loop (p.name ∷ seen) fs in
    if is_one_of seen p.name then again else p ∷ rest

-- Job
pub record Job : Type 0 where
  pub id : Bytes
  pub user : Bytes
  pub account : Bytes
  pub partition : Bytes
  pub state : Bytes
  pub nodes : Bytes
  pub node_count : Bytes
  pub cpus : Bytes
  pub time_limit : Bytes
  pub runtime : Bytes
  pub priority : Bytes
  pub reason : Bytes
  pub work_dir : Bytes
  pub command : Bytes

-- a record of squeue
unfoldable pub job_of : List Bytes → Job
job_of f = record {
  id = item 0 f;
  user = item 1 f;
  account = item 2 f;
  partition = item 3 f;
  state = item 4 f;
  nodes = item 5 f;
  node_count = item 6 f;
  cpus = item 7 f;
  time_limit = item 8 f;
  runtime = item 9 f;
  priority = item 10 f;
  reason = item 11 f;
  work_dir = item 12 f;
  command = item 13 f;
}

-- the three fields that `JobCounts` asks for
unfoldable pub short_job_of : List Bytes → Job
short_job_of f = record {
  id = [];
  user = item 0 f;
  account = item 1 f;
  partition = item 2 f;
  state = [];
  nodes = [];
  node_count = [];
  cpus = [];
  time_limit = [];
  runtime = [];
  priority = [];
  reason = [];
  work_dir = [];
  command = [];
}

-- JobCount
pub record JobCount : Type 0 where
  pub owner : Bytes
  pub charged : Bytes
  pub queue : Bytes
  pub jobs : ℕ

-- whether a job is of the key of a count
unfoldable pub counts_for : JobCount → Job → Bool
counts_for c j = eqb c.owner j.user && (eqb c.charged j.account && eqb c.queue j.partition)

abbrev pub one_more : JobCount → JobCount
one_more c = record c { jobs = suc c.jobs }

-- `counts[key]++`
unfoldable pub count_job : List JobCount → Job → List JobCount
unfolding counts_for
count_job [] j = record { owner = j.user; charged = j.account; queue = j.partition; jobs = 1 } ∷ []
count_job (c ∷ cs) j =
    let rest = count_job cs j in if counts_for c j then one_more c ∷ cs else c ∷ rest

unfoldable pub count_all : List JobCount → List Job → List JobCount
unfolding count_job
count_all cs [] = cs
count_all cs (j ∷ js) = count_all (count_job cs j) js

-- the comparison of `CountJobs`: more jobs first, then by user, account and partition
unfoldable pub counts_before : JobCount → JobCount → Bool
unfolding lt_bytes
counts_before a b =
    if not (a.jobs == b.jobs)
    then ltb b.jobs a.jobs
    else if not (eqb a.owner b.owner)
    then lt_bytes a.owner b.owner
    else if not (eqb a.charged b.charged)
    then lt_bytes a.charged b.charged
    else lt_bytes a.queue b.queue

unfoldable pub insert_count : JobCount → List JobCount → List JobCount
unfolding counts_before
insert_count c [] = c ∷ []
insert_count c (d ∷ ds) =
    let rest = insert_count c ds in if counts_before c d then c ∷ d ∷ ds else d ∷ rest

unfoldable pub sort_counts : List JobCount → List JobCount
unfolding insert_count
sort_counts [] = []
sort_counts (c ∷ cs) = insert_count c (sort_counts cs)

-- CountJobs
unfoldable pub count_jobs : List Job → List JobCount
unfolding count_all sort_counts
count_jobs js = sort_counts (count_all [] js)

abbrev pub count_format : List Bytes
count_format = codes "%u" ∷ codes "%a" ∷ codes "%P" ∷ []

abbrev pub job_format : List Bytes
job_format =
    codes "%i"
    ∷ codes "%u"
    ∷ codes "%a"
    ∷ codes "%P"
    ∷ codes "%T"
    ∷ codes "%N"
    ∷ codes "%D"
    ∷ codes "%C"
    ∷ codes "%l"
    ∷ codes "%M"
    ∷ codes "%Q"
    ∷ codes "%r"
    ∷ codes "%Z"
    ∷ codes "%o"
    ∷ []

abbrev pub users_argument : List Bytes → List Bytes
users_argument [] = []
users_argument (u ∷ us) = codes "--user" ∷ join_with b',' (u ∷ us) ∷ []

module _ (n : NodeSets) where
  open n use {NodeSet}

  -- JobFilter
  pub record JobFilter : Type 0 where
    pub states : List Bytes
    pub users : List Bytes
    pub on_nodes : Option NodeSet

  -- args
  unfoldable pub filter_args : JobFilter → List Bytes
  filter_args f =
      states_argument n f.states
      ++ (users_argument f.users ++ limited_to n (codes "--nodelist") f.on_nodes)

  module _ {W : Type 0} (c : Client W) where
    -- Partitions
    unfoldable pub partitions : Bytes → Act W (List Partition)
    unfolding read_records partition_loop
    partitions name = do
      rows ←
          read_records c
            (codes "sinfo"
              ∷ codes "--all"
              ∷ codes "--noheader"
              ∷ codes "--format"
              ∷ codes "%P|%a|%g|%D|%l|%L|%m|%c|%C|%N"
              ∷ (if eqb name [] then [] else codes "--partition" ∷ name ∷ []))
            10
      pure (partition_loop [] rows)

    abbrev pub queue_query : Framed → JobFilter → List Bytes
    queue_query f filter =
        codes "squeue" ∷ codes "--noheader" ∷ codes "--format" ∷ format f ∷ filter_args filter

    -- JobCounts
    unfoldable pub job_counts : Bytes → JobFilter → Act W (List JobCount × ℕ)
    unfolding new_framed format filter_args read records short_job_of count_jobs
    job_counts token filter = do
      let f = new_framed token count_format
      r ← read c (queue_query f filter)
      rows ← lift (records f r.stdout)
      pure (count_jobs (map short_job_of rows), length rows)

    -- Jobs
    unfoldable pub jobs_of : Bytes → JobFilter → Act W (List Job)
    unfolding new_framed format filter_args read records job_of
    jobs_of token filter = do
      let f = new_framed token job_format
      r ← read c (queue_query f filter)
      rows ← lift (records f r.stdout)
      pure (map job_of rows)
