-- ===== src/Slurm/Counting.antt =====
-- The counts of CountJobs.
use clusterctl.Prelude.{
  ℕ, ◌+◌, Bool, true, ◌&&◌, List, [], ◌∷◌, eqb, eqb_iff, Bool-cases, length, if◌then◌else◌, ◌≡◌,
  refl, ◌∙◌, arith, inl, inr,
}
use clusterctl.Slurm.Queue.{
  Job, JobCount, counts_for, count_job, count_all, one_more, counts_before, insert_count,
  sort_counts, count_jobs,
}

-- whether two jobs are of one user, account and partition
abbrev pub same_key : Job → Job → Bool
same_key i j = eqb i.user j.user && (eqb i.account j.account && eqb i.partition j.partition)

-- the jobs of the list with the key of a job
abbrev pub number : List Job → Job → ℕ
number [] j = 0
number (i ∷ is) j = (if same_key i j then 1 else 0) + number is j

-- the jobs that the counts report for the key of a job
abbrev pub tally : List JobCount → Job → ℕ
tally [] j = 0
tally (c ∷ cs) j = (if counts_for c j then c.jobs else 0) + tally cs j

-- all the jobs that the counts report
abbrev pub total : List JobCount → ℕ
total [] = 0
total (c ∷ cs) = c.jobs + total cs

counts_for-same : (c : JobCount) (i j : Job) → counts_for c i ≡ true → counts_for c j ≡ same_key i j
unfolding counts_for
counts_for-same c i j e =
    let users = (eqb_iff c.owner i.user).0 (ground arith) in
    let accounts = (eqb_iff c.charged i.account).0 (ground arith) in
    let queues = (eqb_iff c.queue i.partition).0 (ground arith) in rw (users, accounts, queues)

counts_for-one_more : (c : JobCount) (j : Job) → counts_for (one_more c) j ≡ counts_for c j
unfolding counts_for
counts_for-one_more c j = refl

count_job-tally :
    (cs : List JobCount) (i j : Job)
    → tally (count_job cs i) j ≡ (if same_key i j then 1 else 0) + tally cs j
unfolding count_job
count_job-tally [] i j = unfold counts_for in omega arith
count_job-tally (c ∷ cs) i j = elim (Bool-cases (counts_for c i)) [
  | inl found ↦
      let alike = counts_for-same c i j found in
      let more = counts_for-one_more c j in rw found (ground arith)
  | inr other ↦ let ih = count_job-tally cs i j in rw other (omega arith)
]

count_job-total : (cs : List JobCount) (i : Job) → total (count_job cs i) ≡ 1 + total cs
unfolding count_job
count_job-total [] i = omega arith
count_job-total (c ∷ cs) i = elim (Bool-cases (counts_for c i)) [
  | inl found ↦ rw found (omega arith)
  | inr other ↦ let ih = count_job-total cs i in rw other (omega arith)
]

count_all-tally :
    (cs : List JobCount) (js : List Job) (j : Job)
    → tally (count_all cs js) j ≡ number js j + tally cs j
unfolding count_all
count_all-tally cs [] j = omega arith
count_all-tally cs (i ∷ js) j =
    count_all-tally (count_job cs i) js j ∙ omega (arith, count_job-tally cs i j)

count_all-total :
    (cs : List JobCount) (js : List Job) → total (count_all cs js) ≡ length js + total cs
unfolding count_all
count_all-total cs [] = omega arith
count_all-total cs (i ∷ js) =
    count_all-total (count_job cs i) js ∙ omega (arith, count_job-total cs i)

insert_count-tally :
    (c : JobCount) (cs : List JobCount) (j : Job)
    → (tally (insert_count c cs) j ≡ tally (c ∷ cs) j)
      × (total (insert_count c cs) ≡ total (c ∷ cs))
unfolding insert_count
insert_count-tally c [] j = (refl, refl)
insert_count-tally c (d ∷ ds) j = elim (Bool-cases (counts_before c d)) [
  | inl first ↦ rw first (refl, refl)
  | inr later ↦ let (ih, all) = insert_count-tally c ds j in rw later (omega arith, omega arith)
]

sort_counts-tally :
    (cs : List JobCount) (j : Job)
    → (tally (sort_counts cs) j ≡ tally cs j) × (total (sort_counts cs) ≡ total cs)
unfolding sort_counts
sort_counts-tally [] j = (refl, refl)
sort_counts-tally (c ∷ cs) j =
    let (t, all) = insert_count-tally c (sort_counts cs) j in
    let (ih, rest) = sort_counts-tally cs j in (omega arith, omega arith)

-- CountJobs reports, for the user, account and partition of any job, as many jobs as there are with these
-- three, and in all as many jobs as it was given.
pub count_jobs-tally :
    (js : List Job) (j : Job)
    → (tally (count_jobs js) j ≡ number js j) × (total (count_jobs js) ≡ length js)
unfolding count_jobs
count_jobs-tally js j =
    let (t, all) = sort_counts-tally (count_all [] js) j in
    (t ∙ count_all-tally [] js j ∙ omega arith, all ∙ count_all-total [] js ∙ omega arith)
