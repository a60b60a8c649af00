-- ===== src/Plans/Preparing.antt =====
-- plan_change of internal/mcpserver/plan.go: planChange and preparePlan. The check of the nodes and the
-- two reads of their state, which run side by side, are made one after the other. `quoted` is `%q`, and
-- `random` the random id of the plan.
use clusterctl.Prelude.{
  ℕ, Bool, false, Option, none, some, List, [], ◌++◌, Bytes, Result, ok, err, codes, eqb,
  if◌then◌else◌,
}
use clusterctl.ExitCode.{Error, nil, cons, several, usage}
use clusterctl.NodeSet.{NodeSets}
use clusterctl.Safety.{Action, Preview}
use clusterctl.ShellQuote.{join}
use clusterctl.Slurm.Act.{Act, Doing, ◌>>=◌, ◌>>◌, pure, lift, refusal}
use clusterctl.Slurm.Client.{Client}
use clusterctl.Slurm.State.{Node}
use clusterctl.Slurm.Nodes.{check_nodes, nodes}
use clusterctl.Slurm.Queue.{Job, jobs_of}
use clusterctl.Plans.{Change, find_change, verb, plan_reason, argv, Terms}
use clusterctl.Plans.Store.{add}
use clusterctl.Plans.Changing.{App, dry_run}
use clusterctl.Plans.Serving.{
  Entry, open_, planned, refused, Running, gate_preview, on_world, with_store, note, app,
  record_entry, refusal_of,
}
use clusterctl.Plans.Warning.{Warning, states_of, warn}

-- planInput
pub record PlanInput : Type 0 where
  pub action : Bytes
  pub nodes : Bytes
  pub reason : Bytes

-- `changes[in.Action]`, or the error that there is none
unfoldable pub chosen : Bytes → Result Error Change
unfolding find_change
chosen action = elim (find_change action) [
  | some ch ↦ ok ch
  | none ↦ err (refusal usage "unknown action; plan_change offers drain, resume")
]

module _ (n : NodeSets) where
  open n use {NodeSet, folded, len}

  -- the state of the nodes that a plan shows: their states and the warnings, or why there is none
  pub data Shown : Type 0 where
    unread : Error → Shown
    current : List (Bytes × Bytes) → List (Warning NodeSet) → Shown

  -- planOutput, past what the preview has
  pub record PlanOutput : Type 0 where
    pub terms : Terms n
    pub command_line : Bytes
    pub shown : Shown

  -- errors.Join of the errors of the two reads
  unfoldable pub shown_of :
      Change → NodeSet → Result Error (List Node) → Result Error (List Job) → Shown
  unfolding states_of warn
  shown_of ch ns (ok found) (ok js) = current (states_of n found) (warn n ch found js ns)
  shown_of ch ns (ok found) (err e) = unread (several [] (cons e nil))
  shown_of ch ns (err e) (ok js) = unread (several [] (cons e nil))
  shown_of ch ns (err e) (err f) = unread (several [] (cons e (cons f nil)))

  module _ {W : Type 0} (is_utf8 : Bytes → Bool) (runes : Bytes → List ℕ) (quoted : Bytes → Bytes)
      (token : Bytes) (configure : W → Result Error (App n W)) (unwritable : W → Option Error) where
    -- a step of the Slurm client, which is new
    abbrev pub on_client : {A : Type 0} → Act W A → Doing (Running n W) A
    on_client m s =
        let (r, t) = m (record { world = s.world; cluster = [] }) in
        (r, record s { world = t.world })

    -- the outcome of a step, error or not, which does not end the call
    abbrev pub outcome_of :
        {A : Type 0} → Doing (Running n W) A → Doing (Running n W) (Result Error A)
    outcome_of m s = let (r, t) = m s in (ok r, t)

    unfoldable pub detail_of : Bytes → Bytes
    detail_of reason = if eqb reason [] then [] else codes "reason: " ++ quoted reason

    unfoldable pub asked_action : Change → NodeSet → Bytes → Action n
    unfolding verb detail_of
    asked_action ch ns reason = record {
      verb = verb ch;
      targets = some ns;
      detail = detail_of reason;
      not_nodes = false;
    }

    -- the first part of `preparePlan`: the hosts, let through by the gate
    unfoldable pub select_hosts :
        PlanInput → Change → Bytes → Doing (Running n W) (App n W × NodeSet × Preview n)
    unfolding app asked_action gate_preview
    select_hosts r ch reason = do
      a ← app n configure unwritable
      ns ← lift (a.select r.nodes)
      note n (λ e. record e { nodes = folded ns; count = len ns; detail = detail_of reason })
      preview ← lift (gate_preview n a.gate (asked_action ch ns reason))
      pure (a, ns, preview)

    -- the second part: what Slurm says of the hosts
    unfoldable pub look_at : Client W → Change → NodeSet → Doing (Running n W) Shown
    unfolding check_nodes nodes jobs_of shown_of
    look_at c ch ns = do
      on_client (check_nodes n c ns)
      found ← outcome_of (on_client (nodes n c token (some ns) []))
      js ←
          outcome_of
            (on_client (jobs_of n c token (record { states = []; users = []; on_nodes = some ns })))
      pure (shown_of ch ns found js)

    -- preparePlan
    unfoldable pub prepare_plan : PlanInput → Bytes → Doing (Running n W) PlanOutput
    unfolding chosen plan_reason select_hosts look_at dry_run argv join
    prepare_plan r random = do
      ch ← lift (chosen r.action)
      reason ← lift (plan_reason is_utf8 runes ch r.reason)
      (a, ns, preview) ← select_hosts r ch reason
      c ← lift a.client
      shown ← look_at c ch ns
      commands ← on_world n (dry_run n is_utf8 runes token a c ch ns reason)
      note n (λ e. record e {
        nodes = preview.targets;
        count = preview.count;
        detail = preview.detail;
      })
      pure (record {
        terms = record {
          id = random;
          action = ch;
          nodes = ns;
          reason = reason;
          preview = preview;
          cluster = a.cluster_name;
          commands = commands;
        };
        command_line = join (argv n ch ns reason);
        shown = shown;
      })

    -- the audit entry that a call starts with
    abbrev pub plan_entry : PlanInput → Entry
    plan_entry r = record {
      event = codes "plan";
      plan = [];
      action = r.action;
      nodes = r.nodes;
      count = 0;
      detail = [];
      outcome = open_;
    }

    -- the end of `planChange`: a plan that cannot be recorded is not offered
    unfoldable pub offer : PlanOutput → Doing (Running n W) PlanOutput
    unfolding record_entry add
    offer out = do
      note n (λ e. record e { plan = out.terms.id; outcome = planned })
      record_entry n configure unwritable
      with_store n (λ s. (tt, add n out.terms s))
      pure out

    -- planChange
    unfoldable pub plan_change : PlanInput → Bytes → Doing (Running n W) PlanOutput
    unfolding prepare_plan offer refusal_of
    plan_change r random s =
        let (made, next) = prepare_plan r random (record s { entry = plan_entry r }) in
        elim made as (λ _. Result Error PlanOutput × Running n W) [
          | ok out ↦ offer out next
          | err e ↦
              let told = record next { entry = record next.entry { outcome = refused e } } in
              let (failure, last) = refusal_of n configure unwritable e told in (err failure, last)
        ]
