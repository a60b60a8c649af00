-- ===== src/Plans/Applying.antt =====
-- apply_plan of internal/mcpserver/plan.go: applyPlan, apply and execute. The messages are without what is
-- formatted into them. The deadline of `execute` is left out.
use clusterctl.Prelude.{
  ℕ, Bool, true, false, Option, none, some, List, [], Bytes, Result, ok, err, codes, eqb,
}
use clusterctl.ExitCode.{Error, within, coded, usage, target_failed}
use clusterctl.NodeSet.{NodeSets}
use clusterctl.Safety.{Preview}
use clusterctl.Slurm.Act.{Doing, ◌>>=◌, ◌>>◌, pure, lift, refusal}
use clusterctl.Slurm.Client.{Client}
use clusterctl.Plans.{verb, Plan, Terms}
use clusterctl.Plans.Store.{get, take}
use clusterctl.Plans.Changing.{App, run_change, dry_run}
use clusterctl.Plans.Serving.{
  Outcome, Entry, open_, applying, applied, refused, not_applied, failed, Running, gate_preview,
  on_world, on_store, with_store, note, plan_at, app, record_entry, refusal_of,
}
use clusterctl.Plans.Asking.{
  ApplyInput, Form, Reply, input_required, done, Ready, Stand, asking, ready, action_of, repeats,
  equal_texts, check_that, confirm_if,
}

module _ (n : NodeSets) (yes_word : Bytes → Bool) {W : Type 0} where
  module _ (is_utf8 : Bytes → Bool) (runes : Bytes → List ℕ) (token : Bytes)
      (configure : W → Result Error (App n W)) (unwritable : W → Option Error) (elicit : Bool) where
    -- the entry of a call on this plan
    abbrev pub about : Terms n → Entry → Entry
    about t e = record e {
      nodes = t.preview.targets;
      count = t.preview.count;
      detail = t.preview.detail;
    }

    -- the first part of `apply`: the plan of the call, which the call repeats
    unfoldable pub find_plan : ApplyInput → Doing (Running n W) (ℕ × Plan n)
    unfolding get plan_at repeats verb
    find_plan r = do
      i ← on_store n (get n r.plan_id)
      p ← plan_at n i
      note n (λ e. record e { action = verb p.terms.action })
      check_that (repeats n p.terms r.nodes r.count)
          (refusal usage "the plan is for other hosts; repeat the plan exactly")
      note n (about p.terms)
      pure (i, p)

    -- the second part: the configuration, as it reads now, still names the cluster of the plan and has its
    -- gate let the hosts of the plan through
    unfoldable pub same_hosts : Plan n → Doing (Running n W) (Preview n × App n W)
    unfolding app gate_preview action_of repeats
    same_hosts p = do
      a ← app n configure unwritable
      check_that (eqb a.cluster_name p.terms.cluster)
          (refusal usage "the context now names another cluster; make a new plan")
      now ← lift (gate_preview n a.gate (action_of n p.terms))
      check_that (repeats n p.terms now.targets now.count)
          (refusal usage "the gate now reads other hosts; make a new plan")
      pure (now, a)

    -- the third part: the Slurm client would still send the commands of the plan
    unfoldable pub same_commands : Plan n → App n W → Doing (Running n W) (Client W)
    unfolding dry_run equal_texts
    same_commands p a = do
      c ← lift a.client
      commands ←
          on_world n (dry_run n is_utf8 runes token a c p.terms.action p.terms.nodes p.terms.reason)
      check_that (equal_texts commands p.terms.commands)
          (refusal usage "the configuration now sends other commands; make a new plan")
      pure c

    -- what stands once the question was put or answered
    abbrev pub stand_of : ℕ → Plan n → App n W → Client W → Option (Form n × Bytes) → Stand n W
    stand_of i p a c none = ready (record { place = i; plan = p; client = c; app = a })
    stand_of i p a c (some (form, state)) = asking form state

    -- `apply` from the confirmation on, up to the question and its answer
    unfoldable pub have_confirmed :
        ApplyInput → ℕ → Plan n → Preview n → App n W → Client W → Doing (Running n W) (Stand n W)
    unfolding confirm_if
    have_confirmed r i p now a c = do
      asked ← confirm_if n yes_word elicit r i now a.cluster_name
      pure (stand_of i p a c asked)

    -- `apply` from the Slurm client on
    unfoldable pub with_app :
        ApplyInput → ℕ → Plan n → Preview n → App n W → Doing (Running n W) (Stand n W)
    unfolding same_commands have_confirmed
    with_app r i p now a = do c ← same_commands p a; have_confirmed r i p now a c

    -- `apply` from the reading of the configuration on
    unfoldable pub with_plan : ApplyInput → ℕ → Plan n → Doing (Running n W) (Stand n W)
    unfolding same_hosts with_app
    with_plan r i p = do (now, a) ← same_hosts p; with_app r i p now a

    -- `apply`, up to the question and its answer
    unfoldable pub stand : ApplyInput → Doing (Running n W) (Stand n W)
    unfolding find_plan with_plan
    stand r = do (i, p) ← find_plan r; with_plan r i p

    -- execute
    unfoldable pub execute : Ready n W → Doing (Running n W) (Unit {0})
    unfolding run_change
    execute x s =
        let (ran, next) =
          run_change n is_utf8 runes token x.client x.plan.terms.action x.plan.terms.nodes
            x.plan.terms.reason (record { world = s.world; cluster = [] }) in
        (
          elim ran [ ok _ ↦ ok tt | err e ↦ err (coded target_failed e) ],
          record s { world = next.world },
        )

    -- a call's entry with this outcome
    abbrev pub ends : Outcome → Doing (Running n W) (Unit {0})
    ends o = note n (λ e. record e { outcome = o })

    -- a step whose error the entry tells, and the caller's error for it
    abbrev pub or_ends :
        {A : Type 0}
        → (Error → Outcome)
        → (Error → Error)
        → Doing (Running n W) A
        → Doing (Running n W) A
    or_ends {A} outcome wrapped m s =
        let (r, next) = m s in
        elim r as (λ _. Result Error A × Running n W) [
          | ok a ↦ (ok a, next)
          | err e ↦
              (err (wrapped e), record next { entry = record next.entry { outcome = outcome e } })
        ]

    -- the plan is taken, and the taking is recorded
    unfoldable pub take_up : Ready n W → Doing (Running n W) (Unit {0})
    unfolding take record_entry
    take_up x = do
      lift x.app.ssh_ready
      won ← with_store n (take n x.place)
      check_that won (refusal usage "the plan was applied already")
      ends applying
      or_ends not_applied (within (codes "nothing was sent, and the plan is used up"))
          (record_entry n configure unwritable)

    -- the last part of `apply`: the change is sent, and its end is recorded, if it can be
    unfoldable pub carry_out : Ready n W → Doing (Running n W) (Reply n)
    unfolding execute record_entry
    carry_out x = do
      or_ends failed (λ e. e) (execute x)
      ends applied
      λ s.
          let (recorded, next) = record_entry n configure unwritable s in
          (ok (done (elim recorded [ ok _ ↦ true | err _ ↦ false ])), next)

    -- apply, past the question
    unfoldable pub proceed : Stand n W → Doing (Running n W) (Reply n)
    unfolding take_up carry_out
    proceed (asking form state) = pure (input_required form state)
    proceed (ready x) = do take_up x; carry_out x

    -- apply
    unfoldable pub apply : ApplyInput → Doing (Running n W) (Reply n)
    unfolding stand proceed
    apply r = do x ← stand r; proceed x

    -- an entry that says how the call ended, when no step has
    abbrev pub or_refused : Error → Outcome → Outcome
    or_refused e open_ = refused e
    or_refused e o = o

    -- what a call that ends with an error records
    unfoldable pub refuse_call : Error → Running n W → Result Error (Reply n) × Running n W
    unfolding refusal_of
    refuse_call e s =
        let told = record s { entry = record s.entry { outcome = or_refused e s.entry.outcome } } in
        let (failure, next) = refusal_of n configure unwritable e told in (err failure, next)

    -- the audit entry that a call starts with
    abbrev pub apply_entry : ApplyInput → Entry
    apply_entry r = record {
      event = codes "apply";
      plan = r.plan_id;
      action = [];
      nodes = r.nodes;
      count = r.count;
      detail = [];
      outcome = open_;
    }

    -- applyPlan
    unfoldable pub apply_plan : ApplyInput → Doing (Running n W) (Reply n)
    unfolding apply refuse_call
    apply_plan r s =
        let (result, next) = apply r (record s { entry = apply_entry r }) in
        elim result as (λ _. Result Error (Reply n) × Running n W) [
          | ok reply ↦ (ok reply, next)
          | err e ↦ refuse_call e next
        ]
