-- ===== src/Plans/Serving.antt =====
-- The state of a call of the MCP server (internal/mcpserver/server.go, plan.go): the world, the plans, the
-- audit log and the call's own audit entry, which its steps fill in. `configure` is `s.app`: the
-- configuration as it reads now. `unwritable` is what the audit log's file says to one more line.
use clusterctl.Prelude.{
  ℕ, false, Option, none, some, List, [], ◌∷◌, ◌++◌, Bytes, Result, ok, err, codes,
}
use clusterctl.ExitCode.{Error, nil, cons, within, several, usage}
use clusterctl.NodeSet.{NodeSets}
use clusterctl.Safety.{Gate, Action, Preview, preview}
use clusterctl.Safety.Answer.{refusal_error}
use clusterctl.Slurm.Act.{Doing, refusal}
use clusterctl.Plans.{Plan}
use clusterctl.Plans.Store.{Store, get_at}
use clusterctl.Plans.Changing.{App}

-- what an audit entry says of how a call ended; the empty text is `open`
pub data Outcome : Type 0 where
  open_ planned applying applied : Outcome
  refused declined not_applied failed : Error → Outcome

-- auditEntry, without the time, the trace and the context
pub record Entry : Type 0 where
  pub event : Bytes
  pub plan : Bytes
  pub action : Bytes
  pub nodes : Bytes
  pub count : ℕ
  pub detail : Bytes
  pub outcome : Outcome

module _ (n : NodeSets) where
  pub record Running (W : Type 0) : Type 0 where
    pub world : W
    pub store : Store n
    pub audit : List Entry
    pub entry : Entry

  -- the error of the gate; `none` does not occur
  abbrev pub error_of : Option Error → Error
  error_of none = refusal usage "refused"
  error_of (some e) = e

  -- Preview of a gate, with its error
  unfoldable pub gate_preview : Gate n → Action n → Result Error (Preview n)
  unfolding preview refusal_error
  gate_preview g a = elim (preview n g a) [
    | ok p ↦ ok p
    | err r ↦ err (error_of (refusal_error n (λ _. false) r))
  ]

  module _ {W : Type 0} where
    -- a step on the world
    abbrev pub on_world : {A : Type 0} → (W → Result Error A × W) → Doing (Running W) A
    on_world f = λ s. let (r, w) = f s.world in (r, record s { world = w })

    -- a step on the plans
    abbrev pub on_store : {A : Type 0} → (Store n → Result Error A × Store n) → Doing (Running W) A
    on_store f = λ s. let (r, t) = f s.store in (r, record s { store = t })

    -- a step on the plans that has no error
    abbrev pub with_store : {A : Type 0} → (Store n → A × Store n) → Doing (Running W) A
    with_store f = λ s. let (a, t) = f s.store in (ok a, record s { store = t })

    -- what is filled into the call's entry
    abbrev pub note : (Entry → Entry) → Doing (Running W) (Unit {0})
    note f = λ s. (ok tt, record s { entry = f s.entry })

    -- the fields of the plan that a pointer leads to
    unfoldable pub plan_at : ℕ → Doing (Running W) (Plan n)
    unfolding get_at
    plan_at i s = elim (get_at s.store.heap i) as (λ _. Result Error (Plan n) × Running W) [
      | none ↦ (err (refusal usage "a pointer to no plan"), s)
      | some p ↦ (ok p, s)
    ]

    module _ (configure : W → Result Error (App n W)) (unwritable : W → Option Error) where
      -- app
      unfoldable pub app : Doing (Running W) (App n W)
      app s = (configure s.world, s)

      -- record, of the call's entry
      unfoldable pub record_entry : Doing (Running W) (Unit {0})
      record_entry s = elim (unwritable s.world) as (λ _. Result Error (Unit {0}) × Running W) [
        | some e ↦ (err (within (codes "the audit log cannot be written") e), s)
        | none ↦ (ok tt, record s { audit = s.audit ++ s.entry ∷ [] })
      ]

      -- refusal: the error of a call, once the entry that says so is recorded
      unfoldable pub refusal_of : Error → Running W → Error × Running W
      unfolding record_entry
      refusal_of e s =
          let (recorded, next) = record_entry s in
          elim recorded as (λ _. Error × Running W) [
            | ok _ ↦ (e, next)
            | err missing ↦ (several [] (cons e (cons missing nil)), next)
          ]
