-- ===== src/Plans/Changing.antt =====
-- Carrying a change out through a Slurm client, and against a recorder (internal/mcpserver/plan.go,
-- internal/transport/fake.go, `exec` of internal/slurm/slurm.go for what is sent).
use clusterctl.Prelude.{ℕ, Bool, false, List, [], map, Bytes, Result, ok, err, ltb, if◌then◌else◌}
use clusterctl.ExitCode.{Error, coded, usage}
use clusterctl.NodeSet.{NodeSets}
use clusterctl.Fanout.{Target}
use clusterctl.Safety.{Gate}
use clusterctl.Slurm.Act.{Act, Session}
use clusterctl.Slurm.Client.{Client, Run}
use clusterctl.Slurm.Update
use clusterctl.Transport.{Request, Call, answer, describe}
use clusterctl.Plans.{Change, drain, resume}

-- timeout of the client, in milliseconds
abbrev pub timeout_of : ℕ → ℕ
timeout_of t = if ltb 0 t then t else 120000

-- the request of `exec`
abbrev pub request : ℕ → List Bytes → Request
request t argv = record { argv = argv; script = []; timeout = timeout_of t; no_shell = false }

-- the runner of a recorder, in a world that has the calls it has recorded
unfoldable pub recorder : {W : Type 0} → Target → ℕ → Run (W × List Call)
unfolding answer
recorder target t argv (w, calls) =
    let (answered, next) = answer target (request t argv) calls in (answered, (w, next))

-- the reader of a client, which a recorder does not replace
unfoldable pub beside : {W : Type 0} → Run W → Run (W × List Call)
beside run argv (w, calls) = let (answered, next) = run argv w in (answered, (next, calls))

module _ (n : NodeSets) where
  open n use {NodeSet}

  -- app.App and its Slurm client, what plans read of them; `ssh_ready` is the error of `ConfigPath`
  pub record App (W : Type 0) : Type 0 where
    pub cluster_name : Bytes
    pub gate : Gate n
    pub select : Bytes → Result Error NodeSet
    pub client : Result Error (Client W)
    pub target : Target
    pub timeout : ℕ
    pub ssh_ready : Result Error (Unit {0})

  module _ (is_utf8 : Bytes → Bool) (runes : Bytes → List ℕ) (token : Bytes) where
    -- run of a change
    unfoldable pub run_change :
        {W : Type 0} → Client W → Change → NodeSet → Bytes → Act W (Unit {0})
    unfolding Update.drain Update.resume
    run_change c drain ns reason = Update.drain is_utf8 runes n c token ns reason
    run_change c resume ns reason = Update.resume is_utf8 runes n c token ns

    -- `dry := *c; dry.Runner = recorder`
    abbrev pub dry_client : {W : Type 0} → App W → Client W → Client (W × List Call)
    dry_client a c = record {
      runner = recorder a.target a.timeout;
      reader = beside c.reader;
      spec = c.spec;
    }

    -- what a dry run of a change ends with: its calls, described, or the error
    abbrev pub described :
        {W : Type 0}
        → Result Error (Unit {0}) × Session (W × List Call)
        → Result Error (List Bytes) × W
    described (ok done, s) = (ok (map describe s.world.1), s.world.0)
    described (err e, s) = (err (coded usage e), s.world.0)

    -- a change run against a new recorder
    unfoldable pub dry_run :
        {W : Type 0}
        → App W
        → Client W
        → Change
        → NodeSet
        → Bytes
        → W
        → Result Error (List Bytes) × W
    unfolding run_change recorder beside describe
    dry_run a c ch ns reason w =
        described
          (run_change (dry_client a c) ch ns reason (record { world = (w, []); cluster = [] }))
