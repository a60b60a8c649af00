-- ===== src/Plans/Reads.antt =====
-- What a dry run of a change (internal/mcpserver/plan.go) does to the world: it runs the reader of the
-- client, and nothing else.
use clusterctl.Prelude.{
  ℕ, Bool, Option, none, some, List, [], Bytes, Result, ok, err, ◌≡◌, refl, inl, inr, Result-cases,
}
use clusterctl.ExitCode.{Error}
use clusterctl.NodeSet.{NodeSets}
use clusterctl.Fanout.{Target}
use clusterctl.Slurm.Act.{Act, Session, next_of, require}
use clusterctl.Slurm.Client.{Client, Run, exec_both, exec, change, read}
use clusterctl.Slurm.Inverting.{next_of-keeps}
use clusterctl.Slurm.State.{Node}
use clusterctl.Slurm.Nodes.{nodes, refuse_all}
use clusterctl.Slurm.Update
use clusterctl.Slurm.Update.{validate_reason, read_back, update}
use clusterctl.Transport.{Call}
use clusterctl.Plans.{Change, drain, resume}
use clusterctl.Plans.Changing.{App, recorder, beside, run_change, dry_client, dry_run, described}

-- the worlds that running commands through a reader leads to
pub data Reads {W : Type 0} (run : Run W) (w : W) : W → Type 0 where
  unread : Reads run w w
  and_read : {v u : W} (argv : List Bytes) → Reads run w v → u ≡ (run argv v).1 → Reads run w u

module _ {W : Type 0} (reader : Run W) (w : W) where
  -- so far there were only reads
  abbrev OnlyReads : Session (W × List Call) → Type 0
  OnlyReads s = Reads reader w s.world.0

  -- a step that makes only reads
  abbrev Keeps : {A : Type 0} → Act (W × List Call) A → Type 0
  Keeps {A} m = (s : Session (W × List Call)) → OnlyReads s → OnlyReads (m s).1

  exec-Keeps :
      (run : Run (W × List Call)) (argv : List Bytes)
      → ((x : W × List Call) → Reads reader w x.0 → Reads reader w (run argv x).1.0)
      → Keeps (exec run argv)
  unfolding exec exec_both
  exec-Keeps run argv k s h = elim (Result-cases (run argv s.world).0) [
    | inl (r, ran) ↦ rw (exec, exec_both, ran) (k s.world h)
    | inr (e, ran) ↦ rw (exec, exec_both, ran) (k s.world h)
  ]

  recorder-Reads :
      (target : Target) (t : ℕ) (argv : List Bytes) (x : W × List Call)
      → Reads reader w x.0
      → Reads reader w (recorder target t argv x).1.0
  unfolding recorder
  recorder-Reads target t argv (v, calls) h = h

  beside-Reads :
      (argv : List Bytes) (x : W × List Call)
      → Reads reader w x.0
      → Reads reader w (beside reader argv x).1.0
  unfolding beside
  beside-Reads argv (v, calls) h = and_read argv h refl

  require-Keeps : (o : Option Error) → Keeps (require o)
  require-Keeps none s h = h
  require-Keeps (some e) s h = h

module _ (n : NodeSets) (is_utf8 : Bytes → Bool) (runes : Bytes → List ℕ) (token : Bytes)
    {W : Type 0} (a : App n W) (c : Client W) (w : W) where
  abbrev dry_one : Client (W × List Call)
  dry_one = dry_client n is_utf8 runes token a c

  change-Keeps : (argv : List Bytes) → Keeps c.reader w (change dry_one argv)
  unfolding change
  change-Keeps argv s h =
      next_of-keeps (OnlyReads c.reader w) (OnlyReads c.reader w) _ (exec dry_one.runner argv s)
        (exec-Keeps c.reader w dry_one.runner argv
          (recorder-Reads c.reader w a.target a.timeout argv) s h)
        (λ t k. k) (λ r t k. k)

  nodes-Keeps : (ns : n.NodeSet) → Keeps c.reader w (nodes n dry_one token (some ns) [])
  unfolding nodes read
  nodes-Keeps ns s h =
      let only = OnlyReads c.reader w in
      next_of-keeps only only _ (read dry_one _ s)
        (exec-Keeps c.reader w dry_one.reader _ (beside-Reads c.reader w _) s h) (λ t k. k)
        (λ r t k. next_of-keeps only only _ _ k (λ u q. q) (λ rows u q. q))

  read_back-Keeps :
      (ns : n.NodeSet) (failed : Error) (changed : Node → Bool)
      → Keeps c.reader w (read_back is_utf8 runes n dry_one token ns failed changed)
  unfolding read_back
  read_back-Keeps ns failed changed s h =
      let kept = nodes-Keeps ns s h in
      elim (Result-cases (nodes n dry_one token (some ns) [] s).0) [
        | inl (now, found) ↦ rw (read_back, found) kept
        | inr (e, found) ↦ rw (read_back, found) kept
      ]

  update-Keeps :
      (ns : n.NodeSet) (argv : List Bytes) (changed : Node → Bool)
      → Keeps c.reader w (update is_utf8 runes n dry_one token ns argv changed)
  unfolding update
  update-Keeps ns argv changed s h =
      let kept = change-Keeps argv s h in
      elim (Result-cases (change dry_one argv s).0) [
        | inl (done, ran) ↦ rw (update, ran) kept
        | inr (e, ran) ↦ rw (update, ran) (read_back-Keeps ns e changed _ kept)
      ]

  required-Keeps :
      {A : Type 0} (o : Option Error) (m : Act (W × List Call) A)
      → Keeps c.reader w m
      → Keeps c.reader w (λ s. next_of (λ (_ : Unit {0}). m) (require o s))
  required-Keeps o m k s h =
      next_of-keeps (OnlyReads c.reader w) (OnlyReads c.reader w) _ (require o s)
        (require-Keeps c.reader w o s h) (λ t q. q) (λ u t q. k t q)

  run_change-Keeps :
      (ch : Change) (ns : n.NodeSet) (reason : Bytes)
      → Keeps c.reader w (run_change n is_utf8 runes token dry_one ch ns reason)
  unfolding run_change Update.drain Update.resume
  run_change-Keeps drain ns reason s h =
      required-Keeps (validate_reason is_utf8 runes reason) _
        (required-Keeps (refuse_all n ns) _ (update-Keeps ns _ _)) s h
  run_change-Keeps resume ns reason s h =
      required-Keeps (refuse_all n ns) _ (update-Keeps ns _ _) s h

  described-world :
      (m : Result Error (Unit {0}) × Session (W × List Call))
      → (described n is_utf8 runes token m).1 ≡ m.1.world.0
  described-world (ok u, s) = refl
  described-world (err e, s) = refl

  -- A dry run leads only where reads through the reader of the client lead.
  pub dry_run-Reads :
      (ch : Change) (ns : n.NodeSet) (reason : Bytes)
      → Reads c.reader w (dry_run n is_utf8 runes token a c ch ns reason w).1
  unfolding dry_run
  dry_run-Reads ch ns reason =
      let start : Session (W × List Call) = record { world = (w, []); cluster = [] } in
      rw (described-world (run_change n is_utf8 runes token dry_one ch ns reason start))
        (run_change-Keeps ch ns reason start unread)
