-- ===== src/Plans/Carrying.antt =====
-- A plan of internal/mcpserver/plan.go that stands is carried out.
use clusterctl.Prelude.{
  ℕ, Bool, true, false, Option, none, some, List, [], ◌∷◌, Bytes, Result, ok, ◌≡◌, refl, ap, ◌∙◌,
  eqb, eqb_iff, eqb_refl,
}
use clusterctl.ExitCode.{Error}
use clusterctl.NodeSet.{NodeSets}
use clusterctl.Safety.{Preview}
use clusterctl.Slurm.Act.{Doing, next_of}
use clusterctl.Slurm.Client.{Client}
use clusterctl.Plans.{Plan}
use clusterctl.Plans.Store.{get, get_at}
use clusterctl.Plans.Changing.{App}
use clusterctl.Plans.Serving.{Running, plan_at, app}
use clusterctl.Plans.Asking.{Ready, ApplyInput, Stand, ready, confirm_if, repeats, equal_texts}
use clusterctl.Plans.Standing.{dry, MeansSame, SendsSame}
use clusterctl.Plans.Sending.{sent_by, next_of-first, proceed-world}
use clusterctl.Plans.Applying.{
  find_plan, same_hosts, same_commands, have_confirmed, with_app, with_plan, stand, proceed, apply,
}

module _ (n : NodeSets) (yes_word : Bytes → Bool) {W : Type 0} (is_utf8 : Bytes → Bool)
    (runes : Bytes → List ℕ) (token : Bytes) (configure : W → Result Error (App n W))
    (unwritable : W → Option Error) (elicit : Bool) where
  find_plan-runs :
      (r : ApplyInput) (s : Running n W) (i : ℕ) (p : Plan n)
      → (get n r.plan_id s.store).0 ≡ ok i
      → get_at (get n r.plan_id s.store).1.heap i ≡ some p
      → repeats n p.terms r.nodes r.count ≡ true
      → ((find_plan n yes_word is_utf8 runes token configure unwritable elicit r s).0 ≡ ok (i, p))
        × ((find_plan n yes_word is_utf8 runes token configure unwritable elicit r s).1.world
            ≡ s.world)
        × ((find_plan n yes_word is_utf8 runes token configure unwritable elicit r s).1.store
            ≡ (get n r.plan_id s.store).1)
  unfolding find_plan plan_at
  find_plan-runs r s i p g found same = (
    rw (find_plan, g, plan_at, found, same) refl,
    rw (find_plan, g, plan_at, found, same) refl,
    rw (find_plan, g, plan_at, found, same) refl,
  )

  same_hosts-runs :
      (p : Plan n) (s : Running n W) (now : Preview n) (a : App n W)
      → MeansSame n yes_word is_utf8 runes token configure unwritable elicit p s.world now a
      → same_hosts n yes_word is_utf8 runes token configure unwritable elicit p s ≡ (ok (now, a), s)
  unfolding same_hosts app MeansSame
  same_hosts-runs p s now a (conf, name, gate, same) =
      let named : eqb a.cluster_name p.terms.cluster ≡ true =
        (eqb_iff a.cluster_name p.terms.cluster).1 name in
      rw (same_hosts, app, conf, named, gate, same) refl

  equal_texts_refl : (ts : List Bytes) → equal_texts ts ts ≡ true
  unfolding equal_texts
  equal_texts_refl [] = refl
  equal_texts_refl (t ∷ ts) = rw (eqb_refl t) (equal_texts_refl ts)

  same_commands-runs :
      (p : Plan n) (a : App n W) (s : Running n W) (c : Client W)
      → SendsSame n yes_word is_utf8 runes token configure unwritable elicit p s.world a c
      → same_commands n yes_word is_utf8 runes token configure unwritable elicit p a s ≡ (
        ok c,
        record s {
          world = (dry n yes_word is_utf8 runes token configure unwritable elicit a c p s.world).1;
        },
      )
  unfolding same_commands SendsSame
  same_commands-runs p a s c (reads, sends) =
      let same : equal_texts p.terms.commands p.terms.commands ≡ true =
        equal_texts_refl p.terms.commands in
      rw (same_commands, reads, sends, same) refl

  have_confirmed-runs :
      (r : ApplyInput) (i : ℕ) (p : Plan n) (now : Preview n) (a : App n W) (c : Client W)
      (s : Running n W)
      → elicit ≡ false
      → have_confirmed n yes_word is_utf8 runes token configure unwritable elicit r i p now a c s
        ≡ (ok (ready (record { place = i; plan = p; client = c; app = a })), s)
  unfolding have_confirmed confirm_if
  have_confirmed-runs r i p now a c s e = rw (have_confirmed, confirm_if, e) refl

  Running-means :
      (p : Plan n) (v w : W) (now : Preview n) (a : App n W) (c : Client W)
      → v ≡ w
      → MeansSame n yes_word is_utf8 runes token configure unwritable elicit p w now a
      → SendsSame n yes_word is_utf8 runes token configure unwritable elicit p w a c
      → MeansSame n yes_word is_utf8 runes token configure unwritable elicit p v now a
        × SendsSame n yes_word is_utf8 runes token configure unwritable elicit p v a c
  Running-means p v w now a c e h k = (rw e h, rw e k)

  -- the world that the dry run of a plan leaves
  abbrev pub dried : App n W → Client W → Plan n → W → W
  dried a c p w = (dry n yes_word is_utf8 runes token configure unwritable elicit a c p w).1

  stand-runs :
      (r : ApplyInput) (s : Running n W) (i : ℕ) (p : Plan n) (now : Preview n) (a : App n W)
      (c : Client W)
      → (get n r.plan_id s.store).0 ≡ ok i
      → get_at (get n r.plan_id s.store).1.heap i ≡ some p
      → repeats n p.terms r.nodes r.count ≡ true
      → MeansSame n yes_word is_utf8 runes token configure unwritable elicit p s.world now a
      → SendsSame n yes_word is_utf8 runes token configure unwritable elicit p s.world a c
      → elicit ≡ false
      → (t : Running n W) × (stand n yes_word is_utf8 runes token configure unwritable elicit r s
          ≡ (ok (ready (record { place = i; plan = p; client = c; app = a })), t))
        × (t.world ≡ dried a c p s.world)
        × (t.store ≡ (get n r.plan_id s.store).1)
  unfolding stand with_plan with_app
  stand-runs r s i p now a c g found same means sends quiet =
      let (ok_plan, world, store) = find_plan-runs r s i p g found same in
      let s1 = (find_plan n yes_word is_utf8 runes token configure unwritable elicit r s).1 in
      let (means1, sends1) = Running-means p s1.world s.world now a c world means sends in
      let s2 = record s1 { world = dried a c p s1.world } in
      let after_plan : ℕ × Plan n → Doing (Running n W) (Stand n W) =
        λ (i, p). with_plan n yes_word is_utf8 runes token configure unwritable elicit r i p in
      let after_app : Preview n × App n W → Doing (Running n W) (Stand n W) = λ (now, a).
        with_app n yes_word is_utf8 runes token configure unwritable elicit r i p now a in
      let after_client : Client W → Doing (Running n W) (Stand n W) = λ c.
        have_confirmed n yes_word is_utf8 runes token configure unwritable elicit r i p now a c in
      (
        s2,
        next_of-first n yes_word is_utf8 runes token configure unwritable elicit after_plan
              (find_plan n yes_word is_utf8 runes token configure unwritable elicit r s) (i, p)
              ok_plan
            ∙ ap (next_of after_app) (same_hosts-runs p s1 now a means1)
            ∙ ap (next_of after_client) (same_commands-runs p a s1 c sends1)
            ∙ have_confirmed-runs r i p now a c s2 quiet,
        ap (dried a c p) world,
        store,
      )

  -- Where the server does not ask: if the store has a plan for the id of a call, the plan has not been taken,
  -- the call repeats its hosts and count, the configuration names its cluster, lets its hosts through and
  -- sends its commands, ssh is ready and the audit log can be written after the dry run, then the call sends
  -- the change: the world afterwards is the one that the change of the plan, run through the client of the
  -- configuration after the dry run, leaves.
  pub apply-carries :
      (r : ApplyInput) (s : Running n W) (i : ℕ) (p : Plan n) (now : Preview n) (a : App n W)
      (c : Client W)
      → (get n r.plan_id s.store).0 ≡ ok i
      → get_at (get n r.plan_id s.store).1.heap i ≡ some p
      → p.used ≡ false
      → repeats n p.terms r.nodes r.count ≡ true
      → MeansSame n yes_word is_utf8 runes token configure unwritable elicit p s.world now a
      → SendsSame n yes_word is_utf8 runes token configure unwritable elicit p s.world a c
      → elicit ≡ false
      → a.ssh_ready ≡ ok tt
      → unwritable (dried a c p s.world) ≡ none
      → (apply n yes_word is_utf8 runes token configure unwritable elicit r s).1.world
        ≡ sent_by n yes_word is_utf8 runes token configure unwritable elicit c p
            (dried a c p s.world)
  unfolding apply
  apply-carries r s i p now a c g found unused same means sends quiet ssh writes =
      let (t, stood, world, store) = stand-runs r s i p now a c g found same means sends quiet in
      let x : Ready n W = record { place = i; plan = p; client = c; app = a } in
      ap
        (λ m.
          (next_of (proceed n yes_word is_utf8 runes token configure unwritable elicit) m).1.world)
        stood
      ∙ proceed-world n yes_word is_utf8 runes token configure unwritable elicit x p t ssh
          (ap (λ q. get_at q.heap i) store ∙ found) unused (ap unwritable world ∙ writes)
      ∙ ap (sent_by n yes_word is_utf8 runes token configure unwritable elicit c p) world
