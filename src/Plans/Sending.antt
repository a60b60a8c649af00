-- ===== src/Plans/Sending.antt =====
-- From the taking of a plan on, `apply` of internal/mcpserver/plan.go sends its change.
use clusterctl.Prelude.{
  ℕ, Bool, false, Option, none, some, List, [], Bytes, Result, ok, err, ◌≡◌, refl, ap, ◌∙◌, inl,
  inr, Option-cases, Result-cases,
}
use clusterctl.ExitCode.{Error}
use clusterctl.NodeSet.{NodeSets}
use clusterctl.Slurm.Act.{Doing, next_of}
use clusterctl.Slurm.Client.{Client}
use clusterctl.Slurm.Inverting.{next_of-keeps}
use clusterctl.Plans.{Plan}
use clusterctl.Plans.Store.{get_at, take}
use clusterctl.Plans.Changing.{App, run_change}
use clusterctl.Plans.Serving.{Outcome, failed, applied, Running, record_entry}
use clusterctl.Plans.Asking.{Ready, ready, Reply}
use clusterctl.Plans.Applying.{proceed, take_up, carry_out, execute, or_ends}

module _ (n : NodeSets) (yes_word : Bytes → Bool) {W : Type 0} (is_utf8 : Bytes → Bool)
    (runes : Bytes → List ℕ) (token : Bytes) (configure : W → Result Error (App n W))
    (unwritable : W → Option Error) (elicit : Bool) where
  -- the world after the change of a plan is sent through a client
  abbrev pub sent_by : Client W → Plan n → W → W
  sent_by c p w =
      (run_change n is_utf8 runes token c p.terms.action p.terms.nodes p.terms.reason
        (record { world = w; cluster = [] })).1.world

  execute-world :
      (x : Ready n W) (s : Running n W)
      → (execute n yes_word is_utf8 runes token configure unwritable elicit x s).1.world
        ≡ sent_by x.client x.plan s.world
  unfolding execute
  execute-world x s = refl

  record_entry-world : (s : Running n W) → (record_entry n configure unwritable s).1.world ≡ s.world
  unfolding record_entry
  record_entry-world s = elim (Option-cases (unwritable s.world)) [
    | inl fine ↦ rw (record_entry, fine) refl
    | inr (x, full) ↦ rw (record_entry, full) refl
  ]

  or_ends-world :
      {A : Type 0} (o : Error → Outcome) (f : Error → Error) (m : Doing (Running n W) A)
      (s : Running n W)
      → (or_ends n yes_word is_utf8 runes token configure unwritable elicit o f m s).1.world
        ≡ (m s).1.world
  or_ends-world o f m s = elim (Result-cases (m s).0) [
    | inl (a, e) ↦ rw (or_ends, e) refl
    | inr (x, e) ↦ rw (or_ends, e) refl
  ]

  carry_out-world :
      (x : Ready n W) (s : Running n W)
      → (carry_out n yes_word is_utf8 runes token configure unwritable elicit x s).1.world
        ≡ sent_by x.client x.plan s.world
  unfolding carry_out execute
  carry_out-world x s =
      let is_sent : Running n W → Type 0 = λ t. t.world ≡ sent_by x.client x.plan s.world in
      next_of-keeps is_sent is_sent _
        (or_ends n yes_word is_utf8 runes token configure unwritable elicit failed (λ e. e)
          (execute n yes_word is_utf8 runes token configure unwritable elicit x) s)
        (or_ends-world failed (λ e. e)
          (execute n yes_word is_utf8 runes token configure unwritable elicit x) s)
        (λ t h. h)
        (λ u t h.
          record_entry-world (record t { entry = record t.entry { outcome = applied } }) ∙ h)

  take_up-ok :
      (x : Ready n W) (p : Plan n) (s : Running n W)
      → x.app.ssh_ready ≡ ok tt
      → get_at s.store.heap x.place ≡ some p
      → p.used ≡ false
      → unwritable s.world ≡ none
      → ((take_up n yes_word is_utf8 runes token configure unwritable elicit x s).0 ≡ ok tt)
        × ((take_up n yes_word is_utf8 runes token configure unwritable elicit x s).1.world
            ≡ s.world)
  unfolding take_up take record_entry
  take_up-ok x p s ssh here unused writes = (
    rw (take_up, ssh, take, here, unused, or_ends, record_entry, writes) refl,
    rw (take_up, ssh, take, here, unused, or_ends, record_entry, writes) (record_entry-world _),
  )

  ok-same : {A : Type 0} (b a : A) → ◌≡◌ {A = Result Error A} (ok b) (ok a) → b ≡ a
  ok-same b a e = cc

  pub next_of-first :
      {A B : Type 0} (k : A → Doing (Running n W) B) (m : Result Error A × Running n W) (a : A)
      → m.0 ≡ ok a
      → next_of k m ≡ k a m.1
  next_of-first k (ok b, t) a e = let same : b ≡ a = ok-same b a e in ap (λ c. k c t) same
  next_of-first k (err x, t) a e = absurd (cc)

  pub proceed-world :
      (x : Ready n W) (p : Plan n) (s : Running n W)
      → x.app.ssh_ready ≡ ok tt
      → get_at s.store.heap x.place ≡ some p
      → p.used ≡ false
      → unwritable s.world ≡ none
      → (proceed n yes_word is_utf8 runes token configure unwritable elicit (ready x) s).1.world
        ≡ sent_by x.client x.plan s.world
  unfolding proceed
  proceed-world x p s ssh here unused writes =
      let (taken, kept) = take_up-ok x p s ssh here unused writes in
      let sends : Unit {0} → Doing (Running n W) (Reply n) =
        λ _. carry_out n yes_word is_utf8 runes token configure unwritable elicit x in
      ap (λ m. m.1.world)
        (next_of-first sends
          (take_up n yes_word is_utf8 runes token configure unwritable elicit x s) tt taken)
      ∙ carry_out-world x _
      ∙ ap (sent_by x.client x.plan) kept
