-- ===== src/Plans/Untouched.antt =====
-- Up to the taking of a plan, `apply` of internal/mcpserver/plan.go sends nothing but what a dry run reads.
use clusterctl.Prelude.{
  ℕ, Bool, Option, some, List, Bytes, Result, ok, ◌≡◌, ◌⊎◌, refl, sym, ap, ◌∙◌, inl, inr,
  Bool-cases, Result-cases,
}
use clusterctl.ExitCode.{Error}
use clusterctl.NodeSet.{NodeSets}
use clusterctl.Safety.{Preview}
use clusterctl.Slurm.Act.{Doing}
use clusterctl.Slurm.Client.{Client}
use clusterctl.Slurm.Inverting.{next_of-keeps, next_of-split}
use clusterctl.Plans.{Plan}
use clusterctl.Plans.Store.{get, get_at}
use clusterctl.Plans.Changing.{App}
use clusterctl.Plans.Serving.{Running}
use clusterctl.Plans.Asking.{ApplyInput, Stand, equal_texts}
use clusterctl.Plans.Applying.{
  find_plan, same_hosts, same_commands, have_confirmed, with_app, with_plan, stand,
}
use clusterctl.Plans.Still.{find_plan-world, same_hosts-world, have_confirmed-world}
use clusterctl.Plans.Standing.{dry, MeansSame, find_plan-ok, same_hosts-ok}

module _ (n : NodeSets) (yes_word : Bytes → Bool) {W : Type 0} where
  module _ (is_utf8 : Bytes → Bool) (runes : Bytes → List ℕ) (token : Bytes)
      (configure : W → Result Error (App n W)) (unwritable : W → Option Error) (elicit : Bool) where
    -- what the call finds for its id is this plan
    abbrev pub Finds : ApplyInput → Running n W → ℕ → Plan n → Type 0
    Finds r s i p =
        ((get n r.plan_id s.store).0 ≡ ok i) × (get_at (get n r.plan_id s.store).1.heap i ≡ some p)

    -- the world is as a dry run of the plan leaves it, through the client of the configuration, which still
    -- names the cluster of the plan and lets its hosts through
    unfoldable pub DryRun : Plan n → W → W → Type 0
    DryRun p w v =
        (now : Preview n) × (a : App n W) × (c : Client W) × MeansSame n yes_word is_utf8 runes
          token configure unwritable elicit p w now a
        × (a.client ≡ ok c)
        × (v ≡ (dry n yes_word is_utf8 runes token configure unwritable elicit a c p w).1)

    -- the world is as it was, or as a dry run of the plan that the call finds leaves it
    unfoldable pub Untouched : ApplyInput → Running n W → W → Type 0
    Untouched r s v = (v ≡ s.world) ⊎ ((i : ℕ) × (p : Plan n) × Finds r s i p × DryRun p s.world v)

    -- the world is as it was, or as the dry run of a plan through this configuration leaves it
    abbrev Looked : Plan n → App n W → W → W → Type 0
    Looked p a w v =
        (v ≡ w)
        ⊎ ((c : Client W) × (a.client ≡ ok c)
            × (v ≡ (dry n yes_word is_utf8 runes token configure unwritable elicit a c p w).1))

    same_commands-Looked :
        (p : Plan n) (a : App n W) (s : Running n W)
        → Looked p a s.world
            (same_commands n yes_word is_utf8 runes token configure unwritable elicit p a s).1.world
    unfolding same_commands
    same_commands-Looked p a s = elim (Result-cases a.client) [
      | inr (x, reads) ↦ rw (same_commands, reads) (inl refl)
      | inl (c, reads) ↦
          elim (Result-cases
            (dry n yes_word is_utf8 runes token configure unwritable elicit a c p s.world).0) [
              | inr (x, ran) ↦ rw (same_commands, reads, ran) (inr (c, refl, refl))
              | inl (cs, ran) ↦ elim (Bool-cases (equal_texts cs p.terms.commands)) [
                | inr other ↦ rw (same_commands, reads, ran, other) (inr (c, refl, refl))
                | inl same ↦ rw (same_commands, reads, ran, same) (inr (c, refl, refl))
              ]
            ]
    ]

    with_app-Looked :
        (r : ApplyInput) (i : ℕ) (p : Plan n) (now : Preview n) (a : App n W) (s : Running n W)
        → Looked p a s.world
            (with_app n yes_word is_utf8 runes token configure unwritable elicit r i p now a
              s).1.world
    unfolding with_app
    with_app-Looked r i p now a s =
        let left : Running n W → Type 0 = λ t. Looked p a s.world t.world in
        next_of-keeps left left
          (have_confirmed n yes_word is_utf8 runes token configure unwritable elicit r i p now a) _
          (same_commands-Looked p a s) (λ t h. h)
          (λ c t h. Looked-then p a s.world t.world _ h (
            have_confirmed-world n yes_word is_utf8 runes token configure unwritable elicit r i p
              now a c t))
      where
        Looked-then :
            (p : Plan n) (a : App n W) (w v u : W) → Looked p a w v → u ≡ v → Looked p a w u
        Looked-then p a w v u h e = rw e h

    abbrev SameOrDry : Plan n → W → W → Type 0
    SameOrDry p w v = (v ≡ w) ⊎ DryRun p w v

    with_plan-SameOrDry :
        (r : ApplyInput) (i : ℕ) (p : Plan n) (s : Running n W)
        → SameOrDry p s.world
            (with_plan n yes_word is_utf8 runes token configure unwritable elicit r i p s).1.world
    unfolding with_plan DryRun
    with_plan-SameOrDry r i p s =
        let left : Running n W → Type 0 = λ t. SameOrDry p s.world t.world in
        let after : Preview n × App n W → Doing (Running n W) (Stand n W) = λ (now, a).
          with_app n yes_word is_utf8 runes token configure unwritable elicit r i p now a in
        let hosts = same_hosts n yes_word is_utf8 runes token configure unwritable elicit p s in
        next_of-split left after hosts
          (λ x t e. inl (
            ap (λ m. m.1.world) (sym e)
            ∙ same_hosts-world n yes_word is_utf8 runes token configure unwritable elicit p s))
          (λ (now, a) t e. looked now a t e (with_app-Looked r i p now a t))
      where
        looked :
            (now : Preview n) (a : App n W) (t : Running n W)
            → same_hosts n yes_word is_utf8 runes token configure unwritable elicit p s
              ≡ (ok (now, a), t)
            → {v : W} → Looked p a t.world v
            → SameOrDry p s.world v
        looked now a t e {v} l =
            let (means, same) =
              same_hosts-ok n yes_word is_utf8 runes token configure unwritable elicit p s t now a
                e in
            let here : Looked p a s.world v = rw (ap (λ x. x.world) (sym same)) at l in
            elim here [
              | inl kept ↦ inl kept
              | inr (c, reads, dried) ↦ inr (now, a, c, means, reads, dried)
            ]

    -- Up to the question and its answer, the world stays as it was or as a dry run leaves it.
    pub stand-Untouched :
        (r : ApplyInput) (s : Running n W)
        → Untouched r s
            (stand n yes_word is_utf8 runes token configure unwritable elicit r s).1.world
    unfolding stand Untouched
    stand-Untouched r s =
        let left : Running n W → Type 0 = λ t. Untouched r s t.world in
        let after : ℕ × Plan n → Doing (Running n W) (Stand n W) =
          λ (i, p). with_plan n yes_word is_utf8 runes token configure unwritable elicit r i p in
        let plan = find_plan n yes_word is_utf8 runes token configure unwritable elicit r s in
        next_of-split left after plan
          (λ x t e. inl (
            ap (λ m. m.1.world) (sym e)
            ∙ find_plan-world n yes_word is_utf8 runes token configure unwritable elicit r s))
          (λ (i, p) t e. found i p t e (with_plan-SameOrDry r i p t))
      where
        found :
            (i : ℕ) (p : Plan n) (t : Running n W)
            → find_plan n yes_word is_utf8 runes token configure unwritable elicit r s
              ≡ (ok (i, p), t)
            → {v : W} → SameOrDry p t.world v
            → Untouched r s v
        found i p t e {v} h =
            let (got, there, same, world, store) =
              find_plan-ok n yes_word is_utf8 runes token configure unwritable elicit r s t i p e in
            let here : SameOrDry p s.world v = rw world at h in
            elim here [
              | inl kept ↦ inl kept
              | inr dried ↦ inr (i, p, (got, ap (λ x. get_at x.heap i) (sym store) ∙ there), dried)
            ]
