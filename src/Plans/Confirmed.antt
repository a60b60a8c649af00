-- ===== src/Plans/Confirmed.antt =====
-- What stands between a plan of internal/mcpserver/plan.go and the change it carries out.
use clusterctl.Prelude.{
  ℕ, Bool, true, false, Option, none, some, List, Bytes, Result, ok, err, ◌≡◌, ◌⊎◌, refl, sym, ap,
  ◌∙◌, inl, inr,
}
use clusterctl.ExitCode.{Error}
use clusterctl.NodeSet.{NodeSets}
use clusterctl.Safety.{Preview}
use clusterctl.Slurm.Act.{Doing, next_of, pure}
use clusterctl.Slurm.Client.{Client}
use clusterctl.Slurm.Inverting.{ended-ok, next_of-ok}
use clusterctl.Plans.{Plan}
use clusterctl.Plans.Store.{get, get_at}
use clusterctl.Plans.Changing.{App}
use clusterctl.Plans.Serving.{Running}
use clusterctl.Plans.Asking.{ApplyInput, Form, Ready, Stand, asking, ready, repeats, confirm_if}
use clusterctl.Plans.Applying.{stand_of, have_confirmed, with_app, with_plan, stand, proceed, apply}
use clusterctl.Plans.Sound.{IsSound, MayApply, get-MayApply, get-heap}
use clusterctl.Plans.Standing.{
  dry, MeansSame, SendsSame, find_plan-ok, same_hosts-ok, same_commands-ok,
}
use clusterctl.Plans.Untouched.{Finds, DryRun, Untouched, stand-Untouched}
use clusterctl.Plans.Reads.{Reads, dry_run-Reads}
use clusterctl.Plans.Agreeing.{Agreed, confirm_if-ok}

module _ (n : NodeSets) (yes_word : Bytes → Bool) {W : Type 0} (is_utf8 : Bytes → Bool)
    (runes : Bytes → List ℕ) (token : Bytes) (configure : W → Result Error (App n W))
    (unwritable : W → Option Error) (elicit : Bool) where
  -- the call repeats this plan, which still means and sends what it did, and an answer agreed to it when
  -- the server asks
  unfoldable pub Confirmed : ApplyInput → W → Plan n → Type 0
  Confirmed r w p =
      (repeats n p.terms r.nodes r.count ≡ true)
      × ((now : Preview n) × (a : App n W) × (c : Client W) × MeansSame n yes_word is_utf8 runes
            token configure unwritable elicit p w now a
          × SendsSame n yes_word is_utf8 runes token configure unwritable elicit p w a c
          × ((elicit ≡ false) ⊎ Agreed n yes_word r p now))

  abbrev Found : ApplyInput → Running n W → ℕ → Plan n → Type 0
  Found r s i p = Finds n yes_word is_utf8 runes token configure unwritable elicit r s i p

  sends-at :
      (p : Plan n) (v w : W) (a : App n W) (c : Client W)
      → v ≡ w
      → SendsSame n yes_word is_utf8 runes token configure unwritable elicit p v a c
      → SendsSame n yes_word is_utf8 runes token configure unwritable elicit p w a c
  sends-at p v w a c e h = rw (sym e) h

  Confirmed-at :
      (r : ApplyInput) (v w : W) (p q : Plan n) → v ≡ w → p ≡ q → Confirmed r v p → Confirmed r w q
  Confirmed-at r v w p q e f h = rw (sym e, sym f) h

  stand_of-ready :
      (i : ℕ) (p : Plan n) (a : App n W) (c : Client W) (asked : Option (Form n × Bytes))
      (x : Ready n W)
      → stand_of n yes_word is_utf8 runes token configure unwritable elicit i p a c asked ≡ ready x
      → (asked ≡ none) × (x.place ≡ i) × (x.plan ≡ p)
  stand_of-ready i p a c none x e =
      let same : record { place = i; plan = p; client = c; app = a } ≡ x = cc in
      (refl, ap (λ y. y.place) (sym same), ap (λ y. y.plan) (sym same))
  stand_of-ready i p a c (some (form, state)) x e = absurd (cc)

  have_confirmed-ok :
      (r : ApplyInput) (i : ℕ) (p : Plan n) (now : Preview n) (a : App n W) (c : Client W)
      (s t : Running n W) (x : Ready n W)
      → get_at s.store.heap i ≡ some p
      → have_confirmed n yes_word is_utf8 runes token configure unwritable elicit r i p now a c s
        ≡ (ok (ready x), t)
      → ((elicit ≡ false) ⊎ Agreed n yes_word r p now) × (x.place ≡ i) × (x.plan ≡ p)
  unfolding have_confirmed
  have_confirmed-ok r i p now a c s t x here e =
      let after : Option (Form n × Bytes) → Doing (Running n W) (Stand n W) = λ asked.
        pure (stand_of n yes_word is_utf8 runes token configure unwritable elicit i p a c asked) in
      let (asked, s1, settled, rest) =
        next_of-ok after (confirm_if n yes_word elicit r i now a.cluster_name s) (ready x) t e in
      let (unasked, place, plan) =
        stand_of-ready i p a c asked x (ended-ok _ (ready x) s1 t rest).0 in
      (
        confirm_if-ok n yes_word elicit r i p now a.cluster_name s s1 here
            (settled ∙ ap (λ o. (ok o, s1)) unasked),
        place,
        plan,
      )

  stand-ok :
      (r : ApplyInput) (s t : Running n W) (x : Ready n W)
      → stand n yes_word is_utf8 runes token configure unwritable elicit r s ≡ (ok (ready x), t)
      → Found r s x.place x.plan × Confirmed r s.world x.plan
  unfolding stand with_plan with_app Confirmed
  stand-ok r s t x e =
      let after_plan : ℕ × Plan n → Doing (Running n W) (Stand n W) =
        λ (i, p). with_plan n yes_word is_utf8 runes token configure unwritable elicit r i p in
      let ((i, p), s1, e1, m1) = next_of-ok after_plan _ (ready x) t e in
      let after_app : Preview n × App n W → Doing (Running n W) (Stand n W) = λ (now, a).
        with_app n yes_word is_utf8 runes token configure unwritable elicit r i p now a in
      let ((now, a), s2, e2, m2) = next_of-ok after_app _ (ready x) t m1 in
      let after_client : Client W → Doing (Running n W) (Stand n W) = λ c.
        have_confirmed n yes_word is_utf8 runes token configure unwritable elicit r i p now a c in
      let (c, s3, e3, m3) = next_of-ok after_client _ (ready x) t m2 in
      let (got, found, same, world, store) =
        find_plan-ok n yes_word is_utf8 runes token configure unwritable elicit r s s1 i p e1 in
      let (means, kept) =
        same_hosts-ok n yes_word is_utf8 runes token configure unwritable elicit p s1 s2 now a e2 in
      let (sends, moved) =
        same_commands-ok n yes_word is_utf8 runes token configure unwritable elicit p a s2 s3 c
          e3 in
      let heap : s3.store ≡ s1.store = ap (λ q. q.store) moved ∙ ap (λ q. q.store) (sym kept) in
      let here : get_at s3.store.heap i ≡ some p = ap (λ q. get_at q.heap i) heap ∙ found in
      let (agreed, place, plan) = have_confirmed-ok r i p now a c s3 t x here m3 in
      let here_sends : SendsSame n yes_word is_utf8 runes token configure unwritable elicit p
          s1.world a c =
        sends-at p s2.world s1.world a c (ap (λ q. q.world) (sym kept)) sends in
      let in_store = (get n r.plan_id s.store).1 in
      (
        (
          got ∙ ap ok (sym place),
          ap (get_at in_store.heap) place
              ∙ ap (λ q. get_at q.heap i) (sym store)
              ∙ found
              ∙ ap some (sym plan),
        ),
        Confirmed-at r s1.world s.world p x.plan world (sym plan)
            (same, (now, a, c, means, here_sends, agreed)),
      )

  -- the plan of the call: the store has it for the call's id, it has not been taken and its time is not over
  abbrev pub IsPlanOf : ApplyInput → Running n W → Plan n → Type 0
  IsPlanOf r s p = (i : ℕ) × MayApply n s.store r.plan_id i p

  some-same : (p q : Plan n) → some p ≡ some q → p ≡ q
  some-same p q e = cc

  found-IsPlanOf :
      (r : ApplyInput) (s : Running n W) (i : ℕ) (p : Plan n)
      → IsSound n s.store
      → Found r s i p
      → IsPlanOf r s p
  unfolding MayApply
  found-IsPlanOf r s i p sound (got, here) =
      let after = (get n r.plan_id s.store).1 in
      let whole : get n r.plan_id s.store ≡ (ok i, after) = ap (λ o. (o, after)) got in
      let (q, (there, id, unused, time)) = get-MayApply n r.plan_id i s.store after sound whole in
      let heap : get_at s.store.heap i ≡ some p =
        ap (λ h. get_at h i) (sym (get-heap n r.plan_id s.store)) ∙ here in
      let same : q ≡ p = some-same q p (sym there ∙ heap) in
      (
        i,
        (
          heap,
          ap (λ x. x.terms.id) (sym same) ∙ id,
          ap (λ x. x.used) (sym same) ∙ unused,
          rw same at time,
        ),
      )

  -- the world is as a dry run of the plan leaves it: the configuration still names the cluster of the plan
  -- and lets its hosts through its gate, and no command but those of the reader of its Slurm client was run
  unfoldable pub OnlyRead : Plan n → W → W → Type 0
  OnlyRead p w v =
      (now : Preview n) × (a : App n W) × (c : Client W) × MeansSame n yes_word is_utf8 runes token
        configure unwritable elicit p w now a
      × (a.client ≡ ok c)
      × (v ≡ (dry n yes_word is_utf8 runes token configure unwritable elicit a c p w).1)
      × Reads c.reader w v

  -- how a call that is not confirmed leaves the world
  abbrev pub Unsent : ApplyInput → Running n W → W → Type 0
  Unsent r s v = (v ≡ s.world) ⊎ ((p : Plan n) × IsPlanOf r s p × OnlyRead p s.world v)

  Untouched-Unsent :
      (r : ApplyInput) (s : Running n W) (v : W)
      → IsSound n s.store
      → Untouched n yes_word is_utf8 runes token configure unwritable elicit r s v
      → Unsent r s v
  unfolding Untouched DryRun OnlyRead
  Untouched-Unsent r s v sound (inl kept) = inl kept
  Untouched-Unsent r s v sound (inr (i, p, found, (now, a, c, means, client, dried))) =
      let reads =
        dry_run-Reads n is_utf8 runes token a c s.world p.terms.action p.terms.nodes
          p.terms.reason in
      inr (p, found-IsPlanOf r s i p sound found, (now, a, c, means, client, dried, rw dried reads))

  next_of-proceed :
      (P : W → Type 0) (m : Result Error (Stand n W) × Running n W)
      → P m.1.world
      → P (next_of (proceed n yes_word is_utf8 runes token configure unwritable elicit) m).1.world
        ⊎ ((x : Ready n W) × (t : Running n W) × (m ≡ (ok (ready x), t)))
  unfolding proceed
  next_of-proceed P (err e, t) h = inl h
  next_of-proceed P (ok (asking form state), t) h = inl h
  next_of-proceed P (ok (ready x), t) h = inr (x, t, refl)

  -- With a sound store of plans, whatever a call of apply_plan asks for and however it ends: either the world
  -- is as it was; or it is as the dry run of the plan that the call names leaves it, and that ran no command
  -- but through the reader of the Slurm client that the configuration gives; or Confirmed holds of the plan
  -- that the call names: the call repeats its hosts and count, the configuration, read again, names the same
  -- cluster, lets the same hosts through its gate and sends the same commands, and, when the server asks, the
  -- answer belongs to the question last asked and the gate takes it for a yes. The plan that the call names
  -- has its id, has not been taken and is not over.
  pub apply-Confirmed :
      (r : ApplyInput) (s : Running n W)
      → IsSound n s.store
      → Unsent r s (apply n yes_word is_utf8 runes token configure unwritable elicit r s).1.world
        ⊎ ((p : Plan n) × IsPlanOf r s p × Confirmed r s.world p)
  unfolding apply
  apply-Confirmed r s sound =
      let stands = stand n yes_word is_utf8 runes token configure unwritable elicit r s in
      elim (next_of-proceed (Unsent r s) stands (
        Untouched-Unsent r s stands.1.world sound
          (stand-Untouched n yes_word is_utf8 runes token configure unwritable elicit r s))) [
            | inl left ↦ inl left
            | inr (x, t, stood) ↦
                let (found, confirmed) = stand-ok r s t x stood in
                inr (x.plan, found-IsPlanOf r s x.place x.plan sound found, confirmed)
          ]
