-- ===== src/Plans/Standing.antt =====
-- What the steps of `apply` in internal/mcpserver/plan.go let through, one by one.
use clusterctl.Prelude.{
  ℕ, Bool, true, false, Option, some, List, [], ◌∷◌, Bytes, &&-true, Result, ok, ◌≡◌, refl, sym, ap,
  ◌∙◌, eqb, eqb_iff, inl, inr, Bool-cases, Option-cases, Result-cases,
}
use clusterctl.ExitCode.{Error}
use clusterctl.NodeSet.{NodeSets}
use clusterctl.Safety.{Preview}
use clusterctl.Slurm.Client.{Client}
use clusterctl.Slurm.Inverting.{ended-ok, failed-ok}
use clusterctl.Plans.{Plan}
use clusterctl.Plans.Store.{get, get_at}
use clusterctl.Plans.Changing.{App, dry_run}
use clusterctl.Plans.Serving.{Running, gate_preview, plan_at, app}
use clusterctl.Plans.Asking.{ApplyInput, action_of, repeats, equal_texts, check_that}
use clusterctl.Plans.Applying.{find_plan, same_hosts, same_commands}

pub check_that-ok :
    {S : Type 0} (b : Bool) (e : Error) (s t : S) (a : Unit {0})
    → check_that b e s ≡ (ok a, t)
    → (b ≡ true) × (s ≡ t)
check_that-ok true e s t a h = (refl, cc)
check_that-ok false e s t a h = absurd (cc)

equal_texts-same : (a b : List Bytes) → equal_texts a b ≡ true → a ≡ b
unfolding equal_texts
equal_texts-same [] [] e = refl
equal_texts-same [] (y ∷ b) e = absurd (cc)
equal_texts-same (x ∷ a) [] e = absurd (cc)
equal_texts-same (x ∷ a) (y ∷ b) e =
    let (first, rest) = &&-true (eqb x y) (equal_texts a b) e in
    let head : x ≡ y = (eqb_iff x y).0 first in let tail : a ≡ b = equal_texts-same a b rest in cc

module _ (n : NodeSets) (yes_word : Bytes → Bool) {W : Type 0} where
  plan_at-ok :
      (i : ℕ) (p : Plan n) (s t : Running n W)
      → plan_at n i s ≡ (ok p, t)
      → (get_at s.store.heap i ≡ some p) × (s ≡ t)
  unfolding plan_at
  plan_at-ok i p s t e = elim (Option-cases (get_at s.store.heap i)) [
    | inl gone ↦ absurd (failed-ok _ p s t (rw (plan_at, gone) at e))
    | inr (q, found) ↦
        let (same, kept) = ended-ok q p s t (rw (plan_at, found) at e) in
        (found ∙ ap some same, kept)
  ]

  module _ (is_utf8 : Bytes → Bool) (runes : Bytes → List ℕ) (token : Bytes)
      (configure : W → Result Error (App n W)) (unwritable : W → Option Error) (elicit : Bool) where
    pub find_plan-ok :
        (r : ApplyInput) (s t : Running n W) (i : ℕ) (p : Plan n)
        → find_plan n yes_word is_utf8 runes token configure unwritable elicit r s ≡ (ok (i, p), t)
        → ((get n r.plan_id s.store).0 ≡ ok i)
          × (get_at t.store.heap i ≡ some p)
          × (repeats n p.terms r.nodes r.count ≡ true)
          × (t.world ≡ s.world)
          × (t.store ≡ (get n r.plan_id s.store).1)
    unfolding find_plan plan_at
    find_plan-ok r s t i p e = elim (Result-cases (get n r.plan_id s.store).0) [
      | inr (x, g) ↦ absurd (failed-ok x (i, p) _ t (rw (find_plan, g) at e))
      | inl (j, g) ↦ elim (Option-cases (get_at (get n r.plan_id s.store).1.heap j)) [
        | inl gone ↦ absurd (failed-ok _ (i, p) _ t (rw (find_plan, g, plan_at, gone) at e))
        | inr (q, found) ↦ elim (Bool-cases (repeats n q.terms r.nodes r.count)) [
          | inr off ↦ absurd (failed-ok _ (i, p) _ t (rw (find_plan, g, plan_at, found, off) at e))
          | inl same ↦
              let (both, state) =
                ended-ok (j, q) (i, p) _ t (rw (find_plan, g, plan_at, found, same) at e) in
              let place : j ≡ i = ap (λ x. x.0) both in
              let plan : q ≡ p = ap (λ x. x.1) both in
              let store : t.store ≡ (get n r.plan_id s.store).1 = ap (λ x. x.store) (sym state) in
              (
                g ∙ ap ok place,
                ap (λ x. get_at x.heap i) store
                    ∙ ap (get_at (get n r.plan_id s.store).1.heap) (sym place)
                    ∙ found
                    ∙ ap some plan,
                ap (λ x. repeats n x.terms r.nodes r.count) (sym plan) ∙ same,
                ap (λ x. x.world) (sym state),
                store,
              )
        ]
      ]
    ]

    -- the dry run of a plan, from a world on
    abbrev pub dry : App n W → Client W → Plan n → W → Result Error (List Bytes) × W
    dry a c p w = dry_run n is_utf8 runes token a c p.terms.action p.terms.nodes p.terms.reason w

    -- the configuration in this world names the cluster of the plan, and its gate lets the hosts of the plan
    -- through
    unfoldable pub MeansSame : Plan n → W → Preview n → App n W → Type 0
    MeansSame p w now a =
        (configure w ≡ ok a)
        × (a.cluster_name ≡ p.terms.cluster)
        × (gate_preview n a.gate (action_of n p.terms) ≡ ok now)
        × (repeats n p.terms now.targets now.count ≡ true)

    -- the client of the configuration would send the commands of the plan
    unfoldable pub SendsSame : Plan n → W → App n W → Client W → Type 0
    SendsSame p w a c = (a.client ≡ ok c) × ((dry a c p w).0 ≡ ok p.terms.commands)

    pub same_hosts-ok :
        (p : Plan n) (s t : Running n W) (now : Preview n) (a : App n W)
        → same_hosts n yes_word is_utf8 runes token configure unwritable elicit p s
          ≡ (ok (now, a), t)
        → MeansSame p s.world now a × (s ≡ t)
    unfolding same_hosts app MeansSame
    same_hosts-ok p s t now a e = elim (Result-cases (configure s.world)) [
      | inr (x, conf) ↦ absurd (failed-ok x (now, a) _ t (rw (same_hosts, app, conf) at e))
      | inl (a', conf) ↦ elim (Bool-cases (eqb a'.cluster_name p.terms.cluster)) [
        | inr other ↦ absurd (failed-ok _ (now, a) _ t (rw (same_hosts, app, conf, other) at e))
        | inl named ↦ elim (Result-cases (gate_preview n a'.gate (action_of n p.terms))) [
          | inr (x, gate) ↦
              absurd (failed-ok x (now, a) _ t (rw (same_hosts, app, conf, named, gate) at e))
          | inl (now', gate) ↦ elim (Bool-cases (repeats n p.terms now'.targets now'.count)) [
            | inr off ↦
                absurd
                  (failed-ok _ (now, a) _ t (rw (same_hosts, app, conf, named, gate, off) at e))
            | inl same ↦
                let (both, state) =
                  ended-ok (now', a') (now, a) s t
                    (rw (same_hosts, app, conf, named, gate, same) at e) in
                let now_same : now' ≡ now = ap (λ x. x.0) both in
                let app_same : a' ≡ a = ap (λ x. x.1) both in
                (
                  (
                    conf ∙ ap ok app_same,
                    ap (λ x. x.cluster_name) (sym app_same) ∙ (eqb_iff _ _).0 named,
                    ap (λ x. gate_preview n x.gate (action_of n p.terms)) (sym app_same)
                        ∙ gate
                        ∙ ap ok now_same,
                    ap (λ x. repeats n p.terms x.targets x.count) (sym now_same) ∙ same,
                  ),
                  state,
                )
          ]
        ]
      ]
    ]

    pub same_commands-ok :
        (p : Plan n) (a : App n W) (s t : Running n W) (c : Client W)
        → same_commands n yes_word is_utf8 runes token configure unwritable elicit p a s ≡ (ok c, t)
        → SendsSame p s.world a c × (t ≡ record s { world = (dry a c p s.world).1 })
    unfolding same_commands SendsSame
    same_commands-ok p a s t c e = elim (Result-cases a.client) [
      | inr (x, reads) ↦ absurd (failed-ok x c _ t (rw (same_commands, reads) at e))
      | inl (c', reads) ↦ elim (Result-cases (dry a c' p s.world).0) [
        | inr (x, ran) ↦ absurd (failed-ok x c _ t (rw (same_commands, reads, ran) at e))
        | inl (cs, ran) ↦ elim (Bool-cases (equal_texts cs p.terms.commands)) [
          | inr other ↦ absurd (failed-ok _ c _ t (rw (same_commands, reads, ran, other) at e))
          | inl same ↦
              let (client, state) = ended-ok c' c _ t (rw (same_commands, reads, ran, same) at e) in
              (
                (
                  reads ∙ ap ok client,
                  ap (λ x. (dry a x p s.world).0) (sym client)
                      ∙ ran
                      ∙ ap ok (equal_texts-same cs p.terms.commands same),
                ),
                sym state ∙ ap (λ x. record s { world = (dry a x p s.world).1 }) client,
              )
        ]
      ]
    ]
