-- ===== src/Plans/Still.antt =====
-- The steps of `apply` in internal/mcpserver/plan.go that leave the world as it is.
use clusterctl.Prelude.{
  ℕ, Bool, true, false, Option, none, List, Bytes, Result, ok, err, ◌≡◌, refl, ◌∙◌, inl, inr,
  Bool-cases, Option-cases, Result-cases, eqb,
}
use clusterctl.ExitCode.{Error}
use clusterctl.NodeSet.{NodeSets}
use clusterctl.Safety.{Preview}
use clusterctl.Slurm.Act.{Doing, pure}
use clusterctl.Slurm.Client.{Client}
use clusterctl.Slurm.Inverting.{next_of-keeps}
use clusterctl.Plans.{Plan}
use clusterctl.Plans.Store.{get, get_at, ask, answered, belongs}
use clusterctl.Plans.Changing.{App}
use clusterctl.Plans.Serving.{Running, gate_preview, plan_at, app}
use clusterctl.Plans.Asking.{
  ApplyInput, Response, Form, Stand, action_of, repeats, judge, settle, declining, confirm,
  confirm_if,
}
use clusterctl.Plans.Applying.{find_plan, same_hosts, stand_of, have_confirmed}

module _ (n : NodeSets) (yes_word : Bytes → Bool) {W : Type 0} where
  settle-world :
      (r : ApplyInput) (i : ℕ) (now : Preview n) (a : Response) (s : Running n W)
      → (settle n yes_word r i now a s).1.world ≡ s.world
  unfolding settle answered
  settle-world r i now a s = elim (Option-cases (get_at s.store.heap i)) [
    | inl gone ↦ rw (settle, answered, gone) refl
    | inr (p, here) ↦ elim (Bool-cases (belongs n p r.state)) [
      | inr foreign ↦ rw (settle, answered, here, foreign) refl
      | inl own ↦ elim (Option-cases (judge n yes_word now a)) [
        | inr (x, refused) ↦ rw (settle, answered, here, own, refused) refl
        | inl agreed ↦ rw (settle, answered, here, own, agreed) refl
      ]
    ]
  ]

  declining-world :
      {A : Type 0} (x : Result Error A × Running n W) → (declining n yes_word x).1.world ≡ x.1.world
  declining-world (ok a, s) = refl
  declining-world (err e, s) = refl

  confirm-world :
      (r : ApplyInput) (i : ℕ) (now : Preview n) (cluster : Bytes) (s : Running n W)
      → (confirm n yes_word r i now cluster s).1.world ≡ s.world
  unfolding confirm ask
  confirm-world r i now cluster s = elim (Bool-cases r.can_elicit) [
    | inr mute ↦ rw (confirm, mute) refl
    | inl can ↦ elim (Option-cases r.response) [
      | inl unanswered ↦ rw (confirm, can, unanswered) refl
      | inr (a, answer) ↦
          let same : Running n W → Type 0 = λ t. t.world ≡ s.world in
          let after : Unit {0} → Doing (Running n W) (Option (Form n × Bytes)) = λ _. pure none in
          rw (confirm, can, answer)
            (next_of-keeps same same after (settle n yes_word r i now a s)
              (settle-world r i now a s) (λ t h. h) (λ u t h. h))
    ]
  ]

  confirm_if-world :
      (elicit : Bool) (r : ApplyInput) (i : ℕ) (now : Preview n) (cluster : Bytes) (s : Running n W)
      → (confirm_if n yes_word elicit r i now cluster s).1.world ≡ s.world
  unfolding confirm_if
  confirm_if-world false r i now cluster s = refl
  confirm_if-world true r i now cluster s =
      declining-world (confirm n yes_word r i now cluster s) ∙ confirm-world r i now cluster s

  abbrev IsSame : Running n W → Running n W → Type 0
  IsSame s t = t.world ≡ s.world

  module _ (is_utf8 : Bytes → Bool) (runes : Bytes → List ℕ) (token : Bytes)
      (configure : W → Result Error (App n W)) (unwritable : W → Option Error) (elicit : Bool) where
    pub find_plan-world :
        (r : ApplyInput) (s : Running n W)
        → (find_plan n yes_word is_utf8 runes token configure unwritable elicit r s).1.world
          ≡ s.world
    unfolding find_plan plan_at
    find_plan-world r s = elim (Result-cases (get n r.plan_id s.store).0) [
      | inr (x, g) ↦ rw (find_plan, g) refl
      | inl (j, g) ↦ elim (Option-cases (get_at (get n r.plan_id s.store).1.heap j)) [
        | inl gone ↦ rw (find_plan, g, plan_at, gone) refl
        | inr (q, found) ↦ elim (Bool-cases (repeats n q.terms r.nodes r.count)) [
          | inr off ↦ rw (find_plan, g, plan_at, found, off) refl
          | inl same ↦ rw (find_plan, g, plan_at, found, same) refl
        ]
      ]
    ]

    pub same_hosts-world :
        (p : Plan n) (s : Running n W)
        → (same_hosts n yes_word is_utf8 runes token configure unwritable elicit p s).1.world
          ≡ s.world
    unfolding same_hosts app
    same_hosts-world p s = elim (Result-cases (configure s.world)) [
      | inr (x, conf) ↦ rw (same_hosts, app, conf) refl
      | inl (a, conf) ↦ elim (Bool-cases (eqb a.cluster_name p.terms.cluster)) [
        | inr other ↦ rw (same_hosts, app, conf, other) refl
        | inl named ↦ elim (Result-cases (gate_preview n a.gate (action_of n p.terms))) [
          | inr (x, gate) ↦ rw (same_hosts, app, conf, named, gate) refl
          | inl (now, gate) ↦ elim (Bool-cases (repeats n p.terms now.targets now.count)) [
            | inr off ↦ rw (same_hosts, app, conf, named, gate, off) refl
            | inl same ↦ rw (same_hosts, app, conf, named, gate, same) refl
          ]
        ]
      ]
    ]

    pub have_confirmed-world :
        (r : ApplyInput) (i : ℕ) (p : Plan n) (now : Preview n) (a : App n W) (c : Client W)
        (s : Running n W)
        → IsSame s
            (have_confirmed n yes_word is_utf8 runes token configure unwritable elicit r i p now a c
              s).1
    unfolding have_confirmed
    have_confirmed-world r i p now a c s =
        let same : Running n W → Type 0 = λ t. t.world ≡ s.world in
        let after : Option (Form n × Bytes) → Doing (Running n W) (Stand n W) = λ asked.
          pure
            (stand_of n yes_word is_utf8 runes token configure unwritable elicit i p a c asked) in
        next_of-keeps same same after (confirm_if n yes_word elicit r i now a.cluster_name s)
          (confirm_if-world elicit r i now a.cluster_name s) (λ t h. h) (λ u t h. h)
