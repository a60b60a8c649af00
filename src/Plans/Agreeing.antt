-- ===== src/Plans/Agreeing.antt =====
-- What an answer to the question of internal/mcpserver/plan.go has to be for the plan to go ahead.
use clusterctl.Prelude.{
  ℕ, Bool, true, false, Option, none, some, Bytes, Result, ok, err, ◌≡◌, ◌⊎◌, refl, sym, ap, ◌∙◌,
  inl, inr, Bool-cases, Option-cases,
}
use clusterctl.ExitCode.{Error}
use clusterctl.NodeSet.{NodeSets}
use clusterctl.Safety.{Preview}
use clusterctl.Safety.Answer.{accept}
use clusterctl.Slurm.Act.{Doing, pure}
use clusterctl.Slurm.Inverting.{ended-ok, failed-ok, next_of-ok}
use clusterctl.Plans.{Plan}
use clusterctl.Plans.Store.{get_at, ask, answered, belongs}
use clusterctl.Plans.Serving.{Running}
use clusterctl.Plans.Asking.{
  ApplyInput, Content, Response, accepted, other, Form, answer_text, judge, settle, declining,
  confirm, confirm_if,
}

some≢none : {A : Type 0} (x : A) → some x ≡ none → ⊥
some≢none x e = absurd (cc)

module _ (n : NodeSets) (yes_word : Bytes → Bool) where
  -- the answer belongs to the question last asked about the plan, and the gate takes it for a yes
  unfoldable pub Agreed : ApplyInput → Plan n → Preview n → Type 0
  Agreed r p now =
      (c : Content) × (r.response ≡ some (accepted c))
      × (belongs n p r.state ≡ true)
      × (accept n yes_word now (answer_text n now c) ≡ true)

  judge-none :
      (now : Preview n) (a : Response)
      → judge n yes_word now a ≡ none
      → (c : Content) × (a ≡ accepted c) × (accept n yes_word now (answer_text n now c) ≡ true)
  unfolding judge
  judge-none now other e = absurd (cc)
  judge-none now (accepted c) e = elim (Bool-cases (accept n yes_word now (answer_text n now c))) [
    | inl agreed ↦ (c, refl, agreed)
    | inr not_agreed ↦ absurd (some≢none _ (rw (judge, not_agreed) at e))
  ]

  module _ {W : Type 0} where
    settle-ok :
        (r : ApplyInput) (i : ℕ) (p : Plan n) (now : Preview n) (a : Response) (s t : Running n W)
        → get_at s.store.heap i ≡ some p
        → settle n yes_word r i now a s ≡ (ok tt, t)
        → (belongs n p r.state ≡ true) × (judge n yes_word now a ≡ none) × (t.world ≡ s.world)
    unfolding settle answered
    settle-ok r i p now a s t here e = elim (Bool-cases (belongs n p r.state)) [
      | inr foreign ↦ absurd (failed-ok _ tt _ t (rw (settle, answered, here, foreign) at e))
      | inl own ↦ elim (Option-cases (judge n yes_word now a)) [
        | inr (x, no_) ↦ absurd (failed-ok x tt _ t (rw (settle, answered, here, own, no_) at e))
        | inl agreed ↦
            let (u, state) = ended-ok tt tt _ t (rw (settle, answered, here, own, agreed) at e) in
            (own, agreed, ap (λ x. x.world) (sym state))
      ]
    ]

    declining-ok :
        {A : Type 0} (x : Result Error A × Running n W) (a : A) (t : Running n W)
        → declining n yes_word x ≡ (ok a, t)
        → x ≡ (ok a, t)
    declining-ok (ok b, s) a t e = e
    declining-ok (err x, s) a t e = absurd (failed-ok x a _ t e)

    confirm-ok :
        (r : ApplyInput) (i : ℕ) (p : Plan n) (now : Preview n) (cluster : Bytes)
        (s t : Running n W)
        → get_at s.store.heap i ≡ some p
        → confirm n yes_word r i now cluster s ≡ (ok none, t)
        → Agreed r p now
    unfolding confirm Agreed ask
    confirm-ok r i p now cluster s t here e = elim (Bool-cases r.can_elicit) [
      | inr mute ↦ absurd (failed-ok _ none _ t (rw (confirm, mute) at e))
      | inl can ↦ elim (Option-cases r.response) [
        | inl unanswered ↦
            let (asked, state) = ended-ok _ none _ t (rw (confirm, can, unanswered) at e) in
            absurd (some≢none _ asked)
        | inr (a, answer) ↦
            let after : Unit {0} → Doing (Running n W) (Option (Form n × Bytes)) = λ _. pure none in
            let (u, s1, settled, rest) =
              next_of-ok after (settle n yes_word r i now a s) none t
                (rw (confirm, can, answer) at e) in
            let (own, judged, kept) = settle-ok r i p now a s s1 here settled in
            let (c, is_form, agreed) = judge-none now a judged in
            (c, answer ∙ ap some is_form, own, agreed)
      ]
    ]

    -- Without a question the server does not ask, or the answer is a yes to the question last asked.
    pub confirm_if-ok :
        (elicit : Bool) (r : ApplyInput) (i : ℕ) (p : Plan n) (now : Preview n) (cluster : Bytes)
        (s t : Running n W)
        → get_at s.store.heap i ≡ some p
        → confirm_if n yes_word elicit r i now cluster s ≡ (ok none, t)
        → (elicit ≡ false) ⊎ Agreed r p now
    unfolding confirm_if confirm Agreed
    confirm_if-ok false r i p now cluster s t here e = inl refl
    confirm_if-ok true r i p now cluster s t here e =
        inr (confirm-ok r i p now cluster s t here (declining-ok _ none t e))
