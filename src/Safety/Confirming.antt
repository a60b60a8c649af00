-- ===== src/Safety/Confirming.antt =====
-- When `Confirm` lets an action go ahead, and what was typed.
use clusterctl.Prelude.{
  ℕ, ◌<◌, ltb, Bool, true, false, Option, none, some, Bytes, ok, Result-cases, ◌≡◌, ◌⊎◌, ◌↔◌, inl,
  inr, arith, Bool-cases, Option-cases, atoi, trim_space, ℤ, pos, negsuc,
}
use clusterctl.NodeSet.{NodeSets}
use clusterctl.Safety.{Gate, Action, Preview, preview, describe}
use clusterctl.Safety.Answer.{is_count, accept, Terminal, proceed, ask, confirm_preview, confirm}

module _ (n : NodeSets) (yes_word : Bytes → Bool) where
  -- How the question about `p` is answered with a yes at the terminal `t`.
  pub record IsAnswered (g : Gate n) (p : Preview n) (t : Terminal n yes_word) : Type 0 where
    pub asked : g.interactive ≡ true
    pub readable : t.has_input ≡ true
    pub still_on : t.ended_after ≡ none
    pub line : Bytes
    pub read : t.reply ≡ ok line
    pub agreed : accept n yes_word p line ≡ true

  pub record MayProceed (g : Gate n) (a : Action n) (t : Terminal n yes_word) : Type 0 where
    pub started : t.ended ≡ none
    pub shown : Preview n
    pub checked : preview n g a ≡ ok shown
    pub real : g.dry_run ≡ false
    pub answered : (g.assume_yes ≡ true) ⊎ IsAnswered g shown t

  ask-proceed :
      (g : Gate n) (p : Preview n) (t : Terminal n yes_word)
      → g.interactive ≡ true
      → (ask n yes_word p t).1 ≡ proceed
      → IsAnswered g p t
  unfolding ask
  ask-proceed g p t i h = elim (Option-cases t.ended_after) [
    | inr (e, q) ↦ ground arith
    | inl q ↦ elim (Result-cases t.reply) [
      | inr (e, r) ↦ ground arith
      | inl (line, r) ↦ record {
        asked = i;
        readable = ground arith;
        still_on = q;
        line = line;
        read = r;
        agreed = ground arith;
      }
    ]
  ]

  answer_of_proceed :
      (g : Gate n) (p : Preview n) (t : Terminal n yes_word)
      → (confirm_preview n yes_word g p t).1 ≡ proceed
      → (g.dry_run ≡ false) × ((g.assume_yes ≡ true) ⊎ IsAnswered g p t)
  unfolding confirm_preview
  answer_of_proceed g p t h = elim (Bool-cases g.assume_yes) [
    | inl e ↦ (ground arith, inl e)
    | inr e ↦ elim (Bool-cases g.interactive) [
      | inl i ↦ (ground arith, inr (ask-proceed g p t i (ground arith)))
      | inr i ↦ ground arith
    ]
  ]

  proceed_of_answer :
      (g : Gate n) (p : Preview n) (t : Terminal n yes_word)
      → g.dry_run ≡ false
      → (g.assume_yes ≡ true) ⊎ IsAnswered g p t
      → (confirm_preview n yes_word g p t).1 ≡ proceed
  unfolding confirm_preview ask
  proceed_of_answer g p t d (inl e) = ground arith
  proceed_of_answer g p t d (inr a) =
      ground (arith, a.asked, a.readable, a.still_on, a.read, a.agreed)

  MayProceed-confirm :
      (g : Gate n) (a : Action n) (t : Terminal n yes_word)
      → (confirm n yes_word g a t).1 ≡ proceed
      → MayProceed g a t
  unfolding confirm
  MayProceed-confirm g a t h = elim (Option-cases t.ended) [
    | inr (e, q) ↦ ground arith
    | inl q ↦ elim (Result-cases (preview n g a)) [
      | inr (r, e) ↦ ground arith
      | inl (p, e) ↦
          let (real, answered) = answer_of_proceed g p t (ground arith) in
          record { started = q; shown = p; checked = e; real = real; answered = answered }
    ]
  ]

  -- `Confirm` lets an action proceed exactly when its context has not ended, the checks pass, it is no
  -- dry run, and either every prompt is answered with yes in advance, or there is a terminal to ask
  -- on, an answer was read, the context has not ended while it was, and the answer is accepted.
  pub confirm-proceed_iff :
      (g : Gate n) (a : Action n) (t : Terminal n yes_word)
      → ((confirm n yes_word g a t).1 ≡ proceed) ↔ MayProceed g a t
  unfolding confirm
  confirm-proceed_iff g a t = (
    MayProceed-confirm g a t,
    λ m. ground (arith, m.started, m.checked, proceed_of_answer g m.shown t m.real m.answered),
  )

  is_count_iff : (o : Option ℤ) (count : ℕ) → (is_count o count ≡ true) ↔ (o ≡ some (pos count))
  unfolding is_count
  is_count_iff none count = ground arith
  is_count_iff (some (pos k)) count = ground arith
  is_count_iff (some (negsuc k)) count = ground arith

  preview-describe :
      (g : Gate n) (a : Action n) (targets : n.NodeSet) (p : Preview n)
      → a.targets ≡ some targets
      → preview n g a ≡ ok p
      → (p.count ≡ n.len targets) × (p.count_required ≡ ltb g.confirm_above (n.len targets))
  unfolding preview describe
  preview-describe g a targets p e h = ground arith

  -- An action on more hosts than the threshold, not confirmed in advance, proceeds only when the
  -- number that was typed, without the blanks around it, is the number of its targets.
  pub confirm-count :
      (g : Gate n) (a : Action n) (t : Terminal n yes_word) (targets : n.NodeSet)
      → a.targets ≡ some targets
      → g.assume_yes ≡ false
      → g.confirm_above < n.len targets
      → (confirm n yes_word g a t).1 ≡ proceed
      → (line : Bytes) × (t.reply ≡ ok line) × (atoi (trim_space line) ≡ some (pos (n.len targets)))
  unfolding accept
  confirm-count g a t targets e y above h =
      let m = MayProceed-confirm g a t h in
      let (count, required) = preview-describe g a targets m.shown e m.checked in
      elim m.answered [
        | inl yes' ↦ cc (yes', y)
        | inr answered ↦ (
          answered.line,
          answered.read,
          (is_count_iff (atoi (trim_space answered.line)) (n.len targets)).0
              (ground (arith, answered.agreed, count, required)),
        )
      ]
