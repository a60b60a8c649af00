-- ===== src/Plans/Asking.antt =====
-- What apply_plan of internal/mcpserver/plan.go asks, and how it judges the answer: confirm, question and
-- answerText. The messages are without what is formatted into them.
use clusterctl.Prelude.{
  ℕ, suc, Bool, true, false, not, ◌&&◌, Option, none, some, List, [], ◌∷◌, ◌++◌, Bytes, Result, ok,
  err, codes, eqb, ◌==◌, if◌then◌else◌, ℤ, pos, negsuc,
}
use clusterctl.ExitCode.{Error, usage, interrupted}
use clusterctl.NodeSet.{NodeSets}
use clusterctl.Safety.{Action, Preview, Question, question}
use clusterctl.Safety.Answer.{accept}
use clusterctl.Slurm.Accounts.{decimal}
use clusterctl.Slurm.Act.{Doing, ◌>>=◌, ◌>>◌, pure, fail, refusal, require}
use clusterctl.Slurm.Client.{Client}
use clusterctl.Plans.{verb, Plan, Terms}
use clusterctl.Plans.Store.{ask, answered}
use clusterctl.Plans.Changing.{App}
use clusterctl.Plans.Serving.{declined, Running, with_store}

-- `content["count"]` of an answer, by its type; a float64 as FormatFloat writes it
pub data CountField : Type 0 where
  float string : Bytes → CountField
  int : ℤ → CountField

-- the content of an accepted form, the fields that are read
pub record Content : Type 0 where
  pub count : Option CountField
  pub confirm : Bool

-- strconv.Itoa
unfoldable pub itoa : ℤ → Bytes
unfolding decimal
itoa (pos m) = decimal m
itoa (negsuc m) = codes "-" ++ decimal (suc m)

unfoldable pub count_text : Option CountField → Bytes
unfolding itoa
count_text none = []
count_text (some (float s)) = s
count_text (some (string s)) = s
count_text (some (int i)) = itoa i

-- an answer to the question: a form that was accepted, or anything else
pub data Response : Type 0 where
  accepted : Content → Response
  other : Response

-- applyInput, with a count that is not below zero, and what of the request `confirm` reads; `random` is the random end of a question's state
pub record ApplyInput : Type 0 where
  pub plan_id : Bytes
  pub nodes : Bytes
  pub count : ℕ
  pub can_elicit : Bool
  pub response : Option Response
  pub state : Bytes
  pub random : Bytes

-- slices.Equal on texts
unfoldable pub equal_texts : List Bytes → List Bytes → Bool
equal_texts [] [] = true
equal_texts [] (_ ∷ _) = false
equal_texts (_ ∷ _) [] = false
equal_texts (a ∷ as_) (b ∷ bs) = eqb a b && equal_texts as_ bs

-- a check that refuses the call
abbrev pub check_that : {S : Type 0} → Bool → Error → Doing S (Unit {0})
check_that b e = require (if b then none else some e)

module _ (n : NodeSets) where
  -- answerText
  unfoldable pub answer_text : Preview n → Content → Bytes
  unfolding count_text
  answer_text p c =
      if p.count_required then count_text c.count else if c.confirm then codes "yes" else codes "no"

  -- question: the parts of the form
  pub record Form : Type 0 where
    pub detail : Bytes
    pub cluster : Bytes
    pub shown : Preview n
    pub asks : Question n

  unfoldable pub form : Preview n → Bytes → Form
  unfolding question
  form p cluster = record { detail = p.detail; cluster = cluster; shown = p; asks = question n p }

  -- what apply_plan returns without an error: the question, with its state, or applyOutput
  pub data Reply : Type 0 where
    input_required : Form → Bytes → Reply
    done : (recorded : Bool) → Reply

  -- the plan that stands, with what it is carried out by
  pub record Ready (W : Type 0) : Type 0 where
    pub place : ℕ
    pub plan : Plan n
    pub client : Client W
    pub app : App n W

  -- what `apply` has before it takes the plan: the question, or the plan that may go ahead
  pub data Stand (W : Type 0) : Type 0 where
    asking : Form → Bytes → Stand W
    ready : Ready W → Stand W

  -- the action that the gate is asked about again
  unfoldable pub action_of : Terms n → Action n
  unfolding verb
  action_of t = record {
    verb = verb t.action;
    targets = some t.nodes;
    detail = t.preview.detail;
    not_nodes = false;
  }

  -- `in.Nodes == p.preview.Targets && in.Count == p.preview.Count`
  unfoldable pub repeats : Terms n → Bytes → ℕ → Bool
  repeats t nodes count = eqb nodes t.preview.targets && count == t.preview.count

  module _ (yes_word : Bytes → Bool) where
    -- the rest of `confirm`, once there is an answer that belongs to the question
    unfoldable pub judge : Preview n → Response → Option Error
    unfolding accept answer_text
    judge p (accepted c) =
        if accept n yes_word p (answer_text p c)
        then none
        else some (refusal interrupted "not confirmed, nothing was done")
    judge p other = some (refusal interrupted "the user did not confirm, nothing was done")

  module _ (yes_word : Bytes → Bool) {W : Type 0} where
    -- confirm, of an answer: it belongs to the question last asked, which is forgotten, and says yes
    unfoldable pub settle : ApplyInput → ℕ → Preview n → Response → Doing (Running n W) (Unit {0})
    unfolding answered judge
    settle r i p a = do
      belongs ← with_store n (answered n i r.state)
      check_that belongs (refusal usage "the confirmation does not belong to this plan's question")
      require (judge yes_word p a)

    -- confirm: the question, or nothing when the plan may go ahead
    unfoldable pub confirm :
        ApplyInput → ℕ → Preview n → Bytes → Doing (Running n W) (Option (Form × Bytes))
    unfolding ask form settle
    confirm r i p cluster =
        if not r.can_elicit
        then fail (refusal usage "this client cannot ask the user to confirm, so nothing was done")
        else elim r.response as (λ _. Doing (Running n W) (Option (Form × Bytes))) [
          | none ↦ do state ← with_store n (ask n i r.random); pure (some (form p cluster, state))
          | some a ↦ do settle r i p a; pure none
        ]

    -- what `apply` makes of the error of `confirm`
    abbrev pub declining :
        {A : Type 0} → Result Error A × Running n W → Result Error A × Running n W
    declining (ok a, s) = (ok a, s)
    declining (err e, s) = (err e, record s { entry = record s.entry { outcome = declined e } })

    -- the part of `apply` that has a plan confirmed, when the server asks for it
    unfoldable pub confirm_if :
        Bool → ApplyInput → ℕ → Preview n → Bytes → Doing (Running n W) (Option (Form × Bytes))
    unfolding confirm
    confirm_if elicit r i p cluster =
        if elicit then (λ s. declining (confirm r i p cluster s)) else pure none
