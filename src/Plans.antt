-- ===== src/Plans.antt =====
-- internal/mcpserver/plan.go: the changes that a plan can carry out, and what a plan is made of.
-- The children keep the plans (Store), carry a change out or record it (Changing), and serve
-- plan_change (Preparing) and apply_plan (Applying).
pub mod Store
pub mod Changing
pub mod Serving
pub mod Warning
pub mod Preparing
pub mod Asking
pub mod Applying
pub mod Heap
pub mod Entries
pub mod Growing
pub mod Once
pub mod Sound
pub mod Standing
pub mod Agreeing
pub mod Reads
pub mod Still
pub mod Untouched
pub mod Confirmed
pub mod Sending
pub mod Carrying
use clusterctl.Prelude.{
  ℕ, Bool, true, false, not, Option, none, some, List, [], ◌∷◌, ◌++◌, Bytes, Result, ok, err, eqb,
  codes, trim_space, if◌then◌else◌,
}
use clusterctl.ExitCode.{Error, usage}
use clusterctl.NodeSet.{NodeSets}
use clusterctl.Safety.{Preview}
use clusterctl.Slurm.Act.{refusal}
use clusterctl.Slurm.Update.{validate_reason}

-- the keys of `changes`
pub data Change : Type 0 where
  drain resume : Change

-- the key of an action, which is also its `verb`
unfoldable pub verb : Change → Bytes
verb drain = codes "drain"
verb resume = codes "resume"

unfoldable pub needs_reason : Change → Bool
needs_reason drain = true
needs_reason resume = false

-- `changes[action]`
unfoldable pub find_change : Bytes → Option Change
find_change action =
    if eqb action (codes "drain")
    then some drain
    else if eqb action (codes "resume")
    then some resume
    else none

module _ (is_utf8 : Bytes → Bool) (runes : Bytes → List ℕ) where
  -- the rest of `planReason`, for a reason without the space around it
  unfoldable pub trimmed_reason : Change → Bytes → Result Error Bytes
  unfolding needs_reason validate_reason
  trimmed_reason ch reason =
      if not (needs_reason ch)
      then if not (eqb reason [])
        then err (refusal usage "takes no reason; leave it out")
        else ok []
      else if eqb reason []
      then err (refusal usage "needs a reason: say what is wrong and where it is tracked")
      else elim (validate_reason is_utf8 runes reason) [ some e ↦ err e | none ↦ ok reason ]

  -- planReason
  unfoldable pub plan_reason : Change → Bytes → Result Error Bytes
  unfolding trimmed_reason trim_space
  plan_reason ch reason = trimmed_reason ch (trim_space reason)

module _ (n : NodeSets) where
  open n use {NodeSet, folded}

  -- argv of a change
  unfoldable pub argv : Change → NodeSet → Bytes → List Bytes
  argv drain ns reason =
      codes "clusterctl"
      ∷ codes "slurm"
      ∷ codes "node"
      ∷ codes "drain"
      ∷ reason
      ∷ codes "-n"
      ∷ folded ns
      ∷ []
  argv resume ns reason =
      codes "clusterctl"
      ∷ codes "slurm"
      ∷ codes "node"
      ∷ codes "resume"
      ∷ codes "-n"
      ∷ folded ns
      ∷ []

  -- plan, the fields that do not change once it is made; the action is one of `changes`
  pub record Terms : Type 0 where
    pub id : Bytes
    pub action : Change
    pub nodes : NodeSet
    pub reason : Bytes
    pub preview : Preview n
    pub cluster : Bytes
    pub commands : List Bytes

  -- plan; times are numbers, and no question is the empty text
  pub record Plan : Type 0 where
    pub terms : Terms
    pub expires : ℕ
    pub asked : Bytes
    pub used : Bool
