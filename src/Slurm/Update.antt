-- ===== src/Slurm/Update.antt =====
-- What changes the state of nodes: ValidateReason, Drain and Resume.
use clusterctl.Prelude.{
  ℕ, length, Bool, not, ◌&&◌, ◌||◌, Option, none, some, List, [], ◌∷◌, ◌++◌, Bytes, Result, ok, err,
  codes, eqb, leb, ltb, ◌==◌, has_prefix, trim_space, if◌then◌else◌,
}
use clusterctl.ExitCode.{Error, nil, cons, within, several, usage}
use clusterctl.NodeSet.{NodeSets}
use clusterctl.Slurm.Act.{Act, Session, ◌>>◌, refusal, require}
use clusterctl.Slurm.Client.{Client, change}
use clusterctl.Slurm.State.{Node, no_reason, base_state}
use clusterctl.Slurm.Nodes.{nodes, refuse_all}

abbrev pub max_reason_length : ℕ
max_reason_length = 200

-- unicode.IsControl, which holds of the category Cc
abbrev pub is_control : ℕ → Bool
is_control r = ltb r 32 || leb 127 r && ltb r 160

-- the loop of `ValidateReason` over the characters
unfoldable pub check_plain : List ℕ → Option Error
check_plain [] = none
check_plain (r ∷ rs) =
    let rest = check_plain rs in
    if is_control r
    then some (refusal usage "the text contains a control character")
    else if r == b'|'
    then some (refusal usage "the text contains |, which Slurm's output uses between fields")
    else rest

-- utf8.ValidString, and the characters of a text as `range` gives them
module _ (is_utf8 : Bytes → Bool) (runes : Bytes → List ℕ) where
  -- ValidateReason
  unfoldable pub validate_reason : Bytes → Option Error
  unfolding check_plain no_reason
  validate_reason reason =
      let trimmed = trim_space reason in
      if eqb trimmed []
      then some (refusal usage "draining a node needs a reason")
      else if not (is_utf8 reason)
      then some (refusal usage "the reason is not valid UTF-8")
      else if ltb max_reason_length (length (runes trimmed))
      then some (refusal usage "the reason is too long")
      else if no_reason trimmed
      then some (refusal usage "that is what Slurm prints for no reason")
      else check_plain (runes reason)

  module _ (n : NodeSets) {W : Type 0} (c : Client W) (token : Bytes) where
    open n use {NodeSet, empty, add, difference, is_empty, hostlist}

    abbrev pub added_or_same : NodeSet → Bytes → NodeSet
    added_or_same ns name = elim (add ns name) as (λ _. NodeSet) [ ok next ↦ next | err e ↦ ns ]

    -- the nodes that an update reached
    unfoldable pub reached : (Node → Bool) → List Node → NodeSet → NodeSet
    reached changed [] done = done
    reached changed (node ∷ rest) done =
        reached changed rest (if changed node then added_or_same done node.name else done)

    -- the error that says which nodes the update reached
    abbrev pub told : NodeSet → NodeSet → Error → Error
    told ns done failed =
        if is_empty done
        then within (codes "afterwards none of them is") failed
        else if is_empty (difference ns done)
        then within (codes "afterwards all of them are") failed
        else within (codes "afterwards some of them are") failed

    -- readBack: the error of the update, with what the nodes are now
    unfoldable pub read_back : NodeSet → Error → (Node → Bool) → Act W (Unit {0})
    unfolding nodes reached
    read_back ns failed changed s =
        let (found, next) = nodes n c token (some ns) [] s in
        elim found as (λ _. Result Error (Unit {0}) × Session W) [
          | err e ↦ (
            err (several (codes "the nodes could not be read back") (cons failed (cons e nil))),
            next,
          )
          | ok now ↦ (err (told ns (reached changed now empty) failed), next)
        ]

    -- an update, and the reading back of one that failed
    unfoldable pub update : NodeSet → List Bytes → (Node → Bool) → Act W (Unit {0})
    unfolding change read_back
    update ns argv changed s =
        let (ran, next) = change c argv s in
        elim ran as (λ _. Result Error (Unit {0}) × Session W) [
          | ok _ ↦ (ok tt, next)
          | err e ↦ read_back ns e changed next
        ]

    abbrev pub is_drained : Bytes → Node → Bool
    is_drained reason node = has_prefix (base_state node) (codes "drain") && eqb node.reason reason

    -- Drain
    unfoldable pub drain : NodeSet → Bytes → Act W (Unit {0})
    unfolding validate_reason refuse_all update
    drain ns reason = do
      require (validate_reason reason)
      require (refuse_all n ns)
      update ns
          (codes "scontrol"
            ∷ codes "update"
            ∷ (codes "nodename=" ++ hostlist ns)
            ∷ codes "state=drain"
            ∷ (codes "reason=" ++ reason)
            ∷ [])
          (is_drained reason)

    abbrev pub is_in_production : Node → Bool
    is_in_production node =
        let base = base_state node in
        not (
          has_prefix base (codes "drain")
          || (eqb base (codes "down") || has_prefix base (codes "fail")))

    -- Resume
    unfoldable pub resume : NodeSet → Act W (Unit {0})
    unfolding refuse_all update
    resume ns = do
      require (refuse_all n ns)
      update ns
          (codes "scontrol"
            ∷ codes "update"
            ∷ (codes "nodename=" ++ hostlist ns)
            ∷ codes "state=resume"
            ∷ [])
          is_in_production
