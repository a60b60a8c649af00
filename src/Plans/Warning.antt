-- ===== src/Plans/Warning.antt =====
-- What plan_change of internal/mcpserver/plan.go says of the nodes as they are: nodesWithJobs, statesOf and
-- the warnings of a change. A set that is built name by name keeps what it has where a name is refused.
use clusterctl.Prelude.{List, [], ◌∷◌, ◌++◌, Bytes, ok, err, eqb, codes, has_prefix, if◌then◌else◌}
use clusterctl.NodeSet.{NodeSets}
use clusterctl.Slurm.State.{Node, base_state}
use clusterctl.Slurm.Queue.{Job}
use clusterctl.Plans.{Change, drain, resume}

-- a sentence for the administrator
pub data Warning (S : Type 0) : Type 0 where
  run_jobs already_drained : S → Warning S
  taken_out : (name reason : Bytes) → Warning S

module _ (n : NodeSets) where
  open n use {NodeSet, empty, parse, intersection, add, is_empty, folded}

  -- the nodes of a job that are in the set, added to those of the jobs before
  unfoldable pub with_job : NodeSet → NodeSet → Job → NodeSet
  with_job ns out j = elim (parse j.nodes) as (λ _. NodeSet) [
    | err _ ↦ out
    | ok on ↦
        let hit = intersection on ns in
        if is_empty hit
        then out
        else elim (add out (folded hit)) as (λ _. NodeSet) [ ok next ↦ next | err _ ↦ out ]
  ]

  unfoldable pub jobs_on : NodeSet → NodeSet → List Job → NodeSet
  unfolding with_job
  jobs_on ns out [] = out
  jobs_on ns out (j ∷ js) = jobs_on ns (with_job ns out j) js

  -- nodesWithJobs
  unfoldable pub nodes_with_jobs : List Job → NodeSet → NodeSet
  unfolding jobs_on
  nodes_with_jobs js ns = jobs_on ns empty js

  -- a name added to the set of a state, which is made when there is none
  unfoldable pub add_state : Bytes → Bytes → List (Bytes × NodeSet) → List (Bytes × NodeSet)
  add_state state name [] =
      (state, elim (add empty name) as (λ _. NodeSet) [ ok s ↦ s | err _ ↦ empty ]) ∷ []
  add_state state name ((key, s) ∷ sets) =
      let rest = add_state state name sets in
      if eqb key state
      then (key, elim (add s name) as (λ _. NodeSet) [ ok t ↦ t | err _ ↦ s ]) ∷ sets
      else (key, s) ∷ rest

  -- statesOf, in the order of the first node of each state
  unfoldable pub states_from : List (Bytes × NodeSet) → List Node → List (Bytes × NodeSet)
  unfolding add_state
  states_from sets [] = sets
  states_from sets (node ∷ nodes) = states_from (add_state (base_state node) node.name sets) nodes

  unfoldable pub folded_all : List (Bytes × NodeSet) → List (Bytes × Bytes)
  folded_all [] = []
  folded_all ((state, s) ∷ sets) = (state, folded s) ∷ folded_all sets

  unfoldable pub states_of : List Node → List (Bytes × Bytes)
  unfolding states_from folded_all
  states_of nodes = folded_all (states_from [] nodes)

  -- the nodes that are draining or drained
  unfoldable pub draining : NodeSet → List Node → NodeSet
  draining out [] = out
  draining out (node ∷ nodes) =
      draining
        (if has_prefix (base_state node) (codes "drain")
          then elim (add out node.name) as (λ _. NodeSet) [ ok s ↦ s | err _ ↦ out ]
          else out)
        nodes

  unfoldable pub reasons : List Node → List (Warning NodeSet)
  reasons [] = []
  reasons (node ∷ nodes) =
      let rest = reasons nodes in
      if eqb node.reason [] then rest else taken_out node.name node.reason ∷ rest

  abbrev pub unless_empty : NodeSet → Warning NodeSet → List (Warning NodeSet)
  unless_empty s w = if is_empty s then [] else w ∷ []

  -- warn of a change
  unfoldable pub warn : Change → List Node → List Job → NodeSet → List (Warning NodeSet)
  unfolding nodes_with_jobs draining reasons
  warn drain nodes js ns =
      let busy = nodes_with_jobs js ns in
      let already = draining empty nodes in
      unless_empty busy (run_jobs busy) ++ unless_empty already (already_drained already)
  warn resume nodes js ns = reasons nodes
