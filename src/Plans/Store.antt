-- ===== src/Plans/Store.antt =====
-- The store of the plans of internal/mcpserver/plan.go. A `*plan` is a place in the heap, which holds
-- every plan ever added: a caller keeps its pointer when the map has lost the plan. The mutex makes each
-- operation one step.
use clusterctl.Prelude.{
  ℕ, zero, suc, ◌+◌, length, Bool, true, false, not, ◌&&◌, Option, none, some, List, [], ◌∷◌, ◌++◌,
  Bytes, Result, ok, err, eqb, ltb, lookup, codes, if◌then◌else◌,
}
use clusterctl.ExitCode.{Error, usage}
use clusterctl.NodeSet.{NodeSets}
use clusterctl.Slurm.Act.{refusal}
use clusterctl.Plans.{Terms, Plan}

module _ {A : Type 0} where
  -- what a pointer points to
  unfoldable pub get_at : List A → ℕ → Option A
  get_at [] i = none
  get_at (x ∷ xs) zero = some x
  get_at (x ∷ xs) (suc i) = get_at xs i

  -- a change of what a pointer points to
  unfoldable pub set_at : List A → ℕ → A → List A
  set_at [] i y = []
  set_at (x ∷ xs) zero y = y ∷ xs
  set_at (x ∷ xs) (suc i) y = x ∷ set_at xs i y

-- `delete` on a map
unfoldable pub forget : Bytes → List (Bytes × ℕ) → List (Bytes × ℕ)
forget id [] = []
forget id ((key, i) ∷ live) =
    let rest = forget id live in if eqb id key then rest else (key, i) ∷ rest

module _ (n : NodeSets) where
  -- planStore; `live` is the map of the plans by their ids
  pub record Store : Type 0 where
    pub ttl : ℕ
    pub now : ℕ
    pub live : List (Bytes × ℕ)
    pub heap : List (Plan n)

  -- newPlanStore
  unfoldable pub new_store : ℕ → ℕ → Store
  new_store ttl now = record { ttl = ttl; now = now; live = []; heap = [] }

  -- `now.After(p.expires)`; a pointer to nothing is not in the map
  unfoldable pub is_over : ℕ → Option (Plan n) → Bool
  is_over now none = true
  is_over now (some p) = ltb p.expires now

  unfoldable pub prune_live : ℕ → List (Plan n) → List (Bytes × ℕ) → List (Bytes × ℕ)
  unfolding get_at is_over
  prune_live now heap [] = []
  prune_live now heap ((id, i) ∷ live) =
      let rest = prune_live now heap live in
      if is_over now (get_at heap i) then rest else (id, i) ∷ rest

  -- prune
  unfoldable pub prune : Store → Store
  unfolding prune_live
  prune s = record s { live = prune_live s.now s.heap s.live }

  -- the plan that is added, with the time it lasts
  unfoldable pub fresh : Store → Terms n → Plan n
  fresh s t = record { terms = t; expires = s.now + s.ttl; asked = []; used = false }

  -- the store with one more plan, under its id
  unfoldable pub put : Store → Terms n → Store
  unfolding fresh forget
  put s t = record s {
    live = (t.id, length s.heap) ∷ forget t.id s.live;
    heap = s.heap ++ fresh s t ∷ [];
  }

  -- add; the plan is at the end of the heap
  unfoldable pub add : Terms n → Store → Store
  unfolding prune put
  add t s = put (prune s) t

  abbrev pub no_plan : Error
  no_plan = refusal usage "there is no plan; it expired, was applied already or never existed"

  -- get: the pointer
  unfoldable pub get : Bytes → Store → Result Error ℕ × Store
  unfolding prune lookup
  get id s =
      let pruned = prune s in
      elim (lookup id pruned.live) as (λ _. Result Error ℕ × Store) [
        | none ↦ (err no_plan, pruned)
        | some i ↦ (ok i, pruned)
      ]

  -- a plan with another question
  abbrev pub asking : Plan n → Bytes → Plan n
  asking p state = record p { asked = state }

  -- ask; `random` is the random id that the state ends with
  unfoldable pub ask : ℕ → Bytes → Store → Bytes × Store
  unfolding get_at set_at
  ask i random s = elim (get_at s.heap i) as (λ _. Bytes × Store) [
    | none ↦ ([], s)
    | some p ↦
        let state = p.terms.id ++ (codes "." ++ random) in
        (state, record s { heap = set_at s.heap i (asking p state) })
  ]

  -- `p.asked != "" && state == p.asked`
  unfoldable pub belongs : Plan n → Bytes → Bool
  belongs p state = not (eqb p.asked []) && eqb state p.asked

  -- answered
  unfoldable pub answered : ℕ → Bytes → Store → Bool × Store
  unfolding get_at set_at belongs
  answered i state s = elim (get_at s.heap i) as (λ _. Bool × Store) [
    | none ↦ (false, s)
    | some p ↦ (belongs p state, record s { heap = set_at s.heap i (asking p []) })
  ]

  abbrev pub used_up : Plan n → Plan n
  used_up p = record p { used = true }

  -- take
  unfoldable pub take : ℕ → Store → Bool × Store
  unfolding get_at set_at forget
  take i s = elim (get_at s.heap i) as (λ _. Bool × Store) [
    | none ↦ (false, s)
    | some p ↦ if p.used then (false, s) else (
      true,
      record s { live = forget p.terms.id s.live; heap = set_at s.heap i (used_up p) },
    )
  ]

  -- one call on the store, by whichever request; `pass` is the clock
  pub data Call : Type 0 where
    add_plan : Terms n → Call
    get_plan : Bytes → Call
    ask_plan : ℕ → Bytes → Call
    answer_plan : ℕ → Bytes → Call
    take_plan : ℕ → Call
    pass : ℕ → Call

  -- the store after a call, and whether the call was a take, or an answer, of this plan that won
  unfoldable pub step : Call → Store → Store
  unfolding add get ask answered take
  step (add_plan t) s = add t s
  step (get_plan id) s = (get id s).1
  step (ask_plan i random) s = (ask i random s).1
  step (answer_plan i state) s = (answered i state s).1
  step (take_plan i) s = (take i s).1
  step (pass d) s = record s { now = s.now + d }
