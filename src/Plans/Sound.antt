-- ===== src/Plans/Sound.antt =====
-- The state of the store of plans of internal/mcpserver/plan.go: what the map holds may be applied.
use clusterctl.Prelude.{
  ℕ, ◌≤◌, true, false, some, List, [], ◌∷◌, Bytes, ok, ◌≡◌, refl, sym, ap, ◌∙◌, ◌==◌, ==_iff, eqb,
  eqb_iff, ltb, lookup, Bool-cases, Option-cases, inl, inr, arith, All,
}
use clusterctl.NodeSet.{NodeSets}
use clusterctl.Slurm.Inverting.{ended-ok, failed-ok}
use clusterctl.Plans.{Plan, Terms}
use clusterctl.Plans.Store.{
  get_at, set_at, Store, Call, add_plan, get_plan, ask_plan, answer_plan, take_plan, pass, step,
  take, no_plan, answered, ask, add, get, put, prune, prune_live, is_over, fresh, asking, used_up,
}
use clusterctl.Plans.Entries.{true≢false, forget-All, map-All, lookup-All}
use clusterctl.Plans.Heap.{get_at-set_at, get_at-other, get_at-append, get_at-length}

module _ (n : NodeSets) where
  -- the pointer of an entry of the map leads to a plan with its id that has not been taken
  unfoldable pub IsLive : List (Plan n) → Bytes × ℕ → Type 0
  IsLive heap (id, i) =
      (p : Plan n) × (get_at heap i ≡ some p) × (p.terms.id ≡ id) × (p.used ≡ false)

  unfoldable pub IsSound : Store n → Type 0
  unfolding IsLive
  IsSound s = All (IsLive s.heap) s.live

  -- an entry of the map that `prune` keeps
  abbrev IsOpen : ℕ → List (Plan n) → Bytes × ℕ → Type 0
  IsOpen now heap (id, i) = IsLive heap (id, i) × (is_over n now (get_at heap i) ≡ false)

  prune_live-IsOpen :
      (now : ℕ) (heap : List (Plan n)) (live : List (Bytes × ℕ))
      → All (IsLive heap) live
      → All (IsOpen now heap) (prune_live n now heap live)
  unfolding prune_live
  prune_live-IsOpen now heap [] h = tt
  prune_live-IsOpen now heap ((id, i) ∷ live) (p, h) =
      elim (Bool-cases (is_over n now (get_at heap i))) [
        | inl e ↦ rw e (prune_live-IsOpen now heap live h)
        | inr e ↦ rw e ((p, e), prune_live-IsOpen now heap live h)
      ]

  prune-IsOpen : (s : Store n) → IsSound s → All (IsOpen s.now s.heap) (prune n s).live
  unfolding IsSound prune
  prune-IsOpen s h = prune_live-IsOpen s.now s.heap s.live h

  prune-IsSound : (s : Store n) → IsSound s → IsSound (prune n s)
  unfolding IsSound prune
  prune-IsSound s h =
      map-All (IsOpen s.now s.heap) (IsLive s.heap) (prune n s).live (λ key i p. p.0)
        (prune-IsOpen s h)

  put-IsSound : (t : Terms n) (s : Store n) → IsSound s → IsSound (put n s t)
  unfolding IsSound IsLive put fresh
  put-IsSound t s h = (
    (fresh n s t, get_at-length s.heap (fresh n s t), refl, refl),
    forget-All (IsLive s.heap) (IsLive (put n s t).heap) t.id s.live
        (λ key i other (p, e, same, u). (p, get_at-append s.heap _ i p e, same, u)) h,
  )

  pub add-IsSound : (t : Terms n) (s : Store n) → IsSound s → IsSound (add n t s)
  unfolding add
  add-IsSound t s h = put-IsSound t (prune n s) (prune-IsSound s h)

  pub get-IsSound : (id : Bytes) (s : Store n) → IsSound s → IsSound (get n id s).1
  unfolding get
  get-IsSound id s h = elim (Option-cases (lookup id (prune n s).live)) [
    | inl e ↦ rw (get, e) (prune-IsSound s h)
    | inr (i, e) ↦ rw (get, e) (prune-IsSound s h)
  ]

  -- An entry stays when the plan it leads to is asked another question, or none.
  asking-IsLive :
      (heap : List (Plan n)) (j : ℕ) (r : Plan n) (state : Bytes)
      → get_at heap j ≡ some r
      → (key : Bytes) (i : ℕ) → IsLive heap (key, i)
      → IsLive (set_at heap j (asking n r state)) (key, i)
  unfolding IsLive
  asking-IsLive heap j r state e key i (p, f, same, u) = elim (Bool-cases (j == i)) [
    | inl eq ↦
        let here : j ≡ i = (==_iff j i).0 eq in
        let this : p ≡ r = cc in
        (
          asking n r state,
          rw (sym here) (get_at-set_at heap j r (asking n r state) e),
          ap (λ x. x.terms.id) (sym this) ∙ same,
          ap (λ x. x.used) (sym this) ∙ u,
        )
    | inr eq ↦ (p, get_at-other heap j i _ eq ∙ f, same, u)
  ]

  pub ask-IsSound :
      (j : ℕ) (random : Bytes) (s : Store n) → IsSound s → IsSound (ask n j random s).1
  unfolding IsSound ask
  ask-IsSound j random s h = elim (Option-cases (get_at s.heap j)) [
    | inl e ↦ rw (ask, e) h
    | inr (r, e) ↦ rw (ask, e) (map-All _ _ s.live (asking-IsLive s.heap j r _ e) h)
  ]

  pub answered-IsSound :
      (j : ℕ) (state : Bytes) (s : Store n) → IsSound s → IsSound (answered n j state s).1
  unfolding IsSound answered
  answered-IsSound j state s h = elim (Option-cases (get_at s.heap j)) [
    | inl e ↦ rw (answered, e) h
    | inr (r, e) ↦ rw (answered, e) (map-All _ _ s.live (asking-IsLive s.heap j r _ e) h)
  ]

  -- An entry with another id leads to another plan than the one that is taken.
  taking-IsLive :
      (heap : List (Plan n)) (j : ℕ) (r : Plan n)
      → get_at heap j ≡ some r
      → (key : Bytes) (i : ℕ) → eqb r.terms.id key ≡ false
      → IsLive heap (key, i)
      → IsLive (set_at heap j (used_up n r)) (key, i)
  unfolding IsLive
  taking-IsLive heap j r e key i other (p, f, same, u) = elim (Bool-cases (j == i)) [
    | inl eq ↦
        let here : j ≡ i = (==_iff j i).0 eq in
        let this : p ≡ r = cc in
        let known : r.terms.id ≡ key = ap (λ x. x.terms.id) (sym this) ∙ same in
        let yes_ : eqb r.terms.id key ≡ true = (eqb_iff r.terms.id key).1 known in
        absurd (true≢false (sym yes_ ∙ other))
    | inr eq ↦ (p, get_at-other heap j i _ eq ∙ f, same, u)
  ]

  pub take-IsSound : (j : ℕ) (s : Store n) → IsSound s → IsSound (take n j s).1
  unfolding IsSound take
  take-IsSound j s h = elim (Option-cases (get_at s.heap j)) [
    | inl e ↦ rw (take, e) h
    | inr (r, e) ↦ elim (Bool-cases r.used) [
      | inl u ↦ rw (take, e, u) h
      | inr u ↦ rw (take, e, u) (forget-All _ _ r.terms.id s.live (taking-IsLive s.heap j r e) h)
    ]
  ]

  -- Every call keeps the store sound: each entry of its map leads to a plan with that id that has not
  -- been taken.
  pub step-IsSound : (c : Call n) (s : Store n) → IsSound s → IsSound (step n c s)
  unfolding step
  step-IsSound (add_plan t) s h = add-IsSound t s h
  step-IsSound (get_plan id) s h = get-IsSound id s h
  step-IsSound (ask_plan j random) s h = ask-IsSound j random s h
  step-IsSound (answer_plan j state) s h = answered-IsSound j state s h
  step-IsSound (take_plan j) s h = take-IsSound j s h
  step-IsSound (pass d) s h = unfold IsSound in h

  in_time : (now : ℕ) (p : Plan n) → ltb p.expires now ≡ false → now ≤ p.expires
  in_time now p e = ground arith

  -- the plan at a pointer has this id, has not been taken and is not over
  unfoldable pub MayApply : Store n → Bytes → ℕ → Plan n → Type 0
  MayApply s id i p =
      (get_at s.heap i ≡ some p) × (p.terms.id ≡ id) × (p.used ≡ false) × (s.now ≤ p.expires)

  pub get-heap : (id : Bytes) (s : Store n) → (get n id s).1.heap ≡ s.heap
  unfolding get prune
  get-heap id s = elim (Option-cases (lookup id (prune n s).live)) [
    | inl e ↦ rw (get, e) refl
    | inr (i, e) ↦ rw (get, e) refl
  ]

  pub get-found :
      (id : Bytes) (i : ℕ) (s t : Store n)
      → get n id s ≡ (ok i, t)
      → (lookup id (prune n s).live ≡ some i) × (t ≡ prune n s)
  unfolding get
  get-found id i s t e = elim (Option-cases (lookup id (prune n s).live)) [
    | inl missing ↦ absurd (failed-ok (no_plan n) i _ t (rw (get, missing) at e))
    | inr (j, there) ↦
        let (place, state) = ended-ok j i (prune n s) t (rw (get, there) at e) in
        (there ∙ ap some place, sym state)
  ]

  -- What a sound store gives for an id is a plan with that id that has not been taken and whose time is
  -- not over.
  pub get-MayApply :
      (id : Bytes) (i : ℕ) (s t : Store n)
      → IsSound s
      → get n id s ≡ (ok i, t)
      → (p : Plan n) × MayApply s id i p
  unfolding MayApply IsLive is_over
  get-MayApply id i s t h e =
      let ((p, f, same, u), over) =
        lookup-All (IsOpen s.now s.heap) id i (prune n s).live (prune-IsOpen s h)
          (get-found id i s t e).0 in
      (p, (f, same, u, in_time s.now p (rw f at over)))
