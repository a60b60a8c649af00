-- ===== src/Plans/Growing.antt =====
-- What any call on the store of plans of internal/mcpserver/plan.go leaves of the plans in it.
use clusterctl.Prelude.{
  ℕ, true, some, List, ◌++◌, Bytes, ◌≡◌, refl, sym, ap, ◌∙◌, lookup, ◌==◌, ==_iff, Bool-cases,
  Option-cases, inl, inr,
}
use clusterctl.NodeSet.{NodeSets}
use clusterctl.Plans.{Terms, Plan}
use clusterctl.Plans.Store.{
  get_at, set_at, Store, Call, add_plan, get_plan, ask_plan, answer_plan, take_plan, pass, step,
  take, answered, ask, prune, put, add, get, used_up,
}
use clusterctl.Plans.Heap.{get_at-set_at, get_at-other, get_at-append}

module _ (n : NodeSets) where
  -- what the calls leave of a plan: its terms and its time, and that it is used
  unfoldable pub Later : Plan n → Plan n → Type 0
  Later p q = (q.terms ≡ p.terms) × (q.expires ≡ p.expires) × (p.used ≡ true → q.used ≡ true)

  -- every pointer still points to the plan it pointed to
  unfoldable pub Grows : List (Plan n) → List (Plan n) → Type 0
  unfolding Later
  Grows h g =
      (i : ℕ) (p : Plan n) → get_at h i ≡ some p → (q : Plan n) × (get_at g i ≡ some q) × Later p q

  Grows-same : (h : List (Plan n)) → Grows h h
  unfolding Grows Later
  Grows-same h i p e = (p, e, (refl, refl, λ u. u))

  Grows-append : (h t : List (Plan n)) → Grows h (h ++ t)
  unfolding Grows Later
  Grows-append h t i p e = (p, get_at-append h t i p e, (refl, refl, λ u. u))

  Later-from : (p r y : Plan n) → p ≡ r → Later r y → Later p y
  unfolding Later
  Later-from p r y e (ht, hx, hu) = (
    ht ∙ ap (λ x. x.terms) (sym e),
    hx ∙ ap (λ x. x.expires) (sym e),
    λ u. hu (ap (λ x. x.used) (sym e) ∙ u),
  )

  Grows-set :
      (h : List (Plan n)) (j : ℕ) (r y : Plan n)
      → get_at h j ≡ some r
      → Later r y
      → Grows h (set_at h j y)
  unfolding Grows
  Grows-set h j r y e later i p f = elim (Bool-cases (j == i)) [
    | inl same ↦
        let here : j ≡ i = (==_iff j i).0 same in
        let found : p ≡ r = cc in
        (y, rw (sym here) (get_at-set_at h j r y e), Later-from p r y found later)
    | inr other ↦ (p, get_at-other h j i y other ∙ f, (refl, refl, λ u. u))
  ]

  add-Grows : (t : Terms n) (s : Store n) → Grows s.heap (add n t s).heap
  unfolding add put prune
  add-Grows t s = Grows-append s.heap _

  get-Grows : (id : Bytes) (s : Store n) → Grows s.heap (get n id s).1.heap
  unfolding get
  get-Grows id s = elim (Option-cases (lookup id (prune n s).live)) [
    | inl e ↦ rw (get, e) (Grows-same s.heap)
    | inr (i, e) ↦ rw (get, e) (Grows-same s.heap)
  ]

  ask-Grows : (j : ℕ) (random : Bytes) (s : Store n) → Grows s.heap (ask n j random s).1.heap
  unfolding ask Later
  ask-Grows j random s = elim (Option-cases (get_at s.heap j)) [
    | inl e ↦ rw (ask, e) (Grows-same s.heap)
    | inr (r, e) ↦ rw (ask, e) (Grows-set s.heap j r _ e (refl, refl, λ u. u))
  ]

  answered-Grows :
      (j : ℕ) (state : Bytes) (s : Store n) → Grows s.heap (answered n j state s).1.heap
  unfolding answered Later
  answered-Grows j state s = elim (Option-cases (get_at s.heap j)) [
    | inl e ↦ rw (answered, e) (Grows-same s.heap)
    | inr (r, e) ↦ rw (answered, e) (Grows-set s.heap j r _ e (refl, refl, λ u. u))
  ]

  take-Grows : (j : ℕ) (s : Store n) → Grows s.heap (take n j s).1.heap
  unfolding take Later
  take-Grows j s = elim (Option-cases (get_at s.heap j)) [
    | inl e ↦ rw (take, e) (Grows-same s.heap)
    | inr (r, e) ↦ elim (Bool-cases r.used) [
      | inl u ↦ rw (take, e, u) (Grows-same s.heap)
      | inr u ↦ rw (take, e, u) (Grows-set s.heap j r (used_up n r) e (refl, refl, λ v. refl))
    ]
  ]

  -- Every call leaves each plan its terms and its time, and none makes a used plan unused.
  pub step-Grows : (c : Call n) (s : Store n) → Grows s.heap (step n c s).heap
  unfolding step
  step-Grows (add_plan t) s = add-Grows t s
  step-Grows (get_plan id) s = get-Grows id s
  step-Grows (ask_plan j random) s = ask-Grows j random s
  step-Grows (answer_plan j state) s = answered-Grows j state s
  step-Grows (take_plan j) s = take-Grows j s
  step-Grows (pass d) s = Grows-same s.heap
