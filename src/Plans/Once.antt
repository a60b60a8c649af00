-- ===== src/Plans/Once.antt =====
-- internal/mcpserver/plan.go: however the calls of requests follow each other, a plan is taken once, and
-- one question gets one answer.
use clusterctl.Prelude.{
  ℕ, suc, ◌≤◌, Bool, true, false, ◌&&◌, none, some, List, [], ◌∷◌, ◌≡◌, ◌≢◌, refl, &&-true, sym, ap,
  ◌∙◌, ◌==◌, ==_iff, Bool-cases, Option-cases, inl, inr, arith, if◌then◌else◌,
}
use clusterctl.NodeSet.{NodeSets}
use clusterctl.Plans.{Plan}
use clusterctl.Plans.Store.{
  get_at, Store, Call, add_plan, get_plan, ask_plan, answer_plan, take_plan, pass, step, take,
  used_up,
}
use clusterctl.Plans.Heap.{get_at-set_at}
use clusterctl.Plans.Growing.{Later, Grows, step-Grows}

false≢true : false ≢ true
false≢true e = absurd (cc)

module _ (n : NodeSets) where
  -- a call took this plan
  unfoldable pub takes : ℕ → Call n → Store n → Bool
  unfolding take
  takes i (take_plan j) s = i == j && (take n j s).0
  takes i _ s = false

  -- how many of the calls, from this store on, take this plan
  unfoldable pub count_takes : ℕ → List (Call n) → Store n → ℕ
  unfolding takes step
  count_takes i [] s = 0
  count_takes i (c ∷ cs) s =
      let rest = count_takes i cs (step n c s) in if takes i c s then suc rest else rest

  -- a plan that is marked used
  abbrev IsUsed : ℕ → Store n → Type 0
  IsUsed i s = (p : Plan n) × (get_at s.heap i ≡ some p) × (p.used ≡ true)

  step-IsUsed : (i : ℕ) (c : Call n) (s : Store n) → IsUsed i s → IsUsed i (step n c s)
  unfolding Grows Later
  step-IsUsed i c s (p, e, u) = let (q, f, (ht, hx, hu)) = step-Grows n c s i p e in (q, f, hu u)

  take-used :
      (i : ℕ) (s : Store n) (p : Plan n)
      → get_at s.heap i ≡ some p
      → p.used ≡ true
      → (take n i s).0 ≡ false
  unfolding take
  take-used i s p e u = rw (take, e, u) refl

  take-none : (i : ℕ) (s : Store n) → get_at s.heap i ≡ none → (take n i s).0 ≡ false
  unfolding take
  take-none i s e = rw (take, e) refl

  take-first : (i : ℕ) (s : Store n) → (take n i s).0 ≡ true → IsUsed i (take n i s).1
  unfolding take
  take-first i s w = elim (Option-cases (get_at s.heap i)) [
    | inl e ↦ absurd (false≢true (sym (take-none i s e) ∙ w))
    | inr (p, e) ↦ elim (Bool-cases p.used) [
      | inl u ↦ absurd (false≢true (sym (take-used i s p e u) ∙ w))
      | inr u ↦ rw (take, e, u) (used_up n p, get_at-set_at s.heap i p (used_up n p) e, refl)
    ]
  ]

  takes-used : (i : ℕ) (c : Call n) (s : Store n) → IsUsed i s → takes i c s ≡ false
  unfolding takes
  takes-used i (add_plan t) s h = refl
  takes-used i (get_plan id) s h = refl
  takes-used i (ask_plan j random) s h = refl
  takes-used i (answer_plan j state) s h = refl
  takes-used i (pass d) s h = refl
  takes-used i (take_plan j) s (p, e, u) = elim (Bool-cases (i == j)) [
    | inl same ↦
        let here : i ≡ j = (==_iff i j).0 same in
        rw (same, take-used j s p (ap (get_at s.heap) (sym here) ∙ e) u) refl
    | inr other ↦ rw other refl
  ]

  takes-first : (i : ℕ) (c : Call n) (s : Store n) → takes i c s ≡ true → IsUsed i (step n c s)
  unfolding takes step
  takes-first i (add_plan t) s w = absurd (cc)
  takes-first i (get_plan id) s w = absurd (cc)
  takes-first i (ask_plan j random) s w = absurd (cc)
  takes-first i (answer_plan j state) s w = absurd (cc)
  takes-first i (pass d) s w = absurd (cc)
  takes-first i (take_plan j) s w =
      let both = &&-true (i == j) (take n j s).0 w in
      let here : i ≡ j = (==_iff i j).0 both.0 in rw here (take-first j s both.1)

  count_takes-used :
      (i : ℕ) (cs : List (Call n)) (s : Store n) → IsUsed i s → count_takes i cs s ≡ 0
  unfolding count_takes
  count_takes-used i [] s h = refl
  count_takes-used i (c ∷ cs) s h =
      rw (takes-used i c s h) (count_takes-used i cs (step n c s) (step-IsUsed i c s h))

  -- Whatever the calls on a store and their order, they take each plan at most once.
  pub count_takes-once : (i : ℕ) (cs : List (Call n)) (s : Store n) → count_takes i cs s ≤ 1
  unfolding count_takes
  count_takes-once i [] s = omega arith
  count_takes-once i (c ∷ cs) s = elim (Bool-cases (takes i c s)) [
    | inl w ↦ rw w (omega (arith, count_takes-used i cs (step n c s) (takes-first i c s w)))
    | inr w ↦ rw w (count_takes-once i cs (step n c s))
  ]
