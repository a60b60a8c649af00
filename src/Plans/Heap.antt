-- ===== src/Plans/Heap.antt =====
-- Reading the heap of internal/mcpserver/plan.go after a change of it.
use clusterctl.Prelude.{
  ℕ, zero, suc, length, ◌==◌, false, some, List, [], ◌∷◌, ◌++◌, ◌≡◌, refl, arith,
}
use clusterctl.Plans.Store.{get_at, set_at}

module _ {A : Type 0} where
  -- What was written is read.
  pub get_at-set_at :
      (h : List A) (i : ℕ) (x y : A) → get_at h i ≡ some x → get_at (set_at h i y) i ≡ some y
  unfolding get_at set_at
  get_at-set_at [] i x y e = absurd (cc)
  get_at-set_at (z ∷ h) zero x y e = refl
  get_at-set_at (z ∷ h) (suc i) x y e = get_at-set_at h i x y e

  -- The other places keep what they hold.
  pub get_at-other :
      (h : List A) (i j : ℕ) (y : A) → (i == j) ≡ false → get_at (set_at h i y) j ≡ get_at h j
  unfolding get_at set_at
  get_at-other [] i j y e = refl
  get_at-other (z ∷ h) zero zero y e = absurd (cc)
  get_at-other (z ∷ h) zero (suc j) y e = refl
  get_at-other (z ∷ h) (suc i) zero y e = refl
  get_at-other (z ∷ h) (suc i) (suc j) y e = get_at-other h i j y (ground arith)

  -- What is added at the end moves nothing.
  pub get_at-append :
      (h t : List A) (i : ℕ) (x : A) → get_at h i ≡ some x → get_at (h ++ t) i ≡ some x
  unfolding get_at
  get_at-append [] t i x e = absurd (cc)
  get_at-append (z ∷ h) t zero x e = e
  get_at-append (z ∷ h) t (suc i) x e = get_at-append h t i x e

  -- What is added is at the end.
  pub get_at-length : (h : List A) (x : A) → get_at (h ++ x ∷ []) (length h) ≡ some x
  unfolding get_at
  get_at-length [] x = refl
  get_at-length (z ∷ h) x = get_at-length h x
