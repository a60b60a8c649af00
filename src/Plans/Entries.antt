-- ===== src/Plans/Entries.antt =====
-- The map of the store of plans of internal/mcpserver/plan.go, as a list of entries that have a property.
use clusterctl.Prelude.{
  ℕ, true, false, some, List, [], ◌∷◌, Bytes, ◌≡◌, ◌≢◌, sym, eqb, eqb_iff, lookup, Bool-cases, inl,
  inr, All,
}
use clusterctl.Plans.Store.{forget}

pub true≢false : true ≢ false
true≢false e = absurd (cc)

pub forget-All :
    (P Q : Bytes × ℕ → Type 0) (id : Bytes) (live : List (Bytes × ℕ))
    → ((key : Bytes) (i : ℕ) → eqb id key ≡ false → P (key, i) → Q (key, i))
    → All P live
    → All Q (forget id live)
unfolding forget
forget-All P Q id [] f h = tt
forget-All P Q id ((key, i) ∷ live) f (p, h) = elim (Bool-cases (eqb id key)) [
  | inl e ↦ rw e (forget-All P Q id live f h)
  | inr e ↦ rw e (f key i e p, forget-All P Q id live f h)
]

pub map-All :
    (P Q : Bytes × ℕ → Type 0) (live : List (Bytes × ℕ))
    → ((key : Bytes) (i : ℕ) → P (key, i) → Q (key, i))
    → All P live
    → All Q live
map-All P Q [] f h = tt
map-All P Q ((key, i) ∷ live) f (p, h) = (f key i p, map-All P Q live f h)

found : (j i : ℕ) → some j ≡ some i → j ≡ i
found j i e = cc

pub lookup-All :
    (P : Bytes × ℕ → Type 0) (id : Bytes) (i : ℕ) (live : List (Bytes × ℕ))
    → All P live
    → lookup id live ≡ some i
    → P (id, i)
unfolding lookup
lookup-All P id i [] h e = absurd (cc)
lookup-All P id i ((key, j) ∷ live) (p, h) e = elim (Bool-cases (eqb key id)) [
  | inl same ↦
      let here : key ≡ id = (eqb_iff key id).0 same in
      let there : some j ≡ some i = rw same at e in rw (sym (found j i there), sym here) p
  | inr other ↦ lookup-All P id i live h (rw other at e)
]
