-- ===== src/Fanout/Hosts/Bound.antt =====
-- How many callers work on a host.
use clusterctl.Prelude.{
  ℕ, ◌+◌, ◌-◌, ◌≤◌, ◌<◌, List, [], ◌∷◌, ◌++◌, Bytes, eqb, eqb_iff, Bool-cases, if◌then◌else◌, ◌≡◌,
  refl, sym, ◌∙◌, inl, inr, arith,
}
use clusterctl.Fanout.Hosts.{
  Slots, take_place, release, Caller, waiting, working, over, Turn, takes, returns, releases, Step,
  comes, turns, gives_up, Reach, free, next,
}

-- how often a name is in a list
abbrev pub count : Bytes → List Bytes → ℕ
count k [] = 0
count k (x ∷ xs) = (if eqb x k then 1 else 0) + count k xs

-- the places of a host that a caller has, and all the callers
abbrev pub held_by : Bytes → Caller → ℕ
held_by k (waiting todo held) = count k held
held_by k (working held) = count k held
held_by k over = 0

abbrev pub held_on : Bytes → List Caller → ℕ
held_on k [] = 0
held_on k (c ∷ cs) = held_by k c + held_on k cs

held_on-append :
    (k : Bytes) (before : List Caller) (c : Caller) (rest : List Caller)
    → held_on k (before ++ c ∷ rest) ≡ held_on k before + (held_by k c + held_on k rest)
held_on-append k [] c rest = omega arith
held_on-append k (b ∷ before) c rest = omega (arith, held_on-append k before c rest)

release-count :
    (names : List Bytes) (s : Slots) (k : Bytes) → release names s k ≡ s k - count k names
unfolding release
release-count [] s k = omega arith
release-count (x ∷ names) s k = elim (Bool-cases (eqb x k)) [
  | inl same ↦
      rw same
        (release-count names (λ j. if eqb x j then s j - 1 else s j) k ∙ rw same (omega arith))
  | inr other ↦
      rw other
        (release-count names (λ j. if eqb x j then s j - 1 else s j) k ∙ rw other (omega arith))
]

abbrev Counted : ℕ → Slots → List Caller → Bytes → Type 0
Counted limit s cs k = (s k ≡ held_on k cs) × (s k ≤ limit)

Turn-Counted :
    {limit : ℕ} {c d : Caller} {s t : Slots}
    → Turn limit c s d t
    → (k : Bytes) (n : ℕ) → s k ≡ held_by k c + n
    → s k ≤ limit
    → (t k ≡ held_by k d + n) × (t k ≤ limit)
unfolding take_place
Turn-Counted {limit} (takes name todo held s room) k n e le = elim (Bool-cases (eqb name k)) [
  | inl same ↦
      let is : name ≡ k = (eqb_iff name k).0 same in
      let here : s k < limit = rw (sym is) room in rw same (omega arith, omega arith)
  | inr other ↦ rw other (omega arith, le)
]
Turn-Counted (returns held s) k n e le = (e, le)
Turn-Counted (releases held s) k n e le = rw (release-count held s k) (omega arith, omega arith)

Step-Counted :
    {limit : ℕ} {s t : Slots} {cs ds : List Caller}
    → Step limit s cs t ds
    → (k : Bytes) → Counted limit s cs k
    → Counted limit t ds k
Step-Counted (comes hosts s cs) k (e, le) = (omega arith, le)
Step-Counted (turns before rest c d s t turn) k (e, le) =
    let n = held_on k before + held_on k rest in
    let (e2, le2) = Turn-Counted turn k n (e ∙ held_on-append k before c rest ∙ omega arith) le in
    (e2 ∙ omega (arith, held_on-append k before d rest), le2)
Step-Counted (gives_up before rest todo held s) k (e, le) = rw (release-count held s k) (
  omega
      (arith, held_on-append k before (waiting todo held) rest, held_on-append k before over rest),
  omega arith,
)

-- However the callers of Acquire interleave, and whichever of them give up, the places of a host that are
-- taken are those that its callers have, and there are never more than the limit.
pub Reach-Counted :
    {limit : ℕ} {s : Slots} {cs : List Caller}
    → Reach limit s cs
    → (k : Bytes) → (s k ≡ held_on k cs) × (s k ≤ limit)
Reach-Counted free k = (refl, omega arith)
Reach-Counted (next r step) k = Step-Counted step k (Reach-Counted r k)
