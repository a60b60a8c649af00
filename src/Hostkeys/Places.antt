-- ===== src/Hostkeys/Places.antt =====
-- The places of entries, and how `candidates` merges them.
use clusterctl.Prelude.{
  ℕ, suc, ◌<◌, Bool, true, false, ◌||◌, List, [], ◌∷◌, ltb, Bool-cases, if◌then◌else◌, All, ◌≡◌,
  refl, ap, ◌∙◌, inl, inr, arith,
}
use clusterctl.Hostkeys.{Entry}
use clusterctl.Hostkeys.Index.{merge_one, merge}

-- the places, from one on, of the entries that pass a test
abbrev pub positions : ℕ → (Entry → Bool) → List Entry → List ℕ
positions i f [] = []
positions i f (e ∷ es) = let rest = positions (suc i) f es in if f e then i ∷ rest else rest

-- all places of a list are past one
abbrev Past : ℕ → List ℕ → Type 0
Past i = All (λ j. i < j)

positions-Past : (i j : ℕ) (f : Entry → Bool) (es : List Entry) → i < j → Past i (positions j f es)
positions-Past i j f [] lt = tt
positions-Past i j f (e ∷ es) lt = elim (Bool-cases (f e)) [
  | inl there ↦ rw there (lt, positions-Past i (suc j) f es (omega arith))
  | inr other ↦ rw other (positions-Past i (suc j) f es (omega arith))
]

merge_one-first :
    (i : ℕ) (rest : List ℕ → List ℕ) (bs : List ℕ) → Past i bs → merge_one i rest bs ≡ i ∷ rest bs
unfolding merge_one
merge_one-first i rest [] past = refl
merge_one-first i rest (b ∷ bs) past = let lt : ltb i b ≡ true = ground arith in rw lt refl

merge-first : (i : ℕ) (fs bs : List ℕ) → Past i bs → merge (i ∷ fs) bs ≡ i ∷ merge fs bs
unfolding merge
merge-first i fs bs past = merge_one-first i (λ cs. merge fs cs) bs past

merge-later : (i : ℕ) (fs bs : List ℕ) → Past i fs → merge fs (i ∷ bs) ≡ i ∷ merge fs bs
unfolding merge merge_one
merge-later i [] bs past = refl
merge-later i (a ∷ fs) bs past =
    let first : ltb a i ≡ false = ground arith in
    let second : ltb i a ≡ true = ground arith in rw (first, second) refl

merge-same : (i : ℕ) (fs bs : List ℕ) → merge (i ∷ fs) (i ∷ bs) ≡ i ∷ merge fs bs
unfolding merge merge_one
merge-same i fs bs = let same : ltb i i ≡ false = ground arith in rw same refl

pub merge-positions :
    (i : ℕ) (f g : Entry → Bool) (es : List Entry)
    → merge (positions i f es) (positions i g es) ≡ positions i (λ e. f e || g e) es
merge-positions i f g [] = unfold merge in refl
merge-positions i f g (e ∷ es) =
    let ih = merge-positions (suc i) f g es in
    let first = positions-Past i (suc i) f es (omega arith) in
    let second = positions-Past i (suc i) g es (omega arith) in
    elim (Bool-cases (f e)) [
      | inl a ↦ elim (Bool-cases (g e)) [
        | inl b ↦
            rw a rw b
              (merge-same i (positions (suc i) f es) (positions (suc i) g es) ∙ ap (λ t. i ∷ t) ih)
        | inr b ↦ rw a rw b (
            merge-first i (positions (suc i) f es) (positions (suc i) g es) second
            ∙ ap (λ t. i ∷ t) ih)
      ]
      | inr a ↦ elim (Bool-cases (g e)) [
        | inl b ↦ rw a rw b (
            merge-later i (positions (suc i) f es) (positions (suc i) g es) first
            ∙ ap (λ t. i ∷ t) ih)
        | inr b ↦ rw a rw b ih
      ]
    ]
