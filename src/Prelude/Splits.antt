-- ===== src/Prelude/Splits.antt =====
-- Splitting a text at a byte and joining the parts undo one another.
use Prim.Native.Nat.{ℕ}
use mathlib.Core.Path.{◌≡◌, refl, ◌∙◌, ap}
use mathlib.Core.Logic.{◌≢◌, inl, inr}
use mathlib.Core.Bool.{true, false}
use mathlib.Core.List.{List, [], ◌∷◌, ◌++◌}
use native.Mathlib.Omega.{arith}
use clusterctl.Prelude.Tests.{◌==◌, Bool-cases, ==_iff}
use clusterctl.Prelude.Lists.{All}
use clusterctl.Prelude.Strings.{Bytes, join_with, split_on, onto_first, Lacks}

split_on-sep :
    (sep c : ℕ) (s : Bytes) → (c == sep) ≡ true → split_on sep (c ∷ s) ≡ [] ∷ split_on sep s
unfolding split_on
split_on-sep sep c s h = rw h

split_on-other :
    (sep c : ℕ) (s : Bytes)
    → (c == sep) ≡ false
    → split_on sep (c ∷ s) ≡ onto_first c (split_on sep s)
unfolding split_on
split_on-other sep c s h = rw h

onto_first-ne-nil : (c : ℕ) (ls : List Bytes) → onto_first c ls ≢ []
onto_first-ne-nil c [] = cc
onto_first-ne-nil c (w ∷ ws) = cc

pub split_on-ne-nil : (sep : ℕ) (s : Bytes) → split_on sep s ≢ []
split_on-ne-nil sep [] = unfold split_on in cc
split_on-ne-nil sep (c ∷ s) = elim (Bool-cases (c == sep)) [
  | inl e ↦ rw (split_on-sep sep c s e) (cc)
  | inr e ↦ rw (split_on-other sep c s e) (onto_first-ne-nil c (split_on sep s))
]

join_with-cons :
    (sep : ℕ) (w : Bytes) (ls : List Bytes)
    → ls ≢ []
    → join_with sep (w ∷ ls) ≡ w ++ (sep ∷ join_with sep ls)
unfolding join_with
join_with-cons sep w [] h = absurd (h refl)
join_with-cons sep w (v ∷ ws) h = refl

join_with-onto_first :
    (sep c : ℕ) (ls : List Bytes) → ls ≢ [] → join_with sep (onto_first c ls) ≡ c ∷ join_with sep ls
unfolding join_with
join_with-onto_first sep c [] h = absurd (h refl)
join_with-onto_first sep c (w ∷ []) h = refl
join_with-onto_first sep c (w ∷ v ∷ ws) h = refl

-- The parts of a text, joined again, are the text.
pub join_with-split_on : (sep : ℕ) (s : Bytes) → join_with sep (split_on sep s) ≡ s
join_with-split_on sep [] = unfold join_with split_on in refl
join_with-split_on sep (c ∷ s) = elim (Bool-cases (c == sep)) [
  | inl e ↦ rw (
    split_on-sep sep c s e,
    join_with-cons sep [] _ (split_on-ne-nil sep s),
    join_with-split_on sep s,
    (==_iff c sep).0 e,
  )
  | inr e ↦ rw (
    split_on-other sep c s e,
    join_with-onto_first sep c _ (split_on-ne-nil sep s),
    join_with-split_on sep s,
  )
]

onto_first-Lacks :
    (sep c : ℕ) (ls : List Bytes) → c ≢ sep → All (Lacks sep) ls → All (Lacks sep) (onto_first c ls)
onto_first-Lacks sep c [] h a = ((h, tt), tt)
onto_first-Lacks sep c (w ∷ ws) h (aw, a) = ((h, aw), a)

pub split_on-Lacks : (sep : ℕ) (s : Bytes) → All (Lacks sep) (split_on sep s)
split_on-Lacks sep [] = unfold split_on in (tt, tt)
split_on-Lacks sep (c ∷ s) = elim (Bool-cases (c == sep)) [
  | inl e ↦ rw (split_on-sep sep c s e) (tt, split_on-Lacks sep s)
  | inr e ↦
      rw (split_on-other sep c s e) (onto_first-Lacks sep c _ (ground arith) (split_on-Lacks sep s))
]

-- A text without the separator is one part.
pub split_on_of_Lacks : (sep : ℕ) (w : Bytes) → Lacks sep w → split_on sep w ≡ w ∷ []
split_on_of_Lacks sep [] h = unfold split_on in refl
split_on_of_Lacks sep (c ∷ w) (h, hs) =
    split_on-other sep c w (ground arith) ∙ ap (onto_first c) (split_on_of_Lacks sep w hs)

-- The part before the first separator comes first.
pub split_on-append :
    (sep : ℕ) (w t : Bytes) → Lacks sep w → split_on sep (w ++ (sep ∷ t)) ≡ w ∷ split_on sep t
split_on-append sep [] t h = split_on-sep sep sep t (ground arith)
split_on-append sep (c ∷ w) t (h, hs) =
    split_on-other sep c (w ++ (sep ∷ t)) (ground arith)
    ∙ ap (onto_first c) (split_on-append sep w t hs)

-- Parts without the separator are found again.
pub split_on-join_with :
    (sep : ℕ) (ls : List Bytes)
    → ls ≢ []
    → All (Lacks sep) ls
    → split_on sep (join_with sep ls) ≡ ls
unfolding join_with
split_on-join_with sep [] h a = absurd (h refl)
split_on-join_with sep (w ∷ []) h (a, _) = split_on_of_Lacks sep w a
split_on-join_with sep (w ∷ v ∷ ws) h (a, as') =
    split_on-append sep w (join_with sep (v ∷ ws)) a
    ∙ ap (λ l. w ∷ l) (split_on-join_with sep (v ∷ ws) (cc) as')
