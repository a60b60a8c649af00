-- ===== src/Safety/Effect.antt =====
-- The effect that a command records of itself, at the end of internal/safety/safety.go.
use clusterctl.Prelude.{
  none, some, List, [], Bytes, eqb, codes, lookup, ◌≡◌, ◌↔◌, ap, arith, eqb_iff, if◌then◌else◌,
  Option-cases, inl, inr,
}

pub data Effect : Type 0 where
  effect_read effect_change effect_interactive : Effect

-- the words that a command is annotated with
unfoldable pub effect_word : Effect → Bytes
effect_word effect_read = codes "read"
effect_word effect_change = codes "change"
effect_word effect_interactive = codes "interactive"

-- EffectAnnotation
abbrev pub effect_annotation : Bytes
effect_annotation = codes "clusterctl.effect"

-- `annotations[EffectAnnotation]`, empty when it is missing
unfoldable pub annotated : List (Bytes × Bytes) → Bytes
annotated annotations = elim (lookup effect_annotation annotations) [ none ↦ [] | some w ↦ w ]

-- the switch of `EffectOf`
unfoldable pub effect_of_word : Bytes → Effect
unfolding effect_word
effect_of_word word =
    if eqb word (effect_word effect_read)
    then effect_read
    else if eqb word (effect_word effect_change)
    then effect_change
    else if eqb word (effect_word effect_interactive)
    then effect_interactive
    else effect_change

-- EffectOf
unfoldable pub effect_of : List (Bytes × Bytes) → Effect
unfolding effect_of_word annotated
effect_of annotations = effect_of_word (annotated annotations)

effect_of_word-read_iff :
    (w : Bytes) → (effect_of_word w ≡ effect_read) ↔ (w ≡ effect_word effect_read)
unfolding effect_of_word
effect_of_word-read_iff w =
    ground
      (arith, eqb_iff w (codes "read"), eqb_iff w (codes "change"), eqb_iff w (codes "interactive"))

annotated-read_iff :
    (annotations : List (Bytes × Bytes))
    → (annotated annotations ≡ effect_word effect_read)
      ↔ (lookup effect_annotation annotations ≡ some (effect_word effect_read))
unfolding annotated effect_word
annotated-read_iff annotations = elim (Option-cases (lookup effect_annotation annotations)) [
  | inl e ↦ rw (e, annotated) (λ h. cc, λ h. cc)
  | inr (w, e) ↦ rw (e, annotated) (λ h. ap some h, λ h. cc)
]

-- A command counts as one that only reads exactly when it is annotated with the word read: a command
-- with no annotation, or with an unknown word, does not.
pub effect_of-read_iff :
    (annotations : List (Bytes × Bytes))
    → (effect_of annotations ≡ effect_read)
      ↔ (lookup effect_annotation annotations ≡ some (effect_word effect_read))
effect_of-read_iff annotations =
    let word = effect_of_word-read_iff (annotated annotations) in
    let note = annotated-read_iff annotations in
    (λ h. note.0 (word.0 (unfold effect_of in h)), λ h. unfold effect_of in word.1 (note.1 h))
