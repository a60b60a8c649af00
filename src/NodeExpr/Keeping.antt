-- ===== src/NodeExpr/Keeping.antt =====
-- The references that a Batch looks up have no answer yet, so what is stored replaces none.
use clusterctl.Prelude.{
  Bool, true, false, not, ◌&&◌, none, some, List, [], ◌∷◌, ◌++◌, Bytes, eqb_iff, Bool-cases, All,
  All-append, ◌≡◌, refl, ap, inl, inr, arith,
}
use clusterctl.NodeExpr.{
  GroupRef, GroupAnswer, Answers, is_ref, answer_for, is_answered, has_ref, with_source, new_refs,
  all_refs, group_refs, store,
}

abbrev pub Unanswered : Answers → GroupRef → Type 0
Unanswered m r = is_answered m r ≡ false

new_refs-Unanswered :
    (source : Bytes) (m : Answers) (rs refs : List GroupRef)
    → All (Unanswered m) refs
    → All (Unanswered m) (new_refs source m rs refs)
unfolding new_refs
new_refs-Unanswered source m [] refs a = a
new_refs-Unanswered source m (r ∷ rs) refs a =
    let ref = with_source source r in
    elim (Bool-cases (not (is_answered m ref) && not (has_ref refs ref))) [
      | inl new ↦ rw new (
          new_refs-Unanswered source m rs (refs ++ ref ∷ [])
            (All-append (Unanswered m) refs (ref ∷ []) a (ground arith, tt)))
      | inr old ↦ rw old (new_refs-Unanswered source m rs refs a)
    ]

pub all_refs-Unanswered :
    (source : Bytes) (m : Answers) (es : List Bytes) (refs : List GroupRef)
    → All (Unanswered m) refs
    → All (Unanswered m) (all_refs source m es refs)
unfolding all_refs
all_refs-Unanswered source m [] refs a = a
all_refs-Unanswered source m (e ∷ es) refs a =
    all_refs-Unanswered source m es (new_refs source m (group_refs e) refs)
      (new_refs-Unanswered source m (group_refs e) refs a)

module _ (source group : Bytes) (a : GroupAnswer) where
  abbrev pub this_ref : GroupRef
  this_ref = record { source = source; group = group }

  abbrev pub Other : GroupRef → Type 0
  Other r = is_ref source group r ≡ false

  Unanswered-Other :
      (m : Answers) (r : GroupRef) → answer_for source group m ≡ some a → Unanswered m r → Other r
  Unanswered-Other m r there new = elim (Bool-cases (is_ref source group r)) [
    | inr other ↦ other
    | inl same ↦
        let s : r.source ≡ source = (eqb_iff r.source source).0 (ground arith) in
        let g : r.group ≡ group = (eqb_iff r.group group).0 (ground arith) in
        let found : answer_for r.source r.group m ≡ some a = rw (s, g) there in
        let answered : is_answered m r ≡ true =
          ap (λ o. elim o as (λ _. Bool) [ none ↦ false | some c ↦ true ]) found in
        absurd (cc)
  ]

  pub All-Other :
      (m : Answers) (rs : List GroupRef)
      → answer_for source group m ≡ some a
      → All (Unanswered m) rs
      → All Other rs
  All-Other m [] there new = tt
  All-Other m (r ∷ rs) there new = (Unanswered-Other m r there new.0, All-Other m rs there new.1)

  pub has_ref-Other : (rs : List GroupRef) → All Other rs → has_ref rs this_ref ≡ false
  has_ref-Other [] o = refl
  has_ref-Other (r ∷ rs) o = ground (arith, has_ref-Other rs o.1, o.0)

  pub store-answer :
      (rs : List GroupRef) (given : List GroupAnswer) (m : Answers)
      → has_ref rs this_ref ≡ false
      → answer_for source group m ≡ some a
      → answer_for source group (store rs given m) ≡ some a
  unfolding store answer_for
  store-answer [] given m o there = there
  store-answer (r ∷ rs) [] m o there = there
  store-answer (r ∷ rs) (g ∷ given) m o there =
      let other : is_ref source group r ≡ false = ground arith in
      store-answer rs given ((r, g) ∷ m) (ground arith) (rw other there)
