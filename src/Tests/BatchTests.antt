-- ===== src/Tests/BatchTests.antt =====
-- A Batch at concrete expressions.
use clusterctl.Prelude.{
  ℕ, ◌-◌, All, ◌++◌, none, some, List, [], ◌∷◌, Bytes, codes, ◌≡◌, refl, before, after, trim_space,
  trim_left, trim_right, cut_prefix,
}
use clusterctl.NodeExpr.{
  GroupRef, GroupAnswer, cut_reference, term_refs, end_term, group_refs_from, group_refs,
  answer_for, new_refs, prefetches, resolves, Heard, starts, looking, Batch, interleave,
}
use clusterctl.NodeExpr.Sharing.{IsElsewhere, AnswersAt, steps_of, interleave-keeps}

abbrev ref : Bytes → Bytes → GroupRef
ref source group = record { source = source; group = group }

refs_found : group_refs (codes "@a:b,@*") ≡ ref (codes "a") (codes "b") ∷ []
unfolding group_refs group_refs_from end_term term_refs cut_prefix trim_space trim_right trim_left
    cut_reference after before
refs_found = refl

abbrev answer : Bytes → GroupAnswer
answer expr = record { expr = expr; error_of = none }

abbrev heard : Bytes → Heard
heard expr = record { one = answer expr; many = answer expr ∷ answer expr ∷ [] }

abbrev both : List Bytes
both = codes "@s:a,@s:b" ∷ []

-- an answer for one group, a caller of Resolve for that group, and one that looks two others up
abbrev shared : Batch
shared = record {
  callers =
      starts (resolves (codes "s") (codes "a"))
      ∷ looking none (ref (codes "s") (codes "x") ∷ ref (codes "s") (codes "y") ∷ [])
      ∷ starts (prefetches both)
      ∷ [];
  answers = (ref (codes "s") (codes "a"), answer (codes "exe1")) ∷ [];
}

shared-has : answer_for (codes "s") (codes "a") shared.answers ≡ some (answer (codes "exe1"))
unfolding answer_for
shared-has = refl

abbrev moves : List (ℕ × Heard)
moves =
    (1, heard (codes "new"))
    ∷ (0, heard [])
    ∷ (2, heard [])
    ∷ (1, heard [])
    ∷ (0, heard [])
    ∷ (2, heard [])
    ∷ []

interleave-keeps_example :
    (answer_for (codes "s") (codes "a") (interleave moves shared).answers
      ≡ some (answer (codes "exe1")))
    × All
        (IsElsewhere (codes "s") (codes "a") (answer (codes "exe1")))
        (interleave moves shared).callers
    × AnswersAt
        (codes "s")
        (codes "a")
        (answer (codes "exe1"))
        0
        (interleave moves shared).callers
        (5 - steps_of 0 moves)
interleave-keeps_example =
    interleave-keeps (codes "s") (codes "a") (answer (codes "exe1")) moves shared 0 shared-has
      (tt, (refl, (tt, tt))) refl

-- Two callers that both found no answers before either stored one: the second replaces what the first stored.
abbrev racing : Batch
racing = record { callers = starts (prefetches both) ∷ starts (prefetches both) ∷ []; answers = [] }

abbrev in_turn : Bytes → Bytes → List (ℕ × Heard)
in_turn first second =
    (0, heard [])
    ∷ (1, heard [])
    ∷ (0, heard [])
    ∷ (1, heard [])
    ∷ (0, heard first)
    ∷ (1, heard second)
    ∷ (0, heard [])
    ∷ []

replaced :
    (answer_for
        (codes "s")
        (codes "a")
        (interleave (in_turn (codes "old") (codes "new")) racing).answers
      ≡ some (answer (codes "old")))
    × (answer_for
          (codes "s")
          (codes "a")
          (interleave (in_turn (codes "old") (codes "new") ++ (1, heard []) ∷ []) racing).answers
        ≡ some (answer (codes "new")))
unfolding interleave answer_for group_refs group_refs_from end_term term_refs cut_prefix trim_space
    trim_right trim_left cut_reference after before new_refs
replaced = (refl, refl)
