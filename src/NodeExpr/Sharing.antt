-- ===== src/NodeExpr/Sharing.antt =====
-- What a Batch of internal/nodeexpr/batch.go has an answer for, while several callers share it.
use clusterctl.Prelude.{
  ℕ, zero, suc, ◌-◌, ◌≤◌, false, Option, some, List, [], ◌∷◌, Bytes, ltb, ◌==◌, Bool-cases,
  Option-cases, length, All, get_elem?, ◌+◌, ◌≡◌, ◌⊎◌, refl, ap, inl, inr, arith, if◌then◌else◌,
}
use mathlib.Core.Option.{some-injective}
use clusterctl.NodeExpr.Keeping.{
  this_ref, all_refs-Unanswered, All-Other, has_ref-Other, store-answer,
}
use clusterctl.NodeExpr.{
  GroupAnswer, Answers, answer_for, has_ref, all_refs, Request, prefetches, resolves, asks_all,
  Heard, BatchCall, starts, asking, prefetching, looking, storing, returned, follow, begin,
  collect_refs, advance, advance_at, interleave, Batch,
}

follow_cases :
    (s : Bytes) (g : GroupAnswer)
    → (follow s g ≡ prefetching (some g) s (g.expr ∷ [])) ⊎ (follow s g ≡ returned (some g))
unfolding follow
follow_cases s g = ground arith

-- the steps of the call at a place
abbrev pub steps_of : ℕ → List (ℕ × Heard) → ℕ
steps_of i [] = 0
steps_of i ((j, h) ∷ moves) = steps_of i moves + (if i == j then 1 else 0)

module _ (source group : Bytes) (a : GroupAnswer) where
  -- a call that is not about to store an answer for the group
  abbrev pub IsElsewhere : BatchCall → Type 0
  IsElsewhere (looking reply refs) = has_ref refs (this_ref source group a) ≡ false
  IsElsewhere (storing reply refs given) = has_ref refs (this_ref source group a) ≡ false
  IsElsewhere _ = Unit

  -- a call of Resolve for the group, which has not begun or has this answer to return
  abbrev pub IsAnswering : BatchCall → Type 0
  IsAnswering (starts (resolves s g)) = (s ≡ source) × (g ≡ group)
  IsAnswering (starts (prefetches exprs)) = ⊥
  IsAnswering (starts (asks_all s)) = ⊥
  IsAnswering (asking s g) = ⊥
  IsAnswering (prefetching reply s exprs) = reply ≡ some a
  IsAnswering (looking reply refs) = reply ≡ some a
  IsAnswering (storing reply refs given) = reply ≡ some a
  IsAnswering (returned reply) = reply ≡ some a

  -- how many steps a call has left at most
  abbrev pub steps_left : BatchCall → ℕ
  steps_left (starts r) = 5
  steps_left (asking s g) = 4
  steps_left (prefetching reply s exprs) = 3
  steps_left (looking reply refs) = 2
  steps_left (storing reply refs given) = 1
  steps_left (returned reply) = 0

  collect_refs-IsElsewhere :
      (reply : Option GroupAnswer) (s : Bytes) (exprs : List Bytes) (m : Answers)
      → answer_for source group m ≡ some a
      → IsElsewhere (collect_refs reply s exprs m)
  unfolding collect_refs
  collect_refs-IsElsewhere reply s exprs m there =
      let refs = all_refs s m exprs [] in
      let others : has_ref refs (this_ref source group a) ≡ false =
        has_ref-Other source group a refs
          (All-Other source group a m refs there (all_refs-Unanswered s m exprs [] tt)) in
      elim (Bool-cases (ltb (length refs) 2)) [
        | inl few ↦ rw (collect_refs, few) tt
        | inr more ↦ rw (collect_refs, more) others
      ]

  follow-IsElsewhere : (s : Bytes) (g : GroupAnswer) → IsElsewhere (follow s g)
  unfolding follow
  follow-IsElsewhere s g = elim (Option-cases g.error_of) [
    | inl fine ↦ rw (follow, fine) tt
    | inr (e, failed) ↦ rw (follow, failed) tt
  ]

  begin-IsElsewhere : (h : Heard) (r : Request) (m : Answers) → IsElsewhere (begin h r m)
  unfolding begin
  begin-IsElsewhere h (prefetches exprs) m = tt
  begin-IsElsewhere h (resolves s g) m = elim (Option-cases (answer_for s g m)) [
    | inl new ↦ rw (begin, new) tt
    | inr (c, old) ↦ rw (begin, old) (follow-IsElsewhere s c)
  ]
  begin-IsElsewhere h (asks_all s) m = follow-IsElsewhere s h.one

  -- A step keeps the answer, and its call does not go on to replace it.
  advance-keeps :
      (h : Heard) (c : BatchCall) (m : Answers)
      → answer_for source group m ≡ some a
      → IsElsewhere c
      → (answer_for source group (advance h c m).1 ≡ some a) × IsElsewhere (advance h c m).0
  unfolding advance
  advance-keeps h (starts r) m there e = (there, begin-IsElsewhere h r m)
  advance-keeps h (asking s g) m there e = (there, follow-IsElsewhere s h.one)
  advance-keeps h (prefetching reply s exprs) m there e =
      (there, collect_refs-IsElsewhere reply s exprs m there)
  advance-keeps h (looking reply refs) m there e = (there, e)
  advance-keeps h (storing reply refs given) m there e =
      (store-answer source group a refs given m e there, tt)
  advance-keeps h (returned reply) m there e = (there, tt)

  follow-IsAnswering : (s : Bytes) → IsAnswering (follow s a) × (steps_left (follow s a) ≤ 4)
  unfolding follow
  follow-IsAnswering s = elim (follow_cases s a) [
    | inl fine ↦ rw fine (refl, omega arith)
    | inr failed ↦ rw failed (refl, omega arith)
  ]

  collect_refs-IsAnswering :
      (reply : Option GroupAnswer) (s : Bytes) (exprs : List Bytes) (m : Answers)
      → reply ≡ some a
      → IsAnswering (collect_refs reply s exprs m) × (steps_left (collect_refs reply s exprs m) ≤ 2)
  unfolding collect_refs
  collect_refs-IsAnswering reply s exprs m e =
      elim (Bool-cases (ltb (length (all_refs s m exprs [])) 2)) [
        | inl few ↦ rw (collect_refs, few) (e, omega arith)
        | inr more ↦ rw (collect_refs, more) (e, omega arith)
      ]

  -- A step of a call of Resolve for the group takes it nearer to returning the answer.
  advance-IsAnswering :
      (h : Heard) (c : BatchCall) (m : Answers)
      → answer_for source group m ≡ some a
      → IsAnswering c
      → IsAnswering (advance h c m).0 × (steps_left (advance h c m).0 ≤ steps_left c - 1)
  unfolding advance begin
  advance-IsAnswering h (starts (resolves s g)) m there (e, f) =
      let found : answer_for s g m ≡ some a = rw (e, f) there in
      rw (begin, found) (follow-IsAnswering s)
  advance-IsAnswering h (starts (prefetches exprs)) m there e = absurd e
  advance-IsAnswering h (starts (asks_all s)) m there e = absurd e
  advance-IsAnswering h (asking s g) m there e = absurd e
  advance-IsAnswering h (prefetching reply s exprs) m there e =
      collect_refs-IsAnswering reply s exprs m e
  advance-IsAnswering h (looking reply refs) m there e = (e, omega arith)
  advance-IsAnswering h (storing reply refs given) m there e = (e, omega arith)
  advance-IsAnswering h (returned reply) m there e = (e, omega arith)

  advance_at-keeps :
      (j : ℕ) (h : Heard) (cs : List BatchCall) (m : Answers)
      → answer_for source group m ≡ some a
      → All IsElsewhere cs
      → (answer_for source group (advance_at j h cs m).1 ≡ some a)
        × All IsElsewhere (advance_at j h cs m).0
  unfolding advance_at
  advance_at-keeps j h [] m there e = (there, tt)
  advance_at-keeps zero h (c ∷ cs) m there (e, es) =
      let (kept, still) = advance-keeps h c m there e in (kept, (still, es))
  advance_at-keeps (suc j) h (c ∷ cs) m there (e, es) =
      let (kept, still) = advance_at-keeps j h cs m there es in (kept, (e, still))

  -- the call at a place is one of Resolve for the group, with so many steps left at most
  abbrev pub AnswersAt : ℕ → List BatchCall → ℕ → Type 0
  AnswersAt i cs n =
      (c : BatchCall) × (get_elem? cs i ≡ some c) × IsAnswering c × (steps_left c ≤ n)

  advance_at-AnswersAt :
      (i j : ℕ) (h : Heard) (cs : List BatchCall) (m : Answers) (n : ℕ)
      → answer_for source group m ≡ some a
      → AnswersAt i cs n
      → AnswersAt i (advance_at j h cs m).0 (n - (if i == j then 1 else 0))
  unfolding advance_at
  advance_at-AnswersAt i j h [] m n there (c, place, k, le) = absurd (cc)
  advance_at-AnswersAt zero zero h (d ∷ cs) m n there (c, place, k, le) =
      let same : d ≡ c = some-injective d c place in
      let (next, less) = advance-IsAnswering h d m there (rw same k) in
      ((advance h d m).0, refl, next, omega (arith, ap steps_left same))
  advance_at-AnswersAt zero (suc j) h (d ∷ cs) m n there (c, place, k, le) =
      (c, place, k, ground arith)
  advance_at-AnswersAt (suc i) zero h (d ∷ cs) m n there (c, place, k, le) =
      (c, place, k, ground arith)
  advance_at-AnswersAt (suc i) (suc j) h (d ∷ cs) m n there x =
      let (c, place, k, le) = advance_at-AnswersAt i j h cs m n there x in
      (c, place, k, ground arith)

  interleave_from :
      (moves : List (ℕ × Heard)) (b : Batch) (i n : ℕ)
      → answer_for source group b.answers ≡ some a
      → All IsElsewhere b.callers
      → AnswersAt i b.callers n
      → (answer_for source group (interleave moves b).answers ≡ some a)
        × All IsElsewhere (interleave moves b).callers
        × AnswersAt i (interleave moves b).callers (n - steps_of i moves)
  unfolding interleave
  interleave_from [] b i n there e (c, place, k, le) = (there, e, (c, place, k, omega arith))
  interleave_from ((j, h) ∷ moves) b i n there e x =
      let (kept, still) = advance_at-keeps j h b.callers b.answers there e in
      let after : Batch = record {
        callers = (advance_at j h b.callers b.answers).0;
        answers = (advance_at j h b.callers b.answers).1;
      } in
      let (kept', still', (c, place, k, le)) =
        interleave_from moves after i (n - (if i == j then 1 else 0)) kept still
          (advance_at-AnswersAt i j h b.callers b.answers n there x) in
      (kept', still', (c, place, k, omega arith))

  -- A Batch that several callers share keeps an answer that it has for a group, in any interleaving of their
  -- steps and whatever the resolver would say by then, where none of them was about to store another: the
  -- answer is still stored, no caller is about to store another, and a call of Resolve for the group that had
  -- not begun has this answer to return once it has begun, a failure too, and has returned it after five
  -- steps of its own.
  pub interleave-keeps :
      (moves : List (ℕ × Heard)) (b : Batch) (i : ℕ)
      → answer_for source group b.answers ≡ some a
      → All IsElsewhere b.callers
      → get_elem? b.callers i ≡ some (starts (resolves source group))
      → (answer_for source group (interleave moves b).answers ≡ some a)
        × All IsElsewhere (interleave moves b).callers
        × AnswersAt i (interleave moves b).callers (5 - steps_of i moves)
  interleave-keeps moves b i there e place =
      interleave_from moves b i 5 there e
        (starts (resolves source group), place, (refl, refl), omega arith)
