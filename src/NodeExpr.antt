-- ===== src/NodeExpr.antt =====
-- internal/nodeexpr/batch.go: group references of an expression, and the calls of a Batch, which several
-- callers may make at once. What the resolver says is an input of the step that asks it, so it may answer
-- otherwise each time. The lock makes what a call does between taking it and giving it back one step.
pub mod Keeping
pub mod Sharing
use clusterctl.Prelude.{
  ℕ, zero, suc, Bool, true, false, not, ◌&&◌, ◌||◌, Option, none, some, List, [], ◌∷◌, ◌++◌, Bytes,
  codes, eqb, ◌==◌, ltb, if◌then◌else◌, length, ℤ, pos, negsuc, before, after, trim_space,
  cut_prefix, or_text,
}
use clusterctl.ExitCode.{Error}

-- GroupRef
pub record GroupRef : Type 0 where
  pub source : Bytes
  pub group : Bytes

-- GroupAnswer
pub record GroupAnswer : Type 0 where
  pub expr : Bytes
  pub error_of : Option Error

-- the source and the group of a reference without its @
unfoldable pub cut_reference : Bytes → GroupRef
cut_reference ref = elim (after b':' ref) [
  | none ↦ record { source = []; group = ref }
  | some group ↦ record { source = before b':' ref; group = group }
]

-- `term` of `groupRefs`, on the text that it ends
unfoldable pub term_refs : Bytes → List GroupRef
term_refs text = elim (cut_prefix (trim_space text) (codes "@")) [
  | none ↦ []
  | some ref ↦
      let found = cut_reference ref in
      if eqb found.group [] || eqb found.group (codes "*") then [] else found ∷ []
]

-- `term`; there is no text where start is below zero
unfoldable pub end_term : Option Bytes → List GroupRef
end_term none = []
end_term (some text) = term_refs text

abbrev pub add_byte : ℕ → Option Bytes → Option Bytes
add_byte c none = some (c ∷ [])
add_byte c (some text) = some (text ++ c ∷ [])

-- `depth++` and `depth--`
unfoldable pub deeper : ℤ → ℤ
deeper (pos n) = pos (suc n)
deeper (negsuc zero) = pos zero
deeper (negsuc (suc n)) = negsuc n

unfoldable pub shallower : ℤ → ℤ
shallower (pos (suc n)) = pos n
shallower (pos zero) = negsuc zero
shallower (negsuc n) = negsuc (suc n)

abbrev pub is_inside : ℤ → Bool
is_inside (pos (suc n)) = true
is_inside _ = false

abbrev pub is_separator : ℕ → Bool
is_separator c =
    c == 32 || c == 9 || c == 10 || c == 13 || c == b',' || c == b'!' || c == b'&' || c == b'^'

abbrev pub depth_after : ℕ → ℤ → ℤ
depth_after c depth =
    if c == b'[' then deeper depth else if c == b']' then shallower depth else depth

-- the loop of `groupRefs`, from the text of the term so far and the depth
unfoldable pub group_refs_from : Option Bytes → ℤ → Bytes → List GroupRef
group_refs_from text depth [] = end_term text
group_refs_from text depth (c ∷ s) =
    let cut = not (c == b'[') && not (c == b']') && not (is_inside depth) && is_separator c in
    let rest =
      group_refs_from (if cut then none else add_byte c text)
        (if cut then depth else depth_after c depth) s in
    if cut then end_term text ++ rest else rest

-- groupRefs
unfoldable pub group_refs : Bytes → List GroupRef
group_refs s = group_refs_from none (pos 0) s

-- the answers of a Batch
abbrev pub Answers : Type 0
Answers = List (GroupRef × GroupAnswer)

abbrev pub is_ref : Bytes → Bytes → GroupRef → Bool
is_ref source group r = eqb r.source source && eqb r.group group

unfoldable pub answer_for : Bytes → Bytes → Answers → Option GroupAnswer
answer_for source group [] = none
answer_for source group ((r, a) ∷ more) =
    if is_ref source group r then some a else answer_for source group more

abbrev pub is_answered : Answers → GroupRef → Bool
is_answered m r = elim (answer_for r.source r.group m) [ none ↦ false | some a ↦ true ]

abbrev pub has_ref : List GroupRef → GroupRef → Bool
has_ref [] r = false
has_ref (q ∷ qs) r = is_ref r.source r.group q || has_ref qs r

abbrev pub with_source : Bytes → GroupRef → GroupRef
with_source source r = record r { source = or_text r.source source }

-- the references of `prefetch` that have no answer yet, each once; `refs` are those so far
unfoldable pub new_refs : Bytes → Answers → List GroupRef → List GroupRef → List GroupRef
new_refs source m [] refs = refs
new_refs source m (r ∷ rs) refs =
    let ref = with_source source r in
    new_refs source m rs
      (if not (is_answered m ref) && not (has_ref refs ref) then refs ++ ref ∷ [] else refs)

unfoldable pub all_refs : Bytes → Answers → List Bytes → List GroupRef → List GroupRef
all_refs source m [] refs = refs
all_refs source m (e ∷ es) refs = all_refs source m es (new_refs source m (group_refs e) refs)

-- `b.answers[refs[i]] = answer` for the answers there are
unfoldable pub store : List GroupRef → List GroupAnswer → Answers → Answers
store [] given m = m
store (r ∷ rs) [] m = m
store (r ∷ rs) (a ∷ given) m = store rs given ((r, a) ∷ m)

-- a call of a Batch: Prefetch, Resolve or All
pub data Request : Type 0 where
  prefetches : (exprs : List Bytes) → Request
  resolves : (source group : Bytes) → Request
  asks_all : (source : Bytes) → Request

-- what a BatchResolver says when it is asked: the answer of Resolve or All, and the answers of ResolveAll
pub record Heard : Type 0 where
  pub one : GroupAnswer
  pub many : List GroupAnswer

-- a call between two of its steps, with what it will return, which is `none` of Prefetch: not begun; past the
-- look at the answers, where Resolve found none; before `prefetch`; past the first part of `prefetch`, which
-- holds the lock, with the references found; past the lookups, with what they gave; and ended
pub data BatchCall : Type 0 where
  starts : Request → BatchCall
  asking : (source group : Bytes) → BatchCall
  prefetching : Option GroupAnswer → (source : Bytes) → (exprs : List Bytes) → BatchCall
  looking : Option GroupAnswer → List GroupRef → BatchCall
  storing : Option GroupAnswer → List GroupRef → List GroupAnswer → BatchCall
  returned : Option GroupAnswer → BatchCall

-- the end of Resolve and of All, from an answer on
unfoldable pub follow : Bytes → GroupAnswer → BatchCall
follow source a = elim a.error_of [
  | none ↦ prefetching (some a) source (a.expr ∷ [])
  | some e ↦ returned (some a)
]

-- a call up to where it asks the resolver or begins `prefetch`; All asks at once
unfoldable pub begin : Heard → Request → Answers → BatchCall
unfolding answer_for follow
begin h (prefetches exprs) m = prefetching none [] exprs
begin h (resolves source group) m = elim (answer_for source group m) [
  | some a ↦ follow source a
  | none ↦ asking source group
]
begin h (asks_all source) m = follow source h.one

-- `prefetch`, under the lock for the first time
unfoldable pub collect_refs : Option GroupAnswer → Bytes → List Bytes → Answers → BatchCall
unfolding all_refs
collect_refs reply source exprs m =
    let refs = all_refs source m exprs [] in
    if ltb (length refs) 2 then returned reply else looking reply refs

-- one step of a call: as far as it gets with the lock taken once, or with the resolver asked once
unfoldable pub advance : Heard → BatchCall → Answers → BatchCall × Answers
unfolding begin follow collect_refs store
advance h (starts r) m = (begin h r m, m)
advance h (asking source group) m = (follow source h.one, m)
advance h (prefetching reply source exprs) m = (collect_refs reply source exprs m, m)
advance h (looking reply refs) m = (storing reply refs h.many, m)
advance h (storing reply refs given) m = (returned reply, store refs given m)
advance h (returned reply) m = (returned reply, m)

-- Batch, with the calls that share it
pub record Batch : Type 0 where
  pub callers : List BatchCall
  pub answers : Answers

-- a step of the call at a place
unfoldable pub advance_at : ℕ → Heard → List BatchCall → Answers → List BatchCall × Answers
unfolding advance
advance_at i h [] m = ([], m)
advance_at zero h (c ∷ cs) m = let (next, after) = advance h c m in (next ∷ cs, after)
advance_at (suc i) h (c ∷ cs) m = let (rest, after) = advance_at i h cs m in (c ∷ rest, after)

-- the calls in any interleaving: whose step is next, and what it hears
unfoldable pub interleave : List (ℕ × Heard) → Batch → Batch
unfolding advance_at
interleave [] b = b
interleave ((i, h) ∷ moves) b =
    let (callers, answers) = advance_at i h b.callers b.answers in
    interleave moves (record { callers = callers; answers = answers })
