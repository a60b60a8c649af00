-- ===== src/Fanout/Hosts.antt =====
-- internal/fanout/hosts.go: the places on a host, and the callers that take them.
pub mod Order
pub mod Bound
pub mod Progress
use clusterctl.Prelude.{
  ℕ, suc, ◌+◌, ◌-◌, ◌<◌, Bool, List, [], ◌∷◌, ◌++◌, Bytes, eqb, if◌then◌else◌, ℤ, pos, negsuc,
}
use clusterctl.Config.Value.{lt_bytes}

-- PerHost
abbrev pub per_host : ℕ
per_host = 4

-- the size of the channel that `slot` makes
unfoldable pub slot_limit : ℤ → ℕ
slot_limit (pos (suc n)) = suc n
slot_limit _ = per_host

-- slices.Sorted
unfoldable pub insert_name : Bytes → List Bytes → List Bytes
insert_name x [] = x ∷ []
insert_name x (y ∷ ys) =
    let later = insert_name x ys in if lt_bytes y x then y ∷ later else x ∷ y ∷ ys

unfoldable pub sort_names : List Bytes → List Bytes
sort_names [] = []
sort_names (x ∷ xs) = insert_name x (sort_names xs)

-- slices.Compact
unfoldable pub compact_after : Bytes → List Bytes → List Bytes
compact_after x [] = []
compact_after x (y ∷ ys) =
    let same = compact_after x ys in
    let other = compact_after y ys in if eqb x y then same else y ∷ other

unfoldable pub compact : List Bytes → List Bytes
compact [] = []
compact (x ∷ xs) = x ∷ compact_after x xs

-- the loop of `Acquire` goes past an empty name
unfoldable pub skip_empty : List Bytes → List Bytes
skip_empty [] = []
skip_empty (x ∷ xs) = let rest = skip_empty xs in if eqb x [] then rest else x ∷ rest

-- the names that `Acquire` takes a place on, in order
unfoldable pub acquire_names : List Bytes → List Bytes
acquire_names hosts = skip_empty (compact (sort_names hosts))

-- how many places of a host are taken: the length of its channel
abbrev pub Slots : Type 0
Slots = Bytes → ℕ

-- `slot <- struct{}{}`
unfoldable pub take_place : Bytes → Slots → Slots
take_place name s k = if eqb name k then suc (s k) else s k

-- `release`: a place of each host that was taken
unfoldable pub release : List Bytes → Slots → Slots
release [] s k = s k
release (name ∷ names) s k = release names (λ j. if eqb name j then s j - 1 else s j) k

-- a caller of `Acquire`: in its loop, with the names to come and those it has a place on, the last
-- first; returned, with the places; or with an error or its places released
pub data Caller : Type 0 where
  waiting : (todo held : List Bytes) → Caller
  working : (held : List Bytes) → Caller
  over : Caller

-- what a caller does next, without the end of its context
pub data Turn (limit : ℕ) : Caller → Slots → Caller → Slots → Type 0 where
  takes :
      (name : Bytes) (todo held : List Bytes) (s : Slots)
      → s name < limit
      → Turn limit (waiting (name ∷ todo) held) s (waiting todo (name ∷ held)) (take_place name s)
  returns : (held : List Bytes) (s : Slots) → Turn limit (waiting [] held) s (working held) s
  releases : (held : List Bytes) (s : Slots) → Turn limit (working held) s over (release held s)

-- a step of the callers that share a `Hosts`: a new one comes, one takes its turn, or one finds that
-- its context has ended and gives back what it took
pub data Step (limit : ℕ) : Slots → List Caller → Slots → List Caller → Type 0 where
  comes :
      (hosts : List Bytes) (s : Slots) (cs : List Caller)
      → Step limit s cs s (waiting (acquire_names hosts) [] ∷ cs)
  turns :
      (before rest : List Caller) (c d : Caller) (s t : Slots)
      → Turn limit c s d t
      → Step limit s (before ++ c ∷ rest) t (before ++ d ∷ rest)
  gives_up :
      (before rest : List Caller) (todo held : List Bytes) (s : Slots)
      → Step limit s (before ++ waiting todo held ∷ rest) (release held s) (before ++ over ∷ rest)

-- what the callers come to from a `Hosts` whose places are free
pub data Reach (limit : ℕ) : Slots → List Caller → Type 0 where
  free : Reach limit (λ k. 0) []
  next :
      {s t : Slots} {cs ds : List Caller}
      → Reach limit s cs
      → Step limit s cs t ds
      → Reach limit t ds
