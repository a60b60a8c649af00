-- ===== src/Tmpl.antt =====
-- internal/tmpl/tmpl.go: {name} is replaced by a value, {{ and }} write one brace.
-- The loop takes fuel, one more than the bytes of the template.
pub mod Laws
use clusterctl.Prelude.{
  ℕ, zero, suc, ◌+◌, Bool, true, false, ◌&&◌, Option, none, some, List, [], ◌∷◌, ◌++◌, map, Bytes,
  Result, ok, err, length, trim_space, lookup, ◌==◌, if◌then◌else◌,
}

abbrev pub Vars : Type 0
Vars = List (Bytes × Bytes)

abbrev pub open_brace : ℕ
open_brace = 123

abbrev pub close_brace : ℕ
close_brace = 125

pub data Fault : Type 0 where
  unclosed unopened out_of_fuel : Fault
  unknown : Bytes → Fault

-- strings.IndexByte and the two slices around it: what stands before the byte and after it
unfoldable pub cut_at : ℕ → Bytes → Option (Bytes × Bytes)
cut_at c [] = none
cut_at c (b ∷ s) =
    if b == c
    then some ([], s)
    else elim (cut_at c s) [ none ↦ none | some (before, after) ↦ some (b ∷ before, after) ]

-- what a round of the loop writes and what it leaves, or why it stops
pub data Round : Type 0 where
  write : Bytes → Bytes → Round
  stop : Fault → Round

abbrev starts_with : ℕ → Bytes → Bool
starts_with c [] = false
starts_with c (b ∷ s) = b == c

abbrev rest_of : Bytes → Bytes
rest_of [] = []
rest_of (b ∷ s) = s

-- the branch of an opening brace, past the brace
unfoldable pub placeholder : Vars → Bytes → Round
unfolding cut_at
placeholder vars s = elim (cut_at close_brace s) [
  | none ↦ stop unclosed
  | some (key, after) ↦ elim (lookup (trim_space key) vars) [
    | none ↦ stop (unknown (trim_space key))
    | some value ↦ write value after
  ]
]

-- the switch of `Expand`, at the byte `c` before `s`
unfoldable pub round : Vars → ℕ → Bytes → Round
unfolding placeholder
round vars c s =
    if c == open_brace && starts_with open_brace s
    then write (open_brace ∷ []) (rest_of s)
    else if c == close_brace && starts_with close_brace s
    then write (close_brace ∷ []) (rest_of s)
    else if c == open_brace
    then placeholder vars s
    else if c == close_brace
    then stop unopened
    else write (c ∷ []) s

-- the loop of `Expand`
unfoldable pub expand_loop : ℕ → Vars → Bytes → Bytes → Result Fault Bytes
expand_loop zero vars s out = err out_of_fuel
expand_loop (suc f) vars [] out = ok out
expand_loop (suc f) vars (c ∷ s) out = elim (round vars c s) [
  | stop e ↦ err e
  | write text after ↦ expand_loop f vars after (out ++ text)
]

-- Expand
unfoldable pub expand : Bytes → Vars → Result Fault Bytes
unfolding expand_loop
expand template vars = expand_loop (suc (length template)) vars template []

-- Prefixed
unfoldable pub prefixed : Bytes → Vars → Vars → Vars
prefixed prefix [] into = into
prefixed prefix ((k, v) ∷ values) into = (prefix ++ (b'.' ∷ k), v) ∷ prefixed prefix values into
