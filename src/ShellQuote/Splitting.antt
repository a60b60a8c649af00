-- ===== src/ShellQuote/Splitting.antt =====
-- How a POSIX shell splits a command line into words: blanks, single quotes, backslashes. What would
-- be expanded or would end the command when it is not quoted has no splitting here.
use clusterctl.Prelude.{
  ℕ, Bool, not, ◌||◌, Option, none, some, List, [], ◌∷◌, ◌++◌, Bytes, any, codes, ◌==◌,
  if◌then◌else◌,
}
use mathlib.Core.Option

pub data Mode : Type 0 where
  between word quoted escaped : Mode

pub data Step : Type 0 where
  fail : Step
  go : Mode → Bytes → Step
  emit : Bytes → Step

unfoldable pub is_blank : ℕ → Bool
is_blank c = c == 32 || c == 9

-- The characters of POSIX 2.2 that must be quoted, those that start an expansion, and NUL.
abbrev special : Bytes
special = 0 ∷ 10 ∷ codes "|&;<>()$`\"*?[#~!{}"

unfoldable pub is_plain : ℕ → Bool
is_plain c = not (any (λ d. c == d) special)

-- a byte outside quotes that belongs to the word `w`
unfoldable pub in_word : Bytes → ℕ → Step
in_word w c =
    if c == 39
    then go quoted w
    else if c == 92
    then go escaped w
    else if is_plain c
    then go word (w ++ c ∷ [])
    else fail

unfoldable pub step : Mode → Bytes → ℕ → Step
step between w c = if is_blank c then go between [] else in_word [] c
step word w c = if is_blank c then emit w else in_word w c
step quoted w c = if c == 39 then go word w else if c == 0 then fail else go quoted (w ++ c ∷ [])
step escaped w c = if c == 10 || c == 0 then fail else go word (w ++ c ∷ [])

unfoldable pub split_from : Bytes → Mode → Bytes → Option (List Bytes)
split_from [] between w = some []
split_from [] word w = some (w ∷ [])
split_from [] quoted w = none
split_from [] escaped w = none
split_from (c ∷ s) m w = elim (step m w c) [
  | fail ↦ none
  | go m' w' ↦ split_from s m' w'
  | emit v ↦ Option.map (λ vs. v ∷ vs) (split_from s between [])
]

-- The words of a command line.
unfoldable pub split : Bytes → Option (List Bytes)
split s = split_from s between []
