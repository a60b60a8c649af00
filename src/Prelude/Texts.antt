-- ===== src/Prelude/Texts.antt =====
-- Functions of package strings that work on a text of several bytes.
use Prim.Native.Nat.{ℕ, zero, suc}
use mathlib.Core.Bool.{Bool, true, false, ◌&&◌, ◌||◌}
use mathlib.Core.Option.{Option, none, some}
use mathlib.Core.List.{List, [], ◌∷◌, ◌++◌}
use clusterctl.Prelude.Tests.{◌==◌, if◌then◌else◌}
use clusterctl.Prelude.Lists.{length}
use clusterctl.Prelude.Strings.{Bytes, eqb, has_prefix, is_space, onto_first, contains_byte}

-- strings.CutPrefix
unfoldable pub cut_prefix : Bytes → Bytes → Option Bytes
cut_prefix s [] = some s
cut_prefix [] (b ∷ t) = none
cut_prefix (a ∷ s) (b ∷ t) = let rest = cut_prefix s t in if a == b then rest else none

-- strings.Contains
unfoldable pub contains_text : Bytes → Bytes → Bool
contains_text [] t = has_prefix [] t
contains_text (c ∷ s) t = has_prefix (c ∷ s) t || contains_text s t

abbrev pub rest_length : Bytes → ℕ
rest_length [] = 0
rest_length (c ∷ s) = length s

-- strings.Split at a text that is not empty; `skip` bytes belong to a separator that was found
unfoldable pub split_skip : Bytes → ℕ → Bytes → List Bytes
unfolding has_prefix
split_skip sep skip [] = [] ∷ []
split_skip sep (suc skip) (c ∷ s) = split_skip sep skip s
split_skip sep zero (c ∷ s) =
    let found = [] ∷ split_skip sep (rest_length sep) s in
    let kept = onto_first c (split_skip sep zero s) in
    if has_prefix (c ∷ s) sep then found else kept

unfoldable pub split_text : Bytes → Bytes → List Bytes
unfolding split_skip
split_text sep s = split_skip sep zero s

-- strings.TrimRight of the bytes of a set
unfoldable pub trim_right_of : Bytes → Bytes → Bytes
trim_right_of cut [] = []
trim_right_of cut (c ∷ s) =
    let rest = trim_right_of cut s in if contains_byte c cut && eqb rest [] then [] else c ∷ rest

-- strings.TrimLeft of the bytes of a set
unfoldable pub trim_left_of : Bytes → Bytes → Bytes
trim_left_of cut [] = []
trim_left_of cut (c ∷ s) =
    let rest = trim_left_of cut s in if contains_byte c cut then rest else c ∷ s

-- strings.CutSuffix of one byte: what is before it, and whether it was there
unfoldable pub cut_final : ℕ → Bytes → Bytes × Bool
cut_final b [] = ([], false)
cut_final b (c ∷ []) = if c == b then ([], true) else (c ∷ [], false)
cut_final b (c ∷ d ∷ s) = let (rest, found) = cut_final b (d ∷ s) in (c ∷ rest, found)

-- what follows the first occurrence of a byte, as strings.Cut returns it; `none` where there is none
unfoldable pub after : ℕ → Bytes → Option Bytes
after b [] = none
after b (c ∷ s) = let rest = after b s in if c == b then some s else rest

-- strings.Join
unfoldable pub join_text : Bytes → List Bytes → Bytes
join_text sep [] = []
join_text sep (w ∷ []) = w
join_text sep (w ∷ v ∷ ws) = w ++ (sep ++ join_text sep (v ∷ ws))

abbrev pub start_word : ℕ → List Bytes → List Bytes
start_word c ws = (c ∷ []) ∷ ws

-- strings.Fields, and whether the text begins inside a word
unfoldable pub fields_from : Bytes → List Bytes × Bool
fields_from [] = ([], false)
fields_from (c ∷ s) =
    let (ws, on) = fields_from s in
    if is_space c then (ws, false) else (if on then onto_first c ws else start_word c ws, true)

unfoldable pub fields_of : Bytes → List Bytes
unfolding fields_from
fields_of s = (fields_from s).0

-- cmp.Or
abbrev pub or_text : Bytes → Bytes → Bytes
or_text [] b = b
or_text (c ∷ a) b = c ∷ a

-- whether a text is one of a list
abbrev pub is_one_of : List Bytes → Bytes → Bool
is_one_of [] s = false
is_one_of (w ∷ ws) s = eqb w s || is_one_of ws s
