-- ===== src/Groups.antt =====
-- internal/groups/groups.go: which source is asked for a group, and the union of the groups of a source.
-- The lookups themselves, which run commands, are parameters.
pub mod Operands
use clusterctl.Prelude.{
  ℕ, suc, ◌-◌, Bool, true, false, not, ◌&&◌, ◌||◌, Option, none, some, List, [], ◌∷◌, ◌++◌, Bytes,
  Result, ok, err, ◌>>=◌, codes, eqb, ◌==◌, if◌then◌else◌, any, contains_byte, is_space, is_one_of,
  join_with, lookup, or_text,
}

-- what a source answers, as far as `Resolve` tells errors apart
pub data LookupFault : Type 0 where
  not_defined : LookupFault
  no_answer : LookupFault
  empty_name : LookupFault
  unreadable : (source group : Bytes) → LookupFault

-- the default source of `New`, from the names of the sources
unfoldable pub default_source : Bytes → List Bytes → Bytes
default_source given (name ∷ []) = or_text given name
default_source given [] = given
default_source given (name ∷ other ∷ more) = given

-- slices.DeleteFunc for one name
abbrev pub without_name : Bytes → List Bytes → List Bytes
without_name name [] = []
without_name name (n ∷ ns) = if eqb n name then without_name name ns else n ∷ without_name name ns

-- the order in which `Resolve` asks the sources for a bare reference
unfoldable pub search_order : Bytes → List Bytes → List Bytes
search_order default names = if eqb default [] then names else default ∷ without_name default names

abbrev pub is_not_defined : LookupFault → Bool
is_not_defined not_defined = true
is_not_defined no_answer = false
is_not_defined empty_name = false
is_not_defined (unreadable source group) = false

-- strings.ContainsAny(expr, "!&^")
abbrev pub has_operator : Bytes → Bool
has_operator expr = any (λ c. c == b'!' || (c == b'&' || c == b'^')) expr

abbrev pub depth_next : ℕ → ℕ → ℕ
depth_next c depth = if c == b'[' then suc depth else if c == b']' then depth - 1 else depth

-- balanced: the loop, from a depth
unfoldable pub balanced_from : ℕ → Bytes → Bool
balanced_from depth [] = depth == 0
balanced_from depth (c ∷ s) =
    let rest = balanced_from (depth_next c depth) s in
    if c == b']' && depth == 0 then false else rest

abbrev pub balanced : Bytes → Bool
balanced expr = balanced_from 0 expr

-- what the parser splits a term at
abbrev pub is_split : ℕ → Bool
is_split c =
    is_space c
    || (c == b',' || (c == b'!' || (c == b'&' || (c == b'^' || (c == b'[' || c == b']')))))

-- cacheKey
unfoldable pub cache_key : Bytes → Bytes → Bytes → Bytes
cache_key source kind group = source ++ 0 ∷ kind ++ 0 ∷ group

-- strings.FieldsFunc of `fields`
abbrev pub ends_field : ℕ → Bool
ends_field c = c == 32 || (c == 9 || (c == 10 || (c == 13 || c == b',')))

abbrev pub end_field : Bytes → List Bytes
end_field [] = []
end_field (c ∷ word) = (c ∷ word) ∷ []

-- fields, from the word so far
unfoldable pub list_fields : Bytes → Bytes → List Bytes
list_fields word [] = end_field word
list_fields word (c ∷ s) =
    let rest = list_fields (if ends_field c then [] else word ++ c ∷ []) s in
    if ends_field c then end_field word ++ rest else rest

-- the arguments of a command with its placeholders, in `prepare`
unfoldable pub substitute : List (Bytes × Bytes) → List Bytes → List Bytes
substitute vars [] = []
substitute vars (arg ∷ args) =
    let rest = substitute vars args in
    elim (lookup arg vars) [ none ↦ arg ∷ rest | some value ↦ value ∷ rest ]

-- `wide_space` is whether a text holds white space that is not ASCII, by unicode.IsSpace
module _ (wide_space : Bytes → Bool) where
  -- referable
  abbrev pub referable : Bytes → Bool
  referable name = not (any (λ c. is_split c) name) && not (wide_space name)

  -- unionOperand
  unfoldable pub union_operand : Bytes → Bytes → Bytes → Result LookupFault Bytes
  union_operand source group expr =
      if not (has_operator expr) && balanced expr
      then ok expr
      else if eqb group []
          || eqb group (codes "*")
          || not (referable group)
          || (not (referable source) || contains_byte b':' source)
      then err (unreadable source group)
      else ok (b'@' ∷ source ++ b':' ∷ group)

  -- the groups of `union` one lookup after another, where the program makes some side by side; no lookup
  -- is interrupted
  unfoldable pub union_parts :
      (Bytes → Bytes → Result LookupFault Bytes)
      → Bytes
      → List Bytes
      → Result LookupFault (List Bytes)
  union_parts resolve_in source [] = ok []
  union_parts resolve_in source (name ∷ names) = do
    expr ← resolve_in source name
    part ← union_operand source name expr
    parts ← union_parts resolve_in source names
    ok (part ∷ parts)

  -- union
  unfoldable pub union :
      (Bytes → Bytes → Result LookupFault Bytes) → Bytes → List Bytes → Result LookupFault Bytes
  union resolve_in source names = do
    parts ← union_parts resolve_in source names
    ok (join_with b',' parts)

-- the loop of `Resolve` over the sources
unfoldable pub search :
    (Bytes → Bytes → Result LookupFault Bytes) → List Bytes → Bytes → Result LookupFault Bytes
search resolve_in [] group = err not_defined
search resolve_in (name ∷ names) group =
    let rest = search resolve_in names group in
    elim (resolve_in name group) as (λ _. Result LookupFault Bytes) [
      | ok expr ↦ ok expr
      | err e ↦ if is_not_defined e then rest else err e
    ]

-- Resolve
unfoldable pub resolve_group :
    (Bytes → Bytes → Result LookupFault Bytes)
    → Bytes
    → List Bytes
    → Bytes
    → Bytes
    → Result LookupFault Bytes
resolve_group resolve_in default names source group =
    if eqb group []
    then err empty_name
    else if not (eqb source [])
    then resolve_in source group
    else search resolve_in (search_order default names) group
