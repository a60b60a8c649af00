-- ===== src/Tests/GroupTests.antt =====
-- The groups of a source at concrete expressions.
use clusterctl.Prelude.{
  Bool, true, false, eqb, if◌then◌else◌, [], ◌∷◌, Bytes, Result, ok, err, codes, join_with, lookup,
  ◌≡◌, ◌⊎◌, refl,
}
use clusterctl.Groups.{
  LookupFault, not_defined, no_answer, has_operator, balanced, search_order, search, resolve_group,
  list_fields, substitute, union_operand, union_parts, union,
}
use clusterctl.NodeExpr.{group_refs}
use clusterctl.Groups.Operands.{union_operand-group_refs}

abbrev no_wide_space : Bytes → Bool
no_wide_space s = false

-- one source knows the group, one does not, and one cannot be asked
abbrev answers : Bytes → Bytes → Result LookupFault Bytes
answers source group =
    if eqb source (codes "local")
    then err not_defined
    else if eqb source (codes "slurm")
    then ok (codes "exe[1-2]!exe1")
    else err no_answer

searched :
    resolve_group answers
      (codes "local")
      (codes "genders" ∷ codes "local" ∷ codes "slurm" ∷ [])
      []
      (codes "a")
    ≡ err no_answer
unfolding resolve_group search search_order
searched = refl

found_next :
    resolve_group answers (codes "local") (codes "local" ∷ codes "slurm" ∷ []) [] (codes "a")
    ≡ ok (codes "exe[1-2]!exe1")
unfolding resolve_group search search_order
found_next = refl

as_reference :
    union no_wide_space answers (codes "slurm") (codes "a" ∷ codes "b" ∷ [])
    ≡ ok (codes "@slurm:a,@slurm:b")
unfolding union union_parts union_operand join_with
as_reference = refl

operand :
    union_operand no_wide_space (codes "slurm") (codes "a") (codes "exe[1-2]!exe1")
    ≡ ok (codes "@slurm:a")
unfolding union_operand
operand = refl

fields_found : list_fields [] (codes "a, b\n") ≡ codes "a" ∷ codes "b" ∷ []
unfolding list_fields
fields_found = refl

command_filled :
    substitute ((codes "$GROUP", codes "main") ∷ []) (codes "sinfo" ∷ codes "$GROUP" ∷ [])
    ≡ codes "sinfo" ∷ codes "main" ∷ []
unfolding substitute lookup
command_filled = refl

union_operand-group_refs_example :
    ((codes "@slurm:a" ≡ codes "exe[1-2]!exe1")
      × (has_operator (codes "exe[1-2]!exe1") ≡ false)
      × (balanced (codes "exe[1-2]!exe1") ≡ true))
    ⊎ (group_refs (codes "@slurm:a") ≡ record { source = codes "slurm"; group = codes "a" } ∷ [])
union_operand-group_refs_example =
    union_operand-group_refs no_wide_space (codes "slurm") (codes "a") (codes "exe[1-2]!exe1")
      (codes "@slurm:a") operand
