-- ===== src/Fanout/Groups.antt =====
-- GroupByOutput of internal/fanout/fanout.go: the targets that answered the same thing, as node sets.
use clusterctl.Prelude.{
  Bool, true, false, ◌&&◌, none, some, List, [], ◌∷◌, Bytes, Result, ok, err, ◌>>=◌, eqb, ltb, ◌==◌,
  if◌then◌else◌, ℤ, pos, negsuc,
}
use clusterctl.ExitCode.{Error}
use clusterctl.Hostname
use clusterctl.NodeSet.{NodeSets}
use clusterctl.Config.Value.{lt_bytes}
use clusterctl.Fanout.{
  RemoteResult, Word, no_result, interrupted_word, unreachable, ok_word, exit_word, failed_word,
  status, name_of,
}

abbrev pub int_eqb : ℤ → ℤ → Bool
int_eqb (pos a) (pos b) = a == b
int_eqb (negsuc a) (negsuc b) = a == b
int_eqb _ _ = false

abbrev pub word_eqb : Word → Word → Bool
word_eqb no_result no_result = true
word_eqb interrupted_word interrupted_word = true
word_eqb unreachable unreachable = true
word_eqb ok_word ok_word = true
word_eqb (exit_word a) (exit_word b) = int_eqb a b
word_eqb failed_word failed_word = true
word_eqb _ _ = false

-- why the output of a target cannot be grouped
pub data GroupFault : Type 0 where
  not_a_name : (name : Bytes) → GroupFault
  not_added : (name : Bytes) → Error → GroupFault

module _ (n : NodeSets) (is_usage : Error → Bool) where
  open n use {NodeSet, empty, add, len, folded}

  -- Group
  pub record Group : Type 0 where
    pub nodes : NodeSet
    pub output : Bytes
    pub code_of : ℤ
    pub word : Word

  -- whether a result has the key of a group
  unfoldable pub has_key : Group → RemoteResult → Bool
  has_key g r =
      eqb g.output r.stdout
      && (word_eqb g.word (status is_usage (some r)) && int_eqb g.code_of r.exit_code)

  -- the name of a target, put into a node set
  unfoldable pub add_named : NodeSet → RemoteResult → Result GroupFault NodeSet
  add_named nodes r = elim (Hostname.check (name_of r.target)) [
    | some _ ↦ err (not_a_name (name_of r.target))
    | none ↦ elim (add nodes (name_of r.target)) [
      | err e ↦ err (not_added (name_of r.target) e)
      | ok next ↦ ok next
    ]
  ]

  abbrev pub with_nodes : Group → NodeSet → Group
  with_nodes g nodes = record g { nodes = nodes }

  -- `&Group{...}` of a result, with these nodes
  abbrev pub group_of : RemoteResult → NodeSet → Group
  group_of r nodes = record {
    nodes = nodes;
    output = r.stdout;
    code_of = r.exit_code;
    word = status is_usage (some r);
  }

  -- a result put into the group of its key, which is made where there is none
  unfoldable pub put_in_group : List Group → RemoteResult → Result GroupFault (List Group)
  put_in_group [] r = add_named empty r >>= (λ nodes. ok (group_of r nodes ∷ []))
  put_in_group (g ∷ gs) r =
      let rest = put_in_group gs r in
      if has_key g r
      then add_named g.nodes r >>= (λ nodes. ok (with_nodes g nodes ∷ gs))
      else rest >>= (λ others. ok (g ∷ others))

  -- the loop of `GroupByOutput` over the results
  unfoldable pub collect : List Group → List RemoteResult → Result GroupFault (List Group)
  collect gs [] = ok gs
  collect gs (r ∷ rs) = put_in_group gs r >>= (λ next. collect next rs)

  -- the comparison of two groups: the larger one first, and one size by the folded names
  unfoldable pub comes_before : Group → Group → Bool
  comes_before a b =
      if len a.nodes == len b.nodes
      then lt_bytes (folded a.nodes) (folded b.nodes)
      else ltb (len b.nodes) (len a.nodes)

  unfoldable pub insert_group : Group → List Group → List Group
  insert_group g [] = g ∷ []
  insert_group g (h ∷ hs) =
      let rest = insert_group g hs in if comes_before g h then g ∷ h ∷ hs else h ∷ rest

  -- slices.SortFunc of the groups
  unfoldable pub sort_groups : List Group → List Group
  sort_groups [] = []
  sort_groups (g ∷ gs) = insert_group g (sort_groups gs)

  -- GroupByOutput
  unfoldable pub group_by_output : List RemoteResult → Result GroupFault (List Group)
  group_by_output rs = collect [] rs >>= (λ gs. ok (sort_groups gs))
