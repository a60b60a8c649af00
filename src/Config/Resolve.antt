-- ===== src/Config/Resolve.antt =====
-- Resolve of internal/config/effective.go: the layers in their order. Not under the repository: the YAML
-- parser, the schema check and the decoder; the check of the secret references is not modelled.
use clusterctl.Prelude.{
  ℕ, zero, suc, Bool, false, ◌||◌, Option, none, some, List, [], ◌∷◌, Bytes, Result, ok, err, ◌>>=◌,
  codes, eqb, lookup, length, before, contains_byte, pos, if◌then◌else◌,
}
use clusterctl.Config.Value.{Value, int}
use clusterctl.Config.Tree.{Tree, Origin, dot, new_tree, origin_of, lookup_path}
use clusterctl.Config.Document.{Document, text_of, cut_last, is_dot}
use clusterctl.Config.Setting.{
  Fault, unknown_cluster, unknown_site, set_path, merge_document, merge_document_except,
}
use clusterctl.Config.Layers.{
  Context, layer_defaults, layer_site, layer_cluster, layer_workstation, layer_environment,
  layer_flags, given_by, apply_overrides, apply_context_overrides, apply_env, apply_set,
}
use clusterctl.Config.Bundle.{Bundle, context}

-- ResolveOptions
pub record ResolveOptions : Type 0 where
  pub context_name : Bytes
  pub env : Bytes → Bytes
  -- the --set assignments, in the order of their paths
  pub set_values : List (Bytes × Bytes)
  pub fanout : ℕ

-- Resolved, before the merged tree is decoded
pub record Resolved : Type 0 where
  pub context_of : Context
  pub site_name : Bytes
  pub tree : Tree

-- workstationFor; the name of the machine, none when the system gives none
unfoldable pub workstation_for : Bundle → Option Bytes → Option Document
unfolding lookup before
workstation_for b none = lookup [] b.workstations
workstation_for b (some host) = elim (lookup host b.workstations) [
  | some d ↦ some d
  | none ↦
      if contains_byte dot host
      then elim (lookup (before dot host) b.workstations) [
        | some d ↦ some d
        | none ↦ lookup [] b.workstations
      ]
      else lookup [] b.workstations
]

-- `siteName`
unfoldable pub site_of : Document → Bytes
site_of cluster = text_of (lookup_path cluster.data_of (codes "spec.site"))

-- a document of an index, or the error of one that is not there
unfoldable pub or_fault : Fault → Option Document → Result Fault Document
or_fault e none = err e
or_fault e (some d) = ok d

module _ (check_override : Bytes → Value → Origin → List Bytes)
    (parse_set_value : Bytes → Option Value) where
  -- the layer of the workstation
  unfoldable pub apply_workstation : Option Document → Tree → Result Fault Tree
  unfolding merge_document_except apply_overrides
  apply_workstation none t = ok t
  apply_workstation (some d) t =
      apply_overrides check_override parse_set_value layer_workstation d (codes "spec.overrides") (
        merge_document_except layer_workstation d (codes "spec") (codes "workstation")
          (codes "overrides" ∷ []) t)

  -- `if opts.Fanout > 0`
  unfoldable pub apply_fanout : ℕ → Tree → Result Fault Tree
  unfolding set_path
  apply_fanout zero t = ok t
  apply_fanout (suc n) t =
      set_path check_override layer_flags (codes "fanout.max") (int (pos (suc n)))
        (given_by layer_flags (codes "--fanout")) t

  -- the layers of a cluster, on the tree of the site
  unfoldable pub apply_cluster : Document → Tree → Result Fault Tree
  unfolding merge_document apply_overrides
  apply_cluster d t =
      apply_overrides check_override parse_set_value layer_cluster d (codes "spec.overrides") (
        merge_document layer_cluster d (codes "spec.bootPaths") (codes "bootPaths") (
          merge_document layer_cluster d (codes "spec.groups") (codes "groups")
            (merge_document layer_cluster d (codes "spec.slurm") (codes "slurm") t)))

  module _ (defaults : Option Document) (machine : Option Bytes) where
    -- the built-in defaults
    unfoldable pub base_tree : Tree
    unfolding merge_document
    base_tree = elim defaults [
      | none ↦ new_tree
      | some d ↦ merge_document layer_defaults d [] [] new_tree
    ]

    -- 7. --set and --fanout
    unfoldable pub apply_flags : ResolveOptions → Tree → Result Fault Tree
    apply_flags opts t = do
      next ← apply_set check_override parse_set_value opts.set_values t
      apply_fanout opts.fanout next

    -- 6. the environment, and on
    unfoldable pub from_env : ResolveOptions → Tree → Result Fault Tree
    from_env opts t = do
      next ← apply_env check_override parse_set_value opts.env t
      apply_flags opts next

    -- 5. the context, and on
    unfoldable pub from_context : Bundle → ResolveOptions → Context → Tree → Result Fault Tree
    from_context b opts ctx t = do
      next ←
          apply_context_overrides check_override parse_set_value ctx
            (lookup ctx.name b.context_sources) t
      from_env opts next

    -- 4. the workstation, and on
    unfoldable pub from_workstation : Bundle → ResolveOptions → Context → Tree → Result Fault Tree
    from_workstation b opts ctx t = do
      next ← apply_workstation (workstation_for b machine) t
      from_context b opts ctx next

    -- the layers of `Resolve`, in their order
    unfoldable pub merge_layers :
        Bundle → ResolveOptions → Context → Document → Document → Result Fault Tree
    merge_layers b opts ctx cluster site = do
      next ← apply_cluster cluster (merge_document layer_site site (codes "spec") [] base_tree)
      from_workstation b opts ctx next

    -- Resolve in a context, up to the decoding
    unfoldable pub resolve_in : Bundle → ResolveOptions → Context → Result Fault Resolved
    resolve_in b opts ctx = do
      cluster ← or_fault (unknown_cluster ctx.name ctx.cluster) (lookup ctx.cluster b.clusters)
      site ←
          or_fault (unknown_site ctx.cluster (site_of cluster)) (lookup (site_of cluster) b.sites)
      tree ← merge_layers b opts ctx cluster site
      ok (record { context_of = ctx; site_name = site_of cluster; tree = tree })

    -- Resolve, up to the decoding
    unfoldable pub resolve : Bundle → ResolveOptions → Result Fault Resolved
    resolve b opts = do
      ctx ← context b (
          if eqb opts.context_name []
          then opts.env (codes "CLUSTERCTL_CONTEXT")
          else opts.context_name)
      resolve_in b opts ctx

abbrev pub is_command_layer : Origin → Bool
is_command_layer o = eqb o.layer layer_environment || eqb o.layer layer_flags

-- the loop of `FromCommandLine`
unfoldable pub from_command_line_loop : ℕ → Tree → Bytes → Bool
unfolding origin_of cut_last
from_command_line_loop zero t p = false
from_command_line_loop (suc fuel) t [] = false
from_command_line_loop (suc fuel) t (c ∷ p) = elim (origin_of t (c ∷ p)) [
  | some o ↦ is_command_layer o
  | none ↦ elim (cut_last is_dot (c ∷ p)) [
    | none ↦ false
    | some q ↦ from_command_line_loop fuel t q
  ]
]

-- FromCommandLine
unfoldable pub from_command_line : Tree → Bytes → Bool
unfolding from_command_line_loop
from_command_line t path = from_command_line_loop (suc (length path)) t path
