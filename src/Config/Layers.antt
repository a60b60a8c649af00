-- ===== src/Config/Layers.antt =====
-- The layers that are applied as overrides, one path at a time (internal/config/effective.go). Tables go
-- in the order of their keys. `check_override` and `parse_set_value` stand on third-party code.
use clusterctl.Prelude.{
  Option, none, some, List, [], ◌∷◌, ◌++◌, Bytes, Result, ok, err, ◌>>=◌, codes, eqb, if◌then◌else◌,
}
use clusterctl.Config.Value.{Value, str, Fields, end, field, as_mapping}
use clusterctl.Config.Tree.{Tree, Origin, dot, join_path, lookup_path}
use clusterctl.Config.Document.{Document, position, at_file}
use clusterctl.Config.Setting.{Fault, bad_value, in_context, override, set_path}

abbrev pub layer_defaults : Bytes
layer_defaults = codes "defaults"

abbrev pub layer_site : Bytes
layer_site = codes "site"

abbrev pub layer_cluster : Bytes
layer_cluster = codes "cluster"

abbrev pub layer_workstation : Bytes
layer_workstation = codes "workstation"

abbrev pub layer_context : Bytes
layer_context = codes "context"

abbrev pub layer_environment : Bytes
layer_environment = codes "environment"

abbrev pub layer_flags : Bytes
layer_flags = codes "flags"

-- v1alpha1.Context
pub record Context : Type 0 where
  pub name : Bytes
  pub cluster : Bytes
  pub user : Bytes
  pub overrides : Fields

-- contextSource; none when no document is known
pub record ContextSource : Type 0 where
  pub doc : Document
  pub at : Bytes

-- envPaths, in the order of the names
abbrev pub env_paths : List (Bytes × Bytes)
env_paths =
    (codes "CLUSTERCTL_BROWSER", codes "workstation.browser")
    ∷ (codes "CLUSTERCTL_COMMAND_TIMEOUT", codes "fanout.commandTimeout")
    ∷ (codes "CLUSTERCTL_CONNECT_TIMEOUT", codes "ssh.connectTimeout")
    ∷ (codes "CLUSTERCTL_FANOUT", codes "fanout.max")
    ∷ (codes "CLUSTERCTL_KNOWN_HOSTS", codes "ssh.knownHostsFile")
    ∷ (codes "CLUSTERCTL_SCP_BINARY", codes "ssh.scpBinary")
    ∷ (codes "CLUSTERCTL_SOPS_BINARY", codes "workstation.sopsBinary")
    ∷ (codes "CLUSTERCTL_SSHUTTLE_BINARY", codes "workstation.sshuttleBinary")
    ∷ (codes "CLUSTERCTL_SSH_BINARY", codes "ssh.binary")
    ∷ []

-- the origin of a value that a variable, or a flag, set
abbrev pub given_by : Bytes → Bytes → Origin
given_by layer what = record (at_file what) { layer = layer }

module _ (check_override : Bytes → Value → Origin → List Bytes)
    (parse_set_value : Bytes → Option Value) where
  -- the loop of `applyOverrides`
  unfoldable pub apply_table : Bytes → Document → Bytes → Fields → Tree → Result Fault Tree
  unfolding override position
  apply_table layer doc at end t = ok t
  apply_table layer doc at (field k v rest) t =
      let src = at ++ (dot ∷ k) in
      do
        next ← override check_override layer k v (position doc src) (position doc) src t
        apply_table layer doc at rest next

  -- applyOverrides
  unfoldable pub apply_overrides : Bytes → Document → Bytes → Tree → Result Fault Tree
  unfolding lookup_path apply_table
  apply_overrides layer doc at t = elim (lookup_path doc.data_of at) [
    | none ↦ ok t
    | some v ↦ elim (as_mapping v) [ none ↦ ok t | some table ↦ apply_table layer doc at table t ]
  ]

  -- `from` of `applyContextOverrides`
  unfoldable pub context_origin : Option ContextSource → Bytes → Origin
  unfolding position join_path
  context_origin none path = at_file []
  context_origin (some s) path = position s.doc (join_path s.at path)

  -- an override of a context, its error naming the context
  unfoldable pub context_override :
      Context → Option ContextSource → Bytes → Value → Bytes → Tree → Result Fault Tree
  unfolding override context_origin
  context_override ctx source path v src t =
      elim (override check_override layer_context path v (context_origin source src)
        (context_origin source) src t) [ ok next ↦ ok next | err e ↦ err (in_context ctx.name e) ]

  -- the loop of `applyContextOverrides`
  unfoldable pub apply_context_table :
      Context → Option ContextSource → Fields → Tree → Result Fault Tree
  unfolding context_override
  apply_context_table ctx source end t = ok t
  apply_context_table ctx source (field k v rest) t = do
    next ← context_override ctx source k v (codes "overrides." ++ k) t
    apply_context_table ctx source rest next

  -- applyContextOverrides
  unfoldable pub apply_context_overrides : Context → Option ContextSource → Tree → Result Fault Tree
  unfolding context_override apply_context_table
  apply_context_overrides ctx source t = do
    next ←
        (if eqb ctx.user []
          then ok t
          else context_override ctx source (codes "defaultUser") (str ctx.user) (codes "user") t)
    apply_context_table ctx source ctx.overrides next

  -- one variable, or one --set: its value read as YAML, and set at the path
  unfoldable pub apply_one : Bytes → Bytes → Bytes → Bytes → Tree → Result Fault Tree
  unfolding set_path
  apply_one layer what path raw t = elim (parse_set_value raw) [
    | none ↦ err (bad_value what raw)
    | some v ↦ set_path check_override layer path v (given_by layer what) t
  ]

  -- the loop of `applyEnv`
  unfoldable pub apply_variables : (Bytes → Bytes) → List (Bytes × Bytes) → Tree → Result Fault Tree
  unfolding apply_one
  apply_variables env [] t = ok t
  apply_variables env ((name, path) ∷ rest) t = do
    next ← (if eqb (env name) [] then ok t else apply_one layer_environment name path (env name) t)
    apply_variables env rest next

  -- applyEnv
  unfoldable pub apply_env : (Bytes → Bytes) → Tree → Result Fault Tree
  unfolding apply_variables
  apply_env env t = apply_variables env env_paths t

  -- applySet
  unfoldable pub apply_set : List (Bytes × Bytes) → Tree → Result Fault Tree
  unfolding apply_one
  apply_set [] t = ok t
  apply_set ((k, raw) ∷ rest) t = do
    next ← apply_one layer_flags (codes "--set") k raw t
    apply_set rest next
