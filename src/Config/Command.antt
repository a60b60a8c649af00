-- ===== src/Config/Command.antt =====
-- What the command line decides: Resolve of
-- internal/config/effective.go.
use clusterctl.Prelude.{
  ℕ, suc, Option, some, List, [], Bytes, Result, ok, err, ◌>>=◌, codes, eqb, lookup, if◌then◌else◌,
  pos, ◌≡◌, refl, sym, ◌∙◌, ap,
}
use clusterctl.Config.Value.{Value, int, as_mapping}
use clusterctl.Config.Tree.{Tree, Origin, origin_of, lookup_path}
use clusterctl.Config.Document.{Document}
use clusterctl.Config.Setting.{unknown_cluster, unknown_site, set_path, merge_document}
use clusterctl.Config.Layers.{
  Context, layer_flags, layer_site, given_by, apply_set, apply_env, apply_context_overrides,
}
use clusterctl.Config.Bundle.{Bundle, context}
use clusterctl.Config.Resolve.{
  Resolved, ResolveOptions, resolve, resolve_in, merge_layers, apply_fanout, from_workstation,
  from_context, from_env, apply_flags, apply_cluster, apply_workstation, workstation_for, base_tree,
  or_fault, site_of,
}
use clusterctl.Config.Overriding.{override-sets}

last_step :
    {E A B : Type 0} (m : Result E A) (next : A → Result E B) (b : B)
    → (m >>= next) ≡ ok b
    → (a : A) × (next a ≡ ok b)
last_step (ok a) next b e = (a, e)
last_step (err x) next b e = absurd (cc)

last_value :
    {E A B : Type 0} (m : Result E A) (f : A → B) (b : B)
    → (m >>= (λ a. ok (f a))) ≡ ok b
    → (a : A) × (m ≡ ok a) × (f a ≡ b)
last_value (ok a) f b e = (a, refl, cc)
last_value (err x) f b e = absurd (cc)

module _ (check_override : Bytes → Value → Origin → List Bytes)
    (parse_set_value : Bytes → Option Value) (defaults : Option Document)
    (machine : Option Bytes) where
  apply_fanout-sets :
      (n : ℕ) (t next : Tree)
      → apply_fanout check_override parse_set_value (suc n) t ≡ ok next
      → (lookup_path next.fields (codes "fanout.max") ≡ some (int (pos (suc n))))
        × (origin_of next (codes "fanout.max") ≡ some (given_by layer_flags (codes "--fanout")))
  unfolding apply_fanout set_path
  apply_fanout-sets n t next e =
      override-sets check_override layer_flags (codes "fanout.max") (int (pos (suc n)))
        (given_by layer_flags (codes "--fanout")) (λ _. given_by layer_flags (codes "--fanout")) []
        t next (unfold as_mapping in refl) e

  merge_layers-fanout :
      (b : Bundle) (opts : ResolveOptions) (ctx : Context) (cluster site : Document) (next : Tree)
      → merge_layers check_override parse_set_value defaults machine b opts ctx cluster site
        ≡ ok next
      → (t : Tree) × (apply_fanout check_override parse_set_value opts.fanout t ≡ ok next)
  unfolding merge_layers from_workstation from_context from_env apply_flags
  merge_layers-fanout b opts ctx cluster site next e =
      let (t4, e4) =
        last_step
          (apply_cluster check_override parse_set_value cluster (
            merge_document layer_site site (codes "spec") []
              (base_tree check_override parse_set_value defaults machine)))
          (λ t. from_workstation check_override parse_set_value defaults machine b opts ctx t) next
          e in
      let (t5, e5) =
        last_step (apply_workstation check_override parse_set_value (workstation_for b machine) t4)
          (λ t. from_context check_override parse_set_value defaults machine b opts ctx t) next
          e4 in
      let (t6, e6) =
        last_step
          (apply_context_overrides check_override parse_set_value ctx
            (lookup ctx.name b.context_sources) t5)
          (λ t. from_env check_override parse_set_value defaults machine opts t) next e5 in
      let (t7, e7) =
        last_step (apply_env check_override parse_set_value opts.env t6)
          (λ t. apply_flags check_override parse_set_value defaults machine opts t) next e6 in
      last_step (apply_set check_override parse_set_value opts.set_values t7)
        (λ t. apply_fanout check_override parse_set_value opts.fanout t) next e7

  resolve_in-tree :
      (b : Bundle) (opts : ResolveOptions) (ctx : Context) (r : Resolved)
      → resolve_in check_override parse_set_value defaults machine b opts ctx ≡ ok r
      → (cluster : Document) × (site : Document) × (merge_layers check_override parse_set_value
            defaults machine b opts ctx cluster site
          ≡ ok r.tree)
  unfolding resolve_in
  resolve_in-tree b opts ctx r e =
      let (cluster, e1) =
        last_step (or_fault (unknown_cluster ctx.name ctx.cluster) (lookup ctx.cluster b.clusters))
          (λ cluster. do
            site ←
                or_fault (unknown_site ctx.cluster (site_of cluster))
                  (lookup (site_of cluster) b.sites)
            tree ←
                merge_layers check_override parse_set_value defaults machine b opts ctx cluster site
            ok (record { context_of = ctx; site_name = site_of cluster; tree = tree }))
          r e in
      let (site, e2) =
        last_step
          (or_fault (unknown_site ctx.cluster (site_of cluster)) (lookup (site_of cluster) b.sites))
          (λ site. do
            tree ←
                merge_layers check_override parse_set_value defaults machine b opts ctx cluster site
            ok (record { context_of = ctx; site_name = site_of cluster; tree = tree }))
          r e1 in
      let (tree, merged, e3) =
        last_value
          (merge_layers check_override parse_set_value defaults machine b opts ctx cluster site)
          (λ tree. record { context_of = ctx; site_name = site_of cluster; tree = tree }) r e2 in
      (cluster, site, merged ∙ ap (λ q. ok q.tree) e3)

  -- Where a configuration is resolved and --fanout gave a number above zero, no other layer has the last
  -- word: the merged fanout.max is that number, and its recorded origin is the flag.
  pub resolve-fanout :
      (b : Bundle) (opts : ResolveOptions) (n : ℕ) (r : Resolved)
      → opts.fanout ≡ suc n
      → resolve check_override parse_set_value defaults machine b opts ≡ ok r
      → (lookup_path r.tree.fields (codes "fanout.max") ≡ some (int (pos (suc n))))
        × (origin_of r.tree (codes "fanout.max") ≡ some (given_by layer_flags (codes "--fanout")))
  unfolding resolve
  resolve-fanout b opts n r given e =
      let (ctx, e1) =
        last_step
          (context b (
            if eqb opts.context_name []
            then opts.env (codes "CLUSTERCTL_CONTEXT")
            else opts.context_name))
          (λ ctx. resolve_in check_override parse_set_value defaults machine b opts ctx) r e in
      let (cluster, site, merged) = resolve_in-tree b opts ctx r e1 in
      let (t, last) = merge_layers-fanout b opts ctx cluster site r.tree merged in
      apply_fanout-sets n t r.tree
        (ap (λ m. apply_fanout check_override parse_set_value m t) (sym given) ∙ last)
