-- ===== src/Tests/ConfigTests.antt =====
-- The configuration, on a tree of two values and a site without documents of its own.
use clusterctl.Prelude.{
  true, Option, none, some, List, [], ◌∷◌, Bytes, ok, codes, pos, ◌≡◌, ◌↔◌, refl, sym, ap, split_on,
  join_with,
}
use clusterctl.Config.Value.{Value, str, int, mapping, end, field, get, put, as_mapping, is_section}
use clusterctl.Config.Tree.{
  Tree, Origin, new_tree, merge_value, merge_leaf, section_of, is_prefix, split_path, lookup_path,
  get_in, origin_of, origin_at,
}
use clusterctl.Config.Document.{Document, at_file, text_of}
use clusterctl.Config.Setting.{
  override, set_path, unless_problems, has_empty_element, merge_document, merge_document_except,
  merge_found,
}
use clusterctl.Config.Merging.{Apart}
use clusterctl.Config.Origins.{IsHonest, IsHonest-new_tree, merge_eagerly, merge_leaf-merge_eagerly}
use clusterctl.Config.Invariant.{IsHonest-merge_document_except}
use clusterctl.Config.Overriding.{override-sets, override-keeps}
use clusterctl.Config.Layers.{
  Context, given_by, layer_flags, apply_overrides, apply_context_overrides, apply_env, apply_set,
}
use clusterctl.Config.Bundle.{Bundle, context}
use clusterctl.Config.Resolve.{
  ResolveOptions, Resolved, resolve, resolve_in, merge_layers, from_workstation, from_context,
  from_env, apply_flags, apply_fanout, apply_cluster, apply_workstation, workstation_for, base_tree,
  or_fault, site_of, from_command_line,
}
use clusterctl.Config.Given.{IsGiven, from_command_line_iff}

abbrev written : Bytes → Origin
written path = at_file (codes "site.yaml")

abbrev site_layer : Value
site_layer = mapping (
    field (codes "safety") (mapping (field (codes "confirmAbove") (int (pos 4)) end))
      (field (codes "user") (str (codes "root")) end))

abbrev site_document : Document
site_document = record {
  file = codes "site.yaml";
  kind = codes "Site";
  data_of = field (codes "spec") site_layer end;
  positions = [];
}

spec_is_section :
    (v : Value)
    → lookup_path site_document.data_of (codes "spec") ≡ some v
    → ◌≡◌ {A = Bytes} [] []
    → is_section (some v) ≡ true
unfolding is_section as_mapping lookup_path split_path split_on get_in get
spec_is_section v e _ = ap is_section (sym e)

IsHonest-merge_document_except_example :
    IsHonest (merge_document_except (codes "site") site_document (codes "spec") [] [] new_tree)
IsHonest-merge_document_except_example =
    IsHonest-merge_document_except (codes "site") site_document (codes "spec") [] [] new_tree
      spec_is_section IsHonest-new_tree

abbrev accept_all : Bytes → Value → Origin → List Bytes
accept_all path v at = []

abbrev keys_user : List Bytes
keys_user = codes "user" ∷ []

abbrev admin_tree : Tree
admin_tree = merge_value (codes "flags") written (str (codes "admin")) [] keys_user new_tree

admin_taken :
    override accept_all
      (codes "flags")
      (codes "user")
      (str (codes "admin"))
      (written [])
      written
      []
      new_tree
    ≡ ok admin_tree
unfolding override has_empty_element unless_problems split_path split_on
admin_taken = refl

override-sets_example :
    (lookup_path admin_tree.fields (codes "user") ≡ some (str (codes "admin")))
    × (origin_of admin_tree (codes "user") ≡ some (origin_at (codes "flags") written []))
override-sets_example =
    override-sets accept_all (codes "flags") (codes "user") (str (codes "admin")) (written [])
      written [] new_tree admin_tree (unfold as_mapping in refl) admin_taken

Apart-user : Apart (split_path (codes "user")) (split_path (codes "safety"))
unfolding split_path split_on is_prefix
Apart-user = (refl, refl)

override-keeps_example :
    lookup_path admin_tree.fields (codes "safety") ≡ lookup_path new_tree.fields (codes "safety")
override-keeps_example =
    override-keeps accept_all (codes "flags") (codes "user") (str (codes "admin")) (written [])
      written [] new_tree admin_tree (codes "safety") admin_taken Apart-user

merge_leaf-merge_eagerly_example :
    merge_leaf (at_file []) (codes "a" ∷ codes "b" ∷ []) (str []) new_tree
    ≡ merge_eagerly (at_file []) (codes "a" ∷ codes "b" ∷ []) (str []) new_tree
merge_leaf-merge_eagerly_example =
    merge_leaf-merge_eagerly (at_file []) (codes "a" ∷ codes "b" ∷ []) (str []) new_tree
      IsHonest-new_tree

-- The name of a user stands in a section that the flags gave, and nothing else says where it is from.
user_name_given : from_command_line admin_tree (codes "user.name") ≡ true
unfolding from_command_line origin_of merge_value join_with is_section get new_tree
user_name_given = refl

from_command_line_example :
    (from_command_line admin_tree (codes "user.name") ≡ true)
    ↔ IsGiven admin_tree (codes "user.name")
from_command_line_example = from_command_line_iff admin_tree (codes "user.name")

abbrev no_document : Document
no_document = record { file = []; kind = []; data_of = end; positions = [] }

abbrev only_context : Context
only_context = record { name = codes "prod"; cluster = codes "hpc"; user = []; overrides = end }

abbrev small_bundle : Bundle
small_bundle = record {
  current_context = [];
  contexts = only_context ∷ [];
  context_sources = [];
  sites = ([], no_document) ∷ [];
  clusters = (codes "hpc", no_document) ∷ [];
  inventories = [];
  workstations = [];
  secrets = [];
}

abbrev with_fanout : ResolveOptions
with_fanout = record { context_name = []; env = λ _. []; set_values = []; fanout = 8 }

abbrev no_value : Bytes → Option Value
no_value raw = none

abbrev with_fanout_tree : Tree
with_fanout_tree = record {
  fields = field (codes "fanout") (mapping (field (codes "max") (int (pos 8)) end)) end;
  entries =
      (
        codes "fanout.max",
        record {
          origin = given_by layer_flags (codes "--fanout");
          keys = codes "fanout" ∷ codes "max" ∷ [];
        },
      )
      ∷ [];
}

abbrev small_resolved : Resolved
small_resolved = record { context_of = only_context; site_name = []; tree = with_fanout_tree }

small_resolves : resolve accept_all no_value none none small_bundle with_fanout ≡ ok small_resolved
unfolding resolve resolve_in merge_layers from_workstation from_context from_env apply_flags
    apply_fanout apply_cluster apply_workstation workstation_for base_tree or_fault site_of context
    apply_overrides apply_context_overrides apply_env apply_set merge_document set_path text_of
    get_in split_on get has_empty_element unless_problems put join_with section_of new_tree
    is_section merge_value merge_found
small_resolves = refl
