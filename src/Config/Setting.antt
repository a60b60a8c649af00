-- ===== src/Config/Setting.antt =====
-- One override and the documents that merge as a whole: SetPath, override and MergeDocument of
-- internal/config/merge.go. The check of an override against the schema is third-party code.
use clusterctl.Prelude.{
  Bool, Option, none, some, List, [], ◌∷◌, Bytes, Result, ok, err, eqb, split_on, any,
  if◌then◌else◌,
}
use clusterctl.Config.Value.{Value, null, mapping, Fields, end, field}
use clusterctl.Config.Tree.{Tree, Origin, dot, split_path, lookup_path, merge_value}
use clusterctl.Config.Document.{Document, position}

-- why an override is refused; `at` is where it was written
pub data Fault : Type 0 where
  needs_path : (at : Origin) → Fault
  empty_element : (at : Origin) → (path : Bytes) → Fault
  problems : List Bytes → Fault
  bad_value : (name : Bytes) → (raw : Bytes) → Fault
  in_context : (name : Bytes) → Fault → Fault
  unknown_context : (name : Bytes) → Fault
  no_current_context : Fault
  unknown_cluster : (context : Bytes) → (cluster : Bytes) → Fault
  unknown_site : (cluster : Bytes) → (site : Bytes) → Fault

-- contains
unfoldable pub contains_word : List Bytes → Bytes → Bool
contains_word words want = any (λ w. eqb w want) words

-- the fields that `MergeDocumentExcept` keeps
unfoldable pub filtered : List Bytes → Fields → Fields
unfolding contains_word
filtered except end = end
filtered except (field k v fs) =
    let rest = filtered except fs in if contains_word except k then rest else field k v rest

-- MergeDocumentExcept with the value it found; one that is null reads as none
unfoldable pub merge_found :
    Bytes → Document → Bytes → Bytes → List Bytes → Option Value → Tree → Tree
unfolding split_path filtered merge_value position
merge_found layer doc from into except none t = t
merge_found layer doc from into except (some null) t = t
merge_found layer doc from into except (some (mapping fs)) t =
    merge_value layer (position doc) (mapping (filtered except fs)) from (split_path into) t
merge_found layer doc from into except (some v) t =
    merge_value layer (position doc) v from (split_path into) t

-- MergeDocumentExcept
unfoldable pub merge_document_except : Bytes → Document → Bytes → Bytes → List Bytes → Tree → Tree
merge_document_except layer doc from into except t =
    merge_found layer doc from into except (lookup_path doc.data_of from) t

-- MergeDocument
unfoldable pub merge_document : Bytes → Document → Bytes → Bytes → Tree → Tree
unfolding merge_document_except
merge_document layer doc from into t = merge_document_except layer doc from into [] t

-- validatePath: whether every element names something
unfoldable pub has_empty_element : Bytes → Bool
has_empty_element path = any (λ k. eqb k []) (split_on dot path)

-- `at.Layer = ""`
abbrev pub unlayered : Origin → Origin
unlayered at = record at { layer = [] }

-- the outcome of an override with these problems
unfoldable pub unless_problems : List Bytes → Tree → Result Fault Tree
unless_problems [] t = ok t
unless_problems (p ∷ ps) t = err (problems (p ∷ ps))

module _ (check_override : Bytes → Value → Origin → List Bytes) where
  -- override
  unfoldable pub override :
      Bytes → Bytes → Value → Origin → (Bytes → Origin) → Bytes → Tree → Result Fault Tree
  override layer path value at from src t =
      if eqb path []
      then err (needs_path (unlayered at))
      else if has_empty_element path
      then err (empty_element (unlayered at) path)
      else unless_problems (check_override path value (unlayered at))
          (merge_value layer from value src (split_path path) t)

  -- SetPath
  unfoldable pub set_path : Bytes → Bytes → Value → Origin → Tree → Result Fault Tree
  unfolding override
  set_path layer path value o t = override layer path value o (λ _. o) [] t
