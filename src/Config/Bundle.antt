-- ===== src/Config/Bundle.antt =====
-- internal/config/load.go: the documents by kind and name, and the contexts of the Config documents.
-- Reading a file, the YAML parser and the schema of a document are code of other packages.
use clusterctl.Prelude.{
  ℕ, ◌+◌, any, Option, none, some, List, [], ◌∷◌, Bytes, Result, ok, err, ◌>>=◌, codes, eqb, lookup,
  if◌then◌else◌,
}
use clusterctl.Config.Document.{Document, document_name}
use clusterctl.Config.Layers.{Context, ContextSource}
use clusterctl.Config.Setting.{Fault, unknown_context, no_current_context}

-- Bundle, without the files and the documents of a kind that only other packages read
pub record Bundle : Type 0 where
  pub current_context : Bytes
  pub contexts : List Context
  pub context_sources : List (Bytes × ContextSource)
  pub sites : List (Bytes × Document)
  pub clusters : List (Bytes × Document)
  pub inventories : List (Bytes × Document)
  pub workstations : List (Bytes × Document)
  pub secrets : List (Bytes × Document)

pub data LoadFault : Type 0 where
  second_document : (second first : Document) → LoadFault
  second_context : (name : Bytes) → LoadFault
  bad_config : Document → LoadFault

-- addDocument
unfoldable pub add_document :
    List (Bytes × Document) → Document → Result LoadFault (List (Bytes × Document))
unfolding lookup document_name
add_document index d = elim (lookup (document_name d) index) [
  | some first ↦ err (second_document d first)
  | none ↦ ok ((document_name d, d) ∷ index)
]

-- the index that a document of a kind goes to
unfoldable pub file_document : Bundle → Document → Result LoadFault Bundle
unfolding add_document
file_document b d =
    if eqb d.kind (codes "Site")
    then add_document b.sites d >>= (λ index. ok (record b { sites = index }))
    else if eqb d.kind (codes "Cluster")
    then add_document b.clusters d >>= (λ index. ok (record b { clusters = index }))
    else if eqb d.kind (codes "NodeInventory")
    then add_document b.inventories d >>= (λ index. ok (record b { inventories = index }))
    else if eqb d.kind (codes "Workstation")
    then add_document b.workstations d >>= (λ index. ok (record b { workstations = index }))
    else if eqb d.kind (codes "Secret")
    then add_document b.secrets d >>= (λ index. ok (record b { secrets = index }))
    else ok b

-- the loop of `load` over the documents; the Config documents are merged after it
unfoldable pub file_documents : Bundle → List Document → Result LoadFault Bundle
unfolding file_document
file_documents b [] = ok b
file_documents b (d ∷ ds) = do
  next ← (if eqb d.kind (codes "Config") then ok b else file_document b d)
  file_documents next ds

-- v1alpha1.Config
pub record Config : Type 0 where
  pub current : Bytes
  pub contexts_of : List Context

-- `b.Config.Contexts[at] = ctx` for a context of a name that is there, else the append
unfoldable pub put_context : List Context → Context → List Context
put_context [] ctx = ctx ∷ []
put_context (c ∷ cs) ctx =
    let rest = put_context cs ctx in if eqb c.name ctx.name then ctx ∷ cs else c ∷ rest

-- the loop of `mergeConfigDocuments` over the contexts of one document; `at` writes contexts[i]
unfoldable pub merge_contexts :
    (ℕ → Bytes) → Document → ℕ → List Bytes → List Context → Bundle → Result LoadFault Bundle
unfolding put_context
merge_contexts at d i seen [] b = ok b
merge_contexts at d i seen (ctx ∷ rest) b =
    if any (λ s. eqb s ctx.name) seen
    then err (second_context ctx.name)
    else merge_contexts at d (i + 1) (ctx.name ∷ seen) rest (record b {
      contexts = put_context b.contexts ctx;
      context_sources = (ctx.name, record { doc = d; at = at i }) ∷ b.context_sources;
    })

module _ (at : ℕ → Bytes) (decode : Document → Option Config) where
  -- mergeConfigDocuments
  unfoldable pub merge_config_documents : List Document → Bundle → Result LoadFault Bundle
  unfolding merge_contexts
  merge_config_documents [] b = ok b
  merge_config_documents (d ∷ ds) b = elim (decode d) [
    | none ↦ err (bad_config d)
    | some cfg ↦ do
      next ← merge_contexts at d 0 [] cfg.contexts_of (record b {
        current_context = (if eqb cfg.current [] then b.current_context else cfg.current);
      })
      merge_config_documents ds next
  ]

-- a context by its name
unfoldable pub find_context : List Context → Bytes → Result Fault Context
find_context [] name = err (unknown_context name)
find_context (c ∷ cs) name = if eqb c.name name then ok c else find_context cs name

-- the context of a configuration that has one
unfoldable pub the_only : List Context → Result Fault Context
the_only (c ∷ []) = ok c
the_only _ = err no_current_context

-- Context, the method
unfoldable pub context : Bundle → Bytes → Result Fault Context
unfolding find_context the_only
context b given =
    let name = if eqb given [] then b.current_context else given in
    if eqb name [] then the_only b.contexts else find_context b.contexts name
