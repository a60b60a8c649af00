-- ===== src/Config/Tree.antt =====
-- The merged tree of internal/config/merge.go: its data, and for each value where it came from.
use clusterctl.Prelude.{
  ℕ, Bool, true, false, ◌&&◌, ◌||◌, Option, none, some, List, [], ◌∷◌, ◌++◌, Bytes, eqb, join_with,
  split_on, lookup, if◌then◌else◌,
}
use clusterctl.Config.Value.{Value, Fields, mapping, end, field, get, put, as_mapping, is_section}

abbrev pub dot : ℕ
dot = b'.'

-- Origin
pub record Origin : Type 0 where
  pub layer : Bytes
  pub file : Bytes
  pub line : ℕ
  pub column : ℕ

-- what `origins` and `keys` hold at one path; the two maps always have the same paths
pub record Entry : Type 0 where
  pub origin : Origin
  pub keys : List Bytes

-- Tree
pub record Tree : Type 0 where
  pub fields : Fields
  pub entries : List (Bytes × Entry)

-- NewTree
unfoldable pub new_tree : Tree
new_tree = record { fields = end; entries = [] }

-- Origin, the method
unfoldable pub origin_of : Tree → Bytes → Option Origin
unfolding lookup
origin_of t path = elim (lookup path t.entries) [ none ↦ none | some e ↦ some e.origin ]

-- splitPath
unfoldable pub split_path : Bytes → List Bytes
split_path [] = []
split_path (c ∷ s) = split_on dot (c ∷ s)

-- joinPath
unfoldable pub join_path : Bytes → Bytes → Bytes
join_path [] b = b
join_path (c ∷ a) [] = c ∷ a
join_path (c ∷ a) (d ∷ b) = (c ∷ a) ++ (dot ∷ d ∷ b)

-- the value at a list of keys
unfoldable pub get_in : Fields → List Bytes → Option Value
unfolding as_mapping
get_in fs [] = some (mapping fs)
get_in fs (k ∷ []) = get k fs
get_in fs (k ∷ j ∷ ks) = elim (get k fs) [
  | none ↦ none
  | some v ↦ elim (as_mapping v) [ none ↦ none | some m ↦ get_in m (j ∷ ks) ]
]

-- lookup: a value at a dotted path
unfoldable pub lookup_path : Fields → Bytes → Option Value
unfolding split_path
lookup_path fs path = get_in fs (split_path path)

-- isPrefix
unfoldable pub is_prefix : List Bytes → List Bytes → Bool
is_prefix [] keys = true
is_prefix (p ∷ prefix) [] = false
is_prefix (p ∷ prefix) (k ∷ keys) = eqb p k && is_prefix prefix keys

-- the mapping that `set` goes on in, and whether it takes the place of another value
unfoldable pub section_of : Option Value → Fields × Bool
section_of none = (end, false)
section_of (some (mapping m)) = (m, false)
section_of (some _) = (end, true)

-- the loop of `set`, and its end, at a path of one key or more
unfoldable pub set_in : Fields → Bytes → List Bytes → Value → Fields × Bool
set_in fs k [] v = (put k v fs, is_section (get k fs))
set_in fs k (j ∷ ks) v =
    let (next, gone) = section_of (get k fs) in
    let (filled, replaced) = set_in next j ks v in (put k (mapping filled) fs, gone || replaced)

-- set
unfoldable pub set : Fields → List Bytes → Value → Fields × Bool
unfolding set_in
set fs [] v = (elim (as_mapping v) [ none ↦ fs | some m ↦ m ], true)
set fs (k ∷ ks) v = set_in fs k ks v

-- the loop that drops what a replaced value left behind
unfoldable pub drop_related : List Bytes → List (Bytes × Entry) → List (Bytes × Entry)
unfolding is_prefix
drop_related dst [] = []
drop_related dst ((p, e) ∷ es) =
    let rest = drop_related dst es in
    if is_prefix dst e.keys || is_prefix e.keys dst then rest else (p, e) ∷ rest

-- the entries without that of one path
unfoldable pub without : Bytes → List (Bytes × Entry) → List (Bytes × Entry)
without path [] = []
without path ((p, e) ∷ es) =
    let rest = without path es in if eqb p path then rest else (p, e) ∷ rest

-- mergeValue at a value that is no mapping; `o` is the origin, its layer set
unfoldable pub merge_leaf : Origin → List Bytes → Value → Tree → Tree
unfolding set drop_related without
merge_leaf o dst v t =
    let (fields, replaced) = set t.fields dst v in
    record {
      fields = fields;
      entries =
          (join_with dot dst, record { origin = o; keys = dst })
          ∷ without (join_with dot dst)
              (if replaced then drop_related dst t.entries else t.entries);
    }

module _ (layer : Bytes) (from : Bytes → Origin) where
  -- `o := from(srcPath)` with the layer
  abbrev pub origin_at : Bytes → Origin
  origin_at src = record (from src) { layer = layer }

  -- mergeValue
  unfoldable mutual
    unfolding merge_leaf

    pub merge_value : Value → Bytes → List Bytes → Tree → Tree
    merge_value (mapping fs) src dst t = merge_fields fs src dst t
    merge_value v src dst t = merge_leaf (origin_at src) dst v t

    pub merge_fields : Fields → Bytes → List Bytes → Tree → Tree
    merge_fields end src dst t = t
    merge_fields (field k v fs) src dst t =
        merge_fields fs src dst (merge_value v (join_path src k) (dst ++ (k ∷ [])) t)
