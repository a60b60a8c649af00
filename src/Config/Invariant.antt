-- ===== src/Config/Invariant.antt =====
-- What a document that is merged leaves of the tree (`mergeValue`, `MergeDocumentExcept` of
-- internal/config/merge.go).
use clusterctl.Prelude.{
  true, Option, none, some, List, [], ◌∷◌, ◌++◌, Bytes, eqb_iff, split_on-ne-nil, ◌≡◌, ◌≢◌, refl,
  ◌∙◌, arith,
}
use clusterctl.Config.Value.{
  Value, Fields, null, str, bool, int, float, sequence, mapping, end, field, as_mapping, is_section,
}
use clusterctl.Config.Tree.{
  Tree, Origin, dot, get_in, set, is_prefix, merge_leaf, merge_value, merge_fields, join_path,
  origin_at, split_path, lookup_path,
}
use clusterctl.Config.Merging.{Apart, get_in-set_in-Apart}
use clusterctl.Config.Document.{Document, position}
use clusterctl.Config.Origins.{IsHonest, IsHonest-merge_leaf}
use clusterctl.Config.Setting.{merge_found, merge_document_except, filtered}

snoc-ne-nil : (dst : List Bytes) (k : Bytes) → (dst ++ (k ∷ [])) ≢ []
snoc-ne-nil [] k = cc
snoc-ne-nil (d ∷ dst) k = cc

is_prefix-snoc :
    (dst : List Bytes) (k : Bytes) (keys : List Bytes)
    → Apart dst keys
    → Apart (dst ++ (k ∷ [])) keys
unfolding is_prefix
is_prefix-snoc [] k keys (p, q) = ground arith
is_prefix-snoc (d ∷ dst) k [] (p, q) = ground arith
is_prefix-snoc (d ∷ dst) k (i ∷ keys) (p, q) =
    ground (arith, eqb_iff d i, eqb_iff i d, is_prefix-snoc dst k keys)

get_in-merge_leaf-Apart :
    (o : Origin) (dst : List Bytes) (v : Value) (t : Tree) (keys : List Bytes)
    → Apart dst keys
    → get_in (merge_leaf o dst v t).fields keys ≡ get_in t.fields keys
unfolding merge_leaf set
get_in-merge_leaf-Apart o [] v t keys (p, q) = unfold is_prefix in ground arith
get_in-merge_leaf-Apart o (k ∷ ks) v t keys far = get_in-set_in-Apart t.fields k ks v keys far

IsHonest-leaf :
    (o : Origin) (v : Value) (dst : List Bytes) (t : Tree)
    → as_mapping v ≡ none
    → (dst ≡ [] → is_section (some v) ≡ true)
    → IsHonest t
    → IsHonest (merge_leaf o dst v t)
unfolding is_section
IsHonest-leaf o v [] t leaf top honest = absurd (ground (arith, top refl))
IsHonest-leaf o v (k ∷ ks) t leaf top honest = IsHonest-merge_leaf o (k ∷ ks) v t (cc) leaf honest

module _ (layer : Bytes) (from : Bytes → Origin) where
  mutual
    unfolding merge_value merge_fields as_mapping

    IsHonest-merge_fields :
        (fs : Fields) (src : Bytes) (dst : List Bytes) (t : Tree)
        → IsHonest t
        → IsHonest (merge_fields layer from fs src dst t)
    IsHonest-merge_fields end src dst t honest = honest
    IsHonest-merge_fields (field k v fs) src dst t honest =
        IsHonest-merge_fields fs src dst
          (merge_value layer from v (join_path src k) (dst ++ (k ∷ [])) t)
          (IsHonest-merge_value v (join_path src k) (dst ++ (k ∷ [])) t
            (λ e. absurd (snoc-ne-nil dst k e)) honest)

    pub IsHonest-merge_value :
        (v : Value) (src : Bytes) (dst : List Bytes) (t : Tree)
        → (dst ≡ [] → is_section (some v) ≡ true)
        → IsHonest t
        → IsHonest (merge_value layer from v src dst t)
    IsHonest-merge_value (mapping fs) src dst t top honest =
        IsHonest-merge_fields fs src dst t honest
    IsHonest-merge_value null src dst t top honest =
        IsHonest-leaf (origin_at layer from src) null dst t refl top honest
    IsHonest-merge_value (str b) src dst t top honest =
        IsHonest-leaf (origin_at layer from src) (str b) dst t refl top honest
    IsHonest-merge_value (bool b) src dst t top honest =
        IsHonest-leaf (origin_at layer from src) (bool b) dst t refl top honest
    IsHonest-merge_value (int b) src dst t top honest =
        IsHonest-leaf (origin_at layer from src) (int b) dst t refl top honest
    IsHonest-merge_value (float b) src dst t top honest =
        IsHonest-leaf (origin_at layer from src) (float b) dst t refl top honest
    IsHonest-merge_value (sequence b) src dst t top honest =
        IsHonest-leaf (origin_at layer from src) (sequence b) dst t refl top honest

  mutual
    unfolding merge_value merge_fields

    get_in-merge_fields-Apart :
        (fs : Fields) (src : Bytes) (dst : List Bytes) (t : Tree) (keys : List Bytes)
        → Apart dst keys
        → get_in (merge_fields layer from fs src dst t).fields keys ≡ get_in t.fields keys
    get_in-merge_fields-Apart end src dst t keys far = refl
    get_in-merge_fields-Apart (field k v fs) src dst t keys far =
        get_in-merge_fields-Apart fs src dst
          (merge_value layer from v (join_path src k) (dst ++ (k ∷ [])) t) keys far
        ∙ get_in-merge_value-Apart v (join_path src k) (dst ++ (k ∷ [])) t keys
            (is_prefix-snoc dst k keys far)

    pub get_in-merge_value-Apart :
        (v : Value) (src : Bytes) (dst : List Bytes) (t : Tree) (keys : List Bytes)
        → Apart dst keys
        → get_in (merge_value layer from v src dst t).fields keys ≡ get_in t.fields keys
    get_in-merge_value-Apart (mapping fs) src dst t keys far =
        get_in-merge_fields-Apart fs src dst t keys far
    get_in-merge_value-Apart null src dst t keys far =
        get_in-merge_leaf-Apart (origin_at layer from src) dst null t keys far
    get_in-merge_value-Apart (str b) src dst t keys far =
        get_in-merge_leaf-Apart (origin_at layer from src) dst (str b) t keys far
    get_in-merge_value-Apart (bool b) src dst t keys far =
        get_in-merge_leaf-Apart (origin_at layer from src) dst (bool b) t keys far
    get_in-merge_value-Apart (int b) src dst t keys far =
        get_in-merge_leaf-Apart (origin_at layer from src) dst (int b) t keys far
    get_in-merge_value-Apart (float b) src dst t keys far =
        get_in-merge_leaf-Apart (origin_at layer from src) dst (float b) t keys far
    get_in-merge_value-Apart (sequence b) src dst t keys far =
        get_in-merge_leaf-Apart (origin_at layer from src) dst (sequence b) t keys far

pub split_path-ne-nil : (path : Bytes) → path ≢ [] → split_path path ≢ []
unfolding split_path
split_path-ne-nil [] some_byte = absurd (some_byte refl)
split_path-ne-nil (c ∷ path) some_byte = split_on-ne-nil dot (c ∷ path)

split_path_nil : (path : Bytes) → split_path path ≡ [] → path ≡ []
split_path_nil [] e = refl
split_path_nil (c ∷ path) e = absurd (split_path-ne-nil (c ∷ path) (cc) e)

IsHonest-merge_found :
    (layer : Bytes) (doc : Document) (from into : Bytes) (except : List Bytes)
    (found : Option Value) (t : Tree)
    → ((v : Value) → found ≡ some v → into ≡ [] → is_section (some v) ≡ true)
    → IsHonest t
    → IsHonest (merge_found layer doc from into except found t)
unfolding merge_found is_section as_mapping
IsHonest-merge_found layer doc from into except none t top honest = honest
IsHonest-merge_found layer doc from into except (some null) t top honest = honest
IsHonest-merge_found layer doc from into except (some (mapping fs)) t top honest =
    IsHonest-merge_value layer (position doc) (mapping (filtered except fs)) from (split_path into)
      t (λ _. refl) honest
IsHonest-merge_found layer doc from into except (some (str b)) t top honest =
    IsHonest-merge_value layer (position doc) (str b) from (split_path into) t
      (λ e. top (str b) refl (split_path_nil into e)) honest
IsHonest-merge_found layer doc from into except (some (bool b)) t top honest =
    IsHonest-merge_value layer (position doc) (bool b) from (split_path into) t
      (λ e. top (bool b) refl (split_path_nil into e)) honest
IsHonest-merge_found layer doc from into except (some (int b)) t top honest =
    IsHonest-merge_value layer (position doc) (int b) from (split_path into) t
      (λ e. top (int b) refl (split_path_nil into e)) honest
IsHonest-merge_found layer doc from into except (some (float b)) t top honest =
    IsHonest-merge_value layer (position doc) (float b) from (split_path into) t
      (λ e. top (float b) refl (split_path_nil into e)) honest
IsHonest-merge_found layer doc from into except (some (sequence b)) t top honest =
    IsHonest-merge_value layer (position doc) (sequence b) from (split_path into) t
      (λ e. top (sequence b) refl (split_path_nil into e)) honest

-- Merging a document keeps this of the tree: every recorded path is that of keys at which a value stands
-- that is no mapping. What is merged at the top of the tree has to be a mapping.
pub IsHonest-merge_document_except :
    (layer : Bytes) (doc : Document) (from into : Bytes) (except : List Bytes) (t : Tree)
    → ((v : Value) → lookup_path doc.data_of from ≡ some v → into ≡ [] → is_section (some v) ≡ true)
    → IsHonest t
    → IsHonest (merge_document_except layer doc from into except t)
unfolding merge_document_except
IsHonest-merge_document_except layer doc from into except t top honest =
    IsHonest-merge_found layer doc from into except (lookup_path doc.data_of from) t top honest
