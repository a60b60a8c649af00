-- ===== src/Config/Overriding.antt =====
-- What an override that is taken leaves of the tree (`override` of internal/config/merge.go).
use clusterctl.Prelude.{
  none, some, List, [], ◌∷◌, Bytes, ok, eqb, eqb_iff, eqb_refl, join_with, join_with-split_on,
  lookup, Bool-cases, ◌≡◌, ◌≢◌, refl, sym, ◌∙◌, ap, arith, inl, inr,
}
use clusterctl.Config.Value.{
  Value, Fields, null, str, bool, int, float, sequence, mapping, as_mapping,
}
use clusterctl.Config.Tree.{
  Tree, Entry, Origin, dot, get_in, set, merge_leaf, merge_value, origin_at, origin_of, split_path,
  lookup_path,
}
use clusterctl.Config.Merging.{Apart, get_in-set_in}
use clusterctl.Config.Origins.{IsHonest}
use clusterctl.Config.Setting.{override, has_empty_element, unless_problems, unlayered}
use clusterctl.Config.Invariant.{IsHonest-merge_value, get_in-merge_value-Apart, split_path-ne-nil}

merge_value-leaf :
    (layer : Bytes) (from : Bytes → Origin) (v : Value) (src : Bytes) (dst : List Bytes) (t : Tree)
    → as_mapping v ≡ none
    → merge_value layer from v src dst t ≡ merge_leaf (origin_at layer from src) dst v t
unfolding merge_value as_mapping
merge_value-leaf layer from (mapping fs) src dst t leaf = ground arith
merge_value-leaf layer from null src dst t leaf = refl
merge_value-leaf layer from (str b) src dst t leaf = refl
merge_value-leaf layer from (bool b) src dst t leaf = refl
merge_value-leaf layer from (int b) src dst t leaf = refl
merge_value-leaf layer from (float b) src dst t leaf = refl
merge_value-leaf layer from (sequence b) src dst t leaf = refl

origin_of-first :
    (fs : Fields) (p : Bytes) (e : Entry) (es : List (Bytes × Entry))
    → origin_of (record { fields = fs; entries = (p, e) ∷ es }) p ≡ some e.origin
unfolding origin_of lookup
origin_of-first fs p e es = rw (origin_of, lookup, eqb_refl p)

merge_leaf-sets :
    (o : Origin) (dst : List Bytes) (v : Value) (t : Tree)
    → dst ≢ []
    → (get_in (merge_leaf o dst v t).fields dst ≡ some v)
      × (origin_of (merge_leaf o dst v t) (join_with dot dst) ≡ some o)
unfolding merge_leaf set
merge_leaf-sets o [] v t some_key = absurd (some_key refl)
merge_leaf-sets o (k ∷ ks) v t some_key =
    (get_in-set_in t.fields k ks v, origin_of-first _ (join_with dot (k ∷ ks)) _ _)

join_with-split_path : (path : Bytes) → path ≢ [] → join_with dot (split_path path) ≡ path
unfolding split_path
join_with-split_path [] some_byte = absurd (some_byte refl)
join_with-split_path (c ∷ path) some_byte = join_with-split_on dot (c ∷ path)

merged_of : (ps : List Bytes) (t next : Tree) → unless_problems ps t ≡ ok next → t ≡ next
unfolding unless_problems
merged_of [] t next e = cc
merged_of (p ∷ ps) t next e = absurd (cc)

module _ (check_override : Bytes → Value → Origin → List Bytes) where
  override-merges :
      (layer path : Bytes) (v : Value) (at : Origin) (from : Bytes → Origin) (src : Bytes)
      (t next : Tree)
      → override check_override layer path v at from src t ≡ ok next
      → (path ≢ []) × (merge_value layer from v src (split_path path) t ≡ next)
  unfolding override
  override-merges layer path v at from src t next e = elim (Bool-cases (eqb path [])) [
    | inl bare ↦ absurd (ground arith)
    | inr named ↦ elim (Bool-cases (has_empty_element path)) [
      | inl bad ↦ absurd (ground arith)
      | inr fine ↦ (
        ground (arith, eqb_iff path []),
        merged_of (check_override path v (unlayered at)) _ next (ground arith),
      )
    ]
  ]

  -- An override that is taken leaves an honest tree honest.
  pub IsHonest-override :
      (layer path : Bytes) (v : Value) (at : Origin) (from : Bytes → Origin) (src : Bytes)
      (t next : Tree)
      → override check_override layer path v at from src t ≡ ok next
      → IsHonest t
      → IsHonest next
  IsHonest-override layer path v at from src t next e honest =
      let (some_byte, merged) = override-merges layer path v at from src t next e in
      rw (sym merged) (
        IsHonest-merge_value layer from v src (split_path path) t
          (λ none. absurd (split_path-ne-nil path some_byte none)) honest)

  -- An override of a value that is no mapping, when it is taken, stands at its path, and the tree says
  -- that its layer set it there.
  pub override-sets :
      (layer path : Bytes) (v : Value) (at : Origin) (from : Bytes → Origin) (src : Bytes)
      (t next : Tree)
      → as_mapping v ≡ none
      → override check_override layer path v at from src t ≡ ok next
      → (lookup_path next.fields path ≡ some v)
        × (origin_of next path ≡ some (origin_at layer from src))
  unfolding lookup_path
  override-sets layer path v at from src t next leaf e =
      let (some_byte, merged) = override-merges layer path v at from src t next e in
      let (value, origin) =
        merge_leaf-sets (origin_at layer from src) (split_path path) v t
          (split_path-ne-nil path some_byte) in
      rw (sym merged, merge_value-leaf layer from v src (split_path path) t leaf, value)
        (
          refl,
          ap (λ p. origin_of (merge_leaf (origin_at layer from src) (split_path path) v t) p)
                (sym (join_with-split_path path some_byte))
              ∙ origin,
        )

  -- An override that is taken leaves the value at every path that is neither inside nor above its own.
  pub override-keeps :
      (layer path : Bytes) (v : Value) (at : Origin) (from : Bytes → Origin) (src : Bytes)
      (t next : Tree) (other : Bytes)
      → override check_override layer path v at from src t ≡ ok next
      → Apart (split_path path) (split_path other)
      → lookup_path next.fields other ≡ lookup_path t.fields other
  unfolding lookup_path
  override-keeps layer path v at from src t next other e far =
      let (some_byte, merged) = override-merges layer path v at from src t next e in
      rw (sym merged)
        (get_in-merge_value-Apart layer from v src (split_path path) t (split_path other) far)
