-- ===== src/Config/Origins.antt =====
-- The record of where each value came from, as merging into the tree keeps it (internal/config/merge.go).
use clusterctl.Prelude.{
  Bool, true, false, ◌||◌, Option, none, some, List, [], ◌∷◌, Bytes, eqb, eqb_iff, join_with, All,
  Bool-cases, ◌≡◌, ◌≢◌, refl, sym, ◌∙◌, ap, arith, inl, inr,
}
use clusterctl.Config.Value.{
  Value, Fields, null, str, bool, int, float, sequence, mapping, end, get, as_mapping, is_section,
}
use clusterctl.Config.Tree.{
  Tree, Entry, Origin, dot, get_in, section_of, set_in, set, is_prefix, drop_related, without,
  merge_leaf, new_tree,
}
use clusterctl.Config.Merging.{get_in-end, get_in-section_of, get_in-set_in, get_in-set_in-Apart}

-- a value that is no mapping stands at the keys
pub IsLeaf : Fields → List Bytes → Type 0
IsLeaf fs keys = (v : Value) × (get_in fs keys ≡ some v) × (as_mapping v ≡ none)

pub IsHonestEntry : Fields → Bytes × Entry → Type 0
IsHonestEntry fs (p, e) = (p ≡ join_with dot e.keys) × IsLeaf fs e.keys

-- every entry speaks for a value that is there
pub IsHonest : Tree → Type 0
IsHonest t = All (IsHonestEntry t.fields) t.entries

abbrev pub related : List Bytes → List Bytes → Bool
related dst keys = is_prefix dst keys || is_prefix keys dst

section_of-leaf : (o : Option Value) → is_section o ≡ false → (section_of o).0 ≡ end
unfolding section_of is_section as_mapping
section_of-leaf none h = refl
section_of-leaf (some (mapping m)) h = ground arith
section_of-leaf (some null) h = refl
section_of-leaf (some (str _)) h = refl
section_of-leaf (some (bool _)) h = refl
section_of-leaf (some (int _)) h = refl
section_of-leaf (some (float _)) h = refl
section_of-leaf (some (sequence _)) h = refl

mapping-no-leaf : (m : Fields) (w : Value) → some (mapping m) ≡ some w → as_mapping w ≡ none → ⊥
unfolding as_mapping
mapping-no-leaf m (mapping n) e leaf = cc
mapping-no-leaf m null e leaf = cc
mapping-no-leaf m (str _) e leaf = cc
mapping-no-leaf m (bool _) e leaf = cc
mapping-no-leaf m (int _) e leaf = cc
mapping-no-leaf m (float _) e leaf = cc
mapping-no-leaf m (sequence _) e leaf = cc

section_of-replaced :
    (o : Option Value) (w : Value) → o ≡ some w → as_mapping w ≡ none → (section_of o).1 ≡ true
unfolding section_of as_mapping
section_of-replaced none w e leaf = ground arith
section_of-replaced (some (mapping m)) w e leaf = absurd (mapping-no-leaf m w e leaf)
section_of-replaced (some null) w e leaf = refl
section_of-replaced (some (str _)) w e leaf = refl
section_of-replaced (some (bool _)) w e leaf = refl
section_of-replaced (some (int _)) w e leaf = refl
section_of-replaced (some (float _)) w e leaf = refl
section_of-replaced (some (sequence _)) w e leaf = refl

related-head : (k i : Bytes) (ks is : List Bytes) → related (k ∷ ks) (i ∷ is) ≡ true → k ≡ i
unfolding is_prefix
related-head k i ks is h = ground (arith, eqb_iff k i, eqb_iff i k)

related-tail :
    (k i : Bytes) (ks is : List Bytes) → related (k ∷ ks) (i ∷ is) ≡ true → related ks is ≡ true
unfolding is_prefix
related-tail k i ks is h = ground (arith, eqb_iff k i, eqb_iff i k)

get_in-head :
    (fs : Fields) (k i l : Bytes) (is : List Bytes)
    → k ≡ i
    → get_in fs (i ∷ l ∷ is) ≡ get_in (section_of (get k fs)).0 (l ∷ is)
get_in-head fs k i l is same = rw (sym same, get_in-section_of fs k l is)

set_in-replaced :
    (fs : Fields) (k j : Bytes) (ks : List Bytes) (v : Value)
    → (set_in fs k (j ∷ ks) v).1
      ≡ ((section_of (get k fs)).1 || (set_in (section_of (get k fs)).0 j ks v).1)
unfolding set_in
set_in-replaced fs k j ks v = refl

replaced-tail :
    (fs : Fields) (k j : Bytes) (ks : List Bytes) (v : Value)
    → (set_in fs k (j ∷ ks) v).1 ≡ false
    → ((section_of (get k fs)).1 ≡ false) × ((set_in (section_of (get k fs)).0 j ks v).1 ≡ false)
replaced-tail fs k j ks v kept = ground (arith, set_in-replaced fs k j ks v)

leaf-at :
    (fs : Fields) (k i : Bytes) (w : Value)
    → k ≡ i
    → get_in fs (i ∷ []) ≡ some w
    → as_mapping w ≡ none
    → (section_of (get k fs)).1 ≡ true
unfolding get_in
leaf-at fs k i w same e leaf = section_of-replaced (get k fs) w (rw same e) leaf

below-leaf :
    (fs : Fields) (k i l : Bytes) (is : List Bytes)
    → k ≡ i
    → is_section (get k fs) ≡ false
    → get_in fs (i ∷ l ∷ is) ≡ none
below-leaf fs k i l is same leaf =
    rw (get_in-head fs k i l is same, section_of-leaf (get k fs) leaf, get_in-end l is)

-- Where `set` reports that it replaced nothing, the one leaf it touches is the one at its path.
set_in-related :
    (fs : Fields) (k : Bytes) (ks : List Bytes) (v : Value) (keys : List Bytes)
    → (set_in fs k ks v).1 ≡ false
    → IsLeaf fs keys
    → related (k ∷ ks) keys ≡ true
    → keys ≡ k ∷ ks
unfolding IsLeaf
set_in-related fs k ks v [] kept (w, e, leaf) near =
    absurd (mapping-no-leaf fs w (unfold get_in in e) leaf)
set_in-related fs k [] v (i ∷ []) kept (w, e, leaf) near =
    ap (λ x. x ∷ []) (sym (related-head k i [] [] near))
set_in-related fs k [] v (i ∷ l ∷ is) kept (w, e, leaf) near =
    let gone = below-leaf fs k i l is (related-head k i [] (l ∷ is) near) (unfold set_in in kept) in
    cc
set_in-related fs k (j ∷ ks) v (i ∷ []) kept (w, e, leaf) near =
    let gone = leaf-at fs k i w (related-head k i (j ∷ ks) [] near) e leaf in
    let held = (replaced-tail fs k j ks v kept).0 in cc
set_in-related fs k (j ∷ ks) v (i ∷ l ∷ is) kept (w, e, leaf) near =
    let same = related-head k i (j ∷ ks) (l ∷ is) near in
    let rest =
      set_in-related (section_of (get k fs)).0 j ks v (l ∷ is) (replaced-tail fs k j ks v kept).1
        (w, sym (get_in-head fs k i l is same) ∙ e, leaf)
        (related-tail k i (j ∷ ks) (l ∷ is) near) in
    rw (same, rest)

-- mergeValue at a value that is no mapping, with every entry held against the path
pub merge_eagerly : Origin → List Bytes → Value → Tree → Tree
merge_eagerly o dst v t = record {
  fields = (set t.fields dst v).0;
  entries =
      (join_with dot dst, record { origin = o; keys = dst })
      ∷ without (join_with dot dst) (drop_related dst t.entries);
}

without-drop_related :
    (dst : List Bytes) (es : List (Bytes × Entry))
    → All (λ (p, e). related dst e.keys ≡ true → p ≡ join_with dot dst) es
    → without (join_with dot dst) (drop_related dst es) ≡ without (join_with dot dst) es
unfolding without drop_related
without-drop_related dst [] h = refl
without-drop_related dst ((p, e) ∷ es) (own, rest) =
    let ih = without-drop_related dst es rest in
    elim (Bool-cases (related dst e.keys)) [
      | inl near ↦ rw (near, (eqb_iff p (join_with dot dst)).1 (own near)) ih
      | inr far ↦ rw (far, ih)
    ]

owned :
    (fs : Fields) (k : Bytes) (ks : List Bytes) (v : Value) (es : List (Bytes × Entry))
    → (set_in fs k ks v).1 ≡ false
    → All (IsHonestEntry fs) es
    → All (λ (p, e). related (k ∷ ks) e.keys ≡ true → p ≡ join_with dot (k ∷ ks)) es
unfolding IsHonestEntry
owned fs k ks v [] kept honest = tt
owned fs k ks v ((p, e) ∷ es) kept ((named, leaf), honest) = (
  λ near. named ∙ ap (join_with dot) (set_in-related fs k ks v e.keys kept leaf near),
  owned fs k ks v es kept honest,
)

-- The entries that merging a leaf drops only where it replaced something are the same as those that it
-- would drop by holding every entry against the path, in a tree whose entries speak for values in it.
pub merge_leaf-merge_eagerly :
    (o : Origin) (dst : List Bytes) (v : Value) (t : Tree)
    → IsHonest t
    → merge_leaf o dst v t ≡ merge_eagerly o dst v t
unfolding merge_leaf merge_eagerly set IsHonest
merge_leaf-merge_eagerly o [] v t honest = refl
merge_leaf-merge_eagerly o (k ∷ ks) v t honest = elim (Bool-cases (set_in t.fields k ks v).1) [
  | inl replaced ↦ rw replaced
  | inr kept ↦
      rw (
        kept,
        without-drop_related (k ∷ ks) t.entries (owned t.fields k ks v t.entries kept honest),
      )
]

All-without :
    (Q : Bytes × Entry → Type 0) (path : Bytes) (es : List (Bytes × Entry))
    → All Q es
    → All Q (without path es)
unfolding without
All-without Q path [] h = tt
All-without Q path ((p, e) ∷ es) (here, rest) = elim (Bool-cases (eqb p path)) [
  | inl same ↦ rw same (All-without Q path es rest)
  | inr other ↦ rw other (here, All-without Q path es rest)
]

honest_after :
    (fs : Fields) (k : Bytes) (ks : List Bytes) (v : Value) (es : List (Bytes × Entry))
    → All (IsHonestEntry fs) es
    → All (IsHonestEntry (set_in fs k ks v).0) (drop_related (k ∷ ks) es)
unfolding drop_related IsHonestEntry IsLeaf
honest_after fs k ks v [] h = tt
honest_after fs k ks v ((p, e) ∷ es) ((named, (w, there, leaf)), rest) =
    elim (Bool-cases (related (k ∷ ks) e.keys)) [
      | inl near ↦ rw near (honest_after fs k ks v es rest)
      | inr far ↦ rw far (
        (named, (w, get_in-set_in-Apart fs k ks v e.keys (ground arith) ∙ there, leaf)),
        honest_after fs k ks v es rest,
      )
    ]

IsHonest-merge_eagerly :
    (o : Origin) (k : Bytes) (ks : List Bytes) (v : Value) (t : Tree)
    → as_mapping v ≡ none
    → IsHonest t
    → IsHonest (merge_eagerly o (k ∷ ks) v t)
unfolding IsHonest merge_eagerly set IsHonestEntry IsLeaf
IsHonest-merge_eagerly o k ks v t leaf honest = (
  (refl, (v, get_in-set_in t.fields k ks v, leaf)),
  All-without _ (join_with dot (k ∷ ks)) (drop_related (k ∷ ks) t.entries)
      (honest_after t.fields k ks v t.entries honest),
)

pub IsHonest-merge_leaf :
    (o : Origin) (dst : List Bytes) (v : Value) (t : Tree)
    → dst ≢ []
    → as_mapping v ≡ none
    → IsHonest t
    → IsHonest (merge_leaf o dst v t)
IsHonest-merge_leaf o [] v t some_key leaf honest = absurd (some_key refl)
IsHonest-merge_leaf o (k ∷ ks) v t some_key leaf honest =
    rw (merge_leaf-merge_eagerly o (k ∷ ks) v t honest)
      (IsHonest-merge_eagerly o k ks v t leaf honest)

pub IsHonest-new_tree : IsHonest new_tree
unfolding IsHonest new_tree
IsHonest-new_tree = tt
