-- ===== src/Config/Merging.antt =====
-- What `set` of internal/config/merge.go writes and what it leaves alone.
use clusterctl.Prelude.{
  true, false, Option, none, some, List, [], ◌∷◌, Bytes, eqb, eqb_iff, eqb_refl, Bool-cases, ◌≡◌,
  refl, sym, arith, inl, inr,
}
use clusterctl.Config.Value.{
  Value, null, str, bool, int, float, sequence, Fields, mapping, end, get, put, get-put, as_mapping,
}
use clusterctl.Config.Tree.{get_in, section_of, set_in, is_prefix}

-- neither path begins with the other
abbrev pub Apart : List Bytes → List Bytes → Type 0
Apart a b = (is_prefix a b ≡ false) × (is_prefix b a ≡ false)

pub get_in-end : (j : Bytes) (ks : List Bytes) → get_in end (j ∷ ks) ≡ none
unfolding get_in get
get_in-end j [] = refl
get_in-end j (k ∷ ks) = refl

inside-section_of :
    (o : Option Value) (j : Bytes) (ks : List Bytes)
    → (elim o as (λ _. Option Value) [
      | none ↦ none
      | some v ↦ elim (as_mapping v) as (λ _. Option Value) [
        | none ↦ none
        | some m ↦ get_in m (j ∷ ks)
      ]
    ])
      ≡ get_in (section_of o).0 (j ∷ ks)
unfolding section_of as_mapping
inside-section_of none j ks = sym (get_in-end j ks)
inside-section_of (some (mapping m)) j ks = refl
inside-section_of (some null) j ks = sym (get_in-end j ks)
inside-section_of (some (str _)) j ks = sym (get_in-end j ks)
inside-section_of (some (bool _)) j ks = sym (get_in-end j ks)
inside-section_of (some (int _)) j ks = sym (get_in-end j ks)
inside-section_of (some (float _)) j ks = sym (get_in-end j ks)
inside-section_of (some (sequence _)) j ks = sym (get_in-end j ks)

pub get_in-section_of :
    (fs : Fields) (k j : Bytes) (ks : List Bytes)
    → get_in fs (k ∷ j ∷ ks) ≡ get_in (section_of (get k fs)).0 (j ∷ ks)
unfolding get_in
get_in-section_of fs k j ks = inside-section_of (get k fs) j ks

get_in-put_eq : (fs : Fields) (k : Bytes) (v : Value) → get_in (put k v fs) (k ∷ []) ≡ some v
unfolding get_in
get_in-put_eq fs k v = rw (get-put k k v fs, eqb_refl k)

get_in-put_mapping :
    (fs m : Fields) (k j : Bytes) (ks : List Bytes)
    → get_in (put k (mapping m) fs) (k ∷ j ∷ ks) ≡ get_in m (j ∷ ks)
unfolding get_in as_mapping
get_in-put_mapping fs m k j ks = rw (get_in, get-put k k (mapping m) fs, eqb_refl k)

get_in-put_ne :
    (fs : Fields) (k i : Bytes) (js : List Bytes) (v : Value)
    → eqb k i ≡ false
    → get_in (put k v fs) (i ∷ js) ≡ get_in fs (i ∷ js)
unfolding get_in
get_in-put_ne fs k i [] v other = rw (get-put k i v fs, other)
get_in-put_ne fs k i (j ∷ js) v other = rw (get_in, get-put k i v fs, other)

set_in-cons :
    (fs : Fields) (k j : Bytes) (ks : List Bytes) (v : Value)
    → (set_in fs k (j ∷ ks) v).0 ≡ put k (mapping (set_in (section_of (get k fs)).0 j ks v).0) fs
unfolding set_in
set_in-cons fs k j ks v = refl

pub get_in-set_in :
    (fs : Fields) (k : Bytes) (ks : List Bytes) (v : Value)
    → get_in (set_in fs k ks v).0 (k ∷ ks) ≡ some v
get_in-set_in fs k [] v = unfold set_in in get_in-put_eq fs k v
get_in-set_in fs k (j ∷ ks) v = rw (
  set_in-cons fs k j ks v,
  get_in-put_mapping fs (set_in (section_of (get k fs)).0 j ks v).0 k j ks,
  get_in-set_in (section_of (get k fs)).0 j ks v,
)

Apart-head :
    (k i : Bytes) (js is : List Bytes) → eqb k i ≡ true → Apart (k ∷ js) (i ∷ is) → Apart js is
unfolding is_prefix
Apart-head k i js is same (p, q) = ground (arith, eqb_iff k i, eqb_iff i k)

Apart-nil : (k i : Bytes) (js : List Bytes) → eqb k i ≡ true → Apart (k ∷ js) (i ∷ []) → ⊥
unfolding is_prefix
Apart-nil k i js same (p, q) = ground (arith, eqb_iff k i, eqb_iff i k)

get_in-set_in_same :
    (fs : Fields) (k j i : Bytes) (ks js : List Bytes) (v : Value)
    → ((ls : List Bytes)
        → Apart (j ∷ ks) ls
        → get_in (set_in (section_of (get k fs)).0 j ks v).0 ls
          ≡ get_in (section_of (get k fs)).0 ls)
    → eqb k i ≡ true
    → Apart (k ∷ j ∷ ks) (i ∷ js)
    → get_in (set_in fs k (j ∷ ks) v).0 (i ∷ js) ≡ get_in fs (i ∷ js)
get_in-set_in_same fs k j i ks [] v kept same far = absurd (Apart-nil k i (j ∷ ks) same far)
get_in-set_in_same fs k j i ks (l ∷ js) v kept same far = rw (
  sym ((eqb_iff k i).0 same),
  set_in-cons fs k j ks v,
  get_in-put_mapping fs (set_in (section_of (get k fs)).0 j ks v).0 k l js,
  get_in-section_of fs k l js,
  kept (l ∷ js) (Apart-head k i (j ∷ ks) (l ∷ js) same far),
)

-- a path apart from the one set holds what it held
pub get_in-set_in-Apart :
    (fs : Fields) (k : Bytes) (ks : List Bytes) (v : Value) (keys : List Bytes)
    → Apart (k ∷ ks) keys
    → get_in (set_in fs k ks v).0 keys ≡ get_in fs keys
get_in-set_in-Apart fs k ks v [] (p, q) = unfold is_prefix in ground arith
get_in-set_in-Apart fs k [] v (i ∷ is) (p, q) =
    unfold set_in in get_in-put_ne fs k i is v (unfold is_prefix in ground arith)
get_in-set_in-Apart fs k (j ∷ ks) v (i ∷ is) far = elim (Bool-cases (eqb k i)) [
  | inl same ↦
      get_in-set_in_same fs k j i ks is v (get_in-set_in-Apart (section_of (get k fs)).0 j ks v)
        same far
  | inr other ↦ rw (
    set_in-cons fs k j ks v,
    get_in-put_ne fs k i is (mapping (set_in (section_of (get k fs)).0 j ks v).0) other,
  )
]
