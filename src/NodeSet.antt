-- ===== src/NodeSet.antt =====
-- github.com/GSI-HPC/go-nodeset, which the program calls and does not hold: a set of host names.
-- `Laws` has what the program relies on.
use clusterctl.Prelude.{
  ℕ, Bool, true, false, List, Bytes, Result, ok, ◌≡◌, ◌↔◌, ◌⊎◌, All, Exists, to_lower,
}
use clusterctl.Naming.{short}
use clusterctl.ExitCode.{Error}

pub record NodeSets : Type 1 where
  pub NodeSet : Type 0
  -- New
  pub empty : NodeSet
  -- Parse
  pub parse : Bytes → Result Error NodeSet
  pub union : NodeSet → NodeSet → NodeSet
  pub intersection : NodeSet → NodeSet → NodeSet
  pub difference : NodeSet → NodeSet → NodeSet
  -- Add, which refuses what is no host name
  pub add : NodeSet → Bytes → Result Error NodeSet
  pub contains : NodeSet → Bytes → Bool
  pub is_empty : NodeSet → Bool
  pub len : NodeSet → ℕ
  -- Expand, the names one by one
  pub expand : NodeSet → List Bytes
  -- String, the folded form
  pub folded : NodeSet → Bytes
  -- Hostlist, the form that other programs take
  pub hostlist : NodeSet → Bytes

module _ (n : NodeSets) where
  open n use {NodeSet, empty, union, intersection, difference, add, contains, is_empty, expand}

  abbrev pub Contains : NodeSet → Bytes → Type 0
  Contains s x = contains s x ≡ true

  -- What the program relies on. `IsName` holds of a text that `Add` takes as one name and does not
  -- read as an expression.
  pub record Laws : Type 1 where
    pub IsName : Bytes → Type 0
    pub contains-empty : (x : Bytes) → contains empty x ≡ false
    pub contains-union :
        (s t : NodeSet) (x : Bytes) → Contains (union s t) x ↔ (Contains s x ⊎ Contains t x)
    pub contains-intersection :
        (s t : NodeSet) (x : Bytes) → Contains (intersection s t) x ↔ (Contains s x × Contains t x)
    pub contains-difference :
        (s t : NodeSet) (x : Bytes)
        → Contains (difference s t) x ↔ (Contains s x × (contains t x ≡ false))
    pub is_empty_iff : (s : NodeSet) → (is_empty s ≡ true) ↔ ((x : Bytes) → contains s x ≡ false)
    pub expand_iff : (s : NodeSet) (x : Bytes) → Contains s x ↔ Exists (λ y. y ≡ x) (expand s)
    pub expand_names : (s : NodeSet) → All IsName (expand s)
    pub add_name :
        (s : NodeSet) (x : Bytes)
        → IsName x
        → (t : NodeSet) × (add s x ≡ ok t) × ((y : Bytes) → Contains t y ↔ (Contains s y ⊎ (x ≡ y)))
    -- The short name of a name, in lower case, is a name.
    pub short_name : (x : Bytes) → IsName x → IsName (to_lower (short x))
