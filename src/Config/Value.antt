-- ===== src/Config/Value.antt =====
-- The values of a configuration document. A Go map is a list of its fields in the order of their keys,
-- which is the order the program goes through one in; `put` keeps that order.
use clusterctl.Prelude.{
  Bool, true, false, Option, none, some, [], ◌∷◌, Bytes, ltb, ◌==◌, eqb, eqb_iff, if◌then◌else◌, ℤ,
  ◌≡◌, refl, arith,
}

mutual
  pub data Value : Type 0 where
    null : Value
    str : Bytes → Value
    bool : Bool → Value
    int : ℤ → Value
    -- a float64, by its shortest text
    float : Bytes → Value
    sequence : Values → Value
    mapping : Fields → Value

  pub data Values : Type 0 where
    nil : Values
    cons : Value → Values → Values

  pub data Fields : Type 0 where
    end : Fields
    field : Bytes → Value → Fields → Fields

-- the order of Go's strings
unfoldable pub lt_bytes : Bytes → Bytes → Bool
lt_bytes s [] = false
lt_bytes [] (b ∷ t) = true
lt_bytes (a ∷ s) (b ∷ t) = let rest = lt_bytes s t in if a == b then rest else ltb a b

-- m[k]
unfoldable pub get : Bytes → Fields → Option Value
get k end = none
get k (field j v fs) = if eqb j k then some v else get k fs

-- m[k] = v
unfoldable pub put : Bytes → Value → Fields → Fields
unfolding lt_bytes
put k v end = field k v end
put k v (field j w fs) =
    let rest = put k v fs in
    if eqb j k
    then field k v fs
    else if lt_bytes k j
    then field k v (field j w fs)
    else field j w rest

pub get-put :
    (k j : Bytes) (v : Value) (fs : Fields)
    → get j (put k v fs) ≡ (if eqb k j then some v else get j fs)
unfolding get put
get-put k j v end = refl
get-put k j v (field i w fs) =
    ground (arith, eqb_iff k j, eqb_iff i k, eqb_iff i j, get-put k j v fs)

-- `value.(map[string]any)`
unfoldable pub as_mapping : Value → Option Fields
as_mapping (mapping fs) = some fs
as_mapping _ = none

unfoldable pub is_section : Option Value → Bool
unfolding as_mapping
is_section none = false
is_section (some v) = elim (as_mapping v) [ none ↦ false | some _ ↦ true ]
