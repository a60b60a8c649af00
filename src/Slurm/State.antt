-- ===== src/Slurm/State.antt =====
-- The states of a node: BaseState, noReason, the state groups and the filter of `Nodes`.
use clusterctl.Prelude.{
  Bool, true, Option, none, some, List, [], ◌∷◌, ◌++◌, Bytes, codes, lookup, before, split_on,
  to_lower, trim_space, trim_right_of, is_one_of,
}

-- Node
pub record Node : Type 0 where
  pub name : Bytes
  pub state : Bytes
  pub partition : Bytes
  pub cpus : Bytes
  pub memory : Bytes
  pub features : Bytes
  pub gres : Bytes
  pub reason : Bytes
  pub reason_user : Bytes
  pub reason_time : Bytes

abbrev pub state_flags : Bytes
state_flags = codes "*~#!%$@^-"

-- BaseState
unfoldable pub base_state : Node → Bytes
unfolding before to_lower trim_right_of
base_state n = trim_right_of state_flags (before b'+' (to_lower n.state))

-- noReason
unfoldable pub no_reason : Bytes → Bool
unfolding to_lower trim_space
no_reason reason =
    is_one_of ([] ∷ codes "none" ∷ codes "(null)" ∷ []) (to_lower (trim_space reason))

-- StateGroups
abbrev pub state_groups : List (Bytes × List Bytes)
state_groups =
    (
      codes "alloc",
      codes "alloc"
          ∷ codes "allocated"
          ∷ codes "mix"
          ∷ codes "mixed"
          ∷ codes "comp"
          ∷ codes "completing"
          ∷ [],
    )
    ∷ (codes "idle", codes "idle" ∷ [])
    ∷ (codes "drain", codes "drain" ∷ codes "draining" ∷ codes "drained" ∷ [])
    ∷ (codes "down", codes "down" ∷ codes "unk" ∷ codes "unknown" ∷ [])
    ∷ (
      codes "defect",
      codes "drain"
          ∷ codes "draining"
          ∷ codes "drained"
          ∷ codes "down"
          ∷ codes "fail"
          ∷ codes "failing"
          ∷ [],
    )
    ∷ []

-- reported
abbrev pub reported : List (Bytes × List Bytes)
reported =
    (codes "alloc", codes "allocated" ∷ [])
    ∷ (codes "allocated", codes "allocated" ∷ [])
    ∷ (codes "mix", codes "mixed" ∷ [])
    ∷ (codes "mixed", codes "mixed" ∷ [])
    ∷ (codes "comp", codes "completing" ∷ [])
    ∷ (codes "completing", codes "completing" ∷ [])
    ∷ (codes "idle", codes "idle" ∷ [])
    ∷ (codes "drain", codes "draining" ∷ codes "drained" ∷ [])
    ∷ (codes "draining", codes "draining" ∷ [])
    ∷ (codes "drained", codes "drained" ∷ [])
    ∷ (codes "down", codes "down" ∷ [])
    ∷ (codes "unk", codes "unknown" ∷ [])
    ∷ (codes "unknown", codes "unknown" ∷ [])
    ∷ (codes "fail", codes "fail" ∷ [])
    ∷ (codes "failing", codes "failing" ∷ [])
    ∷ (codes "resv", codes "reserved" ∷ [])
    ∷ (codes "reserved", codes "reserved" ∷ [])
    ∷ (codes "futr", codes "future" ∷ [])
    ∷ (codes "future", codes "future" ∷ [])
    ∷ (codes "planned", codes "planned" ∷ [])
    ∷ (codes "inval", codes "inval" ∷ [])
    ∷ []

-- the loop of `stateFilter`: the base states to keep; none where a state names a flag
unfoldable pub wanted : List Bytes → Option (List Bytes)
unfolding lookup to_lower trim_space
wanted [] = some []
wanted (s ∷ ss) =
    let rest = wanted ss in
    elim (lookup (to_lower (trim_space s)) reported) as (λ _. Option (List Bytes)) [
      | none ↦ none
      | some bases ↦ elim rest as (λ _. Option (List Bytes)) [
        | none ↦ none
        | some more ↦ some (bases ++ more)
      ]
    ]

abbrev pub keeps : Option (List Bytes) → Node → Bool
keeps none n = true
keeps (some []) n = true
keeps (some (w ∷ ws)) n = is_one_of (w ∷ ws) (base_state n)

-- stateFilter
unfoldable pub state_filter : List Bytes → Node → Bool
unfolding wanted base_state
state_filter states n = keeps (wanted states) n

-- States
unfoldable pub states : Bytes → List Bytes
unfolding lookup to_lower split_on
states [] = []
states (c ∷ arg) = elim (lookup (to_lower (c ∷ arg)) state_groups) [
  | some group ↦ group
  | none ↦ split_on b',' (c ∷ arg)
]
