-- ===== src/Safety.antt =====
-- internal/safety/safety.go: the gate before every command that changes or destroys something.
-- The node sets, the resolution of an entry and the yes of a prompt come from other packages and are
-- parameters. The progress span of `Confirm` is left out: it shows the outcome and does not change it.
pub mod Answer
pub mod Effect
pub mod Protection
pub mod Forcing
pub mod Confirming
use clusterctl.Prelude.{
  ℕ, ◌+◌, Bool, true, false, not, ◌&&◌, ◌||◌, Option, none, some, List, [], ◌∷◌, ◌++◌, Bytes,
  Result, ok, err, ◌>>=◌, to_lower, ltb, leb, ◌==◌, codes, if◌then◌else◌, ℤ, pos, negsuc,
}
use clusterctl.ExitCode.{Error, Cause, default, usage}
use clusterctl.ExitCode
use clusterctl.Hostname.{is_ip}
use clusterctl.Naming.{short}
use clusterctl.NodeSet.{NodeSets}

-- v1alpha1.SafetySpec
pub record Spec : Type 0 where
  pub protected_hosts : List Bytes
  pub confirm_above : ℤ
  pub power_on_batch : ℤ

pub data SpecFault : Type 0 where
  bad_confirm_above bad_power_on_batch : ℤ → SpecFault

abbrev pub at_least_one : ℤ → Bool
at_least_one (pos n) = leb 1 n
at_least_one (negsuc n) = false

module _ (n : NodeSets) where
  open n use {
    NodeSet, empty, parse, union, intersection, difference, add, contains, is_empty, len, expand,
    folded,
  }

  -- Gate, without the terminal and the context, which the calls that use them are given
  pub record Gate : Type 0 where
    pub protected_hosts : List Bytes
    pub resolve : Bytes → Result Error NodeSet
    pub known : Option NodeSet
    pub confirm_above : ℕ
    pub assume_yes : Bool
    pub force : Bool
    pub dry_run : Bool
    pub interactive : Bool

  -- NewGate; a nil resolve is `none`
  unfoldable pub new_gate : Spec → Option (Bytes → Result Error NodeSet) → Result SpecFault Gate
  new_gate spec resolve = elim spec.confirm_above [
    | negsuc k ↦ err (bad_confirm_above (negsuc k))
    | pos above ↦
        if at_least_one spec.power_on_batch
        then ok (record {
          protected_hosts = spec.protected_hosts;
          resolve = elim resolve [ none ↦ parse | some f ↦ f ];
          known = none;
          confirm_above = above;
          assume_yes = false;
          force = false;
          dry_run = false;
          interactive = false;
        })
        else err (bad_power_on_batch spec.power_on_batch)
  ]

  -- what `Protected` keeps: the protected hosts and their short names
  pub record Guarded : Type 0 where
    pub hosts : NodeSet
    pub shorts : NodeSet

  -- an entry that cannot be resolved: its index, its text and why
  pub record Unresolved : Type 0 where
    pub index : ℕ
    pub entry : Bytes
    pub cause : Error

  -- `_ = s.Add(name)`: a name that is refused is left out
  unfoldable pub add_or_skip : NodeSet → Bytes → NodeSet
  add_or_skip s name = elim (add s name) [ ok t ↦ t | err _ ↦ s ]

  -- the loop over the entries of `Protected`
  unfoldable pub resolve_all :
      (Bytes → Result Error NodeSet) → ℕ → List Bytes → NodeSet → Result Unresolved NodeSet
  resolve_all resolve i [] hosts = ok hosts
  resolve_all resolve i (expr ∷ exprs) hosts = elim (resolve expr) [
    | err e ↦ err (record { index = i; entry = expr; cause = e })
    | ok ns ↦ resolve_all resolve (i + 1) exprs (union hosts ns)
  ]

  -- the loop over the names of the protected hosts
  unfoldable pub add_shorts : List Bytes → NodeSet → NodeSet
  unfolding add_or_skip
  add_shorts [] shorts = shorts
  add_shorts (name ∷ names) shorts =
      add_shorts names (if is_ip name then shorts else add_or_skip shorts (to_lower (short name)))

  -- Protected
  unfoldable pub protected : Gate → Result Unresolved Guarded
  unfolding resolve_all add_shorts
  protected g = do
    hosts ← resolve_all g.resolve 0 g.protected_hosts empty
    ok (record { hosts = hosts; shorts = add_shorts (expand hosts) empty })

  -- the loop over the other targets of `ProtectedIn`
  unfoldable pub add_hits : NodeSet → List Bytes → NodeSet → NodeSet
  unfolding add_or_skip
  add_hits shorts [] hit = hit
  add_hits shorts (name ∷ names) hit = add_hits shorts names (
      if is_ip name
      then hit
      else if contains shorts (to_lower (short name))
      then add_or_skip hit name
      else hit)

  -- ProtectedIn
  unfoldable pub protected_in : Gate → NodeSet → Result Unresolved NodeSet
  unfolding add_hits
  protected_in g targets = do
    guarded ← protected g
    let hit = intersection targets guarded.hosts
    if is_empty guarded.hosts
        then ok hit
        else ok (add_hits guarded.shorts (expand (difference targets hit)) hit)

  -- Action; nil targets are `none`
  pub record Action : Type 0 where
    pub verb : Bytes
    pub targets : Option NodeSet
    pub detail : Bytes
    pub not_nodes : Bool

  -- what --force let through, one for each sentence
  pub data Forced : Type 0 where
    unresolved : Unresolved → Forced
    protected_hosts : NodeSet → Forced
    unknown_hosts : NodeSet → Forced

  -- why an action is refused
  pub data Refusal : Type 0 where
    no_hosts : Refusal
    not_resolved : Unresolved → Refusal
    touches_protected : NodeSet → Refusal
    touches_unknown : NodeSet → Refusal

  -- goes on with one more sentence when the gate is forced, and refuses otherwise
  unfoldable pub let_through : Gate → Refusal → Forced → List Forced → Result Refusal (List Forced)
  let_through g refusal line forced = if g.force then ok (forced ++ line ∷ []) else err refusal

  -- the part of `check` about protected hosts that cannot be worked out
  unfoldable pub check_resolved : Gate → NodeSet → Result Refusal (NodeSet × List Forced)
  unfolding let_through
  check_resolved g targets = elim (protected_in g targets) [
    | ok hit ↦ ok (hit, [])
    | err u ↦ do forced ← let_through g (not_resolved u) (unresolved u) []; ok (empty, forced)
  ]

  -- the part of `check` about protected hosts among the targets
  unfoldable pub check_hit : Gate → NodeSet → List Forced → Result Refusal (List Forced)
  unfolding let_through
  check_hit g hit forced =
      if is_empty hit
      then ok forced
      else let_through g (touches_protected hit) (protected_hosts hit) forced

  -- the part of `check` about hosts that the inventory does not know
  unfoldable pub check_known :
      Gate → Bool → NodeSet → NodeSet → List Forced → Result Refusal (List Forced)
  unfolding let_through
  check_known g not_nodes targets hit forced = elim g.known [
    | none ↦ ok forced
    | some known ↦
        let unknown = difference (difference targets known) hit in
        if not_nodes || is_empty unknown
        then ok forced
        else let_through g (touches_unknown unknown) (unknown_hosts unknown) forced
  ]

  unfoldable pub check_targets : Gate → Bool → NodeSet → Result Refusal (List Forced)
  unfolding check_resolved check_hit check_known
  check_targets g not_nodes targets = if is_empty targets then err no_hosts else do
    (hit, forced) ← check_resolved g targets
    forced' ← check_hit g hit forced
    check_known g not_nodes targets hit forced'

  -- check
  unfoldable pub check : Gate → Action → Result Refusal (List Forced)
  check g a = elim a.targets [
    | none ↦ err no_hosts
    | some targets ↦ check_targets g a.not_nodes targets
  ]

  -- Preview, the record and the method
  pub record Preview : Type 0 where
    pub verb : Bytes
    pub targets : Bytes
    pub count : ℕ
    pub detail : Bytes
    pub forced : List Forced
    pub count_required : Bool
    pub confirm_above : ℕ

  unfoldable pub describe : Gate → Action → NodeSet → List Forced → Preview
  describe g a targets forced = record {
    verb = a.verb;
    targets = folded targets;
    count = len targets;
    detail = a.detail;
    forced = forced;
    count_required = ltb g.confirm_above (len targets);
    confirm_above = g.confirm_above;
  }

  unfoldable pub preview : Gate → Action → Result Refusal Preview
  unfolding describe check
  preview g a = elim a.targets [
    | none ↦ err no_hosts
    | some targets ↦ do
      forced ← check_targets g a.not_nodes targets
      ok (describe g a targets forced)
  ]

  pub data Question : Type 0 where
    type_count : Question
    type_count_above : ℕ → Question
    yes_or_no : Question

  -- Question
  unfoldable pub question : Preview → Question
  question p =
      if p.count_required && p.confirm_above == 0
      then type_count
      else if p.count_required
      then type_count_above p.confirm_above
      else yes_or_no
