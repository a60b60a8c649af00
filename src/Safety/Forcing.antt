-- ===== src/Safety/Forcing.antt =====
-- What --force changes: it names what it lets through, and lets everything through.
use clusterctl.Prelude.{
  Bool, true, false, none, some, List, [], ◌∷◌, Bytes, Result, ok, err, Result-cases, ◌≡◌, ◌⊎◌, ◌↔◌,
  inl, inr, refl, sym, ◌∙◌, arith, Bool-cases, Option-cases,
}
use mathlib.Core.Option.{some-injective}
use clusterctl.NodeSet.{NodeSets, Contains, Laws}
use clusterctl.Safety.{
  Gate, protected, protected_in, Action, check, check_targets, Forced, unresolved, protected_hosts,
  unknown_hosts, Refusal, no_hosts, not_resolved, touches_protected, touches_unknown,
}

module _ (n : NodeSets) where
  open n use {NodeSet, empty, contains, is_empty, difference}

  abbrev pub with_force : Gate n → Bool → Gate n
  with_force g b = record g { force = b }

  abbrev pub NoTargets : Action n → Type 0
  NoTargets a =
      (a.targets ≡ none)
      ⊎ ((targets : NodeSet) × (a.targets ≡ some targets) × (is_empty targets ≡ true))

  forced_targets_refuse :
      (g : Gate n) (not_nodes : Bool) (targets : NodeSet) (r : Refusal n)
      → (check_targets n (with_force g true) not_nodes targets ≡ err r)
        ↔ ((r ≡ no_hosts) × (is_empty targets ≡ true))
  unfolding check_targets
  forced_targets_refuse g not_nodes targets r = ground arith

  -- A forced gate refuses an action exactly when no host was selected for it, and says so.
  pub forced-refuses_iff :
      (g : Gate n) (a : Action n) (r : Refusal n)
      → (check n (with_force g true) a ≡ err r) ↔ ((r ≡ no_hosts) × NoTargets a)
  unfolding check
  forced-refuses_iff g a r = elim (Option-cases a.targets) [
    | inl e ↦ ground arith
    | inr (targets, e) ↦
        let iff = forced_targets_refuse g a.not_nodes targets r in
        (
          λ h. let h' = iff.0 (rw (e, check) at h) in (h'.0, inr (targets, e, h'.1)),
          λ h. rw (e, check) (iff.1 (h.0, selected_none targets e h.1)),
        )
  ]
    where
      selected_none :
          (targets : NodeSet) → a.targets ≡ some targets → NoTargets a → is_empty targets ≡ true
      selected_none targets e (inl p) = cc
      selected_none targets e (inr (t, p, q)) =
          let same : t ≡ targets = some-injective _ _ (sym p ∙ e) in rw (← same) q

  protected_in-force :
      (g : Gate n) (b : Bool) (targets : NodeSet)
      → protected_in n (with_force g b) targets ≡ protected_in n g targets
  unfolding protected_in protected
  protected_in-force g b targets = refl

  -- the refusal that a sentence stands in for
  abbrev pub refusal_for : Forced n → Refusal n
  refusal_for (unresolved u) = not_resolved u
  refusal_for (protected_hosts hit) = touches_protected hit
  refusal_for (unknown_hosts unknown) = touches_unknown unknown

  -- what force lets through, beside the outcome without force: nothing where that passes, and first of all
  -- the reason of the refusal where it refuses
  abbrev pub Tells : List (Forced n) → Result (Refusal n) (List (Forced n)) → Type 0
  Tells [] (ok silent) = silent ≡ []
  Tells (line ∷ rest) (ok silent) = ⊥
  Tells [] (err r) = ⊥
  Tells (line ∷ rest) (err r) = refusal_for line ≡ r

  forced_targets :
      (g : Gate n) (not_nodes : Bool) (targets : NodeSet)
      → is_empty targets ≡ false
      → (forced : List (Forced n)) × (check_targets n (with_force g true) not_nodes targets
          ≡ ok forced)
  forced_targets g not_nodes targets some_ =
      elim (Result-cases (check_targets n (with_force g true) not_nodes targets)) [
        | inl passes ↦ passes
        | inr (r, refused) ↦ absurd (cc ((forced_targets_refuse g not_nodes targets r).0 refused).1)
      ]

  forced-Tells :
      (g : Gate n) (not_nodes : Bool) (targets : NodeSet) (forced : List (Forced n))
      → is_empty targets ≡ false
      → check_targets n (with_force g true) not_nodes targets ≡ ok forced
      → Tells forced (check_targets n (with_force g false) not_nodes targets)
  unfolding check_targets
  forced-Tells g not_nodes targets forced some_ e =
      ground (arith, protected_in-force g true targets, protected_in-force g false targets)

  -- A forced gate lets every action on hosts through, and says what it would have refused: without force
  -- the same action either passes, and then neither gate says anything, or it is refused, and then the first
  -- sentence of the forced gate is the one for that refusal, about the same hosts or the same entry.
  pub forced-reports :
      (g : Gate n) (a : Action n) (targets : NodeSet)
      → a.targets ≡ some targets
      → is_empty targets ≡ false
      → (forced : List (Forced n)) × (check n (with_force g true) a ≡ ok forced)
        × Tells forced (check n (with_force g false) a)
  unfolding check
  forced-reports g a targets e some_ =
      let (forced, passes) = forced_targets g a.not_nodes targets some_ in
      (
        forced,
        rw (e, check) passes,
        rw (e, check) (forced-Tells g a.not_nodes targets forced some_ passes),
      )

  module _ (laws : Laws n) where
    not_unknown :
        (targets known hit : NodeSet) (t : Bytes)
        → is_empty hit ≡ true
        → is_empty (difference (difference targets known) hit) ≡ true
        → Contains n targets t
        → Contains n known t
    not_unknown targets known hit t eh eu c = elim (Bool-cases (contains known t)) [
      | inl q ↦ q
      | inr q ↦
          let left = (laws.contains-difference targets known t).1 (c, q) in
          let out = (laws.is_empty_iff hit).0 eh t in
          cc (
            (laws.contains-difference (difference targets known) hit t).1 (left, out),
            (laws.is_empty_iff (difference (difference targets known) hit)).0 eu t,
          )
    ]

    -- Without force every target of an action on nodes is known to the inventory, where there is one.
    pub check-known_lem :
        (g : Gate n) (a : Action n) (forced : List (Forced n)) (targets known : NodeSet) (t : Bytes)
        → g.force ≡ false
        → a.not_nodes ≡ false
        → a.targets ≡ some targets
        → g.known ≡ some known
        → check n g a ≡ ok forced
        → Contains n targets t
        → Contains n known t
    unfolding check check_targets
    check-known_lem g a forced targets known t f nn e k h c =
        elim (Result-cases (protected_in n g targets)) [
          | inl (hit, p) ↦ not_unknown targets known hit t (ground arith) (ground arith) c
          | inr (u, p) ↦ ground arith
        ]
