-- ===== src/Safety/Protection.antt =====
-- Without --force the gate lets no action through that touches a protected host.
use clusterctl.Prelude.{
  Bool, true, false, some, List, [], ◌∷◌, Bytes, ok, Result-cases, to_lower, All, Exists, ◌≡◌, ◌≢◌,
  ◌⊎◌, ◌↔◌, inl, inr, refl, arith, Bool-cases, Option-cases, if◌then◌else◌,
}
use clusterctl.Hostname.{is_ip}
use clusterctl.Naming.{short}
use clusterctl.NodeSet.{NodeSets, Contains, Laws}
use clusterctl.Safety.{
  Gate, Guarded, add_or_skip, add_shorts, protected, add_hits, protected_in, Action, check,
  check_targets, Forced,
}

module _ (n : NodeSets) (laws : Laws n) where
  open n use {NodeSet, empty, intersection, difference, contains, is_empty, expand}
  open laws use {
    IsName, contains-intersection, contains-difference, is_empty_iff, expand_iff, expand_names,
    add_name, short_name,
  }

  add_or_skip_iff :
      (s : NodeSet) (x y : Bytes)
      → IsName x
      → Contains n (add_or_skip n s x) y ↔ (Contains n s y ⊎ (x ≡ y))
  unfolding add_or_skip
  add_or_skip_iff s x y h = let (t, e, iff) = add_name s x h in rw (e, add_or_skip) (iff y)

  -- the key that a name is held against the protected hosts by
  abbrev pub key : Bytes → Bytes
  key x = to_lower (short x)

  add_shorts_mono :
      (names : List Bytes) (s : NodeSet) (y : Bytes)
      → All IsName names
      → Contains n s y
      → Contains n (add_shorts n names s) y
  unfolding add_shorts
  add_shorts_mono [] s y h c = c
  add_shorts_mono (x ∷ names) s y (h, hs) c = elim (Bool-cases (is_ip x)) [
    | inl e ↦ rw e (add_shorts_mono names s y hs c)
    | inr e ↦
        rw e
          (add_shorts_mono names _ y hs ((add_or_skip_iff s (key x) y (short_name x h)).1 (inl c)))
  ]

  -- The short name of every protected host that is no address is kept.
  add_shorts-Exists :
      (names : List Bytes) (s : NodeSet) (p : Bytes)
      → All IsName names
      → is_ip p ≡ false
      → Exists (λ x. x ≡ p) names
      → Contains n (add_shorts n names s) (key p)
  unfolding add_shorts
  add_shorts-Exists [] s p h ip m = absurd m
  add_shorts-Exists (x ∷ names) s p (h, hs) ip (inl e) =
      rw (e, ip)
        (add_shorts_mono names _ (key p) hs
          ((add_or_skip_iff s (key p) (key p) (short_name p (rw e at h))).1 (inr refl)))
  add_shorts-Exists (x ∷ names) s p (h, hs) ip (inr m) = add_shorts-Exists names _ p hs ip m

  add_hits_mono :
      (shorts : NodeSet) (names : List Bytes) (hit : NodeSet) (y : Bytes)
      → All IsName names
      → Contains n hit y
      → Contains n (add_hits n shorts names hit) y
  unfolding add_hits
  add_hits_mono shorts [] hit y h c = c
  add_hits_mono shorts (x ∷ names) hit y (h, hs) c = elim (Bool-cases (is_ip x)) [
    | inl e ↦ rw e (add_hits_mono shorts names hit y hs c)
    | inr e ↦ elim (Bool-cases (contains shorts (key x))) [
      | inl f ↦
          rw (e, f) (add_hits_mono shorts names _ y hs ((add_or_skip_iff hit x y h).1 (inl c)))
      | inr f ↦ rw (e, f) (add_hits_mono shorts names hit y hs c)
    ]
  ]

  add_hits-Exists :
      (shorts : NodeSet) (names : List Bytes) (hit : NodeSet) (t : Bytes)
      → All IsName names
      → is_ip t ≡ false
      → Contains n shorts (key t)
      → Exists (λ x. x ≡ t) names
      → Contains n (add_hits n shorts names hit) t
  unfolding add_hits
  add_hits-Exists shorts [] hit t h ip k m = absurd m
  add_hits-Exists shorts (x ∷ names) hit t (h, hs) ip k (inl e) =
      rw (e, ip, k)
        (add_hits_mono shorts names _ t hs ((add_or_skip_iff hit t t (rw e at h)).1 (inr refl)))
  add_hits-Exists shorts (x ∷ names) hit t (h, hs) ip k (inr m) =
      add_hits-Exists shorts names _ t hs ip k m

  -- what `protected` returns
  protected_shorts :
      (g : Gate n) (guarded : Guarded n)
      → protected n g ≡ ok guarded
      → guarded.shorts ≡ add_shorts n (expand guarded.hosts) empty
  unfolding protected
  protected_shorts g guarded h = ground arith

  hit_of : Guarded n → NodeSet → NodeSet
  hit_of guarded targets =
      let hit = intersection targets guarded.hosts in
      if is_empty guarded.hosts
      then hit
      else add_hits n guarded.shorts (expand (difference targets hit)) hit

  protected_in-eq :
      (g : Gate n) (targets hit : NodeSet)
      → protected_in n g targets ≡ ok hit
      → (guarded : Guarded n) × (protected n g ≡ ok guarded) × (hit ≡ hit_of guarded targets)
  unfolding protected_in hit_of
  protected_in-eq g targets hit h = elim (Result-cases (protected n g)) [
    | inl (guarded, e) ↦ (guarded, e, ground arith)
    | inr (u, e) ↦ ground arith
  ]

  nonempty_of : (s : NodeSet) (x : Bytes) → Contains n s x → is_empty s ≡ false
  nonempty_of s x c = elim (Bool-cases (is_empty s)) [
    | inl e ↦ cc (c, (is_empty_iff s).0 e x)
    | inr e ↦ e
  ]

  -- A target that is a protected host is a hit.
  hit_of-protected :
      (guarded : Guarded n) (targets : NodeSet) (t : Bytes)
      → Contains n targets t
      → Contains n guarded.hosts t
      → Contains n (hit_of guarded targets) t
  unfolding hit_of
  hit_of-protected guarded targets t ct cp = rw (nonempty_of guarded.hosts t cp) (
      add_hits_mono guarded.shorts _ (intersection targets guarded.hosts) t (expand_names _)
        ((contains-intersection targets guarded.hosts t).1 (ct, cp)))

  -- So is one that shares its short name with a protected host.
  hit_of-short :
      (guarded : Guarded n) (targets : NodeSet) (t p : Bytes)
      → guarded.shorts ≡ add_shorts n (expand guarded.hosts) empty
      → Contains n targets t
      → Contains n guarded.hosts p
      → is_ip t ≡ false
      → is_ip p ≡ false
      → key t ≡ key p
      → Contains n (hit_of guarded targets) t
  unfolding hit_of
  hit_of-short guarded targets t p shorts ct cp ipt ipp same =
      let hit = intersection targets guarded.hosts in
      let short_kept : Contains n guarded.shorts (key t) =
        rw (shorts, same)
          (add_shorts-Exists (expand guarded.hosts) empty p (expand_names guarded.hosts) ipp
            ((expand_iff guarded.hosts p).0 cp)) in
      rw (nonempty_of guarded.hosts p cp) (elim (Bool-cases (contains hit t)) [
        | inl e ↦ add_hits_mono guarded.shorts _ hit t (expand_names _) e
        | inr e ↦ add_hits-Exists guarded.shorts _ hit t (expand_names _) ipt short_kept (
            (expand_iff (difference targets hit) t).0
              ((contains-difference targets hit t).1 (ct, e)))
      ])

  check_targets-hit :
      (g : Gate n) (not_nodes : Bool) (targets : NodeSet) (forced : List (Forced n))
      → g.force ≡ false
      → check_targets n g not_nodes targets ≡ ok forced
      → (hit : NodeSet) × (protected_in n g targets ≡ ok hit) × (is_empty hit ≡ true)
  unfolding check_targets
  check_targets-hit g not_nodes targets forced f h =
      elim (Result-cases (protected_in n g targets)) [
        | inl (hit, e) ↦ (hit, e, ground arith)
        | inr (u, e) ↦ ground arith
      ]

  -- Without force, when the check of an action passes, the protected hosts were worked out, and no
  -- target is one of them or has the short name of one, the case of letters aside, where neither is
  -- an address.
  pub check-protects :
      (g : Gate n) (a : Action n) (forced : List (Forced n))
      → g.force ≡ false
      → check n g a ≡ ok forced
      → (targets : NodeSet) × (guarded : Guarded n) × (a.targets ≡ some targets)
        × (protected n g ≡ ok guarded)
        × ((t p : Bytes)
            → Contains n targets t
            → Contains n guarded.hosts p
            → (t ≢ p) × (is_ip t ≡ false → is_ip p ≡ false → key t ≢ key p))
  unfolding check
  check-protects g a forced f h = elim (Option-cases a.targets) [
    | inl e ↦ ground arith
    | inr (targets, e) ↦
        let (hit, from_in, no_hit) =
          check_targets-hit g a.not_nodes targets forced f (ground arith) in
        let (guarded, worked, same) = protected_in-eq g targets hit from_in in
        let missed : (t : Bytes) → ¬ Contains n (hit_of guarded targets) t =
          λ t c. cc (rw (← same) at c, (is_empty_iff hit).0 no_hit t) in
        (
          targets,
          guarded,
          e,
          worked,
          λ t p ct cp. (
            λ same_host. missed t (hit_of-protected guarded targets t ct (rw (← same_host) at cp)),
            λ ipt ipp same_key. missed t (
                hit_of-short guarded targets t p (protected_shorts g guarded worked) ct cp ipt ipp
                  same_key),
          ),
        )
  ]
