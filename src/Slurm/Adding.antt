-- ===== src/Slurm/Adding.antt =====
-- What PlanUserAdd resolves.
use clusterctl.Prelude.{
  Bool, true, false, not, ◌&&◌, ◌||◌, List, [], ◌∷◌, ◌++◌, Bytes, eqb, eqb_iff, eqb_refl, All,
  is_one_of, or_text, Bool-cases, if◌then◌else◌, ◌≡◌, ◌≢◌, ◌⊎◌, refl, sym, ap, arith, inl, inr,
}
use clusterctl.Slurm.Users.{UserAddition, Known, plan, plan_new, plan_known, moves, unless_in}

-- the account is one of the user's, before the addition or through it
abbrev pub Covered : Known → UserAddition → Bytes → Type 0
Covered k u account = (is_one_of k.associated account || is_one_of u.associate account) ≡ true

-- the default account that the user has after the addition
abbrev pub default_after : UserAddition → Bytes
default_after u = or_text u.default_account u.current

-- what an addition comes to; `given` is the default account that was asked for
pub record IsPlan (account given : Bytes) (k : Known) (u : UserAddition) : Type 0 where
  -- the user is associated with the account, and with the default account unless it is that already
  pub covers_account : Covered k u account
  pub covers_default :
      Covered k u given ⊎ ((given ≡ []) ⊎ ((k.exists ≡ true) × (given ≡ k.current)))
  -- the default account afterwards
  pub default_given : given ≢ [] → default_after u ≡ given
  pub default_new : k.exists ≡ false → given ≡ [] → default_after u ≡ account
  pub default_kept : k.exists ≡ true → given ≡ [] → default_after u ≡ k.current
  -- nothing is associated again
  pub only_new : k.exists ≡ true → All (λ a. is_one_of k.associated a ≡ false) u.associate

is_one_of-append :
    (xs ys : List Bytes) (x : Bytes) → is_one_of (xs ++ ys) x ≡ (is_one_of xs x || is_one_of ys x)
is_one_of-append [] ys x = refl
is_one_of-append (y ∷ xs) ys x = ground (arith, is_one_of-append xs ys x)

unless_in-Covered :
    (associated : List Bytes) (a : Bytes)
    → (is_one_of associated a || is_one_of (unless_in associated a) a) ≡ true
unless_in-Covered associated a = ground (arith, eqb_refl a)

unless_in-new :
    (associated : List Bytes) (a : Bytes)
    → All (λ x. is_one_of associated x ≡ false) (unless_in associated a)
unless_in-new associated a = elim (Bool-cases (is_one_of associated a)) [
  | inl there ↦ rw there tt
  | inr new ↦ rw new (new, tt)
]

covers-first :
    (associated rest : List Bytes) (a : Bytes)
    → (is_one_of associated a || is_one_of (unless_in associated a ++ rest) a) ≡ true
covers-first associated rest a =
    rw (is_one_of-append (unless_in associated a) rest a) ground
      (arith, unless_in-Covered associated a)

covers-second :
    (associated first : List Bytes) (a : Bytes)
    → (is_one_of associated a || is_one_of (first ++ unless_in associated a) a) ≡ true
covers-second associated first a =
    rw (is_one_of-append first (unless_in associated a) a) ground
      (arith, unless_in-Covered associated a)

new-append :
    (associated xs ys : List Bytes)
    → All (λ x. is_one_of associated x ≡ false) xs
    → All (λ x. is_one_of associated x ≡ false) ys
    → All (λ x. is_one_of associated x ≡ false) (xs ++ ys)
new-append associated [] ys a b = b
new-append associated (x ∷ xs) ys a b = (a.0, new-append associated xs ys a.1 b)

still : (given : Bytes) (k : Known) → moves given k ≡ false → (given ≡ []) ⊎ (given ≡ k.current)
still given k stays = elim (Bool-cases (eqb given [])) [
  | inl none ↦ inl ((eqb_iff given []).0 none)
  | inr some ↦ inr ((eqb_iff given k.current).0 (ground arith))
]

or_text-ne-nil : (a b : Bytes) → a ≢ [] → or_text a b ≡ a
or_text-ne-nil [] b ne = absurd (ne refl)
or_text-ne-nil (c ∷ a) b ne = refl

default-moved :
    (given : Bytes) (k : Known)
    → given ≢ []
    → or_text (if moves given k then given else []) k.current ≡ given
default-moved given k some = elim (Bool-cases (moves given k)) [
  | inl moved ↦ rw moved (or_text-ne-nil given k.current some)
  | inr stays ↦ elim (still given k stays) [ inl e ↦ absurd (some e) | inr e ↦ rw stays (sym e) ]
]

unless_in-when :
    (associated : List Bytes) (a : Bytes) (b : Bool)
    → All (λ x. is_one_of associated x ≡ false) (if b then unless_in associated a else [])
unless_in-when associated a true = unless_in-new associated a
unless_in-when associated a false = tt

module _ (user cluster account : Bytes) (some_account : account ≢ []) where
  plan_new-IsPlan :
      (given : Bytes) (k : Known)
      → k.exists ≡ false
      → IsPlan account given k (plan_new user cluster account given k)
  unfolding plan_new
  plan_new-IsPlan [] k new = record {
    covers_account = ground (arith, eqb_refl account);
    covers_default = inr (inl refl);
    default_given = λ ne. absurd (ne refl);
    default_new = λ _ _. or_text-ne-nil account k.current some_account;
    default_kept = λ old. absurd (cc);
    only_new = λ old. absurd (cc);
  }
  plan_new-IsPlan (g ∷ given) k new = record {
    covers_account = ground (arith, eqb_refl account);
    covers_default = inl (ground (arith, eqb_refl (g ∷ given), eqb_iff (g ∷ given) account));
    default_given = λ ne. refl;
    default_new = λ _ e. absurd (cc);
    default_kept = λ old. absurd (cc);
    only_new = λ old. absurd (cc);
  }

  plan_known-Covered :
      (given : Bytes) (k : Known)
      → moves given k ≡ true
      → Covered k (plan_known user cluster account given k) given
  unfolding plan_known
  plan_known-Covered given k moved = elim (Bool-cases (eqb given account)) [
    | inl same ↦
        let first : Covered k (plan_known user cluster account given k) account =
          covers-first k.associated
            (if moves given k && not (eqb given account) then unless_in k.associated given else [])
            account in
        rw
          (ap (Covered k (plan_known user cluster account given k))
            ((eqb_iff given account).0 same))
          first
    | inr other ↦
        let both : (is_one_of k.associated given
              || is_one_of (unless_in k.associated account ++ unless_in k.associated given) given)
            ≡ true =
          covers-second k.associated (unless_in k.associated account) given in
        rw moved rw other both
  ]

  plan_known-IsPlan :
      (given : Bytes) (k : Known)
      → k.exists ≡ true
      → IsPlan account given k (plan_known user cluster account given k)
  unfolding plan_known
  plan_known-IsPlan given k old = record {
    covers_account =
        covers-first k.associated
          (if moves given k && not (eqb given account) then unless_in k.associated given else [])
          account;
    covers_default = elim (Bool-cases (moves given k)) [
      | inl moved ↦ inl (plan_known-Covered given k moved)
      | inr stays ↦ inr (elim (still given k stays) [ inl e ↦ inl e | inr e ↦ inr (old, e) ])
    ];
    default_given = default-moved given k;
    default_new = λ new. absurd (cc);
    default_kept = λ _ e. rw e refl;
    only_new = λ _.
        new-append k.associated (unless_in k.associated account)
          (if moves given k && not (eqb given account) then unless_in k.associated given else [])
          (unless_in-new k.associated account)
          (unless_in-when k.associated given (moves given k && not (eqb given account)));
  }

  -- A plan to add a user to an account whose name is not empty associates the user with that
  -- account and with the default account that was asked for, as far as they are not associated
  -- already, or that account is the current one; the default account afterwards is the one that was
  -- asked for, else the account for a new user, and else what it was; and for a user who exists
  -- nothing is associated a second time.
  pub plan-IsPlan :
      (given : Bytes) (k : Known) → IsPlan account given k (plan user cluster account given k)
  unfolding plan
  plan-IsPlan given k = elim (Bool-cases k.exists) [
    | inl old ↦
        let e : plan user cluster account given k ≡ plan_known user cluster account given k =
          ap
            (λ b.
              if b
              then plan_known user cluster account given k
              else plan_new user cluster account given k)
            old in
        rw e (plan_known-IsPlan given k old)
    | inr new ↦
        let e : plan user cluster account given k ≡ plan_new user cluster account given k =
          ap
            (λ b.
              if b
              then plan_known user cluster account given k
              else plan_new user cluster account given k)
            new in
        rw e (plan_new-IsPlan given k new)
  ]
