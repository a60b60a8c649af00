-- ===== src/Fanout/Hosts/Order.antt =====
-- The order in which Acquire takes its places.
use clusterctl.Prelude.{
  true, false, List, [], ◌∷◌, Bytes, eqb, eqb_iff, Bool-cases, All, ◌≡◌, refl, inl, inr, arith,
}
use clusterctl.Config.Value.{lt_bytes}
use clusterctl.Fanout.Hosts.{
  insert_name, sort_names, compact_after, compact, skip_empty, acquire_names,
}

pub lt_bytes_irrefl : (a : Bytes) → lt_bytes a a ≡ false
unfolding lt_bytes
lt_bytes_irrefl [] = refl
lt_bytes_irrefl (c ∷ a) = ground (arith, lt_bytes_irrefl a)

pub lt_bytes_trans :
    (a b c : Bytes) → lt_bytes a b ≡ true → lt_bytes b c ≡ true → lt_bytes a c ≡ true
unfolding lt_bytes
lt_bytes_trans a [] c x y = absurd (cc)
lt_bytes_trans a (j ∷ b) [] x y = absurd (cc)
lt_bytes_trans [] (j ∷ b) (k ∷ c) x y = refl
lt_bytes_trans (i ∷ a) (j ∷ b) (k ∷ c) x y = ground (arith, lt_bytes_trans a b c)

lt_bytes_total : (a b : Bytes) → lt_bytes a b ≡ false → lt_bytes b a ≡ false → eqb a b ≡ true
unfolding lt_bytes
lt_bytes_total [] [] x y = refl
lt_bytes_total [] (j ∷ b) x y = absurd (cc)
lt_bytes_total (i ∷ a) [] x y = absurd (cc)
lt_bytes_total (i ∷ a) (j ∷ b) x y = ground (arith, lt_bytes_total a b)

-- a name is after another, or it is the same
abbrev NotBefore : Bytes → Bytes → Type 0
NotBefore x y = lt_bytes y x ≡ false

NotBefore-trans : (x y z : Bytes) → NotBefore x y → NotBefore y z → NotBefore x z
NotBefore-trans x y z a b = elim (Bool-cases (lt_bytes z x)) [
  | inr after ↦ after
  | inl before ↦ elim (Bool-cases (lt_bytes x y)) [
    | inl less ↦ ground (arith, lt_bytes_trans z x y)
    | inr more ↦ let same : x ≡ y = (eqb_iff x y).0 (lt_bytes_total x y more a) in rw same b
  ]
]

-- no name comes before an earlier one
abbrev Sorted : List Bytes → Type 0
Sorted [] = Unit
Sorted (x ∷ xs) = All (NotBefore x) xs × Sorted xs

-- each name comes after every earlier one
abbrev pub Increasing : List Bytes → Type 0
Increasing [] = Unit
Increasing (x ∷ xs) = All (λ y. lt_bytes x y ≡ true) xs × Increasing xs

All-weaken :
    {P Q : Bytes → Type 0} (xs : List Bytes) → ((x : Bytes) → P x → Q x) → All P xs → All Q xs
All-weaken [] f a = tt
All-weaken (x ∷ xs) f a = (f x a.0, All-weaken xs f a.1)

insert_name-All :
    (P : Bytes → Type 0) (x : Bytes) (ys : List Bytes) → P x → All P ys → All P (insert_name x ys)
unfolding insert_name
insert_name-All P x [] p a = (p, tt)
insert_name-All P x (y ∷ ys) p a = elim (Bool-cases (lt_bytes y x)) [
  | inl later ↦ rw later (a.0, insert_name-All P x ys p a.1)
  | inr here ↦ rw here (p, (a.0, a.1))
]

insert_name-Sorted : (x : Bytes) (ys : List Bytes) → Sorted ys → Sorted (insert_name x ys)
unfolding insert_name
insert_name-Sorted x [] a = (tt, tt)
insert_name-Sorted x (y ∷ ys) a = elim (Bool-cases (lt_bytes y x)) [
  | inl later ↦
      let past : NotBefore y x = ground (arith, lt_bytes_trans y x y, lt_bytes_irrefl y) in
      rw later (insert_name-All (NotBefore y) x ys past a.0, insert_name-Sorted x ys a.1)
  | inr here ↦ rw here ((here, All-weaken ys (λ z b. NotBefore-trans x y z here b) a.0), a)
]

sort_names-Sorted : (xs : List Bytes) → Sorted (sort_names xs)
unfolding sort_names
sort_names-Sorted [] = tt
sort_names-Sorted (x ∷ xs) = insert_name-Sorted x (sort_names xs) (sort_names-Sorted xs)

compact_after-Increasing :
    (x : Bytes) (xs : List Bytes)
    → All (NotBefore x) xs
    → Sorted xs
    → Increasing (x ∷ compact_after x xs)
unfolding compact_after
compact_after-Increasing x [] a b = (tt, tt)
compact_after-Increasing x (y ∷ ys) a b = elim (Bool-cases (eqb x y)) [
  | inl same ↦ rw same (compact_after-Increasing x ys a.1 b.1)
  | inr other ↦
      let less : lt_bytes x y ≡ true = ground (arith, lt_bytes_total x y, a.0) in
      let (after, more) = compact_after-Increasing y ys b.0 b.1 in
      rw other (
        (less, All-weaken (compact_after y ys) (λ z c. lt_bytes_trans x y z less c) after),
        (after, more),
      )
]

skip_empty-All : (P : Bytes → Type 0) (xs : List Bytes) → All P xs → All P (skip_empty xs)
unfolding skip_empty
skip_empty-All P [] a = tt
skip_empty-All P (x ∷ xs) a = elim (Bool-cases (eqb x [])) [
  | inl nameless ↦ rw nameless (skip_empty-All P xs a.1)
  | inr named ↦ rw named (a.0, skip_empty-All P xs a.1)
]

skip_empty-Increasing : (xs : List Bytes) → Increasing xs → Increasing (skip_empty xs)
unfolding skip_empty
skip_empty-Increasing [] a = tt
skip_empty-Increasing (x ∷ xs) a = elim (Bool-cases (eqb x [])) [
  | inl nameless ↦ rw nameless (skip_empty-Increasing xs a.1)
  | inr named ↦
      rw named (skip_empty-All (λ y. lt_bytes x y ≡ true) xs a.0, skip_empty-Increasing xs a.1)
]

compact-Increasing : (xs : List Bytes) → Sorted xs → Increasing (compact xs)
unfolding compact
compact-Increasing [] a = tt
compact-Increasing (x ∷ xs) a = compact_after-Increasing x xs a.0 a.1

pub acquire_names-Increasing : (hosts : List Bytes) → Increasing (acquire_names hosts)
unfolding acquire_names
acquire_names-Increasing hosts =
    skip_empty-Increasing (compact (sort_names hosts))
      (compact-Increasing (sort_names hosts) (sort_names-Sorted hosts))
