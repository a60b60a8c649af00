-- ===== src/Hostkeys/Naming.antt =====
-- The hosts that a pattern names, as RemoveAll looks for them.
use clusterctl.Prelude.{
  ℕ, suc, Bool, true, false, not, ◌||◌, Option, none, some, List, [], ◌∷◌, ◌++◌, map, Bytes, eqb,
  eqb_iff, Bool-cases, Option-cases, if◌then◌else◌, to_lower, cut_prefix, lookup, ◌≡◌, refl, sym,
  ap, ◌∙◌, inl, inr, arith,
}
use clusterctl.Hostkeys.{
  Entry, hash_prefix, is_host_key, is_negated, is_wild, Hashing, match_from, match_hashed,
  match_pattern, names,
}
use clusterctl.Hostkeys.Removal.{first_places, named_hashed, named}
use clusterctl.Hostkeys.Plain.{match_from-plain}

abbrev pub any_of : (Bytes → Bool) → List Bytes → Bool
any_of f [] = false
any_of f (x ∷ xs) = f x || any_of f xs

abbrev pub is_empty {ℓ} : {A : Type ℓ} → List A → Bool
is_empty [] = true
is_empty (x ∷ xs) = false

module _ (h : Hashing) (hosts : List Bytes) where
  -- whether a pattern names one of the hosts
  abbrev pub named_by : Bytes → Bool
  named_by p = any_of (λ host. names h p host) hosts

  -- the patterns that name none of them
  abbrev pub unnamed : List Bytes → List Bytes
  unnamed [] = []
  unnamed (p ∷ ps) = if named_by p then unnamed ps else p ∷ unnamed ps

  -- what is left of an entry
  abbrev pub left : Entry → List Entry
  left e =
      if not (is_host_key e) || not (any_of named_by e.hosts)
      then e ∷ []
      else if is_empty (unnamed e.hosts)
      then []
      else (record e { hosts = unnamed e.hosts }) ∷ []

  abbrev pub left_of : List Entry → List Entry
  left_of [] = []
  left_of (e ∷ es) = left e ++ left_of es

abbrev has_key : (Bytes → Bool) → List (Bytes × ℕ) → Bool
has_key f [] = false
has_key f ((k, i) ∷ m) = f k || has_key f m

abbrev pub is_some : Option ℕ → Bool
is_some none = false
is_some (some i) = true

has_key-append :
    (f : Bytes → Bool) (m n : List (Bytes × ℕ)) → has_key f (m ++ n) ≡ (has_key f m || has_key f n)
has_key-append f [] n = refl
has_key-append f ((k, i) ∷ m) n = ground (arith, has_key-append f m n)

lookup-has_key :
    (k : Bytes) (m : List (Bytes × ℕ)) → is_some (lookup k m) ≡ has_key (λ j. eqb j k) m
unfolding lookup
lookup-has_key k [] = refl
lookup-has_key k ((j, i) ∷ m) = elim (Bool-cases (eqb j k)) [
  | inl same ↦ rw same refl
  | inr other ↦ rw other (lookup-has_key k m)
]

has_key-same :
    (f : Bytes → Bool) (k : Bytes) (m : List (Bytes × ℕ))
    → has_key (λ j. eqb j k) m ≡ true
    → (f k || has_key f m) ≡ has_key f m
has_key-same f k [] e = absurd (cc)
has_key-same f k ((j, i) ∷ m) e = elim (Bool-cases (eqb j k)) [
  | inl same ↦ let is : j ≡ k = (eqb_iff j k).0 same in rw is (ground arith)
  | inr other ↦ ground (arith, has_key-same f k m)
]

first_places-new :
    (i : ℕ) (host : Bytes) (hosts : List Bytes) (m : List (Bytes × ℕ))
    → lookup (to_lower host) m ≡ none
    → first_places i (host ∷ hosts) m ≡ first_places (suc i) hosts (m ++ (to_lower host, i) ∷ [])
unfolding first_places
first_places-new i host hosts m new = rw (first_places, new) refl

first_places-old :
    (i j : ℕ) (host : Bytes) (hosts : List Bytes) (m : List (Bytes × ℕ))
    → lookup (to_lower host) m ≡ some j
    → first_places i (host ∷ hosts) m ≡ first_places (suc i) hosts m
unfolding first_places
first_places-old i j host hosts m old = rw (first_places, old) refl

first_places-has_key :
    (f : Bytes → Bool) (i : ℕ) (hosts : List Bytes) (m : List (Bytes × ℕ))
    → has_key f (first_places i hosts m) ≡ (has_key f m || any_of f (map to_lower hosts))
unfolding first_places
first_places-has_key f i [] m = ground arith
first_places-has_key f i (host ∷ hosts) m = elim (Option-cases (lookup (to_lower host) m)) [
  | inl new ↦ rw (first_places-new i host hosts m new) (
      first_places-has_key f (suc i) hosts (m ++ (to_lower host, i) ∷ [])
      ∙ ground (arith, has_key-append f m ((to_lower host, i) ∷ [])))
  | inr (j, old) ↦
      let there : has_key (λ k. eqb k (to_lower host)) m ≡ true =
        sym (lookup-has_key (to_lower host) m) ∙ ap is_some old in
      rw (first_places-old i j host hosts m old) (
        first_places-has_key f (suc i) hosts m
        ∙ ground (arith, has_key-same f (to_lower host) m there))
]

any_of-map :
    (f g : Bytes → Bool) (xs : List Bytes)
    → ((x : Bytes) → f (to_lower x) ≡ g x)
    → any_of f (map to_lower xs) ≡ any_of g xs
any_of-map f g [] same = refl
any_of-map f g (x ∷ xs) same = ground (arith, same x, any_of-map f g xs same)

any_of-false :
    (f : Bytes → Bool) (xs : List Bytes) → ((x : Bytes) → f x ≡ false) → any_of f xs ≡ false
any_of-false f [] never = refl
any_of-false f (x ∷ xs) never = ground (arith, never x, any_of-false f xs never)

eqb_swap : (a b : Bytes) → eqb a b ≡ eqb b a
eqb_swap a b = ground (arith, eqb_iff a b, eqb_iff b a)

module _ (h : Hashing) where
  named_hashed-has_key :
      (text : Bytes) (m : List (Bytes × ℕ))
      → is_some (named_hashed h text m) ≡ has_key (match_hashed h text) m
  unfolding named_hashed
  named_hashed-has_key text [] = refl
  named_hashed-has_key text ((k, i) ∷ m) = elim (Bool-cases (match_hashed h text k)) [
    | inl same ↦ rw same refl
    | inr other ↦ rw other (named_hashed-has_key text m)
  ]

  names-never : (p host : Bytes) → (is_negated p || is_wild p) ≡ true → names h p host ≡ false
  unfolding names
  names-never p host never = rw never refl

  names-clear :
      (p host : Bytes)
      → (is_negated p || is_wild p) ≡ false
      → cut_prefix p hash_prefix ≡ none
      → names h p host ≡ eqb (to_lower host) (to_lower p)
  unfolding names match_pattern match_from
  names-clear p host plain clear =
      let whole : match_pattern h p (to_lower host)
          ≡ match_from false (to_lower p) (to_lower host) =
        rw (match_pattern, clear) refl in
      rw plain (
        whole
        ∙ match_from-plain p (to_lower host) (ground arith)
        ∙ eqb_swap (to_lower p) (to_lower host))

  names-hashed :
      (p host text : Bytes)
      → (is_negated p || is_wild p) ≡ false
      → cut_prefix p hash_prefix ≡ some text
      → names h p host ≡ match_hashed h text (to_lower host)
  unfolding names match_pattern match_hashed
  names-hashed p host text plain hashed = rw plain rw (match_pattern, hashed) refl

  named-never :
      (first : List (Bytes × ℕ)) (p : Bytes)
      → (is_negated p || is_wild p) ≡ true
      → named h first p ≡ none
  unfolding named
  named-never first p never = rw never refl

  named-clear :
      (first : List (Bytes × ℕ)) (p : Bytes)
      → (is_negated p || is_wild p) ≡ false
      → cut_prefix p hash_prefix ≡ none
      → named h first p ≡ lookup (to_lower p) first
  unfolding named lookup
  named-clear first p plain clear = rw (named, plain, clear) refl

  named-hashed :
      (first : List (Bytes × ℕ)) (p text : Bytes)
      → (is_negated p || is_wild p) ≡ false
      → cut_prefix p hash_prefix ≡ some text
      → named h first p ≡ named_hashed h text first
  unfolding named named_hashed
  named-hashed first p text plain hashed = rw (named, plain, hashed) refl

  pub named-named_by :
      (hosts : List Bytes) (p : Bytes)
      → is_some (named h (first_places 0 hosts []) p) ≡ named_by h hosts p
  named-named_by hosts p = elim (Bool-cases (is_negated p || is_wild p)) [
    | inl never ↦
        ap is_some (named-never (first_places 0 hosts []) p never)
        ∙ sym (any_of-false (λ host. names h p host) hosts (λ host. names-never p host never))
    | inr plain ↦ elim (Option-cases (cut_prefix p hash_prefix)) [
      | inl clear ↦
          ap is_some (named-clear (first_places 0 hosts []) p plain clear)
          ∙ lookup-has_key (to_lower p) (first_places 0 hosts [])
          ∙ first_places-has_key (λ k. eqb k (to_lower p)) 0 hosts []
          ∙ any_of-map (λ k. eqb k (to_lower p)) (λ host. names h p host) hosts
              (λ host. sym (names-clear p host plain clear))
      | inr (text, hashed) ↦
          ap is_some (named-hashed (first_places 0 hosts []) p text plain hashed)
          ∙ named_hashed-has_key text (first_places 0 hosts [])
          ∙ first_places-has_key (match_hashed h text) 0 hosts []
          ∙ any_of-map (match_hashed h text) (λ host. names h p host) hosts
              (λ host. sym (names-hashed p host text plain hashed))
    ]
  ]
