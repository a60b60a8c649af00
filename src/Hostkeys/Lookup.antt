-- ===== src/Hostkeys/Lookup.antt =====
-- The index of a file against the file.
use clusterctl.Prelude.{
  ℕ, suc, ◌<◌, Bool, true, false, ◌||◌, some, List, [], ◌∷◌, ◌++◌, append_assoc, append-nil, Bytes,
  eqb, ◌==◌, Bool-cases, if◌then◌else◌, All, length, length-append, to_lower, ◌≡◌, refl, sym, ap,
  ◌∙◌, inl, inr, arith,
}
use clusterctl.Hostkeys.{Entry, Hashing, covers, is_found, is_revoked, find, revoked}
use clusterctl.Hostkeys.Index.{
  Index, seen_at, put_name, index_patterns, is_special, any_special, index_one, index_entries,
  index, candidates, entry_at, find_at, find_in, revoked_at, revoked_in,
}
use clusterctl.Hostkeys.Plain.{names_plainly, matches_from-plain}
use clusterctl.Hostkeys.Places.{positions, merge-positions}

-- all places of a list are before one
abbrev Before : ℕ → List ℕ → Type 0
Before i = All (λ j. j < i)

seen_at-new : (i : ℕ) (js : List ℕ) → Before i js → seen_at i js ≡ js ++ i ∷ []
unfolding seen_at
seen_at-new i [] b = refl
seen_at-new i (j ∷ []) b = let other : (j == i) ≡ false = ground arith in rw other refl
seen_at-new i (j ∷ k ∷ js) b = ap (λ t. j ∷ t) (seen_at-new i (k ∷ js) b.1)

seen_at-again : (i : ℕ) (js : List ℕ) → seen_at i (js ++ i ∷ []) ≡ js ++ i ∷ []
unfolding seen_at
seen_at-again i [] = let same : (i == i) ≡ true = ground arith in rw same refl
seen_at-again i (j ∷ []) = ap (λ t. j ∷ t) (seen_at-again i [])
seen_at-again i (j ∷ k ∷ js) = ap (λ t. j ∷ t) (seen_at-again i (k ∷ js))

index_patterns-kept :
    (i : ℕ) (ps : List Bytes) (literal : Bytes → List ℕ) (k : Bytes) (js : List ℕ)
    → literal k ≡ js ++ i ∷ []
    → index_patterns i ps literal k ≡ js ++ i ∷ []
unfolding index_patterns
index_patterns-kept i [] literal k js e = e
index_patterns-kept i (p ∷ ps) literal k js e = elim (Bool-cases (is_special p)) [
  | inl special ↦ rw special (index_patterns-kept i ps literal k js e)
  | inr plain ↦
      let put : put_name (to_lower p) i literal k ≡ js ++ i ∷ [] =
        elim (Bool-cases (eqb (to_lower p) k)) [
          | inl same ↦ rw same rw e (seen_at-again i js)
          | inr other ↦ rw other e
        ] in
      rw plain (index_patterns-kept i ps (put_name (to_lower p) i literal) k js put)
]

index_patterns-names :
    (i : ℕ) (ps : List Bytes) (literal : Bytes → List ℕ) (k : Bytes) (js : List ℕ)
    → literal k ≡ js
    → Before i js
    → index_patterns i ps literal k ≡ (if names_plainly k ps then js ++ i ∷ [] else js)
unfolding index_patterns names_plainly
index_patterns-names i [] literal k js e b = e
index_patterns-names i (p ∷ ps) literal k js e b = elim (Bool-cases (is_special p)) [
  | inl special ↦ rw special (index_patterns-names i ps literal k js e b)
  | inr plain ↦ elim (Bool-cases (eqb (to_lower p) k)) [
    | inl same ↦
        let put : put_name (to_lower p) i literal k ≡ js ++ i ∷ [] =
          rw same rw e (seen_at-new i js b) in
        rw plain rw same (index_patterns-kept i ps (put_name (to_lower p) i literal) k js put)
    | inr other ↦
        let put : put_name (to_lower p) i literal k ≡ js = rw other e in
        rw plain rw other (index_patterns-names i ps (put_name (to_lower p) i literal) k js put b)
  ]
]

-- the entries that name a host plainly, and those that have to be matched
abbrev plainly : Bytes → Entry → Bool
plainly k e = names_plainly k e.hosts

abbrev specially : Entry → Bool
specially e = any_special e.hosts

Before-next : (i : ℕ) (js : List ℕ) → Before i js → Before (suc i) js
Before-next i [] b = tt
Before-next i (j ∷ js) b = (omega (arith, b.0), Before-next i js b.1)

Before-append : (i : ℕ) (js : List ℕ) → Before i js → Before (suc i) (js ++ i ∷ [])
Before-append i [] b = (omega arith, tt)
Before-append i (j ∷ js) b = (omega (arith, b.0), Before-append i js b.1)

index_one-entries : (i : ℕ) (e : Entry) (x : Index) → (index_one i e x).entries ≡ x.entries
unfolding index_one
index_one-entries i e x = refl

index_one-other :
    (i : ℕ) (e : Entry) (es : List Entry) (x : Index)
    → (index_one i e x).other ++ positions (suc i) specially es
      ≡ x.other ++ positions i specially (e ∷ es)
unfolding index_one
index_one-other i e es x = elim (Bool-cases (specially e)) [
  | inl special ↦ rw special (append_assoc x.other (i ∷ []) (positions (suc i) specially es))
  | inr plain ↦ rw plain refl
]

index_one-literal :
    (i : ℕ) (e : Entry) (es : List Entry) (x : Index) (k : Bytes)
    → Before i (x.literal k)
    → Before (suc i) ((index_one i e x).literal k)
      × ((index_one i e x).literal k ++ positions (suc i) (plainly k) es
          ≡ x.literal k ++ positions i (plainly k) (e ∷ es))
unfolding index_one
index_one-literal i e es x k b =
    let one = index_patterns-names i e.hosts x.literal k (x.literal k) refl b in
    elim (Bool-cases (plainly k e)) [
      | inl named ↦ rw one rw named (
        Before-append i (x.literal k) b,
        append_assoc (x.literal k) (i ∷ []) (positions (suc i) (plainly k) es),
      )
      | inr other ↦ rw one rw other (Before-next i (x.literal k) b, refl)
    ]

index_entries-other :
    (i : ℕ) (es : List Entry) (x : Index)
    → ((index_entries i es x).other ≡ x.other ++ positions i specially es)
      × ((index_entries i es x).entries ≡ x.entries)
unfolding index_entries
index_entries-other i [] x = (sym (append-nil x.other), refl)
index_entries-other i (e ∷ es) x =
    let (others, all) = index_entries-other (suc i) es (index_one i e x) in
    (others ∙ index_one-other i e es x, all ∙ index_one-entries i e x)

index_entries-literal :
    (i : ℕ) (es : List Entry) (x : Index) (k : Bytes)
    → Before i (x.literal k)
    → (index_entries i es x).literal k ≡ x.literal k ++ positions i (plainly k) es
unfolding index_entries
index_entries-literal i [] x k b = sym (append-nil (x.literal k))
index_entries-literal i (e ∷ es) x k b =
    let (later, same) = index_one-literal i e es x k b in
    index_entries-literal (suc i) es (index_one i e x) k later ∙ same

entry_at-append :
    (before : List Entry) (e : Entry) (es : List Entry)
    → entry_at (before ++ e ∷ es) (length before) ≡ some e
unfolding entry_at
entry_at-append [] e es = refl
entry_at-append (d ∷ before) e es = entry_at-append before e es

module _ (h : Hashing) (host : Bytes) (f : Entry → Bool)
    (kept : (e : Entry) → covers h e host ≡ true → f e ≡ true) (all : List Entry) where
  find_at-one :
      (i : ℕ) (more : List ℕ) (e : Entry)
      → entry_at all i ≡ some e
      → find_at h all (i ∷ more) host
        ≡ (if is_found h host e then e ∷ find_at h all more host else find_at h all more host)
  unfolding find_at
  find_at-one i more e here = rw (find_at, here) refl

  revoked_at-one :
      (key : Bytes) (i : ℕ) (more : List ℕ) (e : Entry)
      → entry_at all i ≡ some e
      → revoked_at h all (i ∷ more) host key
        ≡ (if is_revoked h host key e then true else revoked_at h all more host key)
  unfolding revoked_at
  revoked_at-one key i more e here = rw (revoked_at, here) refl

  find_at-positions :
      (n : ℕ) (before es : List Entry)
      → all ≡ before ++ es
      → n ≡ length before
      → find_at h all (positions n f es) host ≡ find h es host
  unfolding find
  find_at-positions n before [] e len = unfold find_at in refl
  find_at-positions n before (d ∷ es) e len =
      let again : all ≡ (before ++ d ∷ []) ++ es = e ∙ sym (append_assoc before (d ∷ []) es) in
      let longer : suc n ≡ length (before ++ d ∷ []) =
        omega (arith, length-append before (d ∷ [])) in
      let ih = find_at-positions (suc n) (before ++ d ∷ []) es again longer in
      let here : entry_at all n ≡ some d = rw e rw len (entry_at-append before d es) in
      elim (Bool-cases (f d)) [
        | inl listed ↦ rw listed (
            find_at-one n (positions (suc n) f es) d here
            ∙ ap (λ t. if is_found h host d then d ∷ t else t) ih)
        | inr skipped ↦
            let other : is_found h host d ≡ false = ground (arith, kept d) in rw skipped rw other ih
      ]

  revoked_at-positions :
      (key : Bytes) (n : ℕ) (before es : List Entry)
      → all ≡ before ++ es
      → n ≡ length before
      → revoked_at h all (positions n f es) host key ≡ revoked h es host key
  unfolding revoked
  revoked_at-positions key n before [] e len = unfold revoked_at in refl
  revoked_at-positions key n before (d ∷ es) e len =
      let again : all ≡ (before ++ d ∷ []) ++ es = e ∙ sym (append_assoc before (d ∷ []) es) in
      let longer : suc n ≡ length (before ++ d ∷ []) =
        omega (arith, length-append before (d ∷ [])) in
      let ih = revoked_at-positions key (suc n) (before ++ d ∷ []) es again longer in
      let here : entry_at all n ≡ some d = rw e rw len (entry_at-append before d es) in
      elim (Bool-cases (f d)) [
        | inl listed ↦ rw listed (
            revoked_at-one key n (positions (suc n) f es) d here
            ∙ ap (λ t. if is_revoked h host key d then true else t) ih)
        | inr skipped ↦
            let other : is_revoked h host key d ≡ false = ground (arith, kept d) in
            rw skipped rw other ih
      ]

module _ (h : Hashing) (es : List Entry) (host : Bytes) where
  abbrev listed : Entry → Bool
  listed e = plainly (to_lower host) e || specially e

  index-candidates : (index es).entries ≡ es × (candidates (index es) host ≡ positions 0 listed es)
  unfolding candidates index
  index-candidates =
      let empty : Index = record { entries = es; literal = λ k. []; other = [] } in
      let (others, all) = index_entries-other 0 es empty in
      let names = index_entries-literal 0 es empty (to_lower host) tt in
      (all, rw names rw others (merge-positions 0 (plainly (to_lower host)) specially es))

  covers-listed : (e : Entry) → covers h e host ≡ true → listed e ≡ true
  covers-listed e hit = ground (arith, matches_from-plain h e.hosts (to_lower host))

  -- Index.Find and Index.Revoked on the index of a file give what File.Find and File.Revoked give on
  -- the file, for every host and every key.
  pub find_in-find :
      (find_in h (index es) host ≡ find h es host)
      × ((key : Bytes) → revoked_in h (index es) host key ≡ revoked h es host key)
  unfolding find_in revoked_in
  find_in-find =
      let (all, places) = index-candidates in
      (
        rw places rw all (find_at-positions h host listed covers-listed es 0 [] es refl refl),
        λ key.
            rw places rw all
              (revoked_at-positions h host listed covers-listed es key 0 [] es refl refl),
      )
