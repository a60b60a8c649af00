-- ===== src/Hostkeys/Index.antt =====
-- Index: the entries of a file by the names that their plain patterns are.
use clusterctl.Prelude.{
  ℕ, zero, suc, Bool, true, false, ◌||◌, Option, none, some, List, [], ◌∷◌, ◌++◌, Bytes, eqb, ◌==◌,
  ltb, if◌then◌else◌, has_prefix, to_lower,
}
use clusterctl.Hostkeys.{Entry, hash_prefix, is_negated, is_wild, Hashing, is_found, is_revoked}

-- Index; the map is a function, empty where the map has no key
pub record Index : Type 0 where
  pub entries : List Entry
  pub literal : Bytes → List ℕ
  pub other : List ℕ

-- whether a pattern has to be matched
abbrev pub is_special : Bytes → Bool
is_special p = is_negated p || has_prefix p hash_prefix || is_wild p

-- `len(seen) == 0 || seen[len(seen)-1] != i`, and `append`
unfoldable pub seen_at : ℕ → List ℕ → List ℕ
seen_at i [] = i ∷ []
seen_at i (j ∷ []) = if j == i then j ∷ [] else j ∷ i ∷ []
seen_at i (j ∷ k ∷ more) = j ∷ seen_at i (k ∷ more)

abbrev pub put_name : Bytes → ℕ → (Bytes → List ℕ) → Bytes → List ℕ
put_name name i literal k = if eqb name k then seen_at i (literal k) else literal k

-- the loop of `File.Index` over the patterns of an entry: the map
unfoldable pub index_patterns : ℕ → List Bytes → (Bytes → List ℕ) → Bytes → List ℕ
index_patterns i [] literal k = literal k
index_patterns i (p ∷ ps) literal k =
    let past = index_patterns i ps literal k in
    let put = index_patterns i ps (put_name (to_lower p) i literal) k in
    if is_special p then past else put

-- `!plain`
unfoldable pub any_special : List Bytes → Bool
any_special [] = false
any_special (p ∷ ps) = is_special p || any_special ps

-- the loop of `File.Index` over the entries, one entry and all
unfoldable pub index_one : ℕ → Entry → Index → Index
index_one i e x = record x {
  literal = index_patterns i e.hosts x.literal;
  other = if any_special e.hosts then x.other ++ i ∷ [] else x.other;
}

unfoldable pub index_entries : ℕ → List Entry → Index → Index
index_entries i [] x = x
index_entries i (e ∷ es) x = index_entries (suc i) es (index_one i e x)

-- File.Index
unfoldable pub index : List Entry → Index
index es = index_entries 0 es (record { entries = es; literal = λ k. []; other = [] })

-- the loop of `candidates` as far as one place of the first list
unfoldable pub merge_one : ℕ → (List ℕ → List ℕ) → List ℕ → List ℕ
merge_one a rest [] = a ∷ rest []
merge_one a rest (b ∷ bs) =
    if ltb a b then a ∷ rest (b ∷ bs) else if ltb b a then b ∷ merge_one a rest bs else a ∷ rest bs

unfoldable pub merge : List ℕ → List ℕ → List ℕ
merge [] bs = bs
merge (a ∷ more) bs = merge_one a (λ cs. merge more cs) bs

-- candidates
unfoldable pub candidates : Index → Bytes → List ℕ
candidates x host = merge (x.literal (to_lower host)) x.other

-- the entry at a place
unfoldable pub entry_at : List Entry → ℕ → Option Entry
entry_at [] i = none
entry_at (e ∷ es) zero = some e
entry_at (e ∷ es) (suc i) = entry_at es i

module _ (h : Hashing) where
  -- the loop of `Index.Find`; a place past the entries is none of its candidates
  unfoldable pub find_at : List Entry → List ℕ → Bytes → List Entry
  find_at es [] host = []
  find_at es (i ∷ is) host =
      let rest = find_at es is host in
      elim (entry_at es i) as (λ _. List Entry) [
        | none ↦ rest
        | some e ↦ if is_found h host e then e ∷ rest else rest
      ]

  -- Index.Find
  unfoldable pub find_in : Index → Bytes → List Entry
  find_in x host = find_at x.entries (candidates x host) host

  unfoldable pub revoked_at : List Entry → List ℕ → Bytes → Bytes → Bool
  revoked_at es [] host key = false
  revoked_at es (i ∷ is) host key =
      let rest = revoked_at es is host key in
      elim (entry_at es i) as (λ _. Bool) [
        | none ↦ rest
        | some e ↦ if is_revoked h host key e then true else rest
      ]

  -- Index.Revoked
  unfoldable pub revoked_in : Index → Bytes → Bytes → Bool
  revoked_in x host key = revoked_at x.entries (candidates x host) host key
