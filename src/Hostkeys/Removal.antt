-- ===== src/Hostkeys/Removal.antt =====
-- RemoveAll of a known_hosts file.
use clusterctl.Prelude.{
  ℕ, zero, suc, Bool, false, not, ◌||◌, Option, none, some, List, [], ◌∷◌, ◌++◌, map, Bytes, ◌==◌,
  ltb, if◌then◌else◌, to_lower, cut_prefix, lookup,
}
use clusterctl.Hostkeys.{
  Entry, hash_prefix, is_host_key, is_negated, is_wild, Hashing, match_hashed,
}

-- `first` of `removeAll`: the place of each name, in the order of the names
unfoldable pub first_places : ℕ → List Bytes → List (Bytes × ℕ) → List (Bytes × ℕ)
first_places i [] first = first
first_places i (host ∷ hosts) first =
    let lower = to_lower host in
    elim (lookup lower first) as (λ _. List (Bytes × ℕ)) [
      | none ↦ first_places (suc i) hosts (first ++ (lower, i) ∷ [])
      | some j ↦ first_places (suc i) hosts first
    ]

-- slices.Contains
abbrev pub has_place : List ℕ → ℕ → Bool
has_place [] i = false
has_place (j ∷ js) i = j == i || has_place js i

-- slices.Max, with zero where there is none
abbrev pub last_place : List ℕ → ℕ
last_place [] = 0
last_place (i ∷ is) = let rest = last_place is in if ltb rest i then i else rest

abbrev pub add_place : ℕ → List ℕ → List ℕ
add_place i hit = if has_place hit i then hit else hit ++ i ∷ []

-- `counts[i]++`, and an element of a slice changed
unfoldable pub change_at {ℓ} : {A : Type ℓ} → ℕ → (A → A) → List A → List A
change_at i f [] = []
change_at zero f (x ∷ xs) = f x ∷ xs
change_at (suc i) f (x ∷ xs) = x ∷ change_at i f xs

unfoldable pub count_hits : List ℕ → List ℕ → List ℕ
count_hits [] counts = counts
count_hits (i ∷ is) counts = count_hits is (change_at i (λ n. suc n) counts)

-- what `removeAll` has so far
pub record Removal : Type 0 where
  pub kept : List Entry
  pub counts : List ℕ
  pub notes : List (List Bytes)

module _ (h : Hashing) where
  -- the loop of `named` over the hashed hosts
  unfoldable pub named_hashed : Bytes → List (Bytes × ℕ) → Option ℕ
  named_hashed text [] = none
  named_hashed text ((host, i) ∷ more) =
      let rest = named_hashed text more in if match_hashed h text host then some i else rest

  -- `named` of `removeAll`
  unfoldable pub named : List (Bytes × ℕ) → Bytes → Option ℕ
  named first p =
      if is_negated p || is_wild p
      then none
      else elim (cut_prefix p hash_prefix) as (λ _. Option ℕ) [
        | some text ↦ named_hashed text first
        | none ↦ lookup (to_lower p) first
      ]

  -- the loop of `removeAll` over the patterns of a line: those that stay, and the hosts that it names
  unfoldable pub strip : List (Bytes × ℕ) → List Bytes → List Bytes → List ℕ → List Bytes × List ℕ
  strip first [] rest hit = (rest, hit)
  strip first (p ∷ ps) rest hit = elim (named first p) as (λ _. List Bytes × List ℕ) [
    | none ↦ strip first ps (rest ++ p ∷ []) hit
    | some i ↦ strip first ps rest (add_place i hit)
  ]

  -- the end of the loop of `removeAll` over the entries, for a line of host keys
  unfoldable pub settle : Entry → List Bytes × List ℕ → Removal → Removal
  settle e (rest, []) r = record r { kept = r.kept ++ e ∷ [] }
  settle e ([], i ∷ hit) r = record r {
    counts = count_hits (i ∷ hit) r.counts;
    notes = change_at (last_place (i ∷ hit)) (λ above. above ++ e.notes) r.notes;
  }
  settle e (p ∷ rest, i ∷ hit) r = record r {
    kept = r.kept ++ (record e { hosts = p ∷ rest }) ∷ [];
    counts = count_hits (i ∷ hit) r.counts;
  }

  unfoldable pub remove_one : List (Bytes × ℕ) → Entry → Removal → Removal
  remove_one first e r =
      if not (is_host_key e)
      then record r { kept = r.kept ++ e ∷ [] }
      else settle e (strip first e.hosts [] []) r

  unfoldable pub remove_from : List (Bytes × ℕ) → List Entry → Removal → Removal
  remove_from first [] r = r
  remove_from first (e ∷ es) r = remove_from first es (remove_one first e r)

  -- removeAll
  unfoldable pub remove_all : List Bytes → List Entry → Removal
  remove_all hosts es =
      remove_from (first_places 0 hosts []) es
        (record { kept = []; counts = map (λ host. 0) hosts; notes = map (λ host. []) hosts })
