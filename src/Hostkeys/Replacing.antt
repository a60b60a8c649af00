-- ===== src/Hostkeys/Replacing.antt =====
-- Add and ReplaceAll of a known_hosts file.
use clusterctl.Prelude.{
  ℕ, zero, suc, Bool, false, ◌&&◌, Option, none, some, List, [], ◌∷◌, ◌++◌, Bytes, eqb, ◌==◌,
  if◌then◌else◌, to_lower, lookup,
}
use clusterctl.Hostkeys.{Entry, is_host_key, Hashing, names}
use clusterctl.Hostkeys.Removal.{change_at, remove_all}

abbrev pub or_notes : List Bytes → List Bytes → List Bytes
or_notes [] above = above
or_notes (n ∷ notes) above = n ∷ notes

-- `last` of `ReplaceAll`: the last binding of a name is first
unfoldable pub last_places : ℕ → List Bytes → List (Bytes × ℕ) → List (Bytes × ℕ)
last_places i [] last = last
last_places i (host ∷ hosts) last = last_places (suc i) hosts ((to_lower host, i) ∷ last)

-- the place of a name in `last`, zero where a Go map has no key
abbrev pub place_of : List (Bytes × ℕ) → Bytes → ℕ
place_of last name = elim (lookup name last) [ none ↦ 0 | some i ↦ i ]

unfoldable pub notes_at : ℕ → List (List Bytes) → List Bytes
notes_at i [] = []
notes_at zero (n ∷ notes) = n
notes_at (suc i) (n ∷ notes) = notes_at i notes

-- the notes of a host given twice, with those of the last
unfoldable pub carry_notes :
    List (Bytes × ℕ) → ℕ → List Bytes → List (List Bytes) → List (List Bytes)
carry_notes last i [] notes = notes
carry_notes last i (host ∷ hosts) notes =
    let j = place_of last (to_lower host) in
    carry_notes last (suc i) hosts
      (if j == i then notes else change_at j (λ own. notes_at i notes ++ own) notes)

-- the places of the keys that `ReplaceAll` has added, by name and type
unfoldable pub added_at : Bytes → Bytes → List ((Bytes × Bytes) × ℕ) → Option ℕ
added_at name type_of [] = none
added_at name type_of (((n, t), i) ∷ more) =
    let rest = added_at name type_of more in if eqb n name && eqb t type_of then some i else rest

-- the entries of `ReplaceAll`, and what it has added
pub record Added : Type 0 where
  pub entries : List Entry
  pub places : List ((Bytes × Bytes) × ℕ)

-- the length of a slice
abbrev pub entry_count : List Entry → ℕ
entry_count [] = 0
entry_count (e ∷ es) = suc (entry_count es)

-- `e.Notes = notes[i]` for the first key of a host
abbrev pub note_first : List Bytes → List Entry → List Entry
note_first above [] = []
note_first above (e ∷ es) = (record e { notes = or_notes e.notes above }) ∷ es

module _ (h : Hashing) where
  -- whether `Add` puts an entry in place of another
  unfoldable pub replaces : Entry → List Bytes → List Bytes → Entry → Bool
  replaces e (host ∷ more) (p ∷ []) old =
      is_host_key old && eqb old.type_of e.type_of && names h p host
  replaces e hosts ps old = false

  -- Add
  unfoldable pub add : Entry → List Entry → List Entry
  add e [] = e ∷ []
  add e (old ∷ es) =
      let rest = add e es in
      if replaces e e.hosts old.hosts old
      then (record e { notes = or_notes e.notes old.notes }) ∷ es
      else old ∷ rest

  -- the key of a host in the list, from the test of `added` on
  unfoldable pub put_listed : Bytes → Entry → Added → Added
  put_listed name e a = elim (added_at name e.type_of a.places) as (λ _. Added) [
    | some k ↦ record a {
      entries = change_at k (λ old. record e { notes = or_notes e.notes old.notes }) a.entries;
    }
    | none ↦ record {
      entries = a.entries ++ e ∷ [];
      places = ((name, e.type_of), entry_count a.entries) ∷ a.places;
    }
  ]

  -- the inner loop of `ReplaceAll` on one key
  unfoldable pub put_key : List (Bytes × ℕ) → List Bytes → Entry → Added → Added
  put_key last [] e a = record a { entries = a.entries ++ e ∷ [] }
  put_key last (host ∷ hosts) e a = elim (lookup (to_lower host) last) as (λ _. Added) [
    | none ↦ record a { entries = add e a.entries }
    | some i ↦ put_listed (to_lower host) e a
  ]

  unfoldable pub put_keys : List (Bytes × ℕ) → List Entry → Added → Added
  put_keys last [] a = a
  put_keys last (e ∷ es) a = put_keys last es (put_key last e.hosts e a)

  -- the last loop of `ReplaceAll`
  unfoldable pub put_hosts :
      (Bytes → List Entry) → List (Bytes × ℕ) → ℕ → List Bytes → List (List Bytes) → Added → Added
  put_hosts keys last i [] notes a = a
  put_hosts keys last i (host ∷ hosts) notes a = put_hosts keys last (suc i) hosts notes (
      if place_of last (to_lower host) == i
      then put_keys last (note_first (notes_at i notes) (keys host)) a
      else a)

  -- ReplaceAll
  unfoldable pub replace_all : List Bytes → (Bytes → List Entry) → List Entry → List Entry
  replace_all hosts keys es =
      let r = remove_all h hosts es in
      let last = last_places 0 hosts [] in
      (put_hosts keys last 0 hosts (carry_notes last 0 hosts r.notes)
        (record { entries = r.kept; places = [] })).entries
