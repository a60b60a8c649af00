-- ===== src/Hostkeys/Removed.antt =====
-- What RemoveAll leaves of a file.
use clusterctl.Prelude.{
  ℕ, true, false, not, ◌&&◌, none, some, List, [], ◌∷◌, ◌++◌, append_assoc, append-nil, Bytes,
  Bool-cases, Option-cases, if◌then◌else◌, ◌≡◌, refl, sym, ap, ◌∙◌, inl, inr, arith,
}
use clusterctl.Hostkeys.{Entry, is_host_key, Hashing}
use clusterctl.Hostkeys.Removal.{
  first_places, Removal, named, add_place, has_place, strip, settle, remove_one, remove_from,
  remove_all,
}
use clusterctl.Hostkeys.Naming.{
  any_of, is_empty, is_some, named_by, unnamed, left, left_of, named-named_by,
}

add_place-some : (i : ℕ) (hit : List ℕ) → is_empty (add_place i hit) ≡ false
add_place-some i [] = refl
add_place-some i (j ∷ hit) = elim (Bool-cases (has_place (j ∷ hit) i)) [
  | inl there ↦ rw there refl
  | inr new ↦ rw new refl
]

module _ (h : Hashing) (hosts : List Bytes) where
  abbrev first : List (Bytes × ℕ)
  first = first_places 0 hosts []

  strip-other :
      (p : Bytes) (ps rest : List Bytes) (hit : List ℕ)
      → named h first p ≡ none
      → strip h first (p ∷ ps) rest hit ≡ strip h first ps (rest ++ p ∷ []) hit
  unfolding strip
  strip-other p ps rest hit other = rw (strip, other) refl

  strip-named :
      (p : Bytes) (ps rest : List Bytes) (hit : List ℕ) (i : ℕ)
      → named h first p ≡ some i
      → strip h first (p ∷ ps) rest hit ≡ strip h first ps rest (add_place i hit)
  unfolding strip
  strip-named p ps rest hit i found = rw (strip, found) refl

  strip-unnamed :
      (ps rest : List Bytes) (hit : List ℕ)
      → ((strip h first ps rest hit).0 ≡ rest ++ unnamed h hosts ps)
        × (is_empty (strip h first ps rest hit).1
            ≡ (is_empty hit && not (any_of (named_by h hosts) ps)))
  strip-unnamed [] rest hit = unfold strip in (sym (append-nil rest), ground arith)
  strip-unnamed (p ∷ ps) rest hit =
      let known = named-named_by h hosts p in
      elim (Option-cases (named h first p)) [
        | inl other ↦
            let unnamed_here : named_by h hosts p ≡ false = sym known ∙ ap is_some other in
            let (texts, hits) = strip-unnamed ps (rest ++ p ∷ []) hit in
            rw (strip-other p ps rest hit other) rw unnamed_here
              (texts ∙ append_assoc rest (p ∷ []) (unnamed h hosts ps), hits)
        | inr (i, found) ↦
            let named_here : named_by h hosts p ≡ true = sym known ∙ ap is_some found in
            let (texts, hits) = strip-unnamed ps rest (add_place i hit) in
            let no_more : is_empty (strip h first ps rest (add_place i hit)).1
                ≡ (is_empty hit && false) =
              hits ∙ rw (add_place-some i hit) (ground arith) in
            rw (strip-named p ps rest hit i found) rw named_here (texts, no_more)
      ]

  settle-kept :
      (e : Entry) (rest : List Bytes) (hit : List ℕ) (r : Removal)
      → (settle h e (rest, hit) r).kept
        ≡ r.kept
          ++ (if is_empty hit
              then e ∷ []
              else if is_empty rest
              then []
              else (record e { hosts = rest }) ∷ [])
  unfolding settle
  settle-kept e rest [] r = refl
  settle-kept e [] (i ∷ hit) r = sym (append-nil r.kept)
  settle-kept e (p ∷ rest) (i ∷ hit) r = refl

  remove_one-left :
      (e : Entry) (r : Removal) → (remove_one h first e r).kept ≡ r.kept ++ left h hosts e
  unfolding remove_one
  remove_one-left e r = elim (Bool-cases (is_host_key e)) [
    | inr marked ↦ rw marked refl
    | inl key ↦
        let (texts, hits) = strip-unnamed e.hosts [] [] in
        let stripped = strip h first e.hosts [] [] in
        rw key (settle-kept e stripped.0 stripped.1 r ∙ rw texts rw hits refl)
  ]

  remove_from-left :
      (es : List Entry) (r : Removal)
      → (remove_from h first es r).kept ≡ r.kept ++ left_of h hosts es
  unfolding remove_from
  remove_from-left [] r = sym (append-nil r.kept)
  remove_from-left (e ∷ es) r =
      remove_from-left es (remove_one h first e r)
      ∙ ap (λ t. t ++ left_of h hosts es) (remove_one-left e r)
      ∙ append_assoc r.kept (left h hosts e) (left_of h hosts es)

  -- RemoveAll, which goes over the file once with a map of the hosts, leaves each entry as this
  -- describes it: a revocation, a certificate authority and a line none of whose patterns names a
  -- host of the list as they are; of another line the patterns that name none, and nothing of a line
  -- that has none of them.
  pub remove_all-left : (es : List Entry) → (remove_all h hosts es).kept ≡ left_of h hosts es
  unfolding remove_all
  remove_all-left es = remove_from-left es _
