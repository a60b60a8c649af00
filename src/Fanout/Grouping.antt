-- ===== src/Fanout/Grouping.antt =====
-- What GroupByOutput of internal/fanout/fanout.go says of the targets.
use clusterctl.Prelude.{
  Bool, true, false, none, some, List, [], ◌∷◌, Bytes, Result, ok, err, ◌>>=◌, Result-cases,
  Bool-cases, Option-cases, All, Exists, eqb_refl, ==_iff, ℤ, pos, negsuc, ◌≡◌, ◌⊎◌, refl, sym, ◌∙◌,
  inl, inr,
}
use clusterctl.ExitCode.{Error}
use clusterctl.Hostname
use clusterctl.NodeSet.{NodeSets, Laws, Contains}
use clusterctl.Fanout.{
  RemoteResult, Word, no_result, interrupted_word, unreachable, ok_word, exit_word, failed_word,
  status, name_of,
}
use clusterctl.Fanout.Groups.{
  Group, int_eqb, word_eqb, has_key, add_named, with_nodes, group_of, not_a_name, put_in_group,
  collect, insert_group, sort_groups, comes_before, group_by_output,
}

int_eqb_refl : (i : ℤ) → int_eqb i i ≡ true
int_eqb_refl (pos a) = (==_iff a a).1 refl
int_eqb_refl (negsuc a) = (==_iff a a).1 refl

word_eqb_refl : (w : Word) → word_eqb w w ≡ true
word_eqb_refl no_result = refl
word_eqb_refl interrupted_word = refl
word_eqb_refl unreachable = refl
word_eqb_refl ok_word = refl
word_eqb_refl (exit_word i) = int_eqb_refl i
word_eqb_refl failed_word = refl

value_of :
    {E A B : Type 0} (m : Result E A) (f : A → B) (b : B)
    → (m >>= (λ a. ok (f a))) ≡ ok b
    → (a : A) × (m ≡ ok a) × (f a ≡ b)
value_of (ok a) f b e = (a, refl, cc)
value_of (err x) f b e = absurd (cc)

module _ (n : NodeSets) (is_usage : Error → Bool) (l : Laws n)
    (names : (x : Bytes) → Hostname.check x ≡ none → l.IsName x) where
  open n use {NodeSet, empty, add}

  -- the group is that of the result's output and end, and holds its target
  pub Holds : RemoteResult → Group n is_usage → Type 0
  Holds r g = (has_key n is_usage g r ≡ true) × Contains n g.nodes (name_of r.target)

  add_named-ok :
      (s t : NodeSet) (r : RemoteResult)
      → Hostname.check (name_of r.target) ≡ none
      → add s (name_of r.target) ≡ ok t
      → add_named n is_usage s r ≡ ok t
  unfolding add_named
  add_named-ok s t r fine added = rw (add_named, fine, added)

  add_named-err :
      (s : NodeSet) (r : RemoteResult) (x : Hostname.Fault)
      → Hostname.check (name_of r.target) ≡ some x
      → add_named n is_usage s r ≡ err (not_a_name (name_of r.target))
  unfolding add_named
  add_named-err s r x bad = rw (add_named, bad)

  add_named-Contains :
      (s t : NodeSet) (r : RemoteResult)
      → add_named n is_usage s r ≡ ok t
      → Contains n t (name_of r.target) × ((y : Bytes) → Contains n s y → Contains n t y)
  add_named-Contains s t r e = elim (Option-cases (Hostname.check (name_of r.target))) [
    | inl fine ↦
        let (u, added, grown) = l.add_name s (name_of r.target) (names (name_of r.target) fine) in
        let same : ok u ≡ ok t = sym (add_named-ok s u r fine added) ∙ e in
        let here : u ≡ t = cc in
        rw (sym here) ((grown (name_of r.target)).1 (inr refl), λ y held. (grown y).1 (inl held))
    | inr (x, bad) ↦ let refused = add_named-err s r x bad in absurd (cc)
  ]

  put_in_group-same :
      (g : Group n is_usage) (gs : List (Group n is_usage)) (r : RemoteResult)
      → has_key n is_usage g r ≡ true
      → put_in_group n is_usage (g ∷ gs) r
        ≡ (add_named n is_usage g.nodes r >>= (λ nodes. ok (with_nodes n is_usage g nodes ∷ gs)))
  unfolding put_in_group
  put_in_group-same g gs r same = rw same

  put_in_group-other :
      (g : Group n is_usage) (gs : List (Group n is_usage)) (r : RemoteResult)
      → has_key n is_usage g r ≡ false
      → put_in_group n is_usage (g ∷ gs) r
        ≡ (put_in_group n is_usage gs r >>= (λ others. ok (g ∷ others)))
  unfolding put_in_group
  put_in_group-other g gs r other = rw other

  has_key-group_of :
      (r : RemoteResult) (nodes : NodeSet)
      → has_key n is_usage (group_of n is_usage r nodes) r ≡ true
  unfolding has_key
  has_key-group_of r nodes =
      rw (eqb_refl r.stdout, word_eqb_refl (status is_usage (some r)), int_eqb_refl r.exit_code)

  has_key-with_nodes :
      (g : Group n is_usage) (nodes : NodeSet) (r : RemoteResult)
      → has_key n is_usage (with_nodes n is_usage g nodes) r ≡ has_key n is_usage g r
  unfolding has_key
  has_key-with_nodes g nodes r = refl

  put_in_group-Holds :
      (gs next : List (Group n is_usage)) (r : RemoteResult)
      → put_in_group n is_usage gs r ≡ ok next
      → Exists (Holds r) next
  unfolding Holds
  put_in_group-Holds [] next r e =
      let (nodes, added, made) =
        value_of (add_named n is_usage empty r) (λ nodes. group_of n is_usage r nodes ∷ []) next
          (unfold put_in_group in e) in
      rw (sym made) (inl (has_key-group_of r nodes, (add_named-Contains empty nodes r added).0))
  put_in_group-Holds (g ∷ gs) next r e = elim (Bool-cases (has_key n is_usage g r)) [
    | inl same ↦
        let (nodes, added, made) =
          value_of (add_named n is_usage g.nodes r) (λ nodes. with_nodes n is_usage g nodes ∷ gs)
            next (sym (put_in_group-same g gs r same) ∙ e) in
        rw (sym made)
          (inl (has_key-with_nodes g nodes r ∙ same, (add_named-Contains g.nodes nodes r added).0))
    | inr other ↦
        let (others, put, made) =
          value_of (put_in_group n is_usage gs r) (λ others. g ∷ others) next
            (sym (put_in_group-other g gs r other) ∙ e) in
        rw (sym made) (inr (put_in_group-Holds gs others r put))
  ]

  put_in_group-keeps :
      (gs next : List (Group n is_usage)) (r q : RemoteResult)
      → put_in_group n is_usage gs r ≡ ok next
      → Exists (Holds q) gs
      → Exists (Holds q) next
  unfolding Holds
  put_in_group-keeps [] next r q e held = absurd held
  put_in_group-keeps (g ∷ gs) next r q e held = elim (Bool-cases (has_key n is_usage g r)) [
    | inl same ↦
        let (nodes, added, made) =
          value_of (add_named n is_usage g.nodes r) (λ nodes. with_nodes n is_usage g nodes ∷ gs)
            next (sym (put_in_group-same g gs r same) ∙ e) in
        rw (sym made) (elim held [
          | inl (key, member) ↦ inl (
            has_key-with_nodes g nodes q ∙ key,
            (add_named-Contains g.nodes nodes r added).1 (name_of q.target) member,
          )
          | inr later ↦ inr later
        ])
    | inr other ↦
        let (others, put, made) =
          value_of (put_in_group n is_usage gs r) (λ others. g ∷ others) next
            (sym (put_in_group-other g gs r other) ∙ e) in
        rw (sym made) (elim held [
          | inl here ↦ inl here
          | inr later ↦ inr (put_in_group-keeps gs others r q put later)
        ])
  ]

  collect-keeps :
      (gs next : List (Group n is_usage)) (rs : List RemoteResult) (q : RemoteResult)
      → collect n is_usage gs rs ≡ ok next
      → Exists (Holds q) gs
      → Exists (Holds q) next
  unfolding collect
  collect-keeps gs next [] q e held = let same : gs ≡ next = cc in rw (sym same) held
  collect-keeps gs next (r ∷ rs) q e held = elim (Result-cases (put_in_group n is_usage gs r)) [
    | inl (middle, put) ↦
        collect-keeps middle next rs q (rw put at e) (put_in_group-keeps gs middle r q put held)
    | inr (fault, failed) ↦ absurd (cc (rw failed at e))
  ]

  collect-Holds :
      (gs next : List (Group n is_usage)) (rs : List RemoteResult)
      → collect n is_usage gs rs ≡ ok next
      → All (λ r. Exists (Holds r) next) rs
  unfolding collect
  collect-Holds gs next [] e = tt
  collect-Holds gs next (r ∷ rs) e = elim (Result-cases (put_in_group n is_usage gs r)) [
    | inl (middle, put) ↦ (
      collect-keeps middle next rs r (rw put at e) (put_in_group-Holds gs middle r put),
      collect-Holds middle next rs (rw put at e),
    )
    | inr (fault, failed) ↦ absurd (cc (rw failed at e))
  ]

  insert_group-Exists :
      (P : Group n is_usage → Type 0) (g : Group n is_usage) (gs : List (Group n is_usage))
      → P g ⊎ Exists P gs
      → Exists P (insert_group n is_usage g gs)
  unfolding insert_group
  insert_group-Exists P g [] held = held
  insert_group-Exists P g (h ∷ hs) held = elim (Bool-cases (comes_before n is_usage g h)) [
    | inl first ↦ rw first held
    | inr later ↦ rw later (elim held [
      | inl here ↦ inr (insert_group-Exists P g hs (inl here))
      | inr (inl next) ↦ inl next
      | inr (inr rest) ↦ inr (insert_group-Exists P g hs (inr rest))
    ])
  ]

  sort_groups-Exists :
      (P : Group n is_usage → Type 0) (gs : List (Group n is_usage))
      → Exists P gs
      → Exists P (sort_groups n is_usage gs)
  unfolding sort_groups
  sort_groups-Exists P [] held = held
  sort_groups-Exists P (g ∷ gs) held =
      insert_group-Exists P g (sort_groups n is_usage gs)
        (elim held [ inl here ↦ inl here | inr rest ↦ inr (sort_groups-Exists P gs rest) ])

  sort_groups-All :
      (gs : List (Group n is_usage)) (rs : List RemoteResult)
      → All (λ r. Exists (Holds r) gs) rs
      → All (λ r. Exists (Holds r) (sort_groups n is_usage gs)) rs
  sort_groups-All gs [] held = tt
  sort_groups-All gs (r ∷ rs) (here, rest) =
      (sort_groups-Exists (Holds r) gs here, sort_groups-All gs rs rest)

  -- Where the results can be grouped, every target is in a group with its output, its exit status and
  -- the word for how it ended: none is dropped. Every name that passes the check is one name to the
  -- node sets.
  pub group_by_output-Holds :
      (rs : List RemoteResult) (gs : List (Group n is_usage))
      → group_by_output n is_usage rs ≡ ok gs
      → All (λ r. Exists (Holds r) gs) rs
  group_by_output-Holds rs gs e =
      let (unsorted, collected, sorted) =
        value_of (collect n is_usage [] rs) (λ gs. sort_groups n is_usage gs) gs
          (unfold group_by_output in e) in
      rw (sym sorted) (sort_groups-All unsorted rs (collect-Holds [] unsorted rs collected))
