-- ===== src/Slurm/Checking.antt =====
-- What CheckNodes lets through.
use clusterctl.Prelude.{
  true, false, none, List, [], ◌∷◌, Bytes, ok, Bool-cases, All, Exists, any, codes, equal_fold,
  trim_space, ◌≡◌, ◌≢◌, ◌↔◌, ◌⊎◌, sym, ap, ◌∙◌, arith, inl, inr,
}
use clusterctl.NodeSet.{NodeSets, Laws, Contains}
use clusterctl.Slurm.Act.{Act, Session, ◌>>=◌, lift, require}
use clusterctl.Slurm.Inverting.{next_of-ok, require-ok}
use clusterctl.Slurm.Client.{Client, read_lines}
use clusterctl.Slurm.Nodes.{
  is_host_name, refuse_all, add_lines, compare_nodes, check_nodes, check_query,
}

-- no name of the list is spelled like the word that means every node
abbrev pub NotAll : Bytes → Type 0
NotAll name = equal_fold name (codes "all") ≡ false

any-NotAll :
    (names : List Bytes)
    → any (λ name. equal_fold name (codes "all")) names ≡ false
    → All NotAll names
any-NotAll [] h = tt
any-NotAll (x ∷ names) h = (ground arith, any-NotAll names (ground arith))

-- a line that gives the name
abbrev pub Names : Bytes → Bytes → Type 0
Names x line = trim_space line ≡ x

module _ (n : NodeSets) (l : Laws n)
    (names : (x : Bytes) → is_host_name x ≡ true → l.IsName x) where
  open n use {NodeSet, empty, add, difference, is_empty, expand}

  add_lines-good :
      (got next : NodeSet) (line : Bytes) (ls : List Bytes)
      → is_host_name (trim_space line) ≡ true
      → add got (trim_space line) ≡ ok next
      → add_lines n got (line ∷ ls) ≡ add_lines n next ls
  unfolding add_lines
  add_lines-good got next line ls good added = rw (add_lines, good, added)

  add_lines-bad :
      (got out : NodeSet) (line : Bytes) (ls : List Bytes)
      → is_host_name (trim_space line) ≡ false
      → add_lines n got (line ∷ ls) ≢ ok out
  unfolding add_lines
  add_lines-bad got out line ls bad e = ground arith

  add_lines-member :
      (got out : NodeSet) (ls : List Bytes)
      → add_lines n got ls ≡ ok out
      → (x : Bytes) → Contains n out x ↔ (Contains n got x ⊎ Exists (Names x) ls)
  add_lines-member got out [] e x =
      let same : got ≡ out = unfold add_lines in cc in rw (sym same) ground arith
  add_lines-member got out (line ∷ ls) e x = elim (Bool-cases (is_host_name (trim_space line))) [
    | inr bad ↦ absurd (add_lines-bad got out line ls bad e)
    | inl good ↦
        let (next, added, grown) =
          l.add_name got (trim_space line) (names (trim_space line) good) in
        let ih =
          add_lines-member next out ls (sym (add_lines-good got next line ls good added) ∙ e) x in
        let member = grown x in ground arith
  ]

  compare_nodes-same :
      (ns got : NodeSet)
      → compare_nodes n ns got ≡ none
      → (x : Bytes) → Contains n ns x ↔ Contains n got x
  unfolding compare_nodes
  compare_nodes-same ns got e x = grind (
    arith,
    l.is_empty_iff (difference got ns),
    l.is_empty_iff (difference ns got),
    l.contains-difference got ns x,
    l.contains-difference ns got x,
  )

  refuse_all-none :
      (ns : NodeSet)
      → refuse_all n ns ≡ none
      → any (λ name. equal_fold name (codes "all")) (expand ns) ≡ false
  unfolding refuse_all
  refuse_all-none ns e = ground arith

  -- Where CheckNodes lets a set through, no name of it is the word for every node, and the set is what
  -- sinfo listed for it: a host is in the set exactly when a line of the answer names it.
  pub check_nodes-exact :
      {W : Type 0} (c : Client W) (ns : NodeSet) (s t : Session W)
      → check_nodes n c ns s ≡ (ok tt, t)
      → All NotAll (expand ns)
        × ((ls : List Bytes) × (read_lines c (check_query n ns) s ≡ (ok ls, t))
            × ((x : Bytes) → Contains n ns x ↔ Exists (Names x) ls))
  unfolding check_nodes
  check_nodes-exact {W} c ns s t e =
      let compared : NodeSet → Act W (Unit {0}) = λ got. require (compare_nodes n ns got) in
      let listed : List Bytes → Act W (Unit {0}) = λ ls. lift (add_lines n empty ls) >>= compared in
      let asked : Unit {0} → Act W (Unit {0}) = λ _. read_lines c (check_query n ns) >>= listed in
      let (u, s1, e1, more) = next_of-ok asked (require (refuse_all n ns) s) tt t e in
      let (ls, s2, e2, rest) = next_of-ok listed (read_lines c (check_query n ns) s1) tt t more in
      let (got, s3, e3, last) = next_of-ok compared (add_lines n empty ls, s2) tt t rest in
      let (none_all, kept1) = require-ok (refuse_all n ns) s s1 u e1 in
      let (same, kept3) = require-ok (compare_nodes n ns got) s3 t tt last in
      let members = add_lines-member empty got ls (ap (λ p. p.0) e3) in
      (
        any-NotAll (expand ns) (refuse_all-none ns none_all),
        (
          ls,
          ap (read_lines c (check_query n ns)) kept1
              ∙ e2
              ∙ ap (λ q. (ok ls, q)) (ap (λ p. p.1) e3 ∙ kept3),
          λ x.
              let alike = compare_nodes-same ns got same x in
              let member = members x in let absent = l.contains-empty x in ground arith,
        ),
      )
