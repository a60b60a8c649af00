-- ===== src/Dhcp/Owning.antt =====
-- Which declarations the loop of `BootAddress` in internal/dhcp/dhcp.go takes.
use clusterctl.Prelude.{
  Bool, true, false, not, ◌&&◌, ◌||◌, none, some, List, [], ◌∷◌, ◌++◌, Bytes, eqb, eqb_iff,
  has_prefix, cut_prefix, Bool-cases, Option-cases, &&-true, if◌then◌else◌, ◌≡◌, ◌≢◌, ◌⊎◌, ◌↔◌,
  ◌==◌, append_assoc, refl, sym, ap, ◌∙◌, inl, inr, arith,
}
use clusterctl.Slurm.Separating.{has_prefix-append}
use clusterctl.Dhcp.{
  Host, MatchKind, by_interface, match_rest, match_name, look_up, is_own, found_in,
}

-- the declaration has the node's name, or the node's name is the first label of its name
unfoldable pub IsNamed : Bytes → Host → Type 0
IsNamed node h = (h.name ≡ node) ⊎ ((domain : Bytes) × (h.name ≡ node ++ b'.' ∷ domain))

-- a declaration that is named after the node and hands out an address
unfoldable pub HandsOut : Bytes → Host → Type 0
unfolding IsNamed
HandsOut node h = IsNamed node h × (h.address ≢ [])

has_prefix-rest : (p s : Bytes) → has_prefix s p ≡ true → (rest : Bytes) × (s ≡ p ++ rest)
unfolding has_prefix
has_prefix-rest [] s e = (s, refl)
has_prefix-rest (c ∷ p) [] e = absurd (cc)
has_prefix-rest (c ∷ p) (d ∷ s) e =
    let both : (d ≡ c) × (has_prefix s p ≡ true) = ground arith in
    let (rest, tail) = has_prefix-rest p s both.1 in let same : d ≡ c = both.0 in (rest, cc)

none≢some : (k : MatchKind) → none ≡ some k → ⊥
none≢some k e = absurd (cc)

full : (a : Bytes) → not (eqb a []) ≡ true → a ≢ []
full [] e h = absurd (cc)
full (c ∷ a) e h = absurd (cc)

filled : (a : Bytes) → a ≢ [] → not (eqb a []) ≡ true
filled [] h = absurd (h refl)
filled (c ∷ a) h = refl

unfoldable pub own : Bytes → Bytes → Bool
own node name = eqb name node || has_prefix name (node ++ b'.' ∷ [])

own_iff : (node : Bytes) (h : Host) → (own node h.name ≡ true) ↔ IsNamed node h
unfolding own IsNamed
own_iff node h = (
  λ e. elim (Bool-cases (eqb h.name node)) [
    | inl same ↦ inl ((eqb_iff h.name node).0 same)
    | inr differs ↦
        let (rest, tail) = has_prefix-rest (node ++ b'.' ∷ []) h.name (rw differs at e) in
        inr (rest, tail ∙ append_assoc node (b'.' ∷ []) rest)
  ],
  λ named. elim named [
    | inl same ↦ rw ((eqb_iff h.name node).1 same) refl
    | inr (domain, e) ↦
        let starts : has_prefix h.name (node ++ b'.' ∷ []) ≡ true =
          ap (λ t. has_prefix t (node ++ b'.' ∷ []))
            (e ∙ sym (append_assoc node (b'.' ∷ []) domain))
          ∙ has_prefix-append (node ++ b'.' ∷ []) domain in
        ground arith
  ],
)

unfoldable pub hands_out : Bytes → Host → Bool
hands_out node h = own node h.name && not (eqb h.address [])

pub hands_out_iff : (node : Bytes) (h : Host) → (hands_out node h ≡ true) ↔ HandsOut node h
unfolding hands_out HandsOut
hands_out_iff node h = (
  λ e.
      let both = &&-true (own node h.name) (not (eqb h.address [])) e in
      ((own_iff node h).0 both.0, λ none_. full h.address both.1 none_),
  λ (named, nonempty). rw ((own_iff node h).1 named) (filled h.address nonempty),
)

same_kind : (j k : MatchKind) → some j ≡ some k → is_own j ≡ is_own k
same_kind j k e = cc

match_rest-other : (rest : Bytes) (k : MatchKind) → match_rest rest ≡ some k → is_own k ≡ false
unfolding match_rest
match_rest-other [] k e = absurd (cc)
match_rest-other (c ∷ rest) k e = elim (Bool-cases (c == b'-' || c == b'_')) [
  | inl dash ↦ sym (same_kind by_interface k (rw dash at e))
  | inr plain ↦ absurd (none≢some k (rw plain at e))
]

-- what the loop of `BootAddress` takes of one declaration
pub found_in-one :
    (node : Bytes) (h : Host) (hs : List Host)
    → eqb node [] ≡ false
    → found_in (look_up node (h ∷ hs))
      ≡ (if hands_out node h then h ∷ found_in (look_up node hs) else found_in (look_up node hs))
unfolding look_up match_name found_in hands_out own
found_in-one node h hs e = elim (Bool-cases (own node h.name)) [
  | inl mine ↦ rw (look_up, match_name, e, mine) refl
  | inr other ↦ elim (Option-cases (cut_prefix h.name node)) [
    | inl no_start ↦ rw (look_up, match_name, e, other, no_start) refl
    | inr (rest, start) ↦ elim (Option-cases (match_rest rest)) [
      | inl no_kind ↦ rw (look_up, match_name, e, other, start, no_kind) refl
      | inr (k, kind) ↦
          let not_own : is_own k ≡ false = match_rest-other rest k kind in
          rw (look_up, match_name, e, other, start, kind, not_own) refl
    ]
  ]
]
