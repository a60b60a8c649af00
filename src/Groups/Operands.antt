-- ===== src/Groups/Operands.antt =====
-- What an operand of a union reads back as.
use clusterctl.Prelude.{
  ℕ, Bool, true, false, not, ◌&&◌, ◌||◌, Option, none, some, [], ◌∷◌, ◌++◌, append_assoc,
  append-nil, Bytes, ok, err, codes, eqb, ◌==◌, Bool-cases, pos, any, contains_byte, is_space,
  trim_space, trim_left, trim_right, cut_prefix, before, after, ◌≡◌, ◌⊎◌, refl, sym, ap, ◌∙◌, inl,
  inr, arith,
}
use clusterctl.Groups.{unreadable, has_operator, balanced, is_split, referable, union_operand}
use clusterctl.NodeExpr.{
  GroupRef, is_separator, cut_reference, term_refs, end_term, add_byte, group_refs_from, group_refs,
}

-- a character that stays in its term
record Stays (c : ℕ) : Type 0 where
  opens : (c == b'[') ≡ false
  closes : (c == b']') ≡ false
  separates : is_separator c ≡ false
  spaces : is_space c ≡ false

abbrev Plain : Bytes → Type 0
Plain s = any (λ c. is_split c) s ≡ false

is_split-Stays : (c : ℕ) → is_split c ≡ false → Stays c
is_split-Stays c e = record {
  opens = ground arith;
  closes = ground arith;
  separates = ground arith;
  spaces = ground arith;
}

Plain-cons : (c : ℕ) (s : Bytes) → Plain (c ∷ s) → Stays c × Plain s
Plain-cons c s plain = (is_split-Stays c (ground arith), ground arith)

Plain-append : (s t : Bytes) → Plain s → Plain t → Plain (s ++ t)
Plain-append [] t a b = b
Plain-append (c ∷ s) t a b = ground (arith, Plain-append s t)

group_refs_from-Stays :
    (text : Option Bytes) (c : ℕ) (s : Bytes)
    → Stays c
    → group_refs_from text (pos 0) (c ∷ s) ≡ group_refs_from (add_byte c text) (pos 0) s
unfolding group_refs_from
group_refs_from-Stays text c s stays = rw (stays.opens, stays.closes, stays.separates) refl

-- a term goes on over every character that does not end one
group_refs_from-Plain :
    (text s : Bytes) → Plain s → group_refs_from (some text) (pos 0) s ≡ end_term (some (text ++ s))
unfolding group_refs_from
group_refs_from-Plain text [] plain = ap (λ t. end_term (some t)) (sym (append-nil text))
group_refs_from-Plain text (c ∷ s) plain =
    let (stays, rest) = Plain-cons c s plain in
    group_refs_from-Stays (some text) c s stays
    ∙ group_refs_from-Plain (text ++ c ∷ []) s rest
    ∙ ap (λ t. end_term (some t)) (append_assoc text (c ∷ []) s)

trim_right-Plain : (s : Bytes) → Plain s → trim_right s ≡ s
unfolding trim_right
trim_right-Plain [] plain = refl
trim_right-Plain (c ∷ s) plain =
    let (stays, rest) = Plain-cons c s plain in rw (stays.spaces, trim_right-Plain s rest) refl

trim_left-Plain : (s : Bytes) → Plain s → trim_left s ≡ s
unfolding trim_left
trim_left-Plain [] plain = refl
trim_left-Plain (c ∷ s) plain = let (stays, rest) = Plain-cons c s plain in rw stays.spaces refl

before-append : (c : ℕ) (s t : Bytes) → contains_byte c s ≡ false → before c (s ++ c ∷ t) ≡ s
unfolding before
before-append c [] t free = let same : (c == c) ≡ true = ground arith in rw same refl
before-append c (b ∷ s) t free =
    let other : (b == c) ≡ false = ground arith in
    rw other (ap (λ r. b ∷ r) (before-append c s t (ground arith)))

after-append : (c : ℕ) (s t : Bytes) → contains_byte c s ≡ false → after c (s ++ c ∷ t) ≡ some t
unfolding after
after-append c [] t free = let same : (c == c) ≡ true = ground arith in rw same refl
after-append c (b ∷ s) t free =
    let other : (b == c) ≡ false = ground arith in rw other (after-append c s t (ground arith))

cut_reference-append :
    (source group : Bytes)
    → contains_byte b':' source ≡ false
    → cut_reference (source ++ b':' ∷ group) ≡ record { source = source; group = group }
unfolding cut_reference
cut_reference-append source group free =
    rw (cut_reference, after-append b':' source group free, before-append b':' source group free)
      refl

trim_space-Plain : (s : Bytes) → Plain s → trim_space s ≡ s
unfolding trim_space
trim_space-Plain s plain = rw (trim_left-Plain s plain) (trim_right-Plain s plain)

term_refs_of :
    (text rest : Bytes) (r : GroupRef)
    → trim_space text ≡ text
    → cut_prefix text (codes "@") ≡ some rest
    → cut_reference rest ≡ r
    → eqb r.group [] ≡ false
    → eqb r.group (codes "*") ≡ false
    → term_refs text ≡ r ∷ []
unfolding term_refs
term_refs_of text rest r trimmed cut found named one =
    rw (term_refs, trimmed, cut, found, named, one) refl

cut_prefix-at : (s : Bytes) → cut_prefix (b'@' ∷ s) (codes "@") ≡ some s
unfolding cut_prefix
cut_prefix-at [] = refl
cut_prefix-at (c ∷ s) = refl

term_refs-append :
    (source group : Bytes)
    → Plain (source ++ b':' ∷ group)
    → contains_byte b':' source ≡ false
    → eqb group [] ≡ false
    → eqb group (codes "*") ≡ false
    → term_refs (b'@' ∷ source ++ b':' ∷ group) ≡ record { source = source; group = group } ∷ []
term_refs-append source group plain free named one =
    let text : Bytes = source ++ b':' ∷ group in
    term_refs_of (b'@' ∷ text) text _ (trim_space-Plain (b'@' ∷ text) (ground (arith, plain)))
      (cut_prefix-at text) (cut_reference-append source group free) named one

abbrev reference : Bytes → Bytes → GroupRef
reference source group = record { source = source; group = group }

reference-Plain :
    (source group : Bytes) → Plain source → Plain group → Plain (source ++ b':' ∷ group)
reference-Plain source group a b = Plain-append source (b':' ∷ group) a b

group_refs-append :
    (source group : Bytes)
    → Plain source
    → Plain group
    → contains_byte b':' source ≡ false
    → eqb group [] ≡ false
    → eqb group (codes "*") ≡ false
    → group_refs (b'@' ∷ source ++ b':' ∷ group) ≡ reference source group ∷ []
unfolding group_refs
group_refs-append source group a b free named one =
    let rest = reference-Plain source group a b in
    group_refs_from-Stays none b'@' (source ++ b':' ∷ group) (is_split-Stays b'@' refl)
    ∙ group_refs_from-Plain (b'@' ∷ []) (source ++ b':' ∷ group) rest
    ∙ unfold end_term in term_refs-append source group rest free named one

module _ (wide_space : Bytes → Bool) (source group expr : Bytes) where
  abbrev stands : Bool
  stands = not (has_operator expr) && balanced expr

  abbrev refuses : Bool
  refuses =
      eqb group []
      || eqb group (codes "*")
      || not (referable wide_space group)
      || (not (referable wide_space source) || contains_byte b':' source)

  operand_stands : stands ≡ true → union_operand wide_space source group expr ≡ ok expr
  unfolding union_operand
  operand_stands e = rw e refl

  operand_refused :
      stands ≡ false
      → refuses ≡ true
      → union_operand wide_space source group expr ≡ err (unreadable source group)
  unfolding union_operand
  operand_refused e f = rw e rw f refl

  operand_refers :
      stands ≡ false
      → refuses ≡ false
      → union_operand wide_space source group expr ≡ ok (b'@' ∷ source ++ b':' ∷ group)
  unfolding union_operand
  operand_refers e f = rw e rw f refl

  -- What unionOperand writes for a group is its expression, where that holds no operator but the union
  -- and its brackets balance, or else a text in which the references of an expression are found to be
  -- just the one to the group in its source.
  pub union_operand-group_refs :
      (text : Bytes)
      → union_operand wide_space source group expr ≡ ok text
      → ((text ≡ expr) × (has_operator expr ≡ false) × (balanced expr ≡ true))
        ⊎ (group_refs text ≡ record { source = source; group = group } ∷ [])
  union_operand-group_refs text e = elim (Bool-cases stands) [
    | inl whole ↦
        let as_it_is = operand_stands whole in
        let same : text ≡ expr = cc in inl (same, ground arith, ground arith)
    | inr other ↦ elim (Bool-cases refuses) [
      | inl bad ↦ let refused = operand_refused other bad in absurd (cc)
      | inr good ↦
          let refers = operand_refers other good in
          let same : text ≡ b'@' ∷ source ++ b':' ∷ group = cc in
          inr (
            rw same (
              group_refs-append source group (ground arith) (ground arith) (ground arith)
                (ground arith) (ground arith)))
    ]
  ]
