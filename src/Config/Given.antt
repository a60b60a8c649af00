-- ===== src/Config/Given.antt =====
-- What was given on the command line or in the environment: FromCommandLine of internal/config/effective.go.
use clusterctl.Prelude.{
  ℕ, zero, suc, ◌<◌, true, false, none, some, [], ◌∷◌, ◌++◌, Bytes, eqb_iff, length, length-append,
  Option-cases, Bool-cases, ◌==◌, ◌≡◌, ◌≢◌, ◌⊎◌, ◌↔◌, refl, sym, ◌∙◌, ap, arith, inl, inr,
  append_assoc,
}
use mathlib.Core.Option.{some-injective}
use clusterctl.Config.Tree.{Tree, Origin, origin_of, dot}
use clusterctl.Config.Document.{cut_last, is_dot}
use clusterctl.Config.Layers.{layer_environment, layer_flags}
use clusterctl.Config.Resolve.{is_command_layer, from_command_line, from_command_line_loop}

-- a dotted path, or a section that it is part of: what stands before one of its dots
abbrev pub Section : Bytes → Bytes → Type 0
Section q p = (q ≡ p) ⊎ ((r : Bytes) × (p ≡ q ++ dot ∷ r))

-- the nearest section of a path that has an origin, other than the empty one, has that of the environment
-- or of the flags
unfoldable pub IsGiven : Tree → Bytes → Type 0
IsGiven t p =
    (q : Bytes) × (o : Origin) × Section q p
    × (q ≢ [])
    × (origin_of t q ≡ some o)
    × ((o.layer ≡ layer_environment) ⊎ (o.layer ≡ layer_flags))
    × ((m : Bytes) → Section m p → Section q m → m ≢ q → origin_of t m ≡ none)

-- What the cut at the last dot leaves is a section, and every other section of the path is one of it.
cut_last-Section : (p t : Bytes) → cut_last is_dot p ≡ some t → Section t p
unfolding cut_last
cut_last-Section [] t e = absurd (cc)
cut_last-Section (c ∷ p) t e = elim (Option-cases (cut_last is_dot p)) [
  | inl whole ↦ elim (Bool-cases (c == dot)) [
    | inl here ↦
        let empty : t ≡ [] = ground arith in let same : c ≡ dot = ground arith in inr (p, cc)
    | inr other ↦ absurd (ground arith)
  ]
  | inr (u, part) ↦
      let cut : t ≡ c ∷ u = ground arith in
      elim (cut_last-Section p u part) [ inl same ↦ inl (cc) | inr (r, same) ↦ inr (r, cc) ]
]

cut_last-dot : (q r : Bytes) → (t : Bytes) × (cut_last is_dot (q ++ dot ∷ r) ≡ some t) × Section q t
unfolding cut_last
cut_last-dot [] r = elim (Option-cases (cut_last is_dot r)) [
  | inl whole ↦ ([], rw (cut_last, whole) refl, inl refl)
  | inr (u, part) ↦ (dot ∷ u, rw (cut_last, part) refl, inr (u, refl))
]
cut_last-dot (c ∷ q) r =
    let (t, part, inside) = cut_last-dot q r in
    (
      c ∷ t,
      rw (cut_last, part) refl,
      elim inside [
        | inl same ↦ inl (ap (λ s. c ∷ s) same)
        | inr (u, same) ↦ inr (u, ap (λ s. c ∷ s) same)
      ],
    )

Section-trans : (a b c : Bytes) → Section a b → Section b c → Section a c
Section-trans a b c (inl e) h = rw e h
Section-trans a b c (inr (r, e)) (inl f) = inr (r, sym f ∙ e)
Section-trans a b c (inr (r, e)) (inr (s, f)) =
    inr (r ++ dot ∷ s, f ∙ ap (λ x. x ++ dot ∷ s) e ∙ append_assoc a (dot ∷ r) (dot ∷ s))

Section-length : (a b : Bytes) → Section a b → (a ≡ b) ⊎ (length a < length b)
Section-length a b (inl e) = inl e
Section-length a b (inr (r, e)) = inr (omega (arith, ap length e, length-append a (dot ∷ r)))

Section-antisym : (a b : Bytes) → Section a b → Section b a → a ≡ b
Section-antisym a b h k = elim (Section-length a b h) [
  | inl e ↦ e
  | inr lt ↦ elim (Section-length b a k) [ inl e ↦ sym e | inr lt' ↦ absurd (omega arith) ]
]

cut_last-lt : (p t : Bytes) → cut_last is_dot p ≡ some t → length t < length p
unfolding cut_last
cut_last-lt [] t e = absurd (cc)
cut_last-lt (c ∷ p) t e = elim (Option-cases (cut_last is_dot p)) [
  | inl whole ↦ ground arith
  | inr (u, part) ↦ let shorter = cut_last-lt p u part in ground arith
]

-- A section is the path or another text.
Section-cases : (q p : Bytes) → Section q p → (q ≡ p) ⊎ (q ≢ p)
Section-cases q p (inl e) = inl e
Section-cases q p (inr (r, e)) =
    inr (λ same. omega (arith, ap length e, ap length same, length-append q (dot ∷ r)))

Section-nil : (q : Bytes) → Section q [] → q ≡ []
Section-nil q (inl e) = e
Section-nil [] (inr (r, e)) = refl
Section-nil (c ∷ q) (inr (r, e)) = absurd (cc)

none≢some : {A : Type 0} (x : A) → none ≡ some x → ⊥
none≢some x e = cc

false≢true : false ≡ true → ⊥
false≢true e = cc

layer_cases :
    (o : Origin)
    → is_command_layer o ≡ true
    → (o.layer ≡ layer_environment) ⊎ (o.layer ≡ layer_flags)
layer_cases o e = ground (arith, eqb_iff o.layer layer_environment, eqb_iff o.layer layer_flags)

of_layer :
    (o : Origin)
    → (o.layer ≡ layer_environment) ⊎ (o.layer ≡ layer_flags)
    → is_command_layer o ≡ true
of_layer o h = ground (arith, eqb_iff o.layer layer_environment, eqb_iff o.layer layer_flags)

-- A section of a path that is not the path is one of what the cut leaves.
Section-cut :
    (q p : Bytes)
    → Section q p
    → q ≢ p
    → (t : Bytes) × (cut_last is_dot p ≡ some t) × Section q t × (length t < length p)
Section-cut q p (inl e) ne = absurd (ne e)
Section-cut q p (inr (r, e)) ne =
    let (t, part, inside) = cut_last-dot q r in
    let cut : cut_last is_dot p ≡ some t = ap (cut_last is_dot) e ∙ part in
    (t, cut, inside, cut_last-lt p t cut)

-- A section of a path is the path, or a section of what the cut leaves.
Section-own : (m p u : Bytes) → cut_last is_dot p ≡ some u → Section m p → (m ≡ p) ⊎ Section m u
Section-own m p u part h = elim (Section-cases m p h) [
  | inl same ↦ inl same
  | inr ne ↦
      let (t, cut, inside, shorter) = Section-cut m p h ne in
      inr (rw (some-injective t u (sym cut ∙ part)) at inside)
]

-- The loop ends at each path, with fuel for every byte of it: what it says is whether the path was given.
loop-IsGiven :
    (f : ℕ) (t : Tree) (p : Bytes)
    → length p < f
    → from_command_line_loop f t p ≡ true
    → IsGiven t p
unfolding from_command_line_loop IsGiven
loop-IsGiven zero t p small e = absurd (omega arith)
loop-IsGiven (suc f) t [] small e = absurd (cc)
loop-IsGiven (suc f) t (c ∷ p) small e = elim (Option-cases (origin_of t (c ∷ p))) [
  | inr (o, own) ↦
      let from_layer : is_command_layer o ≡ true = rw (from_command_line_loop, own) at e in
      (
        c ∷ p,
        o,
        inl refl,
        (λ h. cc),
        own,
        layer_cases o from_layer,
        λ m inside around ne. absurd (ne (Section-antisym m (c ∷ p) inside around)),
      )
  | inl unset ↦ elim (Option-cases (cut_last is_dot (c ∷ p))) [
    | inl whole ↦ absurd (false≢true (rw (from_command_line_loop, unset, whole) at e))
    | inr (u, part) ↦
        let (q, o, inside, some_, own, layer, nearest) =
          loop-IsGiven f t u (omega (arith, cut_last-lt (c ∷ p) u part))
            (rw (from_command_line_loop, unset, part) at e) in
        (
          q,
          o,
          Section-trans q u (c ∷ p) inside (cut_last-Section (c ∷ p) u part),
          some_,
          own,
          layer,
          λ m within around ne. elim (Section-own m (c ∷ p) u part within) [
            | inl same ↦ rw same unset
            | inr above ↦ nearest m above around ne
          ],
        )
  ]
]

loop_given :
    (f : ℕ) (t : Tree) (p : Bytes)
    → length p < f
    → IsGiven t p
    → from_command_line_loop f t p ≡ true
unfolding from_command_line_loop IsGiven
loop_given zero t p small h = absurd (omega arith)
loop_given (suc f) t [] small (q, o, inside, some_, own, layer, nearest) =
    absurd (some_ (Section-nil q inside))
loop_given (suc f) t (c ∷ p) small (q, o, inside, some_, own, layer, nearest) =
    elim (Option-cases (origin_of t (c ∷ p))) [
      | inr (o', set) ↦ elim (Section-cases q (c ∷ p) inside) [
        | inl same ↦
            let same_origin : o ≡ o' =
              some-injective o o' (sym own ∙ ap (origin_of t) same ∙ set) in
            rw (from_command_line_loop, set) (rw same_origin at (of_layer o layer))
        | inr ne ↦
            absurd (none≢some o' (sym (nearest (c ∷ p) (inl refl) inside (λ e. ne (sym e))) ∙ set))
      ]
      | inl unset ↦ elim (Section-cases q (c ∷ p) inside) [
        | inl same ↦ absurd (none≢some o (sym unset ∙ ap (origin_of t) (sym same) ∙ own))
        | inr ne ↦
            let (u, part, above, shorter) = Section-cut q (c ∷ p) inside ne in
            rw (from_command_line_loop, unset, part)
              (loop_given f t u (omega arith) (
                q,
                o,
                above,
                some_,
                own,
                layer,
                λ m within around other.
                    nearest m (Section-trans m u (c ∷ p) within (cut_last-Section (c ∷ p) u part))
                      around other,
              ))
      ]
    ]

-- FromCommandLine holds of a path exactly when, of the path and the sections it is part of, the longest
-- that has an origin, the empty one aside, has that of the environment or of the flags.
pub from_command_line_iff : (t : Tree) (p : Bytes) → (from_command_line t p ≡ true) ↔ IsGiven t p
unfolding from_command_line
from_command_line_iff t p =
    (loop-IsGiven (suc (length p)) t p (omega arith), loop_given (suc (length p)) t p (omega arith))
