-- ===== src/Hostkeys/Plain.antt =====
-- What the patterns that are no hash, no negation and no wildcard match.
use clusterctl.Prelude.{
  ℕ, Bool, false, not, ◌&&◌, ◌||◌, none, List, [], ◌∷◌, Bytes, codes, eqb, ◌==◌, to_lower,
  lower_byte, has_prefix, cut_prefix, ◌≡◌, refl, ap, arith,
}
use clusterctl.Hostkeys.{
  match_char, match_from, match_pattern, matches_from, un_negated, is_wild, hash_prefix, Hashing,
}
use clusterctl.Hostkeys.Index.{is_special, any_special}

cut_prefix-has_prefix : (s t : Bytes) → has_prefix s t ≡ false → cut_prefix s t ≡ none
unfolding has_prefix cut_prefix
cut_prefix-has_prefix s [] e = absurd (cc)
cut_prefix-has_prefix [] (b ∷ t) e = refl
cut_prefix-has_prefix (a ∷ s) (b ∷ t) e = ground (arith, cut_prefix-has_prefix s t)

lower_byte-plain :
    (c : ℕ)
    → (c == b'*') ≡ false
    → (c == b'?') ≡ false
    → ((lower_byte c == b'*') ≡ false) × ((lower_byte c == b'?') ≡ false)
lower_byte-plain c a b = ground arith

is_wild-cons :
    (c : ℕ) (p : Bytes)
    → is_wild (c ∷ p) ≡ false
    → ((c == b'*') ≡ false) × ((c == b'?') ≡ false) × (is_wild p ≡ false)
is_wild-cons c p e = (ground arith, ground arith, ground arith)

pub match_from-plain :
    (p s : Bytes) → is_wild p ≡ false → match_from false (to_lower p) s ≡ eqb (to_lower p) s
unfolding match_from to_lower match_char
match_from-plain [] [] e = refl
match_from-plain [] (d ∷ s) e = refl
match_from-plain (c ∷ p) [] e =
    let (a, b, more) = is_wild-cons c p e in
    let (star, one) = lower_byte-plain c a b in rw star refl
match_from-plain (c ∷ p) (d ∷ s) e =
    let (a, b, more) = is_wild-cons c p e in
    let (star, one) = lower_byte-plain c a b in
    rw star rw one (ap (λ t. (lower_byte c == d) && t) (match_from-plain p s more))

-- whether a pattern that needs no matching is a name
unfoldable pub names_plainly : Bytes → List Bytes → Bool
names_plainly host [] = false
names_plainly host (p ∷ ps) = (not (is_special p) && eqb (to_lower p) host) || names_plainly host ps

un_negated-plain : (p : Bytes) → is_special p ≡ false → un_negated p ≡ p
unfolding un_negated cut_prefix
un_negated-plain p e = rw (cut_prefix-has_prefix p (codes "!") (ground arith)) refl

module _ (h : Hashing) where
  match_pattern-plain :
      (p host : Bytes)
      → is_special p ≡ false
      → match_pattern h (un_negated p) host ≡ eqb (to_lower p) host
  unfolding match_pattern cut_prefix to_lower
  match_pattern-plain p host e =
      let clear = cut_prefix-has_prefix p hash_prefix (ground arith) in
      rw (un_negated-plain p e) rw clear (match_from-plain p host (ground arith))

  -- a line without a negation, a hash and a wildcard covers no name but its own
  pub matches_from-plain :
      (ps : List Bytes) (host : Bytes)
      → any_special ps ≡ false
      → names_plainly host ps ≡ false
      → matches_from h false ps host ≡ false
  unfolding matches_from any_special names_plainly
  matches_from-plain [] host e f = refl
  matches_from-plain (p ∷ ps) host e f =
      let plain : is_special p ≡ false = ground arith in
      let other : eqb (to_lower p) host ≡ false = ground arith in
      let ih = matches_from-plain ps host (ground arith) (ground arith) in
      rw (match_pattern-plain p host plain) rw other ih
