-- ===== src/Hostkeys/Wildcards.antt =====
-- What the patterns of a known_hosts line match.
use clusterctl.Prelude.{
  ℕ, Bool, true, false, [], ◌∷◌, ◌++◌, append_assoc, append-nil, Bytes, eqb_iff, ◌==◌, ==_iff,
  Bool-cases, if◌then◌else◌, ◌≡◌, ◌↔◌, ◌⊎◌, inl, inr, refl, sym, ap, ◌∙◌, arith,
}
use clusterctl.Hostkeys.{match_char, any_suffix, match_from, match_wildcard}

-- the texts of a pattern: `*` is any run of characters, `?` is one, and another character is itself
unfoldable pub Texts : Bytes → Bytes → Type 0
Texts [] s = s ≡ []
Texts (c ∷ p) s =
    ((c ≡ b'*') × (run : Bytes) × (rest : Bytes) × (s ≡ run ++ rest) × Texts p rest)
    ⊎ ((c ≡ b'*' → ⊥)
        × (d : ℕ) × (rest : Bytes) × (s ≡ d ∷ rest)
        × ((c ≡ b'?') ⊎ (c ≡ d))
        × Texts p rest)

-- a text past a run of any characters
abbrev Past : Bytes → Bytes → Type 0
Past p s = (run : Bytes) × (rest : Bytes) × (s ≡ run ++ rest) × Texts p rest

any_suffix-cases :
    (f : Bytes → Bool) (s : Bytes)
    → any_suffix f s ≡ true
    → (run : Bytes) × (rest : Bytes) × (s ≡ run ++ rest) × (f rest ≡ true)
unfolding any_suffix
any_suffix-cases f [] e = ([], [], refl, e)
any_suffix-cases f (d ∷ s) e = elim (Bool-cases (f (d ∷ s))) [
  | inl here ↦ ([], d ∷ s, refl, here)
  | inr later ↦
      let (run, rest, cut, found) = any_suffix-cases f s (ground arith) in
      (d ∷ run, rest, ap (λ t. d ∷ t) cut, found)
]

any_suffix-append :
    (f : Bytes → Bool) (run rest : Bytes) → f rest ≡ true → any_suffix f (run ++ rest) ≡ true
unfolding any_suffix
any_suffix-append f [] [] found = found
any_suffix-append f [] (d ∷ rest) found = ground arith
any_suffix-append f (d ∷ run) rest found = ground (arith, any_suffix-append f run rest found)

match_char-cases :
    (c : ℕ) (f : Bytes → Bool) (s : Bytes)
    → match_char c f s ≡ true
    → (d : ℕ) × (rest : Bytes) × (s ≡ d ∷ rest) × ((c ≡ b'?') ⊎ (c ≡ d)) × (f rest ≡ true)
unfolding match_char
match_char-cases c f [] e = absurd (cc)
match_char-cases c f (d ∷ s) e = elim (Bool-cases (c == b'?')) [
  | inl any ↦ (d, s, refl, inl (ground arith), ground arith)
  | inr other ↦ (d, s, refl, inr (ground arith), ground arith)
]

match_char-match :
    (c d : ℕ) (f : Bytes → Bool) (s : Bytes)
    → (c ≡ b'?') ⊎ (c ≡ d)
    → f s ≡ true
    → match_char c f (d ∷ s) ≡ true
unfolding match_char
match_char-match c d f s one e = ground arith

-- a text past one character that a character of a pattern stands for
abbrev One : ℕ → Bytes → Bytes → Type 0
One c p s = (d : ℕ) × (rest : Bytes) × (s ≡ d ∷ rest) × ((c ≡ b'?') ⊎ (c ≡ d)) × Texts p rest

abbrev past_one : ℕ → Bytes → Bytes → Bool
past_one c p s = match_char c (λ t. match_from false p t) s

match_from-star :
    (b : Bool) (c : ℕ) (p s : Bytes)
    → (c == b'*') ≡ true
    → match_from b (c ∷ p) s ≡ match_from true p s
unfolding match_from
match_from-star b c p s star = rw star refl

match_from-plain :
    (b : Bool) (c : ℕ) (p s : Bytes)
    → (c == b'*') ≡ false
    → match_from b (c ∷ p) s ≡ (if b then any_suffix (past_one c p) s else past_one c p s)
unfolding match_from
match_from-plain b c p s plain = rw plain refl

not_star : (c : ℕ) → (c == b'*') ≡ false → c ≡ b'*' → ⊥
not_star c plain e = ground arith

-- `*` once more
Past-star : (c : ℕ) (p s : Bytes) → c ≡ b'*' → Past p s ↔ Past (c ∷ p) s
unfolding Texts
Past-star c p s star = (
  λ (run, rest, cut, t). (run, rest, cut, inl (star, [], rest, refl, t)),
  λ (run, rest, cut, t). elim t [
    | inl (is, more, last, again, u) ↦
        (run ++ more, last, rw (append_assoc run more last) (rw (sym again) cut), u)
    | inr (other, d, last, again, one, u) ↦ absurd (other star)
  ],
)

match_from-Texts :
    (p s : Bytes)
    → (match_from false p s ≡ true → Texts p s) × (match_from true p s ≡ true → Past p s)
unfolding Texts
match_from-Texts [] s =
    unfold match_from in ((eqb_iff s []).0, λ _. (s, [], sym (append-nil s), refl))
match_from-Texts (c ∷ p) s = elim (Bool-cases (c == b'*')) [
  | inl star ↦
      let is = (==_iff c b'*').0 star in
      let past = (match_from-Texts p s).1 in
      (
        λ e.
            let (run, rest, cut, t) = past (sym (match_from-star false c p s star) ∙ e) in
            inl (is, run, rest, cut, t),
        λ e. (Past-star c p s is).0 (past (sym (match_from-star true c p s star) ∙ e)),
      )
  | inr plain ↦
      let one : (t : Bytes) → past_one c p t ≡ true → One c p t = λ t e.
        let (d, rest, cut, stands, found) = match_char-cases c (λ u. match_from false p u) t e in
        (d, rest, cut, stands, (match_from-Texts p rest).0 found) in
      (
        λ e.
            let (d, rest, cut, stands, t) = one s (sym (match_from-plain false c p s plain) ∙ e) in
            inr (not_star c plain, d, rest, cut, stands, t),
        λ e.
            let (run, rest, cut, found) =
              any_suffix-cases (past_one c p) s (sym (match_from-plain true c p s plain) ∙ e) in
            let (d, last, again, stands, t) = one rest found in
            (run, rest, cut, inr (not_star c plain, d, last, again, stands, t)),
      )
]

Texts-match_from :
    (p s : Bytes)
    → (Texts p s → match_from false p s ≡ true) × (Past p s → match_from true p s ≡ true)
unfolding Texts
Texts-match_from [] s = unfold match_from in ((eqb_iff s []).1, λ _. refl)
Texts-match_from (c ∷ p) s = elim (Bool-cases (c == b'*')) [
  | inl star ↦
      let is = (==_iff c b'*').0 star in
      let past = (Texts-match_from p s).1 in
      (
        λ t. match_from-star false c p s star ∙ elim t [
          | inl (again, run, rest, cut, u) ↦ past (run, rest, cut, u)
          | inr (other, d, rest, cut, one, u) ↦ absurd (other is)
        ],
        λ t. match_from-star true c p s star ∙ past ((Past-star c p s is).1 t),
      )
  | inr plain ↦
      let one : (t : Bytes) → Texts (c ∷ p) t → past_one c p t ≡ true = λ t u. elim u [
        | inl (is, run, rest, cut, v) ↦ absurd (not_star c plain is)
        | inr (other, d, rest, cut, stands, v) ↦ rw cut (
            match_char-match c d (λ w. match_from false p w) rest stands
              ((Texts-match_from p rest).0 v))
      ] in
      (
        λ t. match_from-plain false c p s plain ∙ one s t,
        λ (run, rest, cut, t).
            match_from-plain true c p s plain
            ∙ rw cut (any_suffix-append (past_one c p) run rest (one rest t)),
      )
]

-- matchWildcard holds for a pattern and a text just when the text is one of the pattern: each `*`
-- stands for any run of characters, each `?` for one character, and every other character for itself.
pub match_wildcard-Texts : (p s : Bytes) → (match_wildcard p s ≡ true) ↔ Texts p s
match_wildcard-Texts p s = ((match_from-Texts p s).0, (Texts-match_from p s).0)
