-- ===== src/ShellQuote/RoundTrip.antt =====
-- The shell splits what `Join` writes into the arguments that it was given.
use mathlib.Core.List.{flat_map}
use mathlib.Core.Option
use clusterctl.Prelude.{
  ℕ, Bool, true, false, ◌&&◌, some, List, [], ◌∷◌, ◌++◌, append_assoc, append-nil, Bytes, all, All,
  ◌==◌, ◌≡◌, ◌≢◌, refl, sym, ◌∙◌, ap, arith, Bool-cases, inl, inr, ==_iff, ◌≤◌, ◌↔◌, length,
  length-append, join_with,
}
use clusterctl.ShellQuote.{safe_byte, safe, quote_byte, quote, join, apostrophe}
use clusterctl.ShellQuote.Splitting.{
  between, word, quoted, go, is_blank, is_plain, in_word, step, split_from, split,
}

abbrev pub NoNul : Bytes → Type 0
NoNul = All (λ c. c ≢ 0)

and-eq-true : (a b : Bool) → (a && b) ≡ true → (a ≡ true) × (b ≡ true)
and-eq-true a b h = ground arith

in_word_safe : (w : Bytes) (c : ℕ) → safe_byte c ≡ true → in_word w c ≡ go word (w ++ c ∷ [])
unfolding safe_byte in_word is_plain
in_word_safe w c h = ground arith

safe_byte-not_blank : (c : ℕ) → safe_byte c ≡ true → is_blank c ≡ false
unfolding safe_byte is_blank
safe_byte-not_blank c h = ground arith

step-between_safe : (w : Bytes) (c : ℕ) → safe_byte c ≡ true → step between w c ≡ go word (c ∷ [])
unfolding step
step-between_safe w c h = rw (safe_byte-not_blank c h) (in_word_safe [] c h)

step-word_safe : (w : Bytes) (c : ℕ) → safe_byte c ≡ true → step word w c ≡ go word (w ++ c ∷ [])
unfolding step
step-word_safe w c h = rw (safe_byte-not_blank c h) (in_word_safe w c h)

-- A run of safe bytes is read into the word as it stands.
split_from-safe :
    (a : Bytes) (w rest : Bytes)
    → all safe_byte a ≡ true
    → split_from (a ++ rest) word w ≡ split_from rest word (w ++ a)
unfolding split_from
split_from-safe [] w rest h = rw append-nil
split_from-safe (c ∷ a) w rest h =
    let (hc, ha) = and-eq-true (safe_byte c) (all safe_byte a) h in
    rw (step-word_safe w c hc, split_from)
      (split_from-safe a (w ++ c ∷ []) rest ha
        ∙ ap (split_from rest word) (append_assoc w (c ∷ []) a))

-- The quoted form of one byte is read as that byte.
split_from-quote_byte :
    (c : ℕ) (w rest : Bytes)
    → c ≢ 0
    → split_from (quote_byte c ++ rest) quoted w ≡ split_from rest quoted (w ++ c ∷ [])
unfolding split_from step in_word quote_byte is_blank
split_from-quote_byte c w rest h = elim (Bool-cases (c == apostrophe)) [
  | inl e ↦ rw (e, (==_iff c apostrophe).0 e) refl
  | inr e ↦ ground arith
]

-- The quoted form of a run of bytes is read back between the quotes.
split_from-quoted :
    (a : Bytes) (w rest : Bytes)
    → NoNul a
    → split_from (flat_map quote_byte a ++ rest) quoted w ≡ split_from rest quoted (w ++ a)
unfolding flat_map
split_from-quoted [] w rest h = rw append-nil
split_from-quoted (c ∷ a) w rest (hc, ha) = rw append_assoc (
    split_from-quote_byte c w (flat_map quote_byte a ++ rest) hc
    ∙ split_from-quoted a (w ++ c ∷ []) rest ha
    ∙ ap (split_from rest quoted) (append_assoc w (c ∷ []) a))

split_from-bare :
    (a rest : Bytes) → safe a ≡ true → split_from (a ++ rest) between [] ≡ split_from rest word a
unfolding safe split_from
split_from-bare [] rest h = cc
split_from-bare (c ∷ a) rest h =
    let (hc, ha) = and-eq-true (safe_byte c) (all safe_byte a) h in
    rw (step-between_safe [] c hc, split_from) (split_from-safe a (c ∷ []) rest ha)

split_from-wrapped :
    (a rest : Bytes)
    → NoNul a
    → split_from (apostrophe ∷ (flat_map quote_byte a ++ (apostrophe ∷ rest))) between []
      ≡ split_from rest word a
split_from-wrapped a rest h = opens ∙ split_from-quoted a [] (apostrophe ∷ rest) h ∙ closes
  where
    opens :
        split_from (apostrophe ∷ (flat_map quote_byte a ++ (apostrophe ∷ rest))) between []
        ≡ split_from (flat_map quote_byte a ++ (apostrophe ∷ rest)) quoted []
    opens = unfold split_from step in_word is_blank in refl

    closes : split_from (apostrophe ∷ rest) quoted ([] ++ a) ≡ split_from rest word a
    closes = unfold split_from step in refl

-- One quoted word is read whole.
split_from-quote :
    (a rest : Bytes) → NoNul a → split_from (quote a ++ rest) between [] ≡ split_from rest word a
unfolding quote
split_from-quote a rest h = elim (Bool-cases (safe a)) [
  | inl e ↦ rw e (split_from-bare a rest e)
  | inr e ↦ rw e (
      ap (λ s. split_from (apostrophe ∷ s) between [])
        (append_assoc (flat_map quote_byte a) (apostrophe ∷ []) rest)
      ∙ split_from-wrapped a rest h)
]

split_from-next :
    (a s : Bytes) → split_from (32 ∷ s) word a ≡ Option.map (λ vs. a ∷ vs) (split_from s between [])
unfolding split_from step is_blank
split_from-next a s = refl

split_from-join :
    (args : List Bytes) → All NoNul args → split_from (join args) between [] ≡ some args
unfolding join join_with
split_from-join [] h = unfold split_from in refl
split_from-join (a ∷ []) (h, _) =
    ap (λ s. split_from s between []) (sym (append-nil (quote a)))
    ∙ split_from-quote a [] h
    ∙ unfold split_from in refl
split_from-join (a ∷ b ∷ args) (h, hs) =
    split_from-quote a (32 ∷ join (b ∷ args)) h
    ∙ split_from-next a (join (b ∷ args))
    ∙ rw (split_from-join (b ∷ args) hs)

-- For any argument vector whose arguments hold no NUL byte, the shell splits the line that `Join`
-- writes into exactly those arguments.
pub split-join : (args : List Bytes) → All NoNul args → split (join args) ≡ some args
unfolding split
split-join args h = split_from-join args h

length-quote_byte : (c : ℕ) → 1 ≤ length (quote_byte c)
unfolding quote_byte
length-quote_byte c = ground arith

length-flat_map : (s : Bytes) → length s ≤ length (flat_map quote_byte s)
unfolding flat_map
length-flat_map [] = omega arith
length-flat_map (c ∷ s) = omega (
  arith,
  length-append (quote_byte c) (flat_map quote_byte s),
  length-quote_byte c,
  length-flat_map s,
)

wrapped-ne : (s : Bytes) → (apostrophe ∷ (flat_map quote_byte s ++ apostrophe ∷ [])) ≢ s
wrapped-ne s e =
    omega (
      arith,
      ap length e,
      length-append (flat_map quote_byte s) (apostrophe ∷ []),
      length-flat_map s,
    )

-- A word is written as it stands exactly when it is not empty and every byte of it is safe.
pub quote_bare_iff : (s : Bytes) → (quote s ≡ s) ↔ ((s ≢ []) × (all safe_byte s ≡ true))
unfolding quote safe
quote_bare_iff [] = ground (arith, wrapped-ne [])
quote_bare_iff (c ∷ s) = elim (Bool-cases (safe (c ∷ s))) [
  | inl e ↦ (λ _. (λ x. cc, e), λ _. rw e)
  | inr e ↦ (λ q. absurd (wrapped-ne (c ∷ s) (rw e at q)), λ h. cc)
]
