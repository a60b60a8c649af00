-- ===== src/Dhcp/Reading.antt =====
-- tokenize of internal/dhcp/dhcp.go reads back what is written out.
use clusterctl.Prelude.{
  ℕ, ◌+◌, Bool, true, false, ◌||◌, List, [], ◌∷◌, ◌++◌, map, Bytes, Result, ok, err, ◌==◌,
  if◌then◌else◌, All, Bool-cases, append_assoc, append-nil, ◌≡◌, refl, sym, ap, ◌∙◌, inl, inr,
  arith,
}
use clusterctl.Dhcp.Tokens.{
  TokenKind, word_token, string_token, Token, is_delimiter, is_blank, Mode, between, word, string,
  escaped, State, start, in_string, read_byte, before_rest, tokens_from, tokenize,
}
use clusterctl.Dhcp.Printing.{
  Piece, bare, quoted, semicolon, open_brace, close_brace, comma, escape, print_piece, print, Read,
  read_of, reads_of, piece_read, IsPiece,
}

ok-same : (a b : List Read) → ◌≡◌ {A = Result ℕ (List Read)} (ok a) (ok b) → a ≡ b
ok-same a b e = cc

reads_of-cons :
    (t : Token) (r : Result ℕ (List Token)) (rs : List Read)
    → reads_of r ≡ ok rs
    → reads_of (before_rest (t ∷ []) r) ≡ ok (read_of t ∷ rs)
reads_of-cons t (ok ts) rs e =
    let same : map read_of ts ≡ rs = ok-same (map read_of ts) rs e in
    ap (λ x. ok (read_of t ∷ x)) same
reads_of-cons t (err x) rs e = absurd (cc)

before_rest-nil : (r : Result ℕ (List Token)) → before_rest [] r ≡ r
before_rest-nil (ok ts) = refl
before_rest-nil (err e) = refl

abbrev in_mode : Mode → ℕ → Bool → State
in_mode m line first = record { mode = m; line = line; first = first }

abbrev token : TokenKind → Bytes → ℕ → Bool → Token
token kind text line first = record { kind = kind; text = text; line = line; first = first }

-- A word goes on up to the space behind it.
tokens_from-word :
    (acc w : Bytes) (l : ℕ) (f : Bool) (rest : Bytes)
    → All (λ c. is_delimiter c ≡ false) w
    → tokens_from (in_mode (word acc) l f) (w ++ 32 ∷ rest)
      ≡ before_rest
          (token word_token (acc ++ w) l f ∷ [])
          (tokens_from (in_mode between l false) rest)
unfolding tokens_from read_byte start
tokens_from-word acc [] l f rest h =
    ap (λ t. before_rest (token word_token t l f ∷ []) (tokens_from (in_mode between l false) rest))
      (sym (append-nil acc))
tokens_from-word acc (c ∷ w) l f rest (plain, h) = rw plain (
    before_rest-nil _
    ∙ tokens_from-word (acc ++ c ∷ []) w l f rest h
    ∙ ap
        (λ t.
          before_rest (token word_token t l f ∷ []) (tokens_from (in_mode between l false) rest))
        (append_assoc acc (c ∷ []) w))

-- the line after a text
unfoldable lines_after : ℕ → Bytes → ℕ
lines_after l [] = l
lines_after l (c ∷ s) = lines_after (if c == 10 then l + 1 else l) s

longer :
    (acc : Bytes) (c : ℕ) (t : Bytes) (from l : ℕ) (f : Bool) (rest : Bytes)
    → before_rest
        (token string_token ((acc ++ c ∷ []) ++ t) from f ∷ [])
        (tokens_from (in_mode between (lines_after l t) false) rest)
      ≡ before_rest
          (token string_token (acc ++ c ∷ t) from f ∷ [])
          (tokens_from (in_mode between (lines_after l t) false) rest)
longer acc c t from l f rest =
    ap
      (λ x.
        before_rest (token string_token x from f ∷ [])
          (tokens_from (in_mode between (lines_after l t) false) rest))
      (append_assoc acc (c ∷ []) t)

escape-special :
    (c : ℕ) (t : Bytes) → (c == 34 || c == 92) ≡ true → escape (c ∷ t) ≡ 92 ∷ c ∷ escape t
unfolding escape
escape-special c t e = rw e refl

escape-plain : (c : ℕ) (t : Bytes) → (c == 34 || c == 92) ≡ false → escape (c ∷ t) ≡ c ∷ escape t
unfolding escape
escape-plain c t e = rw e refl

-- The byte behind a backslash, when it is one that is escaped.
tokens_from-escaped :
    (acc : Bytes) (c from l : ℕ) (f : Bool) (rest : Bytes)
    → (c == 34 || c == 92) ≡ true
    → tokens_from (in_mode (escaped from acc) l f) (c ∷ rest)
      ≡ tokens_from (in_mode (string from (acc ++ c ∷ [])) l f) rest
unfolding tokens_from read_byte
tokens_from-escaped acc c from l f rest e = rw e (before_rest-nil _)

-- A byte that stands for itself.
tokens_from-itself :
    (acc : Bytes) (c from l : ℕ) (f : Bool) (rest : Bytes)
    → (c == 34) ≡ false
    → (c == 92) ≡ false
    → tokens_from (in_mode (string from acc) l f) (c ∷ rest)
      ≡ tokens_from (in_mode (string from (acc ++ c ∷ [])) (if c == 10 then l + 1 else l) f) rest
unfolding tokens_from read_byte in_string
tokens_from-itself acc c from l f rest q b = elim (Bool-cases (c == 10)) [
  | inl line ↦ rw (q, b, line) (before_rest-nil _)
  | inr same ↦ rw (q, b, same) (before_rest-nil _)
]

tokens_from-backslash :
    (acc : Bytes) (from l : ℕ) (f : Bool) (rest : Bytes)
    → tokens_from (in_mode (string from acc) l f) (92 ∷ rest)
      ≡ tokens_from (in_mode (escaped from acc) l f) rest
unfolding tokens_from read_byte in_string
tokens_from-backslash acc from l f rest = before_rest-nil _

same_line : (c l : ℕ) → (c == 34 || c == 92) ≡ true → (if c == 10 then l + 1 else l) ≡ l
same_line c l e = let no_line : (c == 10) ≡ false = ground arith in rw no_line refl

-- A string goes on up to its closing quote, and a byte that is escaped stands for itself.
tokens_from-string :
    (acc t : Bytes) (from l : ℕ) (f : Bool) (rest : Bytes)
    → tokens_from (in_mode (string from acc) l f) (escape t ++ 34 ∷ 32 ∷ rest)
      ≡ before_rest
          (token string_token (acc ++ t) from f ∷ [])
          (tokens_from (in_mode between (lines_after l t) false) rest)
unfolding tokens_from read_byte start in_string escape lines_after
tokens_from-string acc [] from l f rest =
    ap (before_rest (token string_token acc from f ∷ []))
      (before_rest-nil (tokens_from (in_mode between l false) rest))
    ∙ ap
        (λ x.
          before_rest (token string_token x from f ∷ [])
            (tokens_from (in_mode between l false) rest))
        (sym (append-nil acc))
tokens_from-string acc (c ∷ t) from l f rest = elim (Bool-cases (c == 34 || c == 92)) [
  | inl special ↦
      let tail = 34 ∷ 32 ∷ rest in
      ap (λ x. tokens_from (in_mode (string from acc) l f) (x ++ tail)) (escape-special c t special)
      ∙ tokens_from-backslash acc from l f (c ∷ (escape t ++ tail))
      ∙ tokens_from-escaped acc c from l f (escape t ++ tail) special
      ∙ tokens_from-string (acc ++ c ∷ []) t from l f rest
      ∙ longer acc c t from l f rest
      ∙ ap
          (λ k.
            before_rest (token string_token (acc ++ c ∷ t) from f ∷ [])
              (tokens_from (in_mode between (lines_after k t) false) rest))
          (sym (same_line c l special))
  | inr plain ↦
      let no_quote : (c == 34) ≡ false = ground arith in
      let no_escape : (c == 92) ≡ false = ground arith in
      let tail = 34 ∷ 32 ∷ rest in
      let next = if c == 10 then l + 1 else l in
      ap (λ x. tokens_from (in_mode (string from acc) l f) (x ++ tail)) (escape-plain c t plain)
      ∙ tokens_from-itself acc c from l f (escape t ++ tail) no_quote no_escape
      ∙ tokens_from-string (acc ++ c ∷ []) t from next f rest
      ∙ longer acc c t from next f rest
]

-- A byte that ends no word starts one.
tokens_from-starts :
    (c l : ℕ) (f : Bool) (rest : Bytes)
    → is_delimiter c ≡ false
    → tokens_from (in_mode between l f) (c ∷ rest) ≡ tokens_from (in_mode (word (c ∷ [])) l f) rest
unfolding tokens_from read_byte start
tokens_from-starts c l f rest plain =
    let line : (c == 10) ≡ false = ground arith in
    let blank : is_blank c ≡ false = ground arith in
    let hash : (c == b'#') ≡ false = ground arith in
    let quote : (c == 34) ≡ false = ground arith in
    let semi : (c == b';') ≡ false = ground arith in
    let opens : (c == b'{') ≡ false = ground arith in
    let closes : (c == b'}') ≡ false = ground arith in
    let list : (c == b',') ≡ false = ground arith in
    rw (line, blank, hash, quote, semi, opens, closes, list) (before_rest-nil _)

-- What is read after the tokens of a piece is read as if it stood alone.
tokens_from-print :
    (ps : List Piece) (l : ℕ) (f : Bool)
    → All IsPiece ps
    → reads_of (tokens_from (in_mode between l f) (print ps)) ≡ ok (map piece_read ps)
unfolding print print_piece piece_read tokens_from read_byte start in_string IsPiece
tokens_from-print [] l f h = refl
tokens_from-print (bare [] ∷ ps) l f ((full, _), h) = absurd (full refl)
tokens_from-print (bare (c ∷ w) ∷ ps) l f ((full, (plain, hw)), h) =
    ap (λ x. reads_of (tokens_from (in_mode between l f) (c ∷ x)))
      (append_assoc w (32 ∷ []) (print ps))
    ∙ ap reads_of (
        tokens_from-starts c l f (w ++ 32 ∷ print ps) plain
        ∙ tokens_from-word (c ∷ []) w l f (print ps) hw)
    ∙ reads_of-cons _ _ _ (tokens_from-print ps l false h)
tokens_from-print (quoted s ∷ ps) l f (_, h) =
    ap (λ x. reads_of (tokens_from (in_mode between l f) (34 ∷ x)))
      (append_assoc (escape s) (34 ∷ 32 ∷ []) (print ps))
    ∙ ap reads_of (before_rest-nil _ ∙ tokens_from-string [] s l l f (print ps))
    ∙ reads_of-cons _ _ _ (tokens_from-print ps (lines_after l s) false h)
tokens_from-print (semicolon ∷ ps) l f (_, h) =
    reads_of-cons _ _ _ (ap reads_of (before_rest-nil _) ∙ tokens_from-print ps l false h)
tokens_from-print (open_brace ∷ ps) l f (_, h) =
    reads_of-cons _ _ _ (ap reads_of (before_rest-nil _) ∙ tokens_from-print ps l false h)
tokens_from-print (close_brace ∷ ps) l f (_, h) =
    reads_of-cons _ _ _ (ap reads_of (before_rest-nil _) ∙ tokens_from-print ps l false h)
tokens_from-print (comma ∷ ps) l f (_, h) =
    reads_of-cons _ _ _ (ap reads_of (before_rest-nil _) ∙ tokens_from-print ps l false h)

-- Pieces that are written out one behind the other, each with a space behind it, are read back: the tokens
-- have their kinds and texts, in their order. A word is not empty and has no byte that ends words; a string
-- may have any bytes.
pub tokenize-print :
    (ps : List Piece) → All IsPiece ps → reads_of (tokenize (print ps)) ≡ ok (map piece_read ps)
unfolding tokenize
tokenize-print ps h = tokens_from-print ps 1 true h
