-- ===== src/Dhcp/Tokens.antt =====
-- tokenize of internal/dhcp/dhcp.go. Its loops over the bytes are one pass with a state: what is being read,
-- the line, and whether no token stands before on it.
use clusterctl.Prelude.{
  ℕ, ◌+◌, Bool, true, false, ◌||◌, any, List, [], ◌∷◌, ◌++◌, Bytes, Result, ok, err, codes,
  trim_space, ◌==◌, if◌then◌else◌,
}

-- tokenKind
pub data TokenKind : Type 0 where
  word_token string_token comment_token semicolon_token open_token close_token comma_token :
      TokenKind

-- token
pub record Token : Type 0 where
  pub kind : TokenKind
  pub text : Bytes
  pub line : ℕ
  pub first : Bool

-- the bytes that end a word: white space, and what has a meaning; 34 is the double quote
abbrev pub delimiters : Bytes
delimiters = codes " #;{}," ++ 9 ∷ 13 ∷ 12 ∷ 11 ∷ 10 ∷ 34 ∷ []

abbrev pub is_delimiter : ℕ → Bool
is_delimiter c = any (λ d. c == d) delimiters

abbrev pub is_blank : ℕ → Bool
is_blank c = c == 32 || c == 9 || c == 13 || c == 12 || c == 11

-- what is being read: nothing, or a token and its bytes so far; a string with the line it starts on
pub data Mode : Type 0 where
  between : Mode
  word comment : Bytes → Mode
  string escaped : ℕ → Bytes → Mode

-- the state of the pass
pub record State : Type 0 where
  pub mode : Mode
  pub line : ℕ
  pub first : Bool

-- emit
abbrev pub emitted : State → TokenKind → Bytes → Token
emitted s kind text = record { kind = kind; text = text; line = s.line; first = s.first }

-- the state after a token
abbrev pub after_token : State → State
after_token s = record { mode = between; line = s.line; first = false }

-- the `switch` on a byte that starts something
unfoldable pub start : State → ℕ → List Token × State
start s c =
    if c == 10
    then ([], record { mode = between; line = s.line + 1; first = true })
    else if is_blank c
    then ([], record s { mode = between })
    else if c == b'#'
    then ([], record s { mode = comment [] })
    else if c == 34
    then ([], record s { mode = string s.line [] })
    else if c == b';'
    then (emitted s semicolon_token (codes ";") ∷ [], after_token s)
    else if c == b'{'
    then (emitted s open_token (codes "{") ∷ [], after_token s)
    else if c == b'}'
    then (emitted s close_token (codes "}") ∷ [], after_token s)
    else if c == b','
    then (emitted s comma_token (codes ",") ∷ [], after_token s)
    else ([], record s { mode = word (c ∷ []) })

-- a token that ends before a byte, which then starts something
abbrev pub end_before : Token → State → ℕ → List Token × State
end_before t s c = let (ts, next) = start (after_token s) c in (t ∷ ts, next)

-- a byte inside a string
unfoldable pub in_string : State → ℕ → Bytes → ℕ → List Token × State
in_string s from acc c =
    if c == 34
    then (
      record { kind = string_token; text = acc; line = from; first = s.first } ∷ [],
      after_token s,
    )
    else if c == 92
    then ([], record s { mode = escaped from acc })
    else if c == 10
    then ([], record s { mode = string from (acc ++ c ∷ []); line = s.line + 1 })
    else ([], record s { mode = string from (acc ++ c ∷ []) })

-- one byte, in the state with this mode
unfoldable pub read_byte : Mode → State → ℕ → List Token × State
unfolding start in_string
read_byte between s c = start s c
read_byte (word acc) s c =
    if is_delimiter c
    then end_before (emitted s word_token acc) s c
    else ([], record s { mode = word (acc ++ c ∷ []) })
read_byte (comment acc) s c =
    if c == 10
    then end_before (emitted s comment_token (trim_space acc)) s c
    else ([], record s { mode = comment (acc ++ c ∷ []) })
read_byte (string from acc) s c = in_string s from acc c
read_byte (escaped from acc) s c =
    if c == 34 || c == 92
    then ([], record s { mode = string from (acc ++ c ∷ []) })
    else in_string s from (acc ++ 92 ∷ []) c

-- the end of the data; an error is the line of a string that is not closed
unfoldable pub finish : Mode → State → Result ℕ (List Token)
finish between s = ok []
finish (word acc) s = ok (emitted s word_token acc ∷ [])
finish (comment acc) s = ok (emitted s comment_token (trim_space acc) ∷ [])
finish (string from acc) s = err from
finish (escaped from acc) s = err from

abbrev pub before_rest : List Token → Result ℕ (List Token) → Result ℕ (List Token)
before_rest ts (err e) = err e
before_rest ts (ok rest) = ok (ts ++ rest)

-- the loop of `tokenize`
unfoldable pub tokens_from : State → Bytes → Result ℕ (List Token)
unfolding read_byte finish
tokens_from s [] = finish s.mode s
tokens_from s (c ∷ data_) =
    let (ts, next) = read_byte s.mode s c in before_rest ts (tokens_from next data_)

-- tokenize
unfoldable pub tokenize : Bytes → Result ℕ (List Token)
unfolding tokens_from
tokenize data_ = tokens_from (record { mode = between; line = 1; first = true }) data_
