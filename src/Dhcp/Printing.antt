-- ===== src/Dhcp/Printing.antt =====
-- Tokens that are written out, for tokenize of internal/dhcp/dhcp.go to read back.
use clusterctl.Prelude.{
  ℕ, false, ◌||◌, List, [], ◌∷◌, ◌++◌, map, Bytes, Result, ok, err, codes, ◌==◌, if◌then◌else◌, All,
  ◌≡◌, ◌≢◌,
}
use clusterctl.Dhcp.Tokens.{
  TokenKind, word_token, string_token, semicolon_token, open_token, close_token, comma_token, Token,
  is_delimiter,
}

-- a token without its place
pub data Piece : Type 0 where
  bare quoted : Bytes → Piece
  semicolon open_brace close_brace comma : Piece

-- the bytes of a string between its quotes
unfoldable pub escape : Bytes → Bytes
escape [] = []
escape (c ∷ s) = let rest = escape s in if c == 34 || c == 92 then 92 ∷ c ∷ rest else c ∷ rest

-- a token, and a space
unfoldable pub print_piece : Piece → Bytes
unfolding escape
print_piece (bare w) = w ++ 32 ∷ []
print_piece (quoted s) = 34 ∷ (escape s ++ 34 ∷ 32 ∷ [])
print_piece semicolon = codes "; "
print_piece open_brace = codes "{ "
print_piece close_brace = codes "} "
print_piece comma = codes ", "

unfoldable pub print : List Piece → Bytes
unfolding print_piece
print [] = []
print (p ∷ ps) = print_piece p ++ print ps

-- what a token is and its text
pub record Read : Type 0 where
  pub kind : TokenKind
  pub text : Bytes

abbrev pub read_of : Token → Read
read_of t = record { kind = t.kind; text = t.text }

abbrev pub reads_of : Result ℕ (List Token) → Result ℕ (List Read)
reads_of (ok ts) = ok (map read_of ts)
reads_of (err e) = err e

unfoldable pub piece_read : Piece → Read
piece_read (bare w) = record { kind = word_token; text = w }
piece_read (quoted s) = record { kind = string_token; text = s }
piece_read semicolon = record { kind = semicolon_token; text = codes ";" }
piece_read open_brace = record { kind = open_token; text = codes "{" }
piece_read close_brace = record { kind = close_token; text = codes "}" }
piece_read comma = record { kind = comma_token; text = codes "," }

-- a word that is not empty and that no byte ends; a string may hold any byte
unfoldable pub IsPiece : Piece → Type 0
IsPiece (bare w) = (w ≢ []) × All (λ c. is_delimiter c ≡ false) w
IsPiece _ = Unit {0}
