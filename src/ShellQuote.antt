-- ===== src/ShellQuote.antt =====
-- internal/shellquote/shellquote.go, and a shell's word splitting to hold it against.
pub mod Splitting
pub mod RoundTrip
use mathlib.Core.List.{flat_map}
use clusterctl.Prelude.{
  ℕ, Bool, true, false, ◌&&◌, ◌||◌, List, [], ◌∷◌, ◌++◌, map, Bytes, all, join_with, leb, ◌==◌,
  if◌then◌else◌,
}

abbrev pub apostrophe : ℕ
apostrophe = 39

-- the `switch` of `safe`
unfoldable pub safe_byte : ℕ → Bool
safe_byte c =
    leb b'a' c && leb c b'z'
    || leb b'A' c && leb c b'Z'
    || leb b'0' c && leb c b'9'
    || c == b'-'
    || c == b'_'
    || c == b'.'
    || c == b'/'
    || c == b':'
    || c == b'='
    || c == b'+'
    || c == b','
    || c == b'@'
    || c == b'%'

unfoldable pub safe : Bytes → Bool
safe [] = false
safe (c ∷ s) = all safe_byte (c ∷ s)

-- what one round of the loop of `Quote` writes
unfoldable pub quote_byte : ℕ → Bytes
quote_byte c = if c == apostrophe then apostrophe ∷ 92 ∷ apostrophe ∷ apostrophe ∷ [] else c ∷ []

unfoldable pub quote : Bytes → Bytes
quote s = if safe s then s else (apostrophe ∷ []) ++ (flat_map quote_byte s ++ apostrophe ∷ [])

-- Join
unfoldable pub join : List Bytes → Bytes
join args = join_with 32 (map quote args)
