-- ===== src/Tests/QuoteTests.antt =====
-- Quoted command lines.
use mathlib.Core.List.{flat_map}
use clusterctl.Prelude.{List, [], ◌∷◌, Bytes, none, some, codes, ◌≡◌, refl, arith, join_with}
use clusterctl.ShellQuote.{quote, join, safe_byte, safe, quote_byte}
use clusterctl.ShellQuote.Splitting.{split, split_from, step, in_word, is_plain, is_blank}
use clusterctl.ShellQuote.RoundTrip.{split-join}

abbrev words : List Bytes
words = codes "echo" ∷ codes "it's *" ∷ [] ∷ codes "a=b" ∷ []

joined : join words ≡ codes "echo 'it'\\''s *' '' a=b"
unfolding join join_with quote safe safe_byte quote_byte flat_map
joined = refl

-- What the shell would expand is no plain word.
expands : split (codes "echo *") ≡ none
unfolding split split_from step in_word is_plain is_blank
expands = refl

split-join_example : split (join words) ≡ some words
split-join_example = split-join words (omega arith)
