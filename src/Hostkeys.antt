-- ===== src/Hostkeys.antt =====
-- internal/hostkeys: the known_hosts file (hostkeys.go), its entries, what they match and how they
-- are looked up.
pub mod Store
pub mod Removal
pub mod Replacing
pub mod Naming
pub mod Removed
pub mod Index
pub mod Wildcards
pub mod Plain
pub mod Places
pub mod Lookup
use clusterctl.Prelude.{
  ℕ, Bool, true, false, not, ◌&&◌, ◌||◌, Option, none, some, List, [], ◌∷◌, ◌++◌, Bytes, codes, eqb,
  ◌==◌, if◌then◌else◌, join_with, has_prefix, to_lower, before, after, cut_prefix, contains_byte,
}

-- Entry
pub record Entry : Type 0 where
  pub marker : Bytes
  pub hosts : List Bytes
  pub type_of : Bytes
  pub key : Bytes
  pub comment : Bytes
  pub notes : List Bytes

-- MarkerRevoked, MarkerCertAuthority
abbrev pub marker_revoked : Bytes
marker_revoked = codes "@revoked"

abbrev pub marker_cert_authority : Bytes
marker_cert_authority = codes "@cert-authority"

-- Entry.String
unfoldable pub entry_line : Entry → Bytes
entry_line e =
    (if eqb e.marker [] then [] else e.marker ++ codes " ")
    ++ (join_with b',' e.hosts ++ codes " " ++ e.type_of ++ codes " " ++ e.key)
    ++ (if eqb e.comment [] then [] else codes " " ++ e.comment)

-- IsHostKey
abbrev pub is_host_key : Entry → Bool
is_host_key e = eqb e.marker []

-- hashPrefix
abbrev pub hash_prefix : Bytes
hash_prefix = codes "|1|"

-- one character of a pattern that is not `*`, before what matches the rest
unfoldable pub match_char : ℕ → (Bytes → Bool) → Bytes → Bool
match_char c rest [] = false
match_char c rest (d ∷ s) = (c == b'?' || c == d) && rest s

-- the loop over the suffixes of the text
unfoldable pub any_suffix : (Bytes → Bool) → Bytes → Bool
any_suffix f [] = f []
any_suffix f (d ∷ s) = f (d ∷ s) || any_suffix f s

-- matchWildcard, and the same past a run of `*`
unfoldable pub match_from : Bool → Bytes → Bytes → Bool
match_from starred [] s = starred || eqb s []
match_from starred (c ∷ p) s =
    let skipped = match_from true p s in
    let here = match_char c (λ t. match_from false p t) in
    if c == b'*' then skipped else if starred then any_suffix here s else here s

abbrev pub match_wildcard : Bytes → Bytes → Bool
match_wildcard p s = match_from false p s

-- strings.HasPrefix(pattern, "!")
abbrev pub is_negated : Bytes → Bool
is_negated p = has_prefix p (codes "!")

-- strings.ContainsAny(pattern, "*?")
abbrev pub is_wild : Bytes → Bool
is_wild p = contains_byte b'*' p || contains_byte b'?' p

-- strings.TrimPrefix(pattern, "!")
unfoldable pub un_negated : Bytes → Bytes
un_negated p = elim (cut_prefix p (codes "!")) [ none ↦ p | some rest ↦ rest ]

-- encoding/base64 and crypto/hmac with SHA-1: what the standard encoding decodes, and the code of a
-- text under a key
pub record Hashing : Type 0 where
  pub decode64 : Bytes → Option Bytes
  pub mac : Bytes → Bytes → Bytes

module _ (h : Hashing) where
  -- what `matchHashed` makes of the salt and the hash
  unfoldable pub match_decoded : Option Bytes → Option Bytes → Bytes → Bool
  match_decoded (some salt) (some want) host = eqb (h.mac salt host) want
  match_decoded none want host = false
  match_decoded (some salt) none host = false

  -- matchHashed, on what follows the prefix
  unfoldable pub match_hashed : Bytes → Bytes → Bool
  match_hashed text host = elim (after b'|' text) [
    | none ↦ false
    | some hash ↦ match_decoded (h.decode64 (before b'|' text)) (h.decode64 hash) host
  ]

  -- matchPattern
  unfoldable pub match_pattern : Bytes → Bytes → Bool
  match_pattern p host = elim (cut_prefix p hash_prefix) [
    | some text ↦ match_hashed text host
    | none ↦ match_wildcard (to_lower p) host
  ]

  -- names
  unfoldable pub names : Bytes → Bytes → Bool
  names p host = if is_negated p || is_wild p then false else match_pattern p (to_lower host)

  -- the loop of `Matches`
  unfoldable pub matches_from : Bool → List Bytes → Bytes → Bool
  matches_from hit [] host = hit
  matches_from hit (p ∷ ps) host =
      let past = matches_from hit ps host in
      let found = matches_from true ps host in
      if not (match_pattern (un_negated p) host)
      then past
      else if is_negated p
      then false
      else found

  -- Entry.Matches
  abbrev pub covers : Entry → Bytes → Bool
  covers e host = matches_from false e.hosts (to_lower host)

  abbrev pub is_found : Bytes → Entry → Bool
  is_found host e = is_host_key e && covers e host

  abbrev pub is_revoked : Bytes → Bytes → Entry → Bool
  is_revoked host key e = eqb e.marker marker_revoked && eqb e.key key && covers e host

  -- File.Find, on the entries
  unfoldable pub find : List Entry → Bytes → List Entry
  find [] host = []
  find (e ∷ es) host = let rest = find es host in if is_found host e then e ∷ rest else rest

  -- File.Revoked, on the entries
  unfoldable pub revoked : List Entry → Bytes → Bytes → Bool
  revoked [] host key = false
  revoked (e ∷ es) host key =
      let rest = revoked es host key in if is_revoked host key e then true else rest
