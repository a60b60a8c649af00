-- ===== src/Tests/HostkeyTests.antt =====
-- The known_hosts file at concrete lines.
use clusterctl.Prelude.{
  after, true, some, List, [], ◌∷◌, Bytes, ok, err, before, after, codes, ◌≡◌, ◌↔◌, refl, split_on,
  has_prefix, trim_space, trim_right, trim_left, fields_of, to_lower, cut_prefix, lookup, join_with,
}
use clusterctl.Hostkeys.{
  match_hashed, match_decoded, match_hashed, Entry, Hashing, match_char, match_from, match_wildcard,
  match_pattern, matches_from, un_negated, find, revoked,
}
use clusterctl.Hostkeys.Index.{index, find_in, revoked_in}
use clusterctl.Hostkeys.Store.{not_a_key, read_entry, read_fields, read_line, read_all, parse}
use clusterctl.Hostkeys.Removal.{
  remove_from, remove_one, settle, strip, named, change_at, first_places, count_hits, named_hashed,
  remove_all,
}
use clusterctl.Hostkeys.Replacing.{
  put_hosts, last_places, put_keys, put_key, put_listed, added_at, carry_notes, notes_at,
  replace_all,
}
use clusterctl.Hostkeys.Wildcards.{Texts, match_wildcard-Texts}
use clusterctl.Hostkeys.Lookup.{find_in-find}
use clusterctl.Hostkeys.Naming.{left_of}
use clusterctl.Hostkeys.Removed.{remove_all-left}

-- a hash that is the text itself
abbrev plain_hash : Hashing
plain_hash = record { decode64 = λ t. some t; mac = λ salt host. host }

abbrev text : Bytes
text =
    codes
      "# site keys\nexe2,exe1 ssh-ed25519 AAAA b\n\n# by hand\n|1|s|exe1 ssh-rsa BBBB\n@revoked * ssh-rsa CCCC\n"

abbrev key_of : List Bytes → Bytes → List Bytes → Entry
key_of hosts key notes = record {
  marker = [];
  hosts = hosts;
  type_of = codes "ssh-rsa";
  key = key;
  comment = [];
  notes = notes;
}

abbrev first_line : Entry
first_line = record (key_of (codes "exe2" ∷ codes "exe1" ∷ []) (codes "AAAA") []) {
  type_of = codes "ssh-ed25519";
  comment = codes "b";
}

abbrev hashed_line : Entry
hashed_line = key_of (codes "|1|s|exe1" ∷ []) (codes "BBBB") (codes "# by hand" ∷ [])

abbrev revoked_line : Entry
revoked_line = record (key_of (codes "*" ∷ []) (codes "CCCC") []) { marker = codes "@revoked" }

abbrev three : List Entry
three = first_line ∷ hashed_line ∷ revoked_line ∷ []

parses :
    parse text ≡ ok (record { header = codes "# site keys" ∷ []; entries = three; trailer = [] })
unfolding parse read_all split_on read_line trim_space trim_right trim_left has_prefix read_fields
    fields_of read_entry join_with
parses = refl

parse_short : parse (codes "exe1 ssh-rsa") ≡ err (not_a_key 1 (codes "exe1 ssh-rsa"))
unfolding parse read_all split_on read_line trim_space trim_right trim_left has_prefix read_fields
    fields_of read_entry
parse_short = refl

found_hashed : find plain_hash three (codes "EXE1") ≡ first_line ∷ hashed_line ∷ []
unfolding find matches_from match_pattern cut_prefix un_negated match_from to_lower match_char
    has_prefix match_hashed after match_decoded
found_hashed = refl

replaced :
    replace_all plain_hash (codes "exe1" ∷ []) (λ h. key_of (h ∷ []) (codes "DDDD") [] ∷ []) three
    ≡ record first_line { hosts = codes "exe2" ∷ [] }
      ∷ revoked_line
      ∷ key_of (codes "exe1" ∷ []) (codes "DDDD") (codes "# by hand" ∷ [])
      ∷ []
unfolding replace_all put_hosts lookup last_places to_lower put_keys put_key put_listed added_at
    remove_all remove_from remove_one settle strip named has_prefix cut_prefix carry_notes notes_at
    change_at first_places count_hits named_hashed match_hashed before after match_decoded
replaced = refl

match_wildcard-Texts_example :
    (match_wildcard (codes "exe?.*") (codes "exe1.hpc") ≡ true)
    ↔ Texts (codes "exe?.*") (codes "exe1.hpc")
match_wildcard-Texts_example = match_wildcard-Texts (codes "exe?.*") (codes "exe1.hpc")

find_in-find_example :
    (find_in plain_hash (index three) (codes "exe1") ≡ find plain_hash three (codes "exe1"))
    × ((key : Bytes)
        → revoked_in plain_hash (index three) (codes "exe1") key
          ≡ revoked plain_hash three (codes "exe1") key)
find_in-find_example = find_in-find plain_hash three (codes "exe1")

remove_all-left_example :
    (remove_all plain_hash (codes "exe1" ∷ []) three).kept
    ≡ left_of plain_hash (codes "exe1" ∷ []) three
remove_all-left_example = remove_all-left plain_hash (codes "exe1" ∷ []) three
