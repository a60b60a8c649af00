-- ===== src/Hostname/Names.antt =====
-- `Check` and `CheckUser` decide the name alphabets that the package describes.
use clusterctl.Prelude.{
  ℕ, ◌≤◌, true, none, some, List, [], ◌∷◌, ◌++◌, Bytes, length, All, Lacks, ltb, eqb, split_on,
  join_with, trim_final, trim_final_cases, trim_final-append, NotEnding, trim_final_of_NotEnding,
  Lacks-NotEnding, NotEnding-append, split_on-ne-nil, split_on-join_with, join_with-split_on, ◌≡◌,
  ◌≢◌, ◌↔◌, ◌⊎◌, inl, inr, refl, sym, ◌∙◌, arith, if◌then◌else◌,
}
use clusterctl.Hostname.{
  Fault, max_name, hyphen, dot, is_host_char, check_bytes, last_byte, check_label, check_labels,
  check, is_user_char, check_user_bytes, check_user,
}

-- an ASCII letter or digit
abbrev pub IsAlnum : ℕ → Type 0
IsAlnum c = ((b'a' ≤ c) × (c ≤ b'z')) ⊎ ((b'A' ≤ c) × (c ≤ b'Z')) ⊎ ((b'0' ≤ c) × (c ≤ b'9'))

abbrev pub IsHostByte : ℕ → Type 0
IsHostByte c = IsAlnum c ⊎ (c ≡ hyphen)

abbrev pub IsLabel : Bytes → Type 0
IsLabel [] = ⊥
IsLabel (c ∷ s) =
    (length (c ∷ s) ≤ 63) × All IsHostByte (c ∷ s) × (c ≢ hyphen) × (last_byte c s ≢ hyphen)

-- Labels between dots, at most 253 bytes together, and one final dot at most.
pub record IsHostName (name : Bytes) : Type 0 where
  pub labels : List Bytes
  pub some_label : labels ≢ []
  pub each : All IsLabel labels
  pub short : length (join_with dot labels) ≤ 253
  pub spelled : (name ≡ join_with dot labels) ⊎ (name ≡ join_with dot labels ++ dot ∷ [])

is_host_char_iff : (c : ℕ) → (is_host_char c ≡ true) ↔ IsHostByte c
unfolding is_host_char
is_host_char_iff c = ground arith

check_bytes_iff : (s : Bytes) → (check_bytes s ≡ none) ↔ All IsHostByte s
unfolding check_bytes
check_bytes_iff [] = ground arith
check_bytes_iff (c ∷ s) = ground (arith, is_host_char_iff c, check_bytes_iff s)

check_label_iff : (s : Bytes) → (check_label s ≡ none) ↔ IsLabel s
unfolding check_label
check_label_iff [] = ground arith
check_label_iff (c ∷ s) = ground (arith, check_bytes_iff (c ∷ s))

check_labels_iff : (ls : List Bytes) → (check_labels ls ≡ none) ↔ All IsLabel ls
unfolding check_labels
check_labels_iff [] = ground arith
check_labels_iff (l ∷ ls) = ground (arith, check_label_iff l, check_labels_iff ls)

IsHostByte-ne-dot : (c : ℕ) → IsHostByte c → c ≢ dot
IsHostByte-ne-dot c h = ground arith

All-host-Lacks : (s : Bytes) → All IsHostByte s → Lacks dot s
All-host-Lacks [] h = tt
All-host-Lacks (c ∷ s) (h, hs) = (IsHostByte-ne-dot c h, All-host-Lacks s hs)

IsLabel-Lacks : (l : Bytes) → IsLabel l → Lacks dot l
IsLabel-Lacks [] h = absurd h
IsLabel-Lacks (c ∷ s) h = All-host-Lacks (c ∷ s) h.1

IsLabels-Lacks : (ls : List Bytes) → All IsLabel ls → All (Lacks dot) ls
IsLabels-Lacks [] h = tt
IsLabels-Lacks (l ∷ ls) (h, hs) = (IsLabel-Lacks l h, IsLabels-Lacks ls hs)

-- What `Check` does once the name is not empty and its final dot is off.
check_trimmed_iff :
    (t : Bytes)
    → ((if eqb t []
          then some Fault.not_a_name
          else if ltb max_name (length t)
          then some Fault.too_long
          else check_labels (split_on dot t))
        ≡ none)
      ↔ ((t ≢ []) × (length t ≤ 253) × All IsLabel (split_on dot t))
check_trimmed_iff [] = ground arith
check_trimmed_iff (c ∷ t) = ground (arith, check_labels_iff (split_on dot (c ∷ t)))

pub join_labels-ne-nil : (ls : List Bytes) → ls ≢ [] → All IsLabel ls → join_with dot ls ≢ []
unfolding join_with
join_labels-ne-nil [] ne h = absurd (ne refl)
join_labels-ne-nil ([] ∷ ls) ne (h, _) = absurd h
join_labels-ne-nil ((c ∷ l) ∷ []) ne h = cc
join_labels-ne-nil ((c ∷ l) ∷ m ∷ ls) ne h = cc

join_labels-NotEnding : (ls : List Bytes) → All IsLabel ls → NotEnding dot (join_with dot ls)
unfolding join_with
join_labels-NotEnding [] h = tt
join_labels-NotEnding (l ∷ []) (h, _) = Lacks-NotEnding dot l (IsLabel-Lacks l h)
join_labels-NotEnding (l ∷ m ∷ ls) (h, hs) =
    NotEnding-append dot l (dot ∷ join_with dot (m ∷ ls)) (cc) (
      NotEnding-append dot (dot ∷ []) (join_with dot (m ∷ ls)) (join_labels-ne-nil (m ∷ ls) (cc) hs)
        (join_labels-NotEnding (m ∷ ls) hs))

check_sound : (name : Bytes) → check name ≡ none → IsHostName name
unfolding check
check_sound [] h = cc
check_sound (c ∷ s) h =
    let t : Bytes = trim_final dot (c ∷ s) in
    let parts = (check_trimmed_iff t).0 h in
    record {
      labels = split_on dot t;
      some_label = split_on-ne-nil dot t;
      each = parts.2;
      short = rw join_with-split_on parts.1;
      spelled = rw join_with-split_on (trim_final_cases dot (c ∷ s));
    }

trim_of_spelled :
    (name j : Bytes)
    → NotEnding dot j
    → (name ≡ j) ⊎ (name ≡ j ++ dot ∷ [])
    → trim_final dot name ≡ j
trim_of_spelled name j h (inl e) = rw e (trim_final_of_NotEnding dot j h)
trim_of_spelled name j h (inr e) = rw e (trim_final-append dot j)

IsHostName-trim :
    (name : Bytes) (h : IsHostName name) → trim_final dot name ≡ join_with dot h.labels
IsHostName-trim name h =
    trim_of_spelled name (join_with dot h.labels) (join_labels-NotEnding h.labels h.each) h.spelled

check_complete : (name : Bytes) → IsHostName name → check name ≡ none
unfolding check
check_complete [] h = absurd (
    join_labels-ne-nil h.labels h.some_label h.each
      (sym (IsHostName-trim [] h) ∙ unfold trim_final in refl))
check_complete (c ∷ s) h =
    let e = IsHostName-trim (c ∷ s) h in
    (check_trimmed_iff (trim_final dot (c ∷ s))).1 (
      rw e (join_labels-ne-nil h.labels h.some_label h.each),
      rw e h.short,
      rw (e, split_on-join_with dot h.labels h.some_label (IsLabels-Lacks h.labels h.each)) h.each,
    )

-- `Check` accepts exactly the host names: one or more labels of 1 to 63 letters, digits and hyphens,
-- none beginning or ending with a hyphen, joined by dots to at most 253 bytes, with a final dot or
-- without.
pub check_iff : (name : Bytes) → (check name ≡ none) ↔ IsHostName name
check_iff name = (check_sound name, check_complete name)

abbrev pub IsUserByte : ℕ → Type 0
IsUserByte c = IsHostByte c ⊎ (c ≡ b'.') ⊎ (c ≡ b'_')

abbrev pub IsUserName : Bytes → Type 0
IsUserName [] = ⊥
IsUserName (c ∷ s) = (c ≢ hyphen) × All IsUserByte (c ∷ s)

is_user_char_iff : (c : ℕ) → (is_user_char c ≡ true) ↔ IsUserByte c
unfolding is_user_char
is_user_char_iff c = ground arith

check_user_bytes_iff : (s : Bytes) → (check_user_bytes s ≡ none) ↔ All IsUserByte s
unfolding check_user_bytes
check_user_bytes_iff [] = ground arith
check_user_bytes_iff (c ∷ s) = ground (arith, is_user_char_iff c, check_user_bytes_iff s)

-- `CheckUser` accepts exactly the texts of letters, digits, dots, underscores and hyphens that are
-- not empty and do not begin with a hyphen.
pub check_user_iff : (user : Bytes) → (check_user user ≡ none) ↔ IsUserName user
unfolding check_user
check_user_iff [] = ground arith
check_user_iff (c ∷ s) = ground (arith, check_user_bytes_iff (c ∷ s))
