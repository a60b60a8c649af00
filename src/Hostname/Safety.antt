-- ===== src/Hostname/Safety.antt =====
-- What a host or a name that passes the checks cannot hold.
use clusterctl.Prelude.{
  ℕ, zero, suc, ◌+◌, ◌≤◌, Bool, true, false, ◌&&◌, none, some, List, [], ◌∷◌, ◌++◌, Bytes, All,
  All-append, eqb, ◌==◌, join_with, ◌≡◌, ◌≢◌, ◌⊎◌, inl, inr, refl, arith, Bool-cases, Option-cases,
  if◌then◌else◌,
}
use clusterctl.Hostname.{hyphen, dot, is_ip, check_host}
use clusterctl.Hostname.Colons.{colons, ipv6-colons}
use clusterctl.Hostname.Ip.{
  is_digit, is_hex, ipv4_step, ipv4_fields, hex_run, finish, after_colon, after_group, ipv6_groups,
  ipv6, parse_as, parse_ip,
}
use clusterctl.Hostname.Names.{IsHostByte, IsLabel, IsHostName, join_labels-ne-nil, check_iff}

-- a hexadecimal digit
abbrev pub IsHexByte : ℕ → Type 0
IsHexByte c = ((b'0' ≤ c) × (c ≤ b'9')) ⊎ ((b'a' ≤ c) × (c ≤ b'f')) ⊎ ((b'A' ≤ c) × (c ≤ b'F'))

-- what an address is written with
abbrev pub IsIpByte : ℕ → Type 0
IsIpByte c = IsHexByte c ⊎ (c ≡ dot) ⊎ (c ≡ b':')

-- what a name and a dotted address are written with
abbrev pub IsNameByte : ℕ → Type 0
IsNameByte c = IsHostByte c ⊎ (c ≡ dot)

-- what a dotted address is written with
abbrev IsDottedByte : ℕ → Type 0
IsDottedByte c = ((b'0' ≤ c) × (c ≤ b'9')) ⊎ (c ≡ dot)

dotted_ip : (s : Bytes) → All IsDottedByte s → All IsIpByte s
dotted_ip [] h = tt
dotted_ip (c ∷ s) (h, hs) = (ground arith, dotted_ip s hs)

dotted_name : (s : Bytes) → All IsDottedByte s → All IsNameByte s
dotted_name [] h = tt
dotted_name (c ∷ s) (h, hs) = (ground arith, dotted_name s hs)

ipv4_step-IsDottedByte :
    (c val pos digits : ℕ) (at_end : Bool) {r : ℕ × ℕ × ℕ}
    → ipv4_step c at_end val pos digits ≡ some r
    → IsDottedByte c
unfolding ipv4_step is_digit
ipv4_step-IsDottedByte c val pos digits at_end h = ground arith

ipv4_fields-All :
    (s : Bytes) (val pos digits : ℕ) → ipv4_fields s val pos digits ≡ true → All IsDottedByte s
unfolding ipv4_fields
ipv4_fields-All [] val pos digits h = tt
ipv4_fields-All (c ∷ s) val pos digits h =
    elim (Option-cases (ipv4_step c (eqb s []) val pos digits)) [
      | inl e ↦ cc (rw (e, ipv4_fields) at h)
      | inr ((v, p, d), e) ↦ (
        ipv4_step-IsDottedByte c val pos digits (eqb s []) e,
        ipv4_fields-All s v p d (rw (e, ipv4_fields) at h),
      )
    ]

is_hex-IsIpByte : (c : ℕ) → is_hex c ≡ true → IsIpByte c
unfolding is_hex
is_hex-IsIpByte c h = ground arith

hex_run-All :
    (s : Bytes) (n m : ℕ) (rest : Bytes)
    → hex_run s n ≡ some (m, rest)
    → All IsIpByte rest
    → All IsIpByte s
unfolding hex_run
hex_run-All [] n m rest h a = tt
hex_run-All (c ∷ s) n m rest h a = elim (Bool-cases (is_hex c)) [
  | inl e ↦ (is_hex-IsIpByte c e, hex_run-All s (suc n) m rest (ground arith) a)
  | inr e ↦ let same : rest ≡ c ∷ s = ground arith in rw same at a
]

-- `ok` says that whatever the continuation accepts is spelled like an address
module _ (next : Bytes → ℕ → Bool → Bool)
    (keeps : (s : Bytes) (i : ℕ) (ell : Bool) → next s i ell ≡ true → All IsIpByte s) where
  after_colon-All :
      (r : Bytes) (i : ℕ) (ell : Bool) → after_colon next r i ell ≡ true → All IsIpByte r
  unfolding after_colon
  after_colon-All [] i ell h = tt
  after_colon-All (d ∷ r) i ell h = elim (Bool-cases (d == b':')) [
    | inl e ↦ (inr (inr (ground arith)), after_ellipsis r (ground arith))
    | inr e ↦ keeps (d ∷ r) i ell (ground arith)
  ]
    where
      after_ellipsis :
          (q : Bytes)
          → (if eqb q [] then finish [] i true else next q i true) ≡ true
          → All IsIpByte q
      after_ellipsis [] p = tt
      after_ellipsis (b ∷ q) p = keeps (b ∷ q) i true p

  after_group-All :
      (s rest : Bytes) (i : ℕ) (ell : Bool)
      → after_group next s rest i ell ≡ true
      → All IsIpByte rest ⊎ All IsIpByte s
  unfolding after_group
  after_group-All s [] i ell h = inl tt
  after_group-All s (c ∷ r) i ell h = elim (Bool-cases (c == b'.')) [
    | inl e ↦ inr (dotted_ip s (ipv4_fields-All s 0 0 0 (ground arith)))
    | inr e ↦ inl (inr (inr (ground arith)), after_colon-All r (i + 2) ell (ground arith))
  ]

finish-All : (s : Bytes) (i : ℕ) (ell : Bool) → finish s i ell ≡ true → All IsIpByte s
unfolding finish
finish-All [] i ell h = tt
finish-All (c ∷ s) i ell h = cc

ipv6_groups-All :
    (k : ℕ) (s : Bytes) (i : ℕ) (ell : Bool) → ipv6_groups k s i ell ≡ true → All IsIpByte s
unfolding ipv6_groups
ipv6_groups-All zero s i ell h = finish-All s i ell h
ipv6_groups-All (suc k) s i ell h = elim (Option-cases (hex_run s 0)) [
  | inl e ↦ cc (rw (e, ipv6_groups) at h)
  | inr ((n, rest), e) ↦ group n rest e (ipv6_groups-All k) (rw (e, ipv6_groups) at h)
]
  where
    group :
        (n : ℕ) (rest : Bytes)
        → hex_run s 0 ≡ some (n, rest)
        → ((s' : Bytes) (i' : ℕ) (ell' : Bool) → ipv6_groups k s' i' ell' ≡ true → All IsIpByte s')
        → (if n == 0 then false else after_group (ipv6_groups k) s rest i ell) ≡ true
        → All IsIpByte s
    group n rest e ih p = elim (after_group-All (ipv6_groups k) ih s rest i ell (ground arith)) [
      | inl a ↦ hex_run-All s 0 n rest e a
      | inr a ↦ a
    ]

ipv6-All : (s : Bytes) → ipv6 s ≡ true → All IsIpByte s
unfolding ipv6
ipv6-All [] h = tt
ipv6-All (c ∷ []) h = ipv6_groups-All 8 (c ∷ []) 0 false h
ipv6-All (c ∷ d ∷ s) h = elim (Bool-cases (c == b':' && d == b':')) [
  | inl e ↦ (inr (inr (ground arith)), (inr (inr (ground arith)), tail_All s (rw e at h)))
  | inr e ↦ ipv6_groups-All 8 (c ∷ d ∷ s) 0 false (rw e at h)
]
  where
    tail_All :
        (t : Bytes) → (if eqb t [] then true else ipv6_groups 8 t 0 true) ≡ true → All IsIpByte t
    tail_All [] p = tt
    tail_All (b ∷ t) p = ipv6_groups-All 8 (b ∷ t) 0 true p

parse_as-cases :
    (s whole : Bytes)
    → parse_as s whole ≡ true
    → (ipv4_fields whole 0 0 0 ≡ true) ⊎ (ipv6 whole ≡ true)
unfolding parse_as
parse_as-cases [] whole h = cc
parse_as-cases (c ∷ s) whole h = ground (arith, parse_as-cases s whole)

host_All : (s : Bytes) → All IsHostByte s → All IsNameByte s
host_All [] h = tt
host_All (c ∷ s) (h, hs) = (inl h, host_All s hs)

label_All : (l : Bytes) → IsLabel l → All IsNameByte l
label_All [] h = absurd h
label_All (c ∷ s) h = host_All (c ∷ s) h.1

labels-All : (ls : List Bytes) → All IsLabel ls → All IsNameByte (join_with dot ls)
unfolding join_with
labels-All [] h = tt
labels-All (l ∷ []) (h, _) = label_All l h
labels-All (l ∷ m ∷ ls) (h, hs) =
    All-append IsNameByte l (dot ∷ join_with dot (m ∷ ls)) (label_All l h)
      (inr refl, labels-All (m ∷ ls) hs)

-- The first byte, if there is one, is not a hyphen.
abbrev pub NoOption : Bytes → Type 0
NoOption [] = Unit
NoOption (c ∷ s) = c ≢ hyphen

NoOption-append : (s t : Bytes) → s ≢ [] → NoOption s → NoOption (s ++ t)
NoOption-append [] t ne h = absurd (ne refl)
NoOption-append (c ∷ s) t ne h = h

NoOption-join : (ls : List Bytes) → All IsLabel ls → NoOption (join_with dot ls)
unfolding join_with
NoOption-join [] h = tt
NoOption-join ([] ∷ ls) (h, _) = absurd h
NoOption-join ((c ∷ l) ∷ []) (h, _) = h.2
NoOption-join ((c ∷ l) ∷ m ∷ ls) (h, _) = h.2

spelled-safe :
    (name j : Bytes)
    → All IsNameByte j
    → NoOption j
    → j ≢ []
    → (name ≡ j) ⊎ (name ≡ j ++ dot ∷ [])
    → All IsNameByte name × NoOption name
spelled-safe name j a o ne (inl e) = rw e (a, o)
spelled-safe name j a o ne (inr e) =
    rw e (All-append IsNameByte j (dot ∷ []) a (inr refl, tt), NoOption-append j (dot ∷ []) ne o)

IsHostName-safe : (name : Bytes) → IsHostName name → All IsNameByte name × NoOption name
IsHostName-safe name h =
    spelled-safe name (join_with dot h.labels) (labels-All h.labels h.each)
      (NoOption-join h.labels h.each) (join_labels-ne-nil h.labels h.some_label h.each) h.spelled

All-ip-NoOption : (s : Bytes) → All IsIpByte s → NoOption s
All-ip-NoOption [] h = tt
All-ip-NoOption (c ∷ s) (h, _) = ground arith

-- no port stands behind a host: it has no colon, or it is an address with two of them at least
abbrev pub HasNoPort : Bytes → Type 0
HasNoPort host = All IsNameByte host ⊎ All IsIpByte host × (2 ≤ colons host)

is_ip-safe : (host : Bytes) → is_ip host ≡ true → HasNoPort host × NoOption host
unfolding is_ip parse_ip
is_ip-safe host h = elim (parse_as-cases host host (ground arith)) [
  | inl e ↦
      let a = ipv4_fields-All host 0 0 0 e in
      (inl (dotted_name host a), All-ip-NoOption host (dotted_ip host a))
  | inr e ↦ let a = ipv6-All host e in (inr (a, ipv6-colons host e), All-ip-NoOption host a)
]

-- A host that CheckHost accepts does not begin with a hyphen, by which ssh would read an option; and it is
-- spelled with letters, digits, hyphens and dots alone, or else with hexadecimal digits, dots and colons, at
-- least two of these. So it holds none of the other bytes by which a URL has an account, a path, a query or a
-- fragment, and is no name or dotted address with a colon and a port behind it.
pub check_host-safe : (host : Bytes) → check_host host ≡ none → HasNoPort host × NoOption host
unfolding check_host
check_host-safe host h = elim (Bool-cases (is_ip host)) [
  | inl e ↦ is_ip-safe host e
  | inr e ↦ let (a, o) = IsHostName-safe host ((check_iff host).0 (rw e at h)) in (inl a, o)
]
