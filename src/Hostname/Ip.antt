-- ===== src/Hostname/Ip.antt =====
-- Whether the standard library's net.ParseIP accepts a text: a dotted IPv4 address, or an IPv6
-- address without a zone.
use Prim.Native.Nat.{◌*◌}
use clusterctl.Prelude.{
  ℕ, zero, suc, ◌+◌, ◌-◌, Bool, true, false, not, ◌&&◌, ◌||◌, Option, none, some, [], ◌∷◌, Bytes,
  leb, ltb, ◌==◌, eqb, if◌then◌else◌,
}

unfoldable pub is_digit : ℕ → Bool
is_digit c = leb b'0' c && leb c b'9'

unfoldable pub is_hex : ℕ → Bool
unfolding is_digit
is_hex c = is_digit c || leb b'a' c && leb c b'f' || leb b'A' c && leb c b'F'

-- one byte of a dotted address: the value, the field and the digits of the field so far
unfoldable pub ipv4_step : ℕ → Bool → ℕ → ℕ → ℕ → Option (ℕ × ℕ × ℕ)
ipv4_step c at_end val pos digits =
    let next = val * 10 + (c - 48) in
    if is_digit c
    then (if digits == 1 && val == 0
        then none
        else if ltb 255 next
        then none
        else some (next, pos, digits + 1))
    else if c == b'.'
    then (if digits == 0 || at_end || pos == 3 then none else some (0, pos + 1, 0))
    else none

unfoldable pub ipv4_fields : Bytes → ℕ → ℕ → ℕ → Bool
ipv4_fields [] val pos digits = pos == 3 && not (digits == 0)
ipv4_fields (c ∷ s) val pos digits = elim (ipv4_step c (eqb s []) val pos digits) [
  | none ↦ false
  | some (val', pos', digits') ↦ ipv4_fields s val' pos' digits'
]

-- The digits of a group, at most four, and what follows them.
unfoldable pub hex_run : Bytes → ℕ → Option (ℕ × Bytes)
hex_run [] n = some (n, [])
hex_run (c ∷ s) n =
    let rest = hex_run s (suc n) in
    if is_hex c then (if ltb 3 n then none else rest) else some (n, c ∷ s)

-- `ell` says whether a :: was seen, `i` counts the bytes of the address.
unfoldable pub finish : Bytes → ℕ → Bool → Bool
finish s i ell = eqb s [] && (if ltb i 16 then ell else not ell)

-- what follows a group and its colon
unfoldable pub after_colon : (Bytes → ℕ → Bool → Bool) → Bytes → ℕ → Bool → Bool
unfolding finish
after_colon next [] i ell = false
after_colon next (d ∷ r) i ell =
    if d == b':'
    then (if ell then false else if eqb r [] then finish [] i true else next r i true)
    else next (d ∷ r) i ell

unfoldable pub after_group : (Bytes → ℕ → Bool → Bool) → Bytes → Bytes → ℕ → Bool → Bool
unfolding after_colon ipv4_fields
after_group next s [] i ell = finish [] (i + 2) ell
after_group next s (c ∷ r) i ell =
    if c == b'.'
    then (not (not ell && not (i == 12))
        && leb (i + 4) 16
        && ipv4_fields s 0 0 0
        && finish [] (i + 4) ell)
    else if c == b':'
    then after_colon next r (i + 2) ell
    else false

unfoldable pub ipv6_groups : ℕ → Bytes → ℕ → Bool → Bool
ipv6_groups zero s i ell = finish s i ell
ipv6_groups (suc k) s i ell = elim (hex_run s 0) [
  | none ↦ false
  | some (n, rest) ↦ if n == 0 then false else after_group (ipv6_groups k) s rest i ell
]

-- Eight groups are sixteen bytes.
unfoldable pub ipv6 : Bytes → Bool
unfolding ipv6_groups
ipv6 (c ∷ d ∷ s) =
    if c == b':' && d == b':'
    then (if eqb s [] then true else ipv6_groups 8 s 0 true)
    else ipv6_groups 8 (c ∷ d ∷ s) 0 false
ipv6 s = ipv6_groups 8 s 0 false

-- The first of . : % in the text decides how the whole of it is read.
unfoldable pub parse_as : Bytes → Bytes → Bool
unfolding ipv4_fields ipv6
parse_as [] whole = false
parse_as (c ∷ s) whole =
    let later = parse_as s whole in
    if c == b'.'
    then ipv4_fields whole 0 0 0
    else if c == b':'
    then ipv6 whole
    else if c == b'%'
    then false
    else later

unfoldable pub parse_ip : Bytes → Bool
unfolding parse_as
parse_ip s = parse_as s s
