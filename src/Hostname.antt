-- ===== src/Hostname.antt =====
-- internal/hostname/hostname.go. A nil error is `none`. The standard library's net.ParseIP is in Ip.
pub mod Ip
pub mod Colons
pub mod Names
pub mod Safety
use clusterctl.Prelude.{
  ℕ, Bool, true, false, not, ◌&&◌, ◌||◌, Option, none, some, List, [], ◌∷◌, Bytes, length, leb, ltb,
  ◌==◌, eqb, split_on, trim_final, contains_byte, if◌then◌else◌,
}
use Ip.{parse_ip}

pub data Fault : Type 0 where
  empty not_a_name too_long : Fault
  empty_label label_too_long leading_hyphen trailing_hyphen : Fault
  bad_byte : ℕ → Fault
  empty_user user_hyphen : Fault
  bad_user_byte : ℕ → Fault

abbrev pub max_name : ℕ
max_name = 253

abbrev pub max_label : ℕ
max_label = 63

abbrev pub hyphen : ℕ
hyphen = b'-'

abbrev pub dot : ℕ
dot = b'.'

unfoldable pub is_host_char : ℕ → Bool
is_host_char c =
    leb b'a' c && leb c b'z' || leb b'A' c && leb c b'Z' || leb b'0' c && leb c b'9' || c == b'-'

-- the loop of `checkLabel`
unfoldable pub check_bytes : Bytes → Option Fault
check_bytes [] = none
check_bytes (c ∷ s) = let rest = check_bytes s in if is_host_char c then rest else some (bad_byte c)

-- the last byte of a text that has one
unfoldable pub last_byte : ℕ → Bytes → ℕ
last_byte c [] = c
last_byte c (b ∷ s) = last_byte b s

unfoldable pub check_label : Bytes → Option Fault
unfolding check_bytes last_byte
check_label [] = some empty_label
check_label (c ∷ s) =
    if ltb max_label (length (c ∷ s))
    then some label_too_long
    else if c == hyphen
    then some leading_hyphen
    else if last_byte c s == hyphen
    then some trailing_hyphen
    else check_bytes (c ∷ s)

abbrev pub or_fault : Option Fault → Option Fault → Option Fault
or_fault none o = o
or_fault (some f) o = some f

-- the loop of `Check`
unfoldable pub check_labels : List Bytes → Option Fault
check_labels [] = none
check_labels (l ∷ ls) = or_fault (check_label l) (check_labels ls)

-- Check
unfoldable pub check : Bytes → Option Fault
check name =
    let trimmed = trim_final dot name in
    if eqb name []
    then some empty
    else if eqb trimmed []
    then some not_a_name
    else if ltb max_name (length trimmed)
    then some too_long
    else check_labels (split_on dot trimmed)

unfoldable pub is_user_char : ℕ → Bool
unfolding is_host_char
is_user_char c = is_host_char c || c == b'.' || c == b'_'

-- the loop of `CheckUser`
unfoldable pub check_user_bytes : Bytes → Option Fault
check_user_bytes [] = none
check_user_bytes (c ∷ s) =
    let rest = check_user_bytes s in if is_user_char c then rest else some (bad_user_byte c)

-- CheckUser
unfoldable pub check_user : Bytes → Option Fault
unfolding check_user_bytes
check_user [] = some empty_user
check_user (c ∷ s) = if c == hyphen then some user_hyphen else check_user_bytes (c ∷ s)

-- IsIP
unfoldable pub is_ip : Bytes → Bool
is_ip host = not (contains_byte b'%' host) && parse_ip host

-- CheckHost
unfoldable pub check_host : Bytes → Option Fault
check_host host = if is_ip host then none else check host
