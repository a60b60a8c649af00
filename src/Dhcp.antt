-- ===== src/Dhcp.antt =====
-- internal/dhcp/dhcp.go: what a node is given by a dhcpd configuration. Tokens has the tokens of the file.
-- The hosts are those that Parse leaves, in the order of their names; the index that finds a node's
-- without reading all of them is left out, and so are the statements that Parse reads the hosts from.
pub mod Tokens
pub mod Printing
pub mod Reading
pub mod Owning
pub mod Booting
use clusterctl.Prelude.{
  ℕ, length, Bool, true, false, not, ◌&&◌, ◌||◌, Option, none, some, List, [], ◌∷◌, ◌++◌, Bytes,
  Result, ok, err, eqb, has_prefix, cut_prefix, contains_byte, codes, to_lower, trim_space, all,
  any, leb, ◌==◌, if◌then◌else◌,
}
use clusterctl.Hostname.Ip.{parse_ip}

-- Host
pub record Host : Type 0 where
  pub name : Bytes
  pub macs : List Bytes
  pub address : Bytes
  pub filename : Bytes
  pub client_identifier : Bytes
  pub options : List (Bytes × Bytes)
  pub comments : List Bytes

-- MatchKind
pub data MatchKind : Type 0 where
  by_name by_interface by_comment : MatchKind

-- the kind of a name that starts with the node's and goes on like this
unfoldable pub match_rest : Bytes → Option MatchKind
match_rest [] = none
match_rest (c ∷ rest) = if c == b'-' || c == b'_' then some by_interface else none

-- matchName
unfoldable pub match_name : Bytes → Bytes → Option MatchKind
unfolding match_rest
match_name name node =
    if eqb node []
    then none
    else if eqb name node || has_prefix name (node ++ b'.' ∷ [])
    then some by_name
    else elim (cut_prefix name node) [ none ↦ none | some rest ↦ match_rest rest ]

-- Match
pub record Match : Type 0 where
  pub host : Host
  pub by : MatchKind

-- Lookup, past the index
unfoldable pub look_up : Bytes → List Host → List Match
unfolding match_name
look_up node [] = []
look_up node (h ∷ hs) =
    let rest = look_up node hs in
    elim (match_name h.name node) [
      | none ↦ rest
      | some kind ↦ record { host = h; by = kind } ∷ rest
    ]

-- why a node has no boot address
pub data NoAddress : Type 0 where
  no_address : NoAddress
  several_declarations : List Host → NoAddress
  several_addresses not_an_address : Host → NoAddress

abbrev pub is_own : MatchKind → Bool
is_own by_name = true
is_own by_interface = false
is_own by_comment = false

-- the loop of `BootAddress`
unfoldable pub found_in : List Match → List Host
found_in [] = []
found_in (m ∷ ms) =
    let rest = found_in ms in
    if is_own m.by && not (eqb m.host.address []) then m.host ∷ rest else rest

-- the rest of `BootAddress`, by the number of declarations found
unfoldable pub address_of : List Host → Result NoAddress Bytes
address_of [] = err no_address
address_of (h ∷ []) =
    if contains_byte b',' h.address
    then err (several_addresses h)
    else if not (parse_ip h.address)
    then err (not_an_address h)
    else ok h.address
address_of (h ∷ g ∷ hs) = err (several_declarations (h ∷ g ∷ hs))

-- BootAddress
unfoldable pub boot_address : List Host → Bytes → Result NoAddress Bytes
unfolding look_up found_in address_of
boot_address hosts node = address_of (found_in (look_up node hosts))

-- the replacer of `GUIDFromMAC`
unfoldable pub without_separators : Bytes → Bytes
without_separators [] = []
without_separators (c ∷ s) =
    let rest = without_separators s in
    if c == b':' || c == b'-' || c == b'.' then rest else c ∷ rest

abbrev pub is_hex : ℕ → Bool
is_hex c = leb b'0' c && leb c b'9' || leb b'a' c && leb c b'f' || leb b'A' c && leb c b'F'

-- the two halves of an address of twelve digits, around 0300
unfoldable pub guid_of : Bytes → Option Bytes
guid_of (a ∷ b ∷ c ∷ d ∷ e ∷ f ∷ rest) =
    some (codes "0x" ++ (a ∷ b ∷ c ∷ d ∷ e ∷ f ∷ (codes "0300" ++ rest)))
guid_of _ = none

-- GUIDFromMAC
unfoldable pub guid_from_mac : Bytes → Option Bytes
unfolding without_separators trim_space to_lower guid_of
guid_from_mac mac =
    let clean = without_separators (trim_space mac) in
    if not (length clean == 12)
    then none
    else if not (all is_hex clean)
    then none
    else guid_of (to_lower clean)
