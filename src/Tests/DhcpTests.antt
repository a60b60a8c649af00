-- ===== src/Tests/DhcpTests.antt =====
-- A node's declarations, and tokens that are written out.
use clusterctl.Prelude.{
  trim_left, cut_prefix, trim_right, List, [], ◌∷◌, Bytes, map, ok, some, true, false, codes, ◌≡◌,
  ◌↔◌, refl, contains_byte, has_prefix, All,
}
use clusterctl.Hostname.Ip.{ipv4_step, is_digit, parse_ip}
use clusterctl.Dhcp.{Host, boot_address, guid_from_mac}
use clusterctl.Dhcp.Tokens.{tokenize}
use clusterctl.Dhcp.Printing.{
  Piece, bare, quoted, semicolon, open_brace, close_brace, comma, print, reads_of, piece_read,
  IsPiece,
}
use clusterctl.Dhcp.Reading.{tokenize-print}
use clusterctl.Dhcp.Booting.{IsOnly, boot_address_iff}

abbrev host : Bytes → Bytes → Host
host name address = record {
  name = name;
  macs = [];
  address = address;
  filename = [];
  client_identifier = [];
  options = [];
  comments = [];
}

abbrev exe1 : Host
exe1 = host (codes "exe1.hpc") (codes "10.0.0.1")

abbrev hosts : List Host
hosts =
    exe1 ∷ host (codes "exe1-ib") (codes "10.1.0.1") ∷ host (codes "exe10") (codes "10.0.0.10") ∷ []

-- the second interface and the longer name give no address
boots : boot_address hosts (codes "exe1") ≡ ok (codes "10.0.0.1")
unfolding boot_address has_prefix cut_prefix parse_ip ipv4_step is_digit
boots = refl

boot_address_iff_example : (boot_address hosts (codes "exe1") ≡ ok (codes "10.0.0.1")) ↔ (
    (h : Host) × IsOnly (codes "exe1") hosts h
    × (h.address ≡ codes "10.0.0.1")
    × (contains_byte b',' (codes "10.0.0.1") ≡ false)
    × (parse_ip (codes "10.0.0.1") ≡ true))
boot_address_iff_example =
    boot_address_iff hosts (codes "exe1") (codes "10.0.0.1") (λ e. absurd (cc))

guid : guid_from_mac (codes "0C:42:a1-00.11:22") ≡ some (codes "0x0c42a10300001122")
unfolding guid_from_mac trim_right trim_left
guid = refl

-- a host declaration; the string holds a quote, a backslash and a brace
abbrev pieces : List Piece
pieces =
    bare (codes "host")
    ∷ quoted (codes "a\"b\\c}")
    ∷ open_brace
    ∷ bare (codes "option")
    ∷ comma
    ∷ semicolon
    ∷ close_brace
    ∷ []

pieces-IsPiece : All IsPiece pieces
unfolding IsPiece
pieces-IsPiece = (
  (λ e. absurd (cc), (refl, (refl, (refl, (refl, tt))))),
  (
    tt,
    (
      tt,
      (
        (λ e. absurd (cc), (refl, (refl, (refl, (refl, (refl, (refl, tt))))))),
        (tt, (tt, (tt, tt))),
      ),
    ),
  ),
)

tokenize-print_example : reads_of (tokenize (print pieces)) ≡ ok (map piece_read pieces)
tokenize-print_example = tokenize-print pieces pieces-IsPiece
