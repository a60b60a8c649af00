-- ===== src/Tests/NameTests.antt =====
-- Host names, addresses and accounts.
use clusterctl.Prelude.{true, false, none, some, codes, ◌≡◌, ◌↔◌, refl, split_on, trim_final}
use clusterctl.Hostname.{
  check, check_labels, check_label, is_host_char, check_user, check_host, is_ip, bad_byte,
  trailing_hyphen,
}
use clusterctl.Hostname.Ip.{
  parse_ip, ipv4_step, is_digit, is_hex, hex_run, finish, after_colon, after_group, ipv6_groups,
  ipv6,
}
use clusterctl.Hostname.Names.{IsHostName, IsUserName, check_iff, check_user_iff}
use clusterctl.Hostname.Safety.{HasNoPort, NoOption, check_host-safe}

addresses :
    (parse_ip (codes "10.0.0.1") ≡ true)
    × (parse_ip (codes "::1") ≡ true)
    × (parse_ip (codes "fe80::1:2.3.4.5") ≡ true)
    × (parse_ip (codes "1:2:3:4:5:6:7:8") ≡ true)
    × (parse_ip (codes "10.0.0.01") ≡ false)
    × (parse_ip (codes "1::2::3") ≡ false)
    × (parse_ip (codes "1:2:3:4:5:6:7") ≡ false)
    × (parse_ip (codes "fe80::1%eth0") ≡ false)
unfolding parse_ip ipv4_step is_digit is_hex hex_run finish after_colon after_group ipv6_groups ipv6
addresses = (refl, refl, refl, refl, refl, refl, refl, refl)

names :
    (check (codes "node1.example.org.") ≡ none)
    × (check (codes "node1-") ≡ some trailing_hyphen)
    × (check (codes "root@node1") ≡ some (bad_byte b'@'))
unfolding check check_labels check_label is_host_char split_on trim_final
names = (refl, refl, refl)

check_iff_example : (check (codes "a.b") ≡ none) ↔ IsHostName (codes "a.b")
check_iff_example = check_iff (codes "a.b")

check_user_iff_example : (check_user (codes "root") ≡ none) ↔ IsUserName (codes "root")
check_user_iff_example = check_user_iff (codes "root")

loopback : check_host (codes "::1") ≡ none
unfolding check_host is_ip parse_ip ipv4_step is_digit is_hex hex_run finish after_colon after_group
    ipv6_groups ipv6
loopback = refl

check_host-safe_example : HasNoPort (codes "::1") × NoOption (codes "::1")
check_host-safe_example = check_host-safe (codes "::1") loopback

-- A port behind a name or an address is refused.
no_ports :
    (check_host (codes "node:22") ≡ some (bad_byte b':'))
    × (check_host (codes "10.0.0.1:22") ≡ some (bad_byte b':'))
    × (check_host (codes "be:22") ≡ some (bad_byte b':'))
unfolding check_host is_ip parse_ip ipv4_step is_digit is_hex hex_run finish after_colon after_group
    ipv6_groups ipv6 check check_labels check_label is_host_char split_on trim_final
no_ports = (refl, refl, refl)
