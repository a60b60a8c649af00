-- ===== src/Tests/NamingTests.antt =====
-- Templates and naming rules.
use clusterctl.Prelude.{
  false, [], ◌∷◌, none, some, ok, err, codes, ◌≡◌, ◌≢◌, refl, lookup, trim_space, trim_left,
  trim_right, to_lower, trim_final, before, has_prefix,
}
use clusterctl.Hostname.Ip.{parse_ip, ipv4_step, is_digit}
use clusterctl.Tmpl.{Vars, expand, expand_loop, round, placeholder, cut_at, out_of_fuel, unopened}
use clusterctl.Tmpl.Laws.{expand-ends}
use clusterctl.Naming.{
  Namer, Rule, names_itself, other_domain, match_rules, rule_matches, bmc, bmc_lower, bmc_by_rule,
  is_other_domain, fqdn, fqdn_lower, short, expand_name, has_two_dots, ends_in_dot,
}
use clusterctl.Naming.Rules.{IsProcessor, plain_name, bmc-IsProcessor}

abbrev vars : Vars
vars = (codes "name", codes "exe1") ∷ (codes "domains.hpc", codes "hpc.gsi.de") ∷ []

expands : expand (codes "{ name }.{domains.hpc}{{") vars ≡ ok (codes "exe1.hpc.gsi.de{")
unfolding expand expand_loop round placeholder cut_at lookup trim_space trim_left trim_right
expands = refl

refuses : expand (codes "a}b") vars ≡ err unopened
unfolding expand expand_loop round
refuses = refl

expand-ends_example : expand (codes "{{{") vars ≢ err out_of_fuel
expand-ends_example = expand-ends (codes "{{{") vars

known_name : lookup (trim_space (codes " name ")) vars ≡ some (codes "exe1")
unfolding lookup trim_space trim_left trim_right
known_name = refl

abbrev exe : Rule
exe = record {
  index = 1;
  prefixes = codes "exe" ∷ [];
  pattern = none;
  fqdn_template = codes "{name}.{domains.hpc}";
  bmc_template = codes "{name}.bmc";
}

abbrev any_node : Rule
any_node = record {
  index = 2;
  prefixes = [];
  pattern = none;
  fqdn_template = [];
  bmc_template = codes "{name}";
}

abbrev site : Namer
site = record { rules = exe ∷ any_node ∷ []; vars = (codes "domains.hpc", codes "hpc.gsi.de") ∷ [] }

naming : Unit {0}
unfolding match_rules rule_matches has_prefix bmc bmc_lower bmc_by_rule is_other_domain fqdn
    fqdn_lower short before expand_name has_two_dots ends_in_dot expand expand_loop round
    placeholder cut_at lookup trim_space trim_left trim_right to_lower trim_final parse_ip ipv4_step
    is_digit
naming = tt

processor : bmc site (codes "EXE7.hpc.gsi.de") ≡ ok (codes "exe7.bmc")
unfolding naming
processor = refl

other_site : bmc site (codes "exe7.other") ≡ err (other_domain (codes "exe7.other"))
unfolding naming
other_site = refl

itself : bmc site (codes "wlm1") ≡ err (names_itself 2)
unfolding naming
itself = refl

no_address : parse_ip (short (plain_name (codes "EXE7.hpc.gsi.de"))) ≡ false
unfolding naming
no_address = refl

bmc-IsProcessor_example : IsProcessor site (codes "EXE7.hpc.gsi.de") (codes "exe7.bmc")
bmc-IsProcessor_example =
    bmc-IsProcessor site (codes "EXE7.hpc.gsi.de") (codes "exe7.bmc") processor
