-- ===== src/Naming.antt =====
-- internal/naming/naming.go: the rules that turn a node name into a host name and into the name of
-- its service processor. Node names are taken to be ASCII. The regular expressions are those of the
-- standard library: `compile` stands for regexp.Compile of a pattern between ^(?: and )$.
mod Short
pub mod Rules
unfoldable pub use Short.{short, dot}
use clusterctl.Prelude.{
  ℕ, ◌+◌, Bool, true, false, not, ◌&&◌, ◌||◌, Option, none, some, List, [], ◌∷◌, ◌++◌, map, any,
  Bytes, Result, ok, err, ◌>>=◌, ◌>>◌, eqb, codes, contains_byte, trim_final, to_lower, equal_fold,
  has_prefix, ◌==◌, if◌then◌else◌,
}
use clusterctl.Hostname.Ip.{parse_ip}
use clusterctl.Tmpl
use clusterctl.Tmpl.{Vars, prefixed}

-- a rule of v1alpha1.NamingSpec
pub record RuleSpec : Type 0 where
  pub prefixes : List Bytes
  pub pattern : Bytes
  pub fqdn_template : Bytes
  pub bmc_template : Bytes

pub record Rule : Type 0 where
  pub index : ℕ
  pub prefixes : List Bytes
  pub pattern : Option (Bytes → Bool)
  pub fqdn_template : Bytes
  pub bmc_template : Bytes

pub record Namer : Type 0 where
  pub rules : List Rule
  pub vars : Vars

pub data Fault : Type 0 where
  bad_pattern sets_neither : ℕ → Fault
  no_rules : Fault
  template : Tmpl.Fault → Fault
  domain_not_set : Bytes → Fault
  is_address other_domain no_match : Bytes → Fault
  no_bmc_template names_itself : ℕ → Fault

module _ (compile : Bytes → Option (Bytes → Bool)) where
  -- a round of the loop of `New`
  unfoldable pub compile_rule : ℕ → RuleSpec → Result Fault Rule
  compile_rule i r = do
    pattern ←
        (if eqb r.pattern []
          then ok none
          else elim (compile r.pattern) [ none ↦ err (bad_pattern i) | some m ↦ ok (some m) ])
    if eqb r.fqdn_template [] && eqb r.bmc_template []
        then err (sets_neither i)
        else ok (record {
          index = i;
          prefixes = map to_lower r.prefixes;
          pattern = pattern;
          fqdn_template = r.fqdn_template;
          bmc_template = r.bmc_template;
        })

  unfoldable pub compile_rules : ℕ → List RuleSpec → Result Fault (List Rule)
  unfolding compile_rule
  compile_rules i [] = ok []
  compile_rules i (r ∷ rs) = do
    rule ← compile_rule i r
    rules ← compile_rules (i + 1) rs
    ok (rule ∷ rules)

  abbrev non_empty : List Rule → Result Fault (List Rule)
  non_empty [] = err no_rules
  non_empty (r ∷ rs) = ok (r ∷ rs)

  -- New
  unfoldable pub new : Bytes → List RuleSpec → Vars → Result Fault Namer
  unfolding compile_rules prefixed
  new bmc_prefix specs domains = do
    compiled ← compile_rules 1 specs
    rules ← non_empty compiled
    ok (record {
      rules = rules;
      vars = prefixed (codes "domains") domains ((codes "bmcPrefix", bmc_prefix) ∷ []);
    })

-- whether a rule matches a name: the switch of `match`
unfoldable pub rule_matches : Rule → Bytes → Bool
rule_matches r node = elim r.pattern [
  | some matches ↦ matches node
  | none ↦ elim r.prefixes [ [] ↦ true | p ∷ ps ↦ any (has_prefix node) (p ∷ ps) ]
]

-- match
unfoldable pub match_rules : List Rule → Bytes → Option Rule
match_rules [] node = none
match_rules (r ∷ rs) node =
    let rest = match_rules rs node in if rule_matches r node then some r else rest

-- strings.Contains of two dots
unfoldable pub has_two_dots : Bytes → Bool
has_two_dots [] = false
has_two_dots (c ∷ []) = false
has_two_dots (c ∷ d ∷ s) = c == dot && d == dot || has_two_dots (d ∷ s)

-- strings.HasSuffix of one dot
unfoldable pub ends_in_dot : Bytes → Bool
ends_in_dot [] = false
ends_in_dot (c ∷ []) = c == dot
ends_in_dot (c ∷ d ∷ s) = ends_in_dot (d ∷ s)

abbrev lift_template : Result Tmpl.Fault Bytes → Result Fault Bytes
lift_template (ok t) = ok t
lift_template (err e) = err (template e)

-- expand
unfoldable pub expand_name : Namer → Bytes → Bytes → Result Fault Bytes
unfolding has_two_dots ends_in_dot
expand_name n text node = do
  out ← lift_template (Tmpl.expand text ((codes "name", node) ∷ n.vars))
  if ends_in_dot out || has_two_dots out then err (domain_not_set out) else ok out

-- FQDN, past the lowering of the name
unfoldable pub fqdn_lower : Namer → Bytes → Result Fault Bytes
unfolding expand_name match_rules
fqdn_lower n node = if contains_byte dot node then ok node else elim (match_rules n.rules node) [
  | none ↦ ok node
  | some r ↦ if eqb r.fqdn_template [] then ok node else expand_name n r.fqdn_template node
]

-- FQDN
unfoldable pub fqdn : Namer → Bytes → Result Fault Bytes
unfolding fqdn_lower
fqdn n node = fqdn_lower n (to_lower node)

-- the last part of `BMC`: the name by the rule that matches, which must not be the node's own
unfoldable pub bmc_by_rule : Namer → Bytes → Bytes → Result Fault Bytes
unfolding expand_name match_rules
bmc_by_rule n short_name host = elim (match_rules n.rules short_name) [
  | none ↦ err (no_match short_name)
  | some r ↦ if eqb r.bmc_template [] then err (no_bmc_template r.index) else do
    bmc ← expand_name n r.bmc_template short_name
    if equal_fold bmc short_name || equal_fold bmc host then err (names_itself r.index) else ok bmc
]

-- the test of `BMC` for a name with a domain that is not the node's
unfoldable pub is_other_domain : Bytes → Bytes → Bool
unfolding short
is_other_domain name host = not (eqb name (short name)) && not (equal_fold name host)

-- BMC, for the name in lower case and without a final dot
unfoldable pub bmc_lower : Namer → Bytes → Result Fault Bytes
bmc_lower n name = if parse_ip name then err (is_address name) else do
  host ← fqdn n (short name)
  if is_other_domain name host then err (other_domain name) else bmc_by_rule n (short name) host

-- BMC
unfoldable pub bmc : Namer → Bytes → Result Fault Bytes
bmc n node = bmc_lower n (trim_final dot (to_lower node))
