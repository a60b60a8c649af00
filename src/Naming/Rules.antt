-- ===== src/Naming/Rules.antt =====
-- The first rule that matches names a node, and a service processor is never the node itself.
use clusterctl.Prelude.{
  ℕ, true, false, ◌||◌, some, List, [], ◌∷◌, ◌++◌, Bytes, ok, err, Result-cases, eqb, eqb_iff,
  eqb_refl, before, lower_byte, to_lower, equal_fold, trim_final, trim_final_of_NotEnding,
  Lacks-NotEnding, Lacks, All, if◌then◌else◌, ◌≡◌, ◌≢◌, ◌↔◌, ◌⊎◌, inl, inr, refl, ap, ◌∙◌, arith,
  Bool-cases, Option-cases,
}
use clusterctl.Hostname.Ip.{parse_ip}
use clusterctl.Naming.Short.{short, dot}
use clusterctl.Naming.{
  Namer, Rule, Fault, rule_matches, match_rules, expand_name, fqdn, bmc_by_rule, is_other_domain,
  bmc_lower, bmc,
}

-- `r` is the first of the rules that matches the name.
pub record IsFirst (rules : List Rule) (node : Bytes) (r : Rule) : Type 0 where
  pub before_it : List Rule
  pub after_it : List Rule
  pub listed : rules ≡ before_it ++ (r ∷ after_it)
  pub matches : rule_matches r node ≡ true
  pub passed_over : All (λ q. rule_matches q node ≡ false) before_it

IsFirst-cons :
    (q : Rule) (rules : List Rule) (node : Bytes) (r : Rule)
    → rule_matches q node ≡ false
    → IsFirst rules node r
    → IsFirst (q ∷ rules) node r
IsFirst-cons q rules node r h f = record {
  before_it = q ∷ f.before_it;
  after_it = f.after_it;
  listed = ap (λ l. q ∷ l) f.listed;
  matches = f.matches;
  passed_over = (h, f.passed_over);
}

IsFirst-match_rules :
    (rules : List Rule) (node : Bytes) (r : Rule)
    → match_rules rules node ≡ some r
    → IsFirst rules node r
unfolding match_rules
IsFirst-match_rules [] node r h = cc
IsFirst-match_rules (q ∷ rules) node r h = elim (Bool-cases (rule_matches q node)) [
  | inl e ↦ record {
    before_it = [];
    after_it = rules;
    listed = ground arith;
    matches = ground arith;
    passed_over = tt;
  }
  | inr e ↦ IsFirst-cons q rules node r e (IsFirst-match_rules rules node r (ground arith))
]

match_of_append :
    (pre post : List Rule) (node : Bytes) (r : Rule)
    → All (λ q. rule_matches q node ≡ false) pre
    → rule_matches r node ≡ true
    → match_rules (pre ++ (r ∷ post)) node ≡ some r
unfolding match_rules
match_of_append [] post node r h m = rw m
match_of_append (q ∷ pre) post node r (h, hs) m = rw h (match_of_append pre post node r hs m)

-- The rule that `match` returns for a name is the first in the site's order that matches it.
pub match_rules_iff :
    (rules : List Rule) (node : Bytes) (r : Rule)
    → (match_rules rules node ≡ some r) ↔ IsFirst rules node r
match_rules_iff rules node r = (
  IsFirst-match_rules rules node r,
  λ f. rw f.listed (match_of_append f.before_it f.after_it node r f.passed_over f.matches),
)

-- the name that `BMC` works with
abbrev pub plain_name : Bytes → Bytes
plain_name node = trim_final dot (to_lower node)

-- What holds of the name `b` that `BMC` gives the service processor of a node.
pub record IsProcessor (n : Namer) (node b : Bytes) : Type 0 where
  pub host : Bytes
  pub named : fqdn n (short (plain_name node)) ≡ ok host
  pub no_address : parse_ip (plain_name node) ≡ false
  pub own_domain :
      (plain_name node ≡ short (plain_name node)) ⊎ (to_lower (plain_name node) ≡ to_lower host)
  pub not_short : to_lower b ≢ to_lower (short (plain_name node))
  pub not_host : to_lower b ≢ to_lower host
  pub by_rule : bmc_by_rule n (short (plain_name node)) host ≡ ok b

bmc_by_rule-ne :
    (n : Namer) (s host b : Bytes)
    → bmc_by_rule n s host ≡ ok b
    → (equal_fold b s ≡ false) × (equal_fold b host ≡ false)
unfolding bmc_by_rule
bmc_by_rule-ne n s host b h = elim (Option-cases (match_rules n.rules s)) [
  | inl e ↦ cc (rw (e, bmc_by_rule) at h)
  | inr (r, e) ↦ elim (Bool-cases (eqb r.bmc_template [])) [
    | inl f ↦ cc (rw (e, f, bmc_by_rule) at h)
    | inr f ↦ elim (Result-cases (expand_name n r.bmc_template s)) [
      | inr (g, q) ↦ cc (rw (e, f, q, bmc_by_rule) at h)
      | inl (c, q) ↦ accepted r.index c (rw (e, f, q, bmc_by_rule) at h)
    ]
  ]
]
  where
    accepted :
        (k : ℕ) (c : Bytes)
        → (if equal_fold c s || equal_fold c host then err (Fault.names_itself k) else ok c) ≡ ok b
        → (equal_fold b s ≡ false) × (equal_fold b host ≡ false)
    accepted k c p = ground arith

ne_of_fold : (a b : Bytes) → equal_fold a b ≡ false → to_lower a ≢ to_lower b
ne_of_fold a b h = ground (arith, eqb_iff (to_lower a) (to_lower b))

own_domain_of :
    (name host : Bytes)
    → is_other_domain name host ≡ false
    → (name ≡ short name) ⊎ (to_lower name ≡ to_lower host)
unfolding is_other_domain
own_domain_of name host h =
    ground (arith, eqb_iff name (short name), eqb_iff (to_lower name) (to_lower host))

-- `BMC` gives a name only to a node that is no address and is written with its short name or its own
-- host name; the name is neither the node's short name nor its host name, the case of letters aside.
pub bmc-IsProcessor : (n : Namer) (node b : Bytes) → bmc n node ≡ ok b → IsProcessor n node b
unfolding bmc bmc_lower
bmc-IsProcessor n node b h = elim (Result-cases (fqdn n (short (plain_name node)))) [
  | inr (e, q) ↦ ground arith
  | inl (host, q) ↦
      let found : bmc_by_rule n (short (plain_name node)) host ≡ ok b = ground arith in
      let (ns, nh) = bmc_by_rule-ne n (short (plain_name node)) host b found in
      record {
        host = host;
        named = q;
        no_address = ground arith;
        own_domain = own_domain_of (plain_name node) host (ground arith);
        not_short = ne_of_fold b (short (plain_name node)) ns;
        not_host = ne_of_fold b host nh;
        by_rule = found;
      }
]

before-Lacks : (c : ℕ) (s : Bytes) → Lacks c (before c s)
unfolding before
before-Lacks c [] = tt
before-Lacks c (b ∷ s) = ground (arith, before-Lacks c s)

before_of_Lacks : (c : ℕ) (s : Bytes) → Lacks c s → before c s ≡ s
unfolding before
before_of_Lacks c [] h = refl
before_of_Lacks c (b ∷ s) (h, hs) = ground (arith, before_of_Lacks c s hs)

-- no letter is in upper case
abbrev IsLower : Bytes → Type 0
IsLower = All (λ c. lower_byte c ≡ c)

to_lower-IsLower : (s : Bytes) → IsLower (to_lower s)
unfolding to_lower
to_lower-IsLower [] = tt
to_lower-IsLower (c ∷ s) = (ground arith, to_lower-IsLower s)

to_lower_of_IsLower : (s : Bytes) → IsLower s → to_lower s ≡ s
unfolding to_lower
to_lower_of_IsLower [] h = refl
to_lower_of_IsLower (c ∷ s) (h, hs) = cc (h, to_lower_of_IsLower s hs)

before-IsLower : (c : ℕ) (s : Bytes) → IsLower s → IsLower (before c s)
unfolding before
before-IsLower c [] h = tt
before-IsLower c (b ∷ s) (h, hs) = ground (arith, before-IsLower c s hs)

trim_final-IsLower : (c : ℕ) (s : Bytes) → IsLower s → IsLower (trim_final c s)
unfolding trim_final
trim_final-IsLower c [] h = tt
trim_final-IsLower c (b ∷ []) (h, _) = ground arith
trim_final-IsLower c (b ∷ d ∷ s) (h, hs) = (h, trim_final-IsLower c (d ∷ s) hs)

short-IsLower : (node : Bytes) → IsLower (short (plain_name node))
unfolding short
short-IsLower node = before-IsLower dot _ (trim_final-IsLower dot _ (to_lower-IsLower node))

short-Lacks : (name : Bytes) → Lacks dot (short name)
unfolding short
short-Lacks name = before-Lacks dot name

-- A short name in lower case is its own plain name, and its own short name.
plain_name-short : (node : Bytes) → plain_name (short (plain_name node)) ≡ short (plain_name node)
plain_name-short node =
    ap (trim_final dot) (to_lower_of_IsLower _ (short-IsLower node))
    ∙ trim_final_of_NotEnding dot _ (Lacks-NotEnding dot _ (short-Lacks (plain_name node)))

short-short : (name : Bytes) → short (short name) ≡ short name
unfolding short
short-short name = before_of_Lacks dot _ (before-Lacks dot name)

bmc_lower-ok :
    (n : Namer) (name host b : Bytes)
    → parse_ip name ≡ false
    → fqdn n (short name) ≡ ok host
    → is_other_domain name host ≡ false
    → bmc_by_rule n (short name) host ≡ ok b
    → bmc_lower n name ≡ ok b
unfolding bmc_lower
bmc_lower-ok n name host b ip named own by_rule = rw (ip, named) (rw own by_rule)

short_is_own : (name host : Bytes) → is_other_domain (short name) host ≡ false
unfolding is_other_domain
short_is_own name host = rw (short-short name, eqb_refl (short name))

-- However a node is written, its short name leads to the same service processor, unless that short
-- name is an address.
pub bmc-short :
    (n : Namer) (node b : Bytes)
    → parse_ip (short (plain_name node)) ≡ false
    → bmc n node ≡ ok b
    → bmc n (short (plain_name node)) ≡ ok b
unfolding bmc
bmc-short n node b no_ip h =
    let p = bmc-IsProcessor n node b h in
    let s = short (plain_name node) in
    rw (plain_name-short node) (
      bmc_lower-ok n s p.host b no_ip (rw (short-short (plain_name node)) p.named)
        (short_is_own (plain_name node) p.host) (rw (short-short (plain_name node)) p.by_rule))
