-- ===== src/Dhcp/Booting.antt =====
-- Where the boot address of internal/dhcp/dhcp.go comes from.
use clusterctl.Prelude.{
  true, false, List, [], ◌∷◌, ◌++◌, Bytes, Result, ok, err, eqb, contains_byte, Bool-cases, All,
  ◌≡◌, ◌≢◌, ◌↔◌, refl, sym, ap, ◌∙◌, inl, inr,
}
use clusterctl.Hostname.Ip.{parse_ip}
use clusterctl.Dhcp.Owning.{HandsOut, hands_out, hands_out_iff, found_in-one}
use clusterctl.Dhcp.{Host, NoAddress, look_up, found_in, address_of, boot_address}

false≢true : false ≢ true
false≢true e = absurd (cc)

cons≢nil : (h : Host) (hs : List Host) → h ∷ hs ≡ [] → ⊥
cons≢nil h hs e = absurd (cc)

cons-same : (g h : Host) (gs hs : List Host) → g ∷ gs ≡ h ∷ hs → (g ≡ h) × (gs ≡ hs)
cons-same g h gs hs e = (cc, cc)

err≢ok : (x : NoAddress) (a : Bytes) → ◌≡◌ {A = Result NoAddress Bytes} (err x) (ok a) → ⊥
err≢ok x a e = absurd (cc)

ok-same : (a b : Bytes) → ◌≡◌ {A = Result NoAddress Bytes} (ok a) (ok b) → a ≡ b
ok-same a b e = cc

unfoldable pub NotOut : Bytes → Host → Type 0
NotOut node h = ¬ HandsOut node h

-- the one declaration of the hosts that is named after the node and hands out an address
unfoldable pub IsOnly : Bytes → List Host → Host → Type 0
unfolding NotOut
IsOnly node hosts h =
    (before : List Host) × (after : List Host) × (hosts ≡ before ++ h ∷ after)
    × HandsOut node h
    × All (NotOut node) before
    × All (NotOut node) after

module _ (node : Bytes) (e : eqb node [] ≡ false) where
  unfoldable taken : List Host → List Host
  taken hs = found_in (look_up node hs)

  taken-nil : taken [] ≡ []
  unfolding taken found_in look_up
  taken-nil = refl

  taken-own : (h : Host) (hs : List Host) → hands_out node h ≡ true → taken (h ∷ hs) ≡ h ∷ taken hs
  unfolding taken
  taken-own h hs own_ = found_in-one node h hs e ∙ rw own_ refl

  taken-other : (h : Host) (hs : List Host) → hands_out node h ≡ false → taken (h ∷ hs) ≡ taken hs
  unfolding taken
  taken-other h hs other = found_in-one node h hs e ∙ rw other refl

  goes_without : (h : Host) → hands_out node h ≡ false → NotOut node h
  unfolding NotOut
  goes_without h other out = absurd (false≢true (sym other ∙ (hands_out_iff node h).1 out))

  stays_away : (h : Host) → NotOut node h → hands_out node h ≡ false
  unfolding NotOut
  stays_away h other = elim (Bool-cases (hands_out node h)) [
    | inl out ↦ absurd (other ((hands_out_iff node h).0 out))
    | inr none_ ↦ none_
  ]

  taken-none : (hs : List Host) → taken hs ≡ [] → All (NotOut node) hs
  taken-none [] h = tt
  taken-none (g ∷ hs) h = elim (Bool-cases (hands_out node g)) [
    | inl own_ ↦ absurd (cons≢nil g (taken hs) (sym (taken-own g hs own_) ∙ h))
    | inr other ↦ (goes_without g other, taken-none hs (sym (taken-other g hs other) ∙ h))
  ]

  none-taken : (hs : List Host) → All (NotOut node) hs → taken hs ≡ []
  none-taken [] h = taken-nil
  none-taken (g ∷ hs) (other, h) = taken-other g hs (stays_away g other) ∙ none-taken hs h

  taken-one : (h : Host) (hs : List Host) → taken hs ≡ h ∷ [] → IsOnly node hs h
  unfolding IsOnly
  taken-one h [] t = absurd (cons≢nil h [] (sym t ∙ taken-nil))
  taken-one h (g ∷ hs) t = elim (Bool-cases (hands_out node g)) [
    | inl own_ ↦
        let (same, rest) = cons-same g h (taken hs) [] (sym (taken-own g hs own_) ∙ t) in
        (
          [],
          hs,
          ap (λ x. x ∷ hs) same,
          (hands_out_iff node h).0 (ap (hands_out node) (sym same) ∙ own_),
          tt,
          taken-none hs rest,
        )
    | inr other ↦
        let (before, after, parts, out, b, a) = taken-one h hs (sym (taken-other g hs other) ∙ t) in
        (g ∷ before, after, ap (λ x. g ∷ x) parts, out, (goes_without g other, b), a)
  ]

  one-taken :
      (h : Host) (before after : List Host)
      → HandsOut node h
      → All (NotOut node) before
      → All (NotOut node) after
      → taken (before ++ h ∷ after) ≡ h ∷ []
  one-taken h [] after out b a =
      taken-own h after ((hands_out_iff node h).1 out) ∙ ap (λ x. h ∷ x) (none-taken after a)
  one-taken h (g ∷ before) after out (other, b) a =
      taken-other g (before ++ h ∷ after) (stays_away g other) ∙ one-taken h before after out b a

address_of-one :
    (found : List Host) (a : Bytes)
    → address_of found ≡ ok a
    → (h : Host) × (found ≡ h ∷ [])
      × (h.address ≡ a)
      × (contains_byte b',' a ≡ false)
      × (parse_ip a ≡ true)
unfolding address_of
address_of-one [] a t = absurd (cc)
address_of-one (h ∷ g ∷ hs) a t = absurd (cc)
address_of-one (h ∷ []) a t = elim (Bool-cases (contains_byte b',' h.address)) [
  | inl many ↦ absurd (err≢ok _ a (rw (address_of, many) at t))
  | inr single ↦ elim (Bool-cases (parse_ip h.address)) [
    | inr bad ↦ absurd (err≢ok _ a (rw (address_of, single, bad) at t))
    | inl good ↦
        let same : h.address ≡ a = ok-same h.address a (rw (address_of, single, good) at t) in
        (h, refl, same, ap (contains_byte b',') (sym same) ∙ single, ap parse_ip (sym same) ∙ good)
  ]
]

one-address_of :
    (h : Host)
    → contains_byte b',' h.address ≡ false
    → parse_ip h.address ≡ true
    → address_of (h ∷ []) ≡ ok h.address
unfolding address_of
one-address_of h single good = rw (address_of, single, good) refl

has_name : (node : Bytes) → node ≢ [] → eqb node [] ≡ false
has_name [] h = absurd (h refl)
has_name (c ∷ node) h = refl

-- For a node that has a name, BootAddress gives an address exactly when the address is that of one
-- declaration, no other declaration that is named after the node hands out an address, and the address is an
-- IP address. A declaration is named after the node when its name is the node's, or goes on after the node's
-- with a dot.
pub boot_address_iff :
    (hosts : List Host) (node a : Bytes)
    → node ≢ []
    → (boot_address hosts node ≡ ok a) ↔ (
        (h : Host) × IsOnly node hosts h
        × (h.address ≡ a)
        × (contains_byte b',' a ≡ false)
        × (parse_ip a ≡ true))
unfolding boot_address IsOnly taken
boot_address_iff hosts node a named =
    let e : eqb node [] ≡ false = has_name node named in
    (
      λ t.
          let (h, found, same, single, good) = address_of-one (found_in (look_up node hosts)) a t in
          (h, taken-one node e h hosts found, same, single, good),
      λ (h, (before, after, parts, out, b, x), same, single, good).
          ap address_of (ap (taken node e) parts ∙ one-taken node e h before after out b x)
          ∙ one-address_of h (ap (contains_byte b',') same ∙ single) (ap parse_ip same ∙ good)
          ∙ ap ok same,
    )
