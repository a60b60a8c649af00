-- ===== src/Tests/Sets.antt =====
-- Node sets as lists of names: an instance of the package's interface, to run the tests with.
use clusterctl.Prelude.{
  Bool, true, false, not, ◌||◌, List, [], ◌∷◌, ◌++◌, Bytes, ok, eqb, eqb_iff, eqb_refl, length,
  join_with, All, Exists, ◌≡◌, ◌⊎◌, ◌↔◌, refl, ap, arith, if◌then◌else◌,
}
use clusterctl.NodeSet.{NodeSets, Laws}

abbrev pub member : List Bytes → Bytes → Bool
member [] x = false
member (y ∷ ys) x = eqb y x || member ys x

abbrev pub keep : (Bytes → Bool) → List Bytes → List Bytes
keep p [] = []
keep p (y ∷ ys) = let rest = keep p ys in if p y then y ∷ rest else rest

abbrev pub no_names : List Bytes → Bool
no_names [] = true
no_names (_ ∷ _) = false

abbrev pub list_sets : NodeSets
list_sets = record {
  NodeSet = List Bytes;
  empty = [];
  parse = λ s. ok (s ∷ []);
  union = λ s t. s ++ t;
  intersection = λ s t. keep (member t) s;
  difference = λ s t. keep (λ x. not (member t x)) s;
  add = λ s x. ok (x ∷ s);
  contains = member;
  is_empty = no_names;
  len = length;
  expand = λ s. s;
  folded = join_with 44;
  hostlist = join_with 44;
}

pub member_iff : (s : List Bytes) (x : Bytes) → (member s x ≡ true) ↔ Exists (λ y. y ≡ x) s
member_iff [] x = ground arith
member_iff (y ∷ s) x = ground (arith, eqb_iff y x, member_iff s x)

pub member-append :
    (s t : List Bytes) (x : Bytes)
    → (member (s ++ t) x ≡ true) ↔ ((member s x ≡ true) ⊎ (member t x ≡ true))
member-append [] t x = ground arith
member-append (y ∷ s) t x = ground (arith, member-append s t x)

-- A predicate gives equal texts one answer.
same_answer : (p : Bytes → Bool) (y x : Bytes) → eqb y x ≡ true → p y ≡ p x
same_answer p y x e = ap p ((eqb_iff y x).0 e)

member-keep :
    (p : Bytes → Bool) (s : List Bytes) (x : Bytes)
    → (member (keep p s) x ≡ true) ↔ ((member s x ≡ true) × (p x ≡ true))
member-keep p [] x = ground arith
member-keep p (y ∷ s) x = ground (arith, member-keep p s x, same_answer p y x)

pub no_names_iff : (s : List Bytes) → (no_names s ≡ true) ↔ ((x : Bytes) → member s x ≡ false)
no_names_iff [] = (λ _ x. refl, λ _. refl)
no_names_iff (y ∷ s) = (λ h. cc, λ h. ground (arith, h y, eqb_refl y))

pub difference_iff :
    (s t : List Bytes) (x : Bytes)
    → (member (keep (λ z. not (member t z)) s) x ≡ true)
      ↔ ((member s x ≡ true) × (member t x ≡ false))
difference_iff s t x = ground (arith, member-keep (λ z. not (member t z)) s x)

pub intersection_iff :
    (s t : List Bytes) (x : Bytes)
    → (member (keep (member t) s) x ≡ true) ↔ ((member s x ≡ true) × (member t x ≡ true))
intersection_iff s t x = member-keep (member t) s x

pub added_iff :
    (s : List Bytes) (x y : Bytes) → (member (x ∷ s) y ≡ true) ↔ ((member s y ≡ true) ⊎ (x ≡ y))
added_iff s x y = ground (arith, eqb_iff x y)

pub All-names : (s : List Bytes) → All (λ _. Unit {0}) s
All-names [] = tt
All-names (y ∷ s) = (tt, All-names s)

abbrev pub list_laws : Laws list_sets
list_laws = record {
  IsName = λ _. Unit;
  contains-empty = λ x. refl;
  contains-union = member-append;
  contains-intersection = intersection_iff;
  contains-difference = difference_iff;
  is_empty_iff = no_names_iff;
  expand_iff = member_iff;
  expand_names = All-names;
  add_name = λ s x _. (x ∷ s, refl, added_iff s x);
  short_name = λ x _. tt;
}
