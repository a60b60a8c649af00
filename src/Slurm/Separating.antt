-- ===== src/Slurm/Separating.antt =====
-- How a text splits at the separators of a framed query.
use clusterctl.Prelude.{
  ℕ, zero, true, false, List, [], ◌∷◌, ◌++◌, Bytes, All, Lacks, length, has_prefix, contains_text,
  split_skip, Bool-cases, ==_iff, ◌≡◌, refl, ap, arith, inl, inr,
}
use clusterctl.Slurm.Output.{separator, newline}

-- what a client prints: the fields of a record, each with the separator after it
abbrev pub print_fields : Bytes → List Bytes → Bytes → Bytes
print_fields sep [] rest = rest
print_fields sep (f ∷ fs) rest = f ++ (sep ++ print_fields sep fs rest)

-- the records, each with a line break after it
abbrev pub print_records : Bytes → List (List Bytes) → Bytes
print_records sep [] = []
print_records sep (r ∷ rs) = print_fields sep r (newline ++ print_records sep rs)

-- the text does not occur
abbrev pub IsFree : Bytes → Bytes → Type 0
IsFree token f = contains_text f token ≡ false

pub has_prefix-through :
    (token f rest : Bytes) (c : ℕ)
    → Lacks c token
    → has_prefix (f ++ (c ∷ rest)) token ≡ true
    → has_prefix f token ≡ true
unfolding has_prefix
has_prefix-through [] [] rest c free h = refl
has_prefix-through [] (b ∷ f) rest c free h = refl
has_prefix-through (t ∷ token) [] rest c (ne, free) h = ground (arith, ==_iff c t)
has_prefix-through (t ∷ token) (b ∷ f) rest c (ne, free) h =
    let ih = has_prefix-through token f rest c free in ground (arith, ==_iff b t)

pub split_skip-skip : (sep w s : Bytes) → split_skip sep (length w) (w ++ s) ≡ split_skip sep zero s
unfolding split_skip
split_skip-skip sep [] s = refl
split_skip-skip sep (c ∷ w) s = split_skip-skip sep w s

pub has_prefix-append : (w s : Bytes) → has_prefix (w ++ s) w ≡ true
unfolding has_prefix
has_prefix-append [] s = refl
has_prefix-append (c ∷ w) s = ground (arith, has_prefix-append w s)

pub split_skip-sep :
    (c : ℕ) (sep s : Bytes)
    → split_skip (c ∷ sep) zero ((c ∷ sep) ++ s) ≡ [] ∷ split_skip (c ∷ sep) zero s
unfolding split_skip
split_skip-sep c sep s =
    rw (has_prefix-append (c ∷ sep) s) (ap (λ r. [] ∷ r) (split_skip-skip (c ∷ sep) sep s))

pub has_prefix-left : (s a b : Bytes) → has_prefix s (a ++ b) ≡ true → has_prefix s a ≡ true
unfolding has_prefix
has_prefix-left s [] b h = refl
has_prefix-left [] (c ∷ a) b h = h
has_prefix-left (d ∷ s) (c ∷ a) b h = let ih = has_prefix-left s a b in ground arith

pub contains_text-prefix : (s t : Bytes) → has_prefix s t ≡ true → contains_text s t ≡ true
unfolding contains_text
contains_text-prefix [] t h = h
contains_text-prefix (c ∷ s) t h = ground arith

pub IsFree-tail : (c : ℕ) (token s : Bytes) → IsFree token (c ∷ s) → IsFree token s
unfolding contains_text
IsFree-tail c token s free = ground arith

module _ (token : Bytes) (unbarred : Lacks separator token) where
  abbrev pub sep : Bytes
  sep = separator ∷ (token ++ (separator ∷ []))

  -- the separator does not begin inside a field
  field-IsFree :
      (c : ℕ) (f rest : Bytes)
      → IsFree token (c ∷ f)
      → has_prefix (c ∷ (f ++ (sep ++ rest))) sep ≡ false
  unfolding has_prefix
  field-IsFree c f rest free =
      elim (Bool-cases (has_prefix (f ++ (sep ++ rest)) (token ++ (separator ∷ [])))) [
        | inr e ↦ rw e (ground arith)
        | inl e ↦
            let whole = has_prefix-left (f ++ (sep ++ rest)) token (separator ∷ []) e in
            let inside =
              has_prefix-through token f ((token ++ (separator ∷ [])) ++ rest) separator unbarred
                whole in
            let found = contains_text-prefix f token inside in
            let absent = IsFree-tail c token f free in absurd (cc)
      ]

  pub split_skip-field :
      (f rest : Bytes)
      → IsFree token f
      → split_skip sep zero (f ++ (sep ++ rest)) ≡ f ∷ split_skip sep zero rest
  unfolding split_skip
  split_skip-field [] rest free = split_skip-sep separator (token ++ (separator ∷ [])) rest
  split_skip-field (c ∷ f) rest free =
      rw (field-IsFree c f rest free, split_skip-field f rest (IsFree-tail c token f free))

  pub split_skip-fields :
      (fs : List Bytes) (rest : Bytes)
      → All (IsFree token) fs
      → split_skip sep zero (print_fields sep fs rest) ≡ fs ++ split_skip sep zero rest
  split_skip-fields [] rest free = refl
  split_skip-fields (f ∷ fs) rest (here, free) =
      rw (split_skip-field f (print_fields sep fs rest) here, split_skip-fields fs rest free)
