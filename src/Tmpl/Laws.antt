-- ===== src/Tmpl/Laws.antt =====
-- The loop ends by itself, literal braces round trip, and a placeholder becomes its value.
use mathlib.Core.List.{flat_map}
use clusterctl.Prelude.{
  ℕ, zero, suc, ◌+◌, ◌≤◌, ◌<◌, ◌||◌, Option, none, some, [], ◌∷◌, ◌++◌, append_assoc, append-nil,
  Bytes, Result, ok, err, length, length-append, trim_space, lookup, Lacks, ◌==◌, if◌then◌else◌,
  ◌≡◌, ◌≢◌, ◌⊎◌, inl, inr, refl, sym, ap, ◌∙◌, arith, Option-cases,
}
use clusterctl.Tmpl.{
  Vars, open_brace, close_brace, Fault, out_of_fuel, cut_at, Round, write, stop, placeholder, round,
  expand_loop, expand,
}

-- What a round leaves is shorter than what it found.
abbrev Leaves : ℕ → Round → Type 0
Leaves n (write text after) = length after < n
Leaves n (stop e) = e ≢ out_of_fuel

Round-cases :
    (r : Round)
    → ((text : Bytes) × (after : Bytes) × (r ≡ write text after)) ⊎ ((e : Fault) × (r ≡ stop e))
Round-cases (write text after) = inl (text, after, refl)
Round-cases (stop e) = inr (e, refl)

abbrev Cut : ℕ → Option (Bytes × Bytes) → Type 0
Cut n none = Unit
Cut n (some (before, after)) = length after < n

cut_at-Cut : (c : ℕ) (s : Bytes) → Cut (suc (length s)) (cut_at c s)
unfolding cut_at
cut_at-Cut c [] = tt
cut_at-Cut c (b ∷ s) = ground (arith, cut_at-Cut c s)

placeholder-Leaves : (vars : Vars) (s : Bytes) → Leaves (suc (length s)) (placeholder vars s)
unfolding placeholder
placeholder-Leaves vars s = elim (Option-cases (cut_at close_brace s)) [
  | inl e ↦ rw (e, placeholder) (cc)
  | inr ((key, after), e) ↦ elim (Option-cases (lookup (trim_space key) vars)) [
    | inl f ↦ rw (e, f, placeholder) (cc)
    | inr (value, f) ↦ rw (e, f, placeholder) (rw e at (cut_at-Cut close_brace s))
  ]
]

round-Leaves : (vars : Vars) (c : ℕ) (s : Bytes) → Leaves (suc (length s)) (round vars c s)
unfolding round
round-Leaves vars c [] = ground (arith, placeholder-Leaves vars [])
round-Leaves vars c (d ∷ s) = ground (arith, placeholder-Leaves vars (d ∷ s))

-- The fuel suffices.
expand_loop-fuel :
    (f : ℕ) (vars : Vars) (s out : Bytes)
    → length s < f
    → expand_loop f vars s out ≢ err out_of_fuel
unfolding expand_loop
expand_loop-fuel zero vars s out h = elim h [ ]
expand_loop-fuel (suc f) vars [] out h = cc
expand_loop-fuel (suc f) vars (c ∷ s) out h = elim (Round-cases (round vars c s)) [
  | inl (text, after, e) ↦
      rw (e, expand_loop)
        (expand_loop-fuel f vars after (out ++ text) (omega (arith, left after text e)))
  | inr (e', e) ↦ rw (e, expand_loop) (stops e' e)
]
  where
    left : (after text : Bytes) → round vars c s ≡ write text after → length after < suc (length s)
    left after text e = rw e at (round-Leaves vars c s)

    stops :
        (e' : Fault)
        → round vars c s ≡ stop e'
        → ◌≢◌ {A = Result Fault Bytes} (err e') (err out_of_fuel)
    stops e' e q = ground (arith, rw e at (round-Leaves vars c s))

-- More fuel changes no result.
expand_loop-more :
    (f g : ℕ) (vars : Vars) (s out r : Bytes)
    → f ≤ g
    → expand_loop f vars s out ≡ ok r
    → expand_loop g vars s out ≡ ok r
unfolding expand_loop
expand_loop-more zero g vars s out r h e = cc
expand_loop-more (suc f) zero vars s out r h e = absurd (omega arith)
expand_loop-more (suc f) (suc g) vars [] out r h e = e
expand_loop-more (suc f) (suc g) vars (c ∷ s) out r h e = elim (Round-cases (round vars c s)) [
  | inl (text, after, q) ↦
      rw (q, expand_loop)
        (expand_loop-more f g vars after (out ++ text) r (omega arith) (rw (q, expand_loop) at e))
  | inr (e', q) ↦ cc (rw (q, expand_loop) at e)
]

-- The text that `Expand` writes as itself.
pub escape_byte : ℕ → Bytes
escape_byte c = if c == open_brace || c == close_brace then c ∷ c ∷ [] else c ∷ []

pub escape : Bytes → Bytes
unfolding escape_byte flat_map
escape s = flat_map escape_byte s

length-escape_byte : (c : ℕ) → 1 ≤ length (escape_byte c)
unfolding escape_byte
length-escape_byte c = ground arith

expand_loop-escape_byte :
    (f : ℕ) (vars : Vars) (c : ℕ) (rest out : Bytes)
    → expand_loop (suc f) vars (escape_byte c ++ rest) out ≡ expand_loop f vars rest (out ++ c ∷ [])
unfolding expand_loop escape_byte round
expand_loop-escape_byte f vars c rest out = ground arith

expand_loop-escape :
    (s : Bytes) (f : ℕ) (vars : Vars) (rest out : Bytes)
    → expand_loop (length s + f) vars (escape s ++ rest) out ≡ expand_loop f vars rest (out ++ s)
unfolding escape
expand_loop-escape [] f vars rest out = let fuel : 0 + f ≡ f = omega arith in rw (fuel, append-nil)
expand_loop-escape (c ∷ s) f vars rest out =
    let fuel : suc (length s) + f ≡ suc (length s + f) = omega arith in
    rw (fuel, append_assoc)
      (expand_loop-escape_byte (length s + f) vars c (flat_map escape_byte s ++ rest) out
        ∙ expand_loop-escape s f vars rest (out ++ c ∷ [])
        ∙ ap (expand_loop f vars rest) (append_assoc out (c ∷ []) s))

cut_at-append :
    (c : ℕ) (key after : Bytes) → Lacks c key → cut_at c (key ++ (c ∷ after)) ≡ some (key, after)
unfolding cut_at
cut_at-append c [] after h = ground arith
cut_at-append c (b ∷ key) after (h, hs) = ground (arith, cut_at-append c key after hs)

abbrev pub NotOpening : Bytes → Type 0
NotOpening [] = Unit
NotOpening (b ∷ key) = b ≢ open_brace

placeholder_of_key :
    (vars : Vars) (key after value : Bytes)
    → Lacks close_brace key
    → lookup (trim_space key) vars ≡ some value
    → placeholder vars (key ++ (close_brace ∷ after)) ≡ write value after
unfolding placeholder
placeholder_of_key vars key after value l e =
    rw (cut_at-append close_brace key after l, placeholder) (rw (e, placeholder))

round-placeholder :
    (vars : Vars) (key after value : Bytes)
    → Lacks close_brace key
    → NotOpening key
    → lookup (trim_space key) vars ≡ some value
    → round vars open_brace (key ++ (close_brace ∷ after)) ≡ write value after
unfolding round
round-placeholder vars [] after value l o e = placeholder_of_key vars [] after value l e
round-placeholder vars (b ∷ key) after value l o e =
    ground (arith, placeholder_of_key vars (b ∷ key) after value l e)

expand_loop-placeholder :
    (f : ℕ) (vars : Vars) (key after value out : Bytes)
    → Lacks close_brace key
    → NotOpening key
    → lookup (trim_space key) vars ≡ some value
    → expand_loop (suc f) vars (open_brace ∷ (key ++ (close_brace ∷ after))) out
      ≡ expand_loop f vars after (out ++ value)
unfolding expand_loop
expand_loop-placeholder f vars key after value out l o e =
    rw (round-placeholder vars key after value l o e, expand_loop)

length-escape : (s : Bytes) → length s ≤ length (escape s)
unfolding escape
length-escape [] = omega arith
length-escape (c ∷ s) = omega (
  arith,
  length-append (escape_byte c) (flat_map escape_byte s),
  length-escape_byte c,
  length-escape s,
)

-- The loop needs no more fuel than `Expand` gives it, whatever the template.
pub expand-ends : (template : Bytes) (vars : Vars) → expand template vars ≢ err out_of_fuel
unfolding expand
expand-ends template vars = expand_loop-fuel (suc (length template)) vars template [] (omega arith)

expand_loop-escaped :
    (s : Bytes) (vars : Vars) (out : Bytes)
    → expand_loop (length s + 1) vars (escape s) out ≡ ok (out ++ s)
expand_loop-escaped s vars out =
    ap (λ t. expand_loop (length s + 1) vars t out) (sym (append-nil (escape s)))
    ∙ expand_loop-escape s 1 vars [] out
    ∙ unfold expand_loop in refl

fuel_enough :
    (pre key post : Bytes)
    → length pre + suc (length post + 1)
      ≤ suc (length (escape pre ++ (open_brace ∷ (key ++ (close_brace ∷ escape post)))))
fuel_enough pre key post = omega (
  arith,
  length-append (escape pre) (open_brace ∷ (key ++ (close_brace ∷ escape post))),
  length-append key (close_brace ∷ escape post),
  length-escape pre,
  length-escape post,
)

-- A placeholder whose key, without the blanks around it, has a value becomes that value, and the text
-- around it, with its braces doubled, is written as it was.
pub expand-placeholder :
    (pre key post value : Bytes) (vars : Vars)
    → Lacks close_brace key
    → NotOpening key
    → lookup (trim_space key) vars ≡ some value
    → expand (escape pre ++ (open_brace ∷ (key ++ (close_brace ∷ escape post)))) vars
      ≡ ok (pre ++ (value ++ post))
unfolding expand
expand-placeholder pre key post value vars l o e =
    expand_loop-more (length pre + suc (length post + 1))
      (suc (length (escape pre ++ (open_brace ∷ (key ++ (close_brace ∷ escape post)))))) vars
      (escape pre ++ (open_brace ∷ (key ++ (close_brace ∷ escape post)))) []
      (pre ++ (value ++ post)) (fuel_enough pre key post)
      (expand_loop-escape pre (suc (length post + 1)) vars
          (open_brace ∷ (key ++ (close_brace ∷ escape post))) []
        ∙ expand_loop-placeholder (length post + 1) vars key (escape post) value pre l o e
        ∙ expand_loop-escaped post vars (pre ++ value)
        ∙ ap ok (append_assoc pre value post))
