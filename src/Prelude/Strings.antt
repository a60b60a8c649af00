-- ===== src/Prelude/Strings.antt =====
-- Go strings as their bytes, with the functions of package strings that the program calls.
use Prim.Native.Nat.{ℕ, ◌+◌}
use Prim.Native.Char.{code}
use Prim.Native.String.{String}
use mathlib.Core.Path.{◌≡◌, refl}
use mathlib.Core.Logic.{◌↔◌, ◌≢◌}
use mathlib.Core.Bool.{Bool, true, false, ◌&&◌, ◌||◌}
use mathlib.Core.Option.{Option, none, some}
use mathlib.Core.List.{List, [], ◌∷◌, ◌++◌}
use native.Mathlib.Omega.{arith}
use clusterctl.Prelude.Tests.{◌==◌, leb, if◌then◌else◌}
use clusterctl.Prelude.Lists.{any, All}

abbrev pub Bytes : Type 0
Bytes = List ℕ

-- The bytes of an ASCII literal.
abbrev pub codes : String → Bytes
codes String.[] = []
codes (String.◌∷◌ c s) = code c ∷ codes s

-- Go's == on strings.
abbrev pub eqb : Bytes → Bytes → Bool
eqb [] [] = true
eqb (a ∷ s) (b ∷ t) = a == b && eqb s t
eqb _ _ = false

pub eqb_iff : (s t : Bytes) → (eqb s t ≡ true) ↔ (s ≡ t)
eqb_iff [] [] = ground arith
eqb_iff [] (b ∷ t) = ground arith
eqb_iff (a ∷ s) [] = ground arith
eqb_iff (a ∷ s) (b ∷ t) = ground (arith, eqb_iff s t)

pub eqb_refl : (s : Bytes) → eqb s s ≡ true
eqb_refl s = (eqb_iff s s).1 refl

-- strings.Join with a separator of one byte
unfoldable pub join_with : ℕ → List Bytes → Bytes
join_with sep [] = []
join_with sep (w ∷ []) = w
join_with sep (w ∷ v ∷ ws) = w ++ (sep ∷ join_with sep (v ∷ ws))

abbrev pub onto_first : ℕ → List Bytes → List Bytes
onto_first c [] = (c ∷ []) ∷ []
onto_first c (w ∷ ws) = (c ∷ w) ∷ ws

-- strings.Split at a separator of one byte
unfoldable pub split_on : ℕ → Bytes → List Bytes
split_on sep [] = [] ∷ []
split_on sep (c ∷ s) =
    let rest = split_on sep s in if c == sep then [] ∷ rest else onto_first c rest

-- strings.TrimSuffix of one byte
unfoldable pub trim_final : ℕ → Bytes → Bytes
trim_final c [] = []
trim_final c (b ∷ []) = if b == c then [] else b ∷ []
trim_final c (b ∷ d ∷ s) = b ∷ trim_final c (d ∷ s)

-- strings.Contains of one byte
abbrev pub contains_byte : ℕ → Bytes → Bool
contains_byte c s = any (λ b. b == c) s

-- The part before the first occurrence of a byte, as strings.Cut returns it first.
unfoldable pub before : ℕ → Bytes → Bytes
before c [] = []
before c (b ∷ s) = let rest = before c s in if b == c then [] else b ∷ rest

abbrev pub Lacks : ℕ → Bytes → Type 0
Lacks c = All (λ b. b ≢ c)

-- strings.ToLower on an ASCII text; bytes past ASCII stay as they are
abbrev pub lower_byte : ℕ → ℕ
lower_byte c = if leb b'A' c && leb c b'Z' then c + 32 else c

unfoldable pub to_lower : Bytes → Bytes
to_lower [] = []
to_lower (c ∷ s) = lower_byte c ∷ to_lower s

-- strings.EqualFold on ASCII texts
abbrev pub equal_fold : Bytes → Bytes → Bool
equal_fold s t = eqb (to_lower s) (to_lower t)

-- strings.HasPrefix
unfoldable pub has_prefix : Bytes → Bytes → Bool
has_prefix s [] = true
has_prefix [] (b ∷ t) = false
has_prefix (a ∷ s) (b ∷ t) = a == b && has_prefix s t

-- the ASCII characters that strings.TrimSpace takes off
abbrev pub is_space : ℕ → Bool
is_space c = c == 32 || leb 9 c && leb c 13

unfoldable pub trim_left : Bytes → Bytes
trim_left [] = []
trim_left (c ∷ s) = let rest = trim_left s in if is_space c then rest else c ∷ s

unfoldable pub trim_right : Bytes → Bytes
trim_right [] = []
trim_right (c ∷ s) = let rest = trim_right s in if is_space c && eqb rest [] then [] else c ∷ rest

-- strings.TrimSpace
unfoldable pub trim_space : Bytes → Bytes
trim_space s = trim_right (trim_left s)

-- a Go map from strings, the last binding of a key first
unfoldable pub lookup {ℓ} : {V : Type ℓ} → Bytes → List (Bytes × V) → Option V
lookup k [] = none
lookup k ((j, v) ∷ m) = if eqb j k then some v else lookup k m
