-- ===== src/Prelude/Ints.antt =====
-- Go's int, and strconv.Atoi, which reads a decimal with a sign or without into 64 bits.
use Prim.Native.Nat.{ℕ, ◌+◌, ◌-◌, ◌*◌}
use mathlib.Core.Bool.{◌&&◌}
use mathlib.Core.Option.{Option, none, some}
use mathlib.Core.List.{[], ◌∷◌}
use clusterctl.Prelude.Tests.{◌==◌, leb, if◌then◌else◌}
use clusterctl.Prelude.Strings.{Bytes}

-- `negsuc n` is -(n + 1).
pub data ℤ : Type 0 where
  pos : ℕ → ℤ
  negsuc : ℕ → ℤ

-- The value of a run of digits that follows the value `acc`.
unfoldable pub digits_from : ℕ → Bytes → Option ℕ
digits_from acc [] = some acc
digits_from acc (c ∷ s) =
    let rest = digits_from (acc * 10 + (c - 48)) s in if leb 48 c && leb c 57 then rest else none

unfoldable pub digits : Bytes → Option ℕ
unfolding digits_from
digits [] = none
digits (c ∷ s) = digits_from 0 (c ∷ s)

abbrev pub max_int : ℕ
max_int = 9223372036854775807

abbrev positive : Option ℕ → Option ℤ
positive none = none
positive (some n) = if leb n max_int then some (pos n) else none

abbrev negative : Option ℕ → Option ℤ
negative none = none
negative (some n) =
    if n == 0 then some (pos 0) else if leb n (max_int + 1) then some (negsuc (n - 1)) else none

-- strconv.Atoi; `none` is an error
unfoldable pub atoi : Bytes → Option ℤ
unfolding digits
atoi [] = none
atoi (c ∷ s) =
    if c == b'-'
    then negative (digits s)
    else if c == b'+'
    then positive (digits s)
    else positive (digits (c ∷ s))
