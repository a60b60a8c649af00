-- ===== src/Slurm/Output.antt =====
-- What the Slurm clients print: `fields`, `framed` and `records`.
use clusterctl.Prelude.{
  ℕ, zero, suc, ◌-◌, Bool, true, false, not, ◌||◌, none, some, List, [], ◌∷◌, ◌++◌, Bytes, Result,
  ok, err, ◌>>=◌, eqb, ltb, ◌==◌, if◌then◌else◌, length, split_on, split_text, join_text,
  trim_space, cut_prefix,
}
use Prim.Native.Nat.{◌%◌}
use clusterctl.ExitCode.{Error, target_failed}
use clusterctl.Slurm.Act.{refusal}

abbrev pub separator : ℕ
separator = b'|'

-- `for len(out) < n { out = append(out, "") }`, on a list that is `missing` too short
unfoldable pub pad : ℕ → List Bytes → List Bytes
pad zero out = out
pad (suc missing) out = pad missing (out ++ ([] ∷ []))

-- fields
unfoldable pub fields : Bytes → ℕ → Result Error (List Bytes)
unfolding pad
fields line n =
    let out = split_on separator line in
    if ltb n (length out)
    then err (refusal target_failed "a value holds the separator")
    else ok (pad (n - length out) out)

-- framed
pub record Framed : Type 0 where
  pub names : List Bytes
  pub sep : Bytes

-- newFramed; `token` is the random text in hexadecimal
unfoldable pub new_framed : Bytes → List Bytes → Framed
new_framed token names = record { names = names; sep = separator ∷ (token ++ (separator ∷ [])) }

-- format
unfoldable pub format : Framed → Bytes
format f = join_text f.sep f.names ++ f.sep

-- parts[len(parts)-1]
unfoldable pub last_of : List Bytes → Bytes
last_of [] = []
last_of (p ∷ []) = p
last_of (p ∷ q ∷ ps) = last_of (q ∷ ps)

-- parts[:len(parts)-1]
unfoldable pub init_of : List Bytes → List Bytes
init_of [] = []
init_of (p ∷ []) = []
init_of (p ∷ q ∷ ps) = p ∷ init_of (q ∷ ps)

unfoldable pub take : {A : Type 0} → ℕ → List A → List A
take zero xs = []
take (suc n) [] = []
take (suc n) (x ∷ xs) = x ∷ take n xs

unfoldable pub drop : {A : Type 0} → ℕ → List A → List A
drop zero xs = xs
drop (suc n) [] = []
drop (suc n) (x ∷ xs) = drop n xs

abbrev pub newline : Bytes
newline = 10 ∷ []

-- the error of output that is not of the records asked for
abbrev pub malformed : Error
malformed = refusal target_failed "printed output that does not have the fields asked for"

-- a record that starts on a new line, without the line break
unfoldable pub on_new_line : List Bytes → Result Error (List Bytes)
unfolding cut_prefix
on_new_line [] = err malformed
on_new_line (f ∷ fs) = elim (cut_prefix f newline) [ none ↦ err malformed | some g ↦ ok (g ∷ fs) ]

-- the loop of `records`: `first` is whether i is 0; the fuel is the number of parts
unfoldable pub record_loop : ℕ → ℕ → Bool → List Bytes → Result Error (List (List Bytes))
record_loop fuel n first [] = ok []
record_loop zero n first (p ∷ ps) = err malformed
record_loop (suc fuel) n first (p ∷ ps) = do
  row ← (if first then ok (take n (p ∷ ps)) else on_new_line (take n (p ∷ ps)))
  rows ← record_loop fuel n false (drop n (p ∷ ps))
  ok (row ∷ rows)

-- records
unfoldable pub records : Framed → Bytes → Result Error (List (List Bytes))
records f stdout =
    let parts = split_text f.sep stdout in
    let whole = init_of parts in
    let n = length f.names in
    if not (eqb (trim_space (last_of parts)) []) || not (length whole % n == 0)
    then err malformed
    else record_loop (length whole) n true whole
