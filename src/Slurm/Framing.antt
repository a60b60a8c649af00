-- ===== src/Slurm/Framing.antt =====
-- A query whose fields are set apart by a token that nobody could know reads back as it was printed.
use clusterctl.Prelude.{
  ℕ, zero, suc, ◌+◌, ◌≤◌, true, false, List, [], ◌∷◌, ◌++◌, append_assoc, Bytes, ok, All, Lacks,
  length, length-append, has_prefix, cut_prefix, contains_text, split_skip, split_text, trim_space,
  trim_left, trim_right, ==_iff, ◌≡◌, ◌≢◌, refl, sym, ap, ◌∙◌, arith,
}
use Prim.Native.Nat.{◌%◌}
use native.Mathlib.Nat.{add-mod_right, mod_self, zero-mod}
use clusterctl.Slurm.Output.{
  Framed, new_framed, separator, newline, last_of, init_of, take, drop, on_new_line, record_loop,
  records,
}
use clusterctl.Slurm.Separating.{
  print_fields, print_records, IsFree, sep, split_skip-field, split_skip-fields,
}

-- the fields of records that follow another, as they stand between separators
abbrev lead_rows : List (List Bytes) → List Bytes
lead_rows [] = []
lead_rows ([] ∷ rs) = lead_rows rs
lead_rows ((f ∷ fs) ∷ rs) = (10 ∷ f) ∷ (fs ++ lead_rows rs)

-- a record of n fields in which the token does not occur
abbrev pub IsRecord : Bytes → ℕ → List Bytes → Type 0
IsRecord token n r = (length r ≡ n) × All (IsFree token) r

-- hexadecimal, say: no separator and no line break
abbrev pub IsToken : Bytes → Type 0
IsToken token = (token ≢ []) × Lacks separator token × Lacks 10 token

last_of-snoc : (xs : List Bytes) (y : Bytes) → last_of (xs ++ (y ∷ [])) ≡ y
unfolding last_of
last_of-snoc [] y = refl
last_of-snoc (x ∷ []) y = refl
last_of-snoc (x ∷ w ∷ xs) y = last_of-snoc (w ∷ xs) y

init_of-snoc : (xs : List Bytes) (y : Bytes) → init_of (xs ++ (y ∷ [])) ≡ xs
unfolding init_of
init_of-snoc [] y = refl
init_of-snoc (x ∷ []) y = refl
init_of-snoc (x ∷ w ∷ xs) y = ap (λ r. x ∷ r) (init_of-snoc (w ∷ xs) y)

take-append : (xs ys : List Bytes) → take (length xs) (xs ++ ys) ≡ xs
unfolding take
take-append [] ys = refl
take-append (x ∷ xs) ys = ap (λ r. x ∷ r) (take-append xs ys)

drop-append : (xs ys : List Bytes) → drop (length xs) (xs ++ ys) ≡ ys
unfolding drop
drop-append [] ys = refl
drop-append (x ∷ xs) ys = drop-append xs ys

IsFree-newline : (token f : Bytes) → IsToken token → IsFree token f → IsFree token (10 ∷ f)
unfolding contains_text has_prefix
IsFree-newline [] f (ne, _, _) free = absurd (ne refl)
IsFree-newline (t ∷ token) f (ne, _, (other, _)) free = ground (arith, ==_iff 10 t)

module _ (token : Bytes) (good : IsToken token) (n : ℕ) where
  split_skip-rows :
      (rs : List (List Bytes))
      → All (IsRecord token (suc n)) rs
      → split_skip (sep token good.1) zero (newline ++ print_records (sep token good.1) rs)
        ≡ lead_rows rs ++ (newline ∷ [])
  split_skip-rows [] _ = unfold split_skip has_prefix in refl
  split_skip-rows ([] ∷ rs) ((bad, _), _) = absurd (omega (arith, bad))
  split_skip-rows ((f ∷ fs) ∷ rs) ((_, (here, free)), rest) = rw (
    split_skip-field token good.1 (10 ∷ f)
        (print_fields (sep token good.1) fs (newline ++ print_records (sep token good.1) rs))
        (IsFree-newline token f good here),
    split_skip-fields token good.1 fs (newline ++ print_records (sep token good.1) rs) free,
    split_skip-rows rs rest,
    append_assoc,
  )

  take_row :
      (f : Bytes) (fs more : List Bytes)
      → length (f ∷ fs) ≡ suc n
      → take (suc n) ((10 ∷ f) ∷ (fs ++ more)) ≡ (10 ∷ f) ∷ fs
  take_row f fs more size = rw (sym size) (take-append ((10 ∷ f) ∷ fs) more)

  take_first :
      (f : Bytes) (fs more : List Bytes)
      → length (f ∷ fs) ≡ suc n
      → take (suc n) (f ∷ (fs ++ more)) ≡ f ∷ fs
  take_first f fs more size = rw (sym size) (take-append (f ∷ fs) more)

  drop_row :
      (f : Bytes) (fs more : List Bytes)
      → length (f ∷ fs) ≡ suc n
      → drop (suc n) (f ∷ (fs ++ more)) ≡ more
  drop_row f fs more size = rw (sym size) (drop-append (f ∷ fs) more)

  record_loop-rows :
      (fuel : ℕ) (rs : List (List Bytes))
      → All (IsRecord token (suc n)) rs
      → length (lead_rows rs) ≤ fuel
      → record_loop fuel (suc n) false (lead_rows rs) ≡ ok rs
  unfolding record_loop on_new_line cut_prefix
  record_loop-rows zero [] _ enough = refl
  record_loop-rows (suc fuel) [] _ enough = refl
  record_loop-rows fuel ([] ∷ rs) ((bad, _), _) enough = absurd (omega (arith, bad))
  record_loop-rows zero ((f ∷ fs) ∷ rs) _ enough = absurd (omega arith)
  record_loop-rows (suc fuel) ((f ∷ fs) ∷ rs) ((size, _), rest) enough = rw (
    take_row f fs (lead_rows rs) size,
    drop_row (10 ∷ f) fs (lead_rows rs) size,
    record_loop-rows fuel rs rest (omega (arith, length-append fs (lead_rows rs))),
  )

  length-lead_rows :
      (rs : List (List Bytes)) (k : ℕ)
      → All (IsRecord token (suc n)) rs
      → (k + length (lead_rows rs)) % suc n ≡ k % suc n
  length-lead_rows [] k _ = ap (λ m. m % suc n) (omega arith)
  length-lead_rows ([] ∷ rs) k ((bad, _), _) = absurd (omega (arith, bad))
  length-lead_rows ((f ∷ fs) ∷ rs) k ((size, _), rest) =
      ap (λ m. m % suc n) (omega (arith, length-append fs (lead_rows rs), size))
      ∙ add-mod_right (k + length (lead_rows rs)) (suc n)
      ∙ length-lead_rows rs k rest

  record_loop-first :
      (fuel : ℕ) (f : Bytes) (fs : List Bytes) (rs : List (List Bytes))
      → length (f ∷ fs) ≡ suc n
      → All (IsRecord token (suc n)) rs
      → length (lead_rows rs) ≤ fuel
      → record_loop (suc fuel) (suc n) true ((f ∷ fs) ++ lead_rows rs) ≡ ok ((f ∷ fs) ∷ rs)
  unfolding record_loop
  record_loop-first fuel f fs rs size rest enough = rw (
    take_first f fs (lead_rows rs) size,
    drop_row f fs (lead_rows rs) size,
    record_loop-rows fuel rs rest enough,
  )

records-whole :
    (f : Framed) (out : Bytes) (whole : List Bytes)
    → split_text f.sep out ≡ whole ++ (newline ∷ [])
    → length whole % length f.names ≡ 0
    → records f out ≡ record_loop (length whole) (length f.names) true whole
unfolding records
records-whole f out whole e even =
    let last = last_of-snoc whole newline in
    let init = init_of-snoc whole newline in
    rw (e, last, init, even) (unfold trim_space trim_left trim_right in refl)

records-none : (f : Framed) → 0 % length f.names ≡ 0 → records f [] ≡ ok []
unfolding records split_text split_skip last_of init_of trim_space trim_left trim_right record_loop
records-none f even = rw even

split_records :
    (token : Bytes) (good : IsToken token) (n : ℕ) (r : List Bytes) (rs : List (List Bytes))
    → All (IsFree token) r
    → All (IsRecord token (suc n)) rs
    → split_text (sep token good.1) (print_records (sep token good.1) (r ∷ rs))
      ≡ (r ++ lead_rows rs) ++ (newline ∷ [])
unfolding split_text
split_records token good n r rs free rest = rw (
  split_skip-fields token good.1 r (newline ++ print_records (sep token good.1) rs) free,
  split_skip-rows token good n rs rest,
  append_assoc,
)

length-records :
    (token : Bytes) (good : IsToken token) (n : ℕ) (r : List Bytes) (rs : List (List Bytes))
    → length r ≡ suc n
    → All (IsRecord token (suc n)) rs
    → length (r ++ lead_rows rs) % suc n ≡ 0
length-records token good n r rs size rest =
    ap (λ m. m % suc n) (length-append r (lead_rows rs))
    ∙ length-lead_rows token good n rs (length r) rest
    ∙ ap (λ m. m % suc n) size
    ∙ mod_self (suc n)

-- A query that is framed by a token without separators and line breaks reads back every record as it was
-- printed, whatever else its fields hold, as long as there is a field and the token does not occur in one.
pub records-print_records :
    (token : Bytes) (names : List Bytes) (rs : List (List Bytes))
    → IsToken token
    → names ≢ []
    → All (IsRecord token (length names)) rs
    → records (new_framed token names) (print_records (new_framed token names).sep rs) ≡ ok rs
unfolding new_framed
records-print_records token [] rs good some_name rows = absurd (some_name refl)
records-print_records token (m ∷ names) [] good some_name rows =
    records-none (new_framed token (m ∷ names)) (unfold new_framed in zero-mod (length (m ∷ names)))
records-print_records token (m ∷ names) ([] ∷ rs) good some_name ((bad, _), _) =
    absurd (omega (arith, bad))
records-print_records token (m ∷ names) ((f ∷ fs) ∷ rs) good some_name ((size, free), rest) =
    records-whole (new_framed token (m ∷ names)) _ ((f ∷ fs) ++ lead_rows rs)
      (split_records token good (length names) (f ∷ fs) rs free rest)
      (length-records token good (length names) (f ∷ fs) rs size rest)
    ∙ record_loop-first token good (length names) (length (fs ++ lead_rows rs)) f fs rs size rest
        (omega (arith, length-append fs (lead_rows rs)))
