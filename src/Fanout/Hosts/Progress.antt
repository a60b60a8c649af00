-- ===== src/Fanout/Hosts/Progress.antt =====
-- Callers that share hosts do not wait for one another for ever.
use clusterctl.Prelude.{
  ℕ, zero, suc, ◌≤◌, ◌<◌, true, false, List, [], ◌∷◌, ◌++◌, Bytes, eqb, eqb_iff, ltb, ltb→lt, leb,
  ℤ, pos, negsuc, Bool-cases, All, Exists, ◌≡◌, ◌⊎◌, refl, sym, ap, inl, inr, arith,
}
use clusterctl.Config.Value.{lt_bytes}
use clusterctl.Fanout.Hosts.{
  Slots, Caller, waiting, working, over, take_place, release, Turn, takes, returns, releases, Step,
  comes, turns, gives_up, Reach, free, next, slot_limit,
}
use clusterctl.Fanout.Hosts.Order.{
  lt_bytes_irrefl, lt_bytes_trans, Increasing, acquire_names-Increasing,
}
use clusterctl.Fanout.Hosts.Bound.{count, held_on, Reach-Counted}

-- the names to come are in order, and after those that the caller has a place on
abbrev IsOrdered : Caller → Type 0
IsOrdered (waiting todo held) =
    Increasing todo × All (λ name. All (λ later. lt_bytes name later ≡ true) todo) held
IsOrdered (working held) = Unit
IsOrdered over = Unit

All-true : (held : List Bytes) → All (λ name. All (λ later. lt_bytes name later ≡ true) []) held
All-true [] = tt
All-true (x ∷ held) = (tt, All-true held)

All-later :
    (name : Bytes) (todo held : List Bytes)
    → All (λ h. All (λ later. lt_bytes h later ≡ true) (name ∷ todo)) held
    → All (λ h. All (λ later. lt_bytes h later ≡ true) todo) held
All-later name todo [] a = tt
All-later name todo (x ∷ held) a = (a.0.1, All-later name todo held a.1)

Turn-IsOrdered :
    {limit : ℕ} {c d : Caller} {s t : Slots} → Turn limit c s d t → IsOrdered c → IsOrdered d
Turn-IsOrdered (takes name todo held s room) (inc, past) =
    (inc.1, (inc.0, All-later name todo held past))
Turn-IsOrdered (returns held s) o = tt
Turn-IsOrdered (releases held s) o = tt

All-part :
    (P : Caller → Type 0) (before : List Caller) (c d : Caller) (rest : List Caller)
    → (P c → P d)
    → All P (before ++ c ∷ rest)
    → All P (before ++ d ∷ rest)
All-part P [] c d rest f a = (f a.0, a.1)
All-part P (b ∷ before) c d rest f a = (a.0, All-part P before c d rest f a.1)

Step-IsOrdered :
    {limit : ℕ} {s t : Slots} {cs ds : List Caller}
    → Step limit s cs t ds
    → All IsOrdered cs
    → All IsOrdered ds
Step-IsOrdered (comes hosts s cs) a = ((acquire_names-Increasing hosts, tt), a)
Step-IsOrdered (turns before rest c d s t turn) a =
    All-part IsOrdered before c d rest (λ o. Turn-IsOrdered turn o) a
Step-IsOrdered (gives_up before rest todo held s) a =
    All-part IsOrdered before (waiting todo held) over rest (λ o. tt) a

Reach-IsOrdered : {limit : ℕ} {s : Slots} {cs : List Caller} → Reach limit s cs → All IsOrdered cs
Reach-IsOrdered free = tt
Reach-IsOrdered (next r step) = Step-IsOrdered step (Reach-IsOrdered r)

-- a caller of the list can take its turn
abbrev pub Moves : ℕ → Slots → List Caller → Type 0
Moves limit s cs =
    (before : List Caller) × (rest : List Caller) × (c : Caller) × (d : Caller) × (t : Slots) × (cs
      ≡ before ++ c ∷ rest)
    × Turn limit c s d t

Moves-cons :
    (limit : ℕ) (s : Slots) (c : Caller) (cs : List Caller)
    → Moves limit s cs
    → Moves limit s (c ∷ cs)
Moves-cons limit s c cs (before, rest, b, d, t, e, turn) =
    (c ∷ before, rest, b, d, t, ap (λ l. c ∷ l) e, turn)

-- no caller waits for a host after this one
abbrev Last : Bytes → Caller → Type 0
Last m (waiting [] held) = Unit
Last m (waiting (name ∷ todo) held) = lt_bytes m name ≡ false
Last m (working held) = Unit
Last m over = Unit

-- a caller waits for this host
abbrev Waits : Bytes → Caller → Type 0
Waits m (waiting [] held) = ⊥
Waits m (waiting (name ∷ todo) held) = name ≡ m
Waits m (working held) = ⊥
Waits m over = ⊥

-- a caller that has not gone
abbrev pub IsBusy : Caller → Type 0
IsBusy (waiting todo held) = Unit
IsBusy (working held) = Unit
IsBusy over = ⊥

abbrev IsOver : Caller → Type 0
IsOver (waiting todo held) = ⊥
IsOver (working held) = ⊥
IsOver over = Unit

Last-later :
    (m n : Bytes) (cs : List Caller) → lt_bytes m n ≡ true → All (Last m) cs → All (Last n) cs
Last-later m n [] less a = tt
Last-later m n (waiting [] held ∷ cs) less a = (tt, Last-later m n cs less a.1)
Last-later m n (waiting (k ∷ todo) held ∷ cs) less a =
    (ground (arith, lt_bytes_trans m n k, a.0), Last-later m n cs less a.1)
Last-later m n (working held ∷ cs) less a = (tt, Last-later m n cs less a.1)
Last-later m n (over ∷ cs) less a = (tt, Last-later m n cs less a.1)

IsOver-Last : (m : Bytes) (cs : List Caller) → All IsOver cs → All (Last m) cs
IsOver-Last m [] a = tt
IsOver-Last m (waiting todo held ∷ cs) a = absurd a.0
IsOver-Last m (working held ∷ cs) a = absurd a.0
IsOver-Last m (over ∷ cs) a = (tt, IsOver-Last m cs a.1)

abbrev AllWait : List Caller → Type 0
AllWait cs = (m : Bytes) × All (Last m) cs × Exists (Waits m) cs

-- a caller can move, or all have gone, or one waits for the last host that any waits for
waits_cases :
    (limit : ℕ) (s : Slots) (cs : List Caller) → Moves limit s cs ⊎ (All IsOver cs ⊎ AllWait cs)
waits_cases limit s [] = inr (inl tt)
waits_cases limit s (working held ∷ cs) =
    inl ([], cs, working held, over, release held s, refl, releases held s)
waits_cases limit s (waiting [] held ∷ cs) =
    inl ([], cs, waiting [] held, working held, s, refl, returns held s)
waits_cases limit s (over ∷ cs) = elim (waits_cases limit s cs) [
  | inl moves ↦ inl (Moves-cons limit s over cs moves)
  | inr (inl gone) ↦ inr (inl (tt, gone))
  | inr (inr (m, last, some)) ↦ inr (inr (m, (tt, last), inr some))
]
waits_cases limit s (waiting (name ∷ todo) held ∷ cs) = elim (waits_cases limit s cs) [
  | inl moves ↦ inl (Moves-cons limit s (waiting (name ∷ todo) held) cs moves)
  | inr (inl gone) ↦ inr (inr (name, (lt_bytes_irrefl name, IsOver-Last name cs gone), inl refl))
  | inr (inr (m, last, some)) ↦ elim (Bool-cases (lt_bytes m name)) [
    | inl less ↦ inr (inr (name, (lt_bytes_irrefl name, Last-later m name cs less last), inl refl))
    | inr other ↦ inr (inr (m, (other, last), inr some))
  ]
]

Waits-Moves :
    (limit : ℕ) (s : Slots) (m : Bytes) (cs : List Caller)
    → s m < limit
    → Exists (Waits m) cs
    → Moves limit s cs
Waits-Moves limit s m [] room e = absurd e
Waits-Moves limit s m (waiting (name ∷ todo) held ∷ cs) room (inl e) = (
  [],
  cs,
  waiting (name ∷ todo) held,
  waiting todo (name ∷ held),
  take_place name s,
  refl,
  takes name todo held s (rw e room),
)
Waits-Moves limit s m (waiting [] held ∷ cs) room (inl e) = absurd e
Waits-Moves limit s m (working held ∷ cs) room (inl e) = absurd e
Waits-Moves limit s m (over ∷ cs) room (inl e) = absurd e
Waits-Moves limit s m (c ∷ cs) room (inr e) =
    Moves-cons limit s c cs (Waits-Moves limit s m cs room e)

count-before :
    (m name : Bytes) (todo held : List Bytes)
    → 1 ≤ count m held
    → All (λ h. All (λ later. lt_bytes h later ≡ true) (name ∷ todo)) held
    → lt_bytes m name ≡ true
count-before m name todo [] some a = absurd (omega arith)
count-before m name todo (x ∷ held) some a = elim (Bool-cases (eqb x m)) [
  | inl same ↦ rw (sym ((eqb_iff x m).0 same)) a.0.0
  | inr other ↦ count-before m name todo held (ground arith) a.1
]

-- who holds a place on the last host that anyone waits for can move
held_on-Moves :
    (limit : ℕ) (s : Slots) (m : Bytes) (cs : List Caller)
    → 1 ≤ held_on m cs
    → All (Last m) cs
    → All IsOrdered cs
    → Moves limit s cs
held_on-Moves limit s m [] some last o = absurd (omega arith)
held_on-Moves limit s m (working held ∷ cs) some last o =
    ([], cs, working held, over, release held s, refl, releases held s)
held_on-Moves limit s m (waiting [] held ∷ cs) some last o =
    ([], cs, waiting [] held, working held, s, refl, returns held s)
held_on-Moves limit s m (over ∷ cs) some last o =
    Moves-cons limit s over cs (held_on-Moves limit s m cs (omega arith) last.1 o.1)
held_on-Moves limit s m (waiting (name ∷ todo) held ∷ cs) some last o =
    elim (Bool-cases (leb 1 (count m held))) [
      | inl here ↦
          let less = count-before m name todo held (ground arith) o.0.1 in
          absurd (ground (arith, less, last.0))
      | inr other ↦
          Moves-cons limit s (waiting (name ∷ todo) held) cs
            (held_on-Moves limit s m cs (ground arith) last.1 o.1)
    ]

slot_limit-positive : (limit : ℤ) → 1 ≤ slot_limit limit
unfolding slot_limit
slot_limit-positive (pos zero) = omega arith
slot_limit-positive (pos (suc n)) = omega arith
slot_limit-positive (negsuc n) = omega arith

IsOver-idle : (cs : List Caller) → All IsOver cs → Exists IsBusy cs → ⊥
IsOver-idle [] a e = e
IsOver-idle (waiting todo held ∷ cs) a e = a.0
IsOver-idle (working held ∷ cs) a e = a.0
IsOver-idle (over ∷ cs) a (inl e) = e
IsOver-idle (over ∷ cs) a (inr e) = IsOver-idle cs a.1 e

-- Callers of Acquire that share a Hosts, whatever its Limit and whatever hosts they ask for, never all
-- wait for one another: while one of them has not gone, some caller can take the place it waits for,
-- return with its places, or give them back.
pub Reach-Moves :
    (limit : ℤ) {s : Slots} {cs : List Caller}
    → Reach (slot_limit limit) s cs
    → Exists IsBusy cs
    → Moves (slot_limit limit) s cs
Reach-Moves limit {s} {cs} r busy = elim (waits_cases (slot_limit limit) s cs) [
  | inl moves ↦ moves
  | inr (inl gone) ↦ absurd (IsOver-idle cs gone busy)
  | inr (inr (m, last, some)) ↦ elim (Bool-cases (ltb (s m) (slot_limit limit))) [
    | inl room ↦ Waits-Moves (slot_limit limit) s m cs (ltb→lt (s m) (slot_limit limit) room) some
    | inr full ↦
        let counted = Reach-Counted r m in
        held_on-Moves (slot_limit limit) s m cs (ground (arith, counted, slot_limit-positive limit))
          last (Reach-IsOrdered r)
  ]
]
