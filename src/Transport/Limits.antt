-- ===== src/Transport/Limits.antt =====
-- What a remote shell and the kernel make of the command line of a request to ssh.
use clusterctl.Prelude.{
  ℕ, ◌≤◌, length, length-append, true, false, some, List, [], ◌∷◌, ◌++◌, Bytes, Result, ok, err,
  codes, All, All-append, Bool-cases, eqb, ltb, ◌≡◌, refl, sym, ap, ◌∙◌, inl, inr, arith,
  append_assoc, join_with, if◌then◌else◌,
}
use clusterctl.ExitCode.{Error}
use clusterctl.ShellQuote.{join, quote}
use clusterctl.ShellQuote.Splitting.{split, split_from}
use clusterctl.ShellQuote.RoundTrip.{NoNul, split-join}
use clusterctl.Transport.{
  Request, max_arg_bytes, guard_words, status_guard, guard_prefix, too_long, words, sent_length,
  limited, remote_command, sent_line,
}

-- the words that the login shell of a request gets
unfoldable pub sent_words : Request → List Bytes → List Bytes
sent_words r ws = if r.no_shell then ws else guard_words ++ ws

under : (a b : ℕ) → ltb a b ≡ false → b ≤ a
under a b e = ground arith

guard_words-NoNul : All NoNul guard_words
guard_words-NoNul = omega arith

join-append :
    (a : Bytes) (before : List Bytes) (w : Bytes) (ws : List Bytes)
    → join ((a ∷ before) ++ w ∷ ws) ≡ join (a ∷ before) ++ b' ' ∷ join (w ∷ ws)
unfolding join join_with
join-append a [] w ws = refl
join-append a (b ∷ before) w ws =
    ap (λ s. quote a ++ b' ' ∷ s) (join-append b before w ws)
    ∙ sym (append_assoc (quote a) (b' ' ∷ join (b ∷ before)) (b' ' ∷ join (w ∷ ws)))

-- The guard before a command line is the line of its words before the words of the command.
guard_prefix-join :
    (w : Bytes) (ws : List Bytes) → guard_prefix ++ join (w ∷ ws) ≡ join (guard_words ++ w ∷ ws)
unfolding guard_prefix
guard_prefix-join w ws =
    append_assoc (join guard_words) (b' ' ∷ []) (join (w ∷ ws))
    ∙ sym (join-append (codes "sh") (codes "-c" ∷ status_guard ∷ codes "sh" ∷ []) w ws)

limited-ok :
    (r : Request) (w : Bytes) (ws : List Bytes) (c : Bytes)
    → limited r (w ∷ ws) ≡ ok c
    → (join (w ∷ ws) ≡ c) × (sent_length r c ≤ max_arg_bytes)
unfolding limited
limited-ok r w ws c e = elim (Bool-cases (ltb max_arg_bytes (sent_length r (join (w ∷ ws))))) [
  | inl over ↦
      let refused : ◌≡◌ {A = Result Error Bytes} (err too_long) (ok c) = rw (limited, over) at e in
      absurd (cc)
  | inr fits ↦
      let same : ◌≡◌ {A = Result Error Bytes} (ok (join (w ∷ ws))) (ok c) =
        rw (limited, fits) at e in
      let line : join (w ∷ ws) ≡ c = cc in
      (
        line,
        omega (
          arith,
          ap (sent_length r) line,
          under max_arg_bytes (sent_length r (join (w ∷ ws))) fits,
        ),
      )
]

is_command : (w : Bytes) (ws : List Bytes) (c : Bytes) → split c ≡ some (w ∷ ws) → eqb c [] ≡ false
unfolding split split_from
is_command w ws [] e = absurd (cc)
is_command w ws (x ∷ c) e = refl

sent_line-bare :
    (r : Request) (c : Bytes) → eqb c [] ≡ false → r.no_shell ≡ true → sent_line r c ≡ c
unfolding sent_line
sent_line-bare r c e b = rw (e, b) refl

sent_line-guarded :
    (r : Request) (c : Bytes)
    → eqb c [] ≡ false
    → r.no_shell ≡ false
    → sent_line r c ≡ guard_prefix ++ c
unfolding sent_line
sent_line-guarded r c e b = rw (e, b) refl

sent_line-split :
    (r : Request) (w : Bytes) (ws : List Bytes) (c : Bytes)
    → All NoNul (w ∷ ws)
    → join (w ∷ ws) ≡ c
    → eqb c [] ≡ false
    → split (sent_line r c) ≡ some (sent_words r (w ∷ ws))
unfolding sent_words
sent_line-split r w ws c h e full = elim (Bool-cases r.no_shell) [
  | inl bare ↦
      ap split (sent_line-bare r c full bare ∙ sym e) ∙ split-join (w ∷ ws) h ∙ rw bare refl
  | inr shell ↦
      ap split (
        sent_line-guarded r c full shell
        ∙ ap (λ s. guard_prefix ++ s) (sym e)
        ∙ guard_prefix-join w ws)
      ∙ split-join (guard_words ++ w ∷ ws)
          (All-append NoNul guard_words (w ∷ ws) guard_words-NoNul h)
      ∙ rw shell refl
]

length-sent_line :
    (r : Request) (c : Bytes) → eqb c [] ≡ false → length (sent_line r c) ≡ sent_length r c
unfolding sent_length
length-sent_line r c full = elim (Bool-cases r.no_shell) [
  | inl bare ↦ ap length (sent_line-bare r c full bare) ∙ rw bare (omega arith)
  | inr shell ↦
      ap length (sent_line-guarded r c full shell)
      ∙ length-append guard_prefix c
      ∙ rw shell (omega arith)
]

-- Where a request becomes a command line and none of its words holds a NUL byte, the login shell splits the
-- line that ssh is given into those words, behind the words of the guard unless the request runs without a
-- shell, and the line is within the limit on one argument.
pub remote_command-sent :
    (r : Request) (w : Bytes) (ws : List Bytes) (c : Bytes)
    → words r ≡ ok (w ∷ ws)
    → All NoNul (w ∷ ws)
    → remote_command r ≡ ok c
    → (split (sent_line r c) ≡ some (sent_words r (w ∷ ws)))
      × (length (sent_line r c) ≤ max_arg_bytes)
unfolding remote_command
remote_command-sent r w ws c e h f =
    let (line, fits) = limited-ok r w ws c (rw (remote_command, e) at f) in
    let full : eqb c [] ≡ false = is_command w ws c (ap split (sym line) ∙ split-join (w ∷ ws) h) in
    (sent_line-split r w ws c h line full, omega (arith, length-sent_line r c full, fits))
