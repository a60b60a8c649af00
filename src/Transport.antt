-- ===== src/Transport.antt =====
-- internal/transport/transport.go and fake.go: the command line that a request becomes, and the recorder
-- that a dry run sends its requests to. The standard input and the output of a request are left out.
pub mod Limits
use clusterctl.Prelude.{
  ℕ, ◌+◌, length, Bool, true, false, not, ◌&&◌, List, [], ◌∷◌, ◌++◌, Bytes, Result, ok, err, eqb,
  codes, ltb, ◌==◌, if◌then◌else◌, pos,
}
use Prim.Native.Nat.{◌/◌, ◌%◌}
use mathlib.Core.Option.{none}
use clusterctl.ExitCode.{Error, cause, text}
use clusterctl.ShellQuote.{join}
use clusterctl.Fanout.{Target, RemoteResult}
use clusterctl.Slurm.Accounts.{decimal}

-- Request; the timeout in milliseconds
pub record Request : Type 0 where
  pub argv : List Bytes
  pub script : Bytes
  pub timeout : ℕ
  pub no_shell : Bool

abbrev pub max_arg_bytes : ℕ
max_arg_bytes = 131071

abbrev pub kill_grace : ℕ
kill_grace = 5000

-- defaultShell
abbrev pub default_shell : Bytes
default_shell = codes "bash"

-- statusGuard; 34 is the double quote
abbrev pub status_guard : Bytes
status_guard =
    (34 ∷ codes "$@")
    ++ ((34 ∷ codes "; s=$?; [ ")
        ++ ((34 ∷ codes "$s")
            ++ ((34 ∷ codes " -ne 255 ] || s=254; exit ") ++ ((34 ∷ codes "$s") ++ 34 ∷ []))))

-- the words that run a command under the guard
abbrev pub guard_words : List Bytes
guard_words = codes "sh" ∷ codes "-c" ∷ status_guard ∷ codes "sh" ∷ []

unfoldable pub guard_prefix : Bytes
unfolding join
guard_prefix = join guard_words ++ b' ' ∷ []

-- `%03d`
abbrev pub three_digits : ℕ → Bytes
three_digits n = (48 + n / 100 % 10) ∷ (48 + n / 10 % 10) ∷ (48 + n % 10) ∷ []

-- duration, of a number of milliseconds
unfoldable pub duration : ℕ → Bytes
unfolding decimal
duration d =
    if d % 1000 == 0
    then decimal (d / 1000) ++ codes "s"
    else decimal (d / 1000) ++ (codes "." ++ (three_digits d ++ codes "s"))

abbrev pub is_none : List Bytes → Bool
is_none [] = true
is_none (_ ∷ _) = false

-- the words that put a command under its timeout
unfoldable pub timeout_words : ℕ → List Bytes
unfolding duration
timeout_words t =
    if ltb 0 t then codes "timeout" ∷ codes "-k" ∷ duration kill_grace ∷ duration t ∷ [] else []

-- the words of a request, in the order of the `switch`
unfoldable pub words : Request → Result Error (List Bytes)
unfolding timeout_words
words r =
    if not (is_none r.argv) && not (eqb r.script [])
    then err (cause (text (codes "a request carries both an argument vector and a script")))
    else if not (eqb r.script [])
    then ok (timeout_words r.timeout ++ default_shell ∷ codes "-c" ∷ r.script ∷ [])
    else if not (is_none r.argv)
    then ok (timeout_words r.timeout ++ r.argv)
    else if ltb 0 r.timeout
    then err (cause (text (codes "a timeout was given without a command")))
    else ok []

-- the bytes that ssh is given for a command
unfoldable pub sent_length : Request → Bytes → ℕ
unfolding guard_prefix
sent_length r command = length command + (if r.no_shell then 0 else length guard_prefix)

abbrev pub too_long : Error
too_long = cause (text (codes "the remote command is over the byte limit on one argument"))

-- the limit on one argument
unfoldable pub limited : Request → List Bytes → Result Error Bytes
unfolding sent_length join
limited r [] = ok []
limited r (w ∷ ws) =
    if ltb max_arg_bytes (sent_length r (join (w ∷ ws))) then err too_long else ok (join (w ∷ ws))

-- RemoteCommand
unfoldable pub remote_command : Request → Result Error Bytes
unfolding words limited
remote_command r = elim (words r) [ err e ↦ err e | ok parts ↦ limited r parts ]

-- the line that the argument vector of ssh ends with: the command, behind the guard in a shell
unfoldable pub sent_line : Request → Bytes → Bytes
unfolding guard_prefix
sent_line r command =
    if not (eqb command []) && not r.no_shell then guard_prefix ++ command else command

-- String of a target
unfoldable pub target_text : Target → Bytes
target_text t =
    if not (eqb t.name []) && not (eqb t.name t.host)
    then t.name ++ (codes " (" ++ (t.host ++ codes ")"))
    else t.host

-- Call, the fields that it is described by
pub record Call : Type 0 where
  pub target : Target
  pub command : Bytes

-- Describe
unfoldable pub describe : Call → Bytes
unfolding target_text
describe c =
    if eqb c.command []
    then target_text c.target ++ codes ": interactive login"
    else target_text c.target ++ (codes ": " ++ c.command)

-- `answer` of a recorder with nothing prepared: the calls it has recorded, and the answer
unfoldable pub answer : Target → Request → List Call → Result Error RemoteResult × List Call
unfolding remote_command
answer target r calls = elim (remote_command r) as (λ _. Result Error RemoteResult × List Call) [
  | err e ↦ (err e, calls)
  | ok command ↦ (
    ok (record { target = target; exit_code = pos 0; stdout = []; error_of = none }),
    calls ++ record { target = target; command = command } ∷ [],
  )
]
