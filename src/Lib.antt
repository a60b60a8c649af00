-- ===== src/Lib.antt =====
-- clusterctl: the parts of the Go program that decide what is done to which hosts, and how.
--
-- The program turns a command line into work on many hosts. Its parts, and the files that model them
-- (paths of the source from the repository's root):
--
-- - ShellQuote: internal/shellquote/shellquote.go. Every remote command is quoted there (`safe`, `Quote`,
--   `Join`). Splitting holds a POSIX shell's word splitting against it.
-- - ExitCode: internal/exitcode/exitcode.go and class.go. Errors are the tree that errors.Is and
--   errors.As walk (`find_code`, `is_canceled`); `Wrap`, `Has`, `Default`, `From`, `Worst`, `CodeClass`
--   and `Class` keep their names. A nil error is `none`. cobratree.IsUsage is the parameter `is_usage`.
-- - Hostname: internal/hostname/hostname.go (`Check`, `checkLabel`, `CheckUser`, `CheckHost`, `IsIP`).
--   Ip writes out what the standard library's net.ParseIP accepts, and Colons is about its colons.
-- - Tmpl: internal/tmpl/tmpl.go (`Expand`, `Prefixed`). The loop takes one unit of fuel a round and one
--   more than the template has bytes, and every round takes a byte off the template.
-- - Naming: internal/naming/naming.go (`New`, `match`, `expand`, `FQDN`, `BMC`, `Short`), on Tmpl and
--   Hostname. regexp.Compile is the parameter `compile`.
-- - NodeSet: the interface of github.com/GSI-HPC/go-nodeset, a package outside the repository: its
--   operations, and in `Laws` what the program relies on.
-- - Safety: internal/safety/safety.go. `NewGate`, `Protected`, `ProtectedIn`, `check` and `Preview` are in
--   Safety.antt, `Accept`, `ask`, `Confirm` and `Announce` in Safety/Answer, `EffectOf` in Safety/Effect.
--   A command goes through the gate before it changes anything; the gate uses NodeSet, Hostname, Naming
--   and ExitCode.
-- - Config: internal/config/merge.go and effective.go, the tree of settings that the layers of the
--   configuration are merged into. Value has the values of a document, Tree the tree with `set` and
--   `mergeValue`, Setting `MergeDocumentExcept`, `override` and `SetPath`, Layers the layers that are
--   applied path by path, Resolve the order of the layers and `FromCommandLine`, which Given is about.
--   Document and Bundle are what document.go and load.go keep of the files. Parameters: the check of an override against the
--   schema, the YAML reader of a --set value, the decoder of a Config document, and the name of the machine.
--   The two maps of origins and keys of a tree are one list of entries. A table's fields stand in the
--   order of their keys, which is the order the program goes through them in. The decoding of the merged
--   tree and the check of its secret references are left out. The loops that cut a path at its last dot
--   take one unit of fuel for each byte of the path and one more, and every cut shortens it.
-- - Fanout: internal/fanout/fanout.go and pool.go (`RunEach`, `describeTarget`, `resultError`, `Failures`,
--   `Status`, `Summarize`, `FailureError`, and in Fanout/Groups `GroupByOutput`), on ExitCode, and `Failed`
--   of internal/transport/transport.go.
--   The pool of go-clikit is outside the repository: its outcomes and its FailureError are parameters.
--   Hosts is internal/fanout/hosts.go: the callers that share a `Hosts` are a list, the channels the number
--   of places taken, and `Step` says what may happen next. Order, Bound and Progress are about it. The map
--   of channels that `slot` fills under its lock is the function that is zero at first.
-- - Slurm: internal/slurm/slurm.go, and `Check` and `Lines` of internal/transport/transport.go. Act is the
--   step of the client: what it did to the world of the login node and the name of the cluster that it
--   remembers, with a result. Client runs the commands, Output reads fields and framed records, State has
--   the states of nodes, Nodes `Nodes`, `NodeSet` and `CheckNodes`, Update `Drain`, `Resume` and `readBack`,
--   Queue the partitions and jobs, Accounts the accounting, Names what a name may hold, Users the accounts
--   and users that are added.
--   Parameters: the two runners, the random token of a framed query, and the decoding of UTF-8. The timeout
--   of a command, what a display is told and the texts of `UserAddition.String` are left out. The loop of
--   `records` has one unit of fuel for each part of the output, and a number is written in at most nineteen
--   digits, which hold every signed 64-bit value.
-- - Hostkeys: internal/hostkeys/hostkeys.go. Hostkeys.antt has the entries and what they match, Store `Parse`
--   and `Render`, Removal `removeAll`, Replacing `Add` and `ReplaceAll`, Index the index. `Hashing` stands for
--   base64 and HMAC-SHA1. The maps of `removeAll` and `ReplaceAll` are lists in the order of their keys,
--   the one of the index is a function. The file lock, the scanner and its connections are left out.
-- - NodeExpr: internal/nodeexpr/batch.go, `groupRefs` and the Batch that looks groups up side by side. The
--   calls of `Prefetch`, `Resolve` and `All` that share a Batch are a list, and `interleave` runs their steps
--   in any order: a step holds the lock once (`collect_refs`, `store`, the look at the answers in `begin`) or
--   asks the resolver once. What the resolver says is an input of the step. Keeping and Sharing are about
--   the answers that a Batch has.
-- - Groups: internal/groups/groups.go, the order in which `Resolve` asks the sources, `union` with
--   `unionOperand`, `fields`, and the placeholders of a command. A lookup in one source is a parameter, and
--   so is white space outside ASCII. Lookups stand one after another, where the program makes some side by
--   side. What the resolver remembers, `find`, `list`, `GroupsOf` and the commands are left out. Operands
--   reads what `unionOperand` writes with `groupRefs` of NodeExpr.
-- - Transport: internal/transport/transport.go, the command line of a request (`RemoteCommand`, `duration`)
--   and what ssh is given, and internal/transport/fake.go, the recorder of a dry run with nothing prepared
--   (`answer`, `Describe`). A timeout is a number of milliseconds. The start of ssh, its output and the
--   standard input of a request are left out.
-- - Plans: internal/mcpserver/plan.go, the changes that an agent plans and an administrator confirms, and
--   `record`, `refusal` and the audit entry of internal/mcpserver/server.go. Plans.antt has the changes and
--   the fields of a plan, Store the store of plans, Changing the run of a change through the Slurm client
--   or a recorder, Serving the state of a call, Warning what a plan says of its nodes, Preparing
--   `planChange` and `preparePlan`, Asking `confirm`, `question` and `answerText`, Applying `applyPlan`,
--   `apply` and `execute`. A pointer to a plan is a place in a heap, so that a call keeps the plan it found
--   when the map has lost it; the mutex makes an operation of the store one step, and Once and Sound are
--   about every order of such steps. Standing, Agreeing, Untouched and Confirmed are about what lets a plan
--   through, Still and Reads about what a call leaves alone, Sending and Carrying about what is then
--   sent. Applying uses Safety, Slurm and Transport.
--   Parameters: the configuration as it reads in a world, the gate's yes, the decoding of UTF-8, the
--   quoting of a reason, random ids, and whether the audit file takes one more line. The deadline of a
--   change, the texts of messages and the reads of the state side by side are left out.
-- - Dhcp: internal/dhcp/dhcp.go, the declarations of a node (`matchName`, `Lookup` without its index,
--   `BootAddress`), `GUIDFromMAC`, and in Tokens `tokenize`, whose loops over the bytes are one pass with a
--   state. Owning and Booting are about the boot address; Printing writes tokens out, and Reading is about
--   reading them back. The statements that `Parse` reads the declarations from, the included files and the
--   comments that mention a node are left out.
-- - Prelude: shared notation, Go's strings as lists of bytes, the standard library's functions on them.
-- - Tests: runs of the definitions, and each theorem at an input where its hypotheses hold.
--
-- A function that returns a value and an error returns `Result`; messages of errors are kept as
-- constructors, with what the callers can tell apart. Texts are bytes; ToLower, EqualFold and TrimSpace
-- are those of ASCII texts. The display of progress, the reading of files and the running of programs
-- are not modelled. Other maps of Go are association lists with the newest binding first.
pub mod Prelude
pub mod ShellQuote
pub mod ExitCode
pub mod Hostname
pub mod Tmpl
pub mod NodeSet
pub mod Naming
pub mod Safety
pub mod Config
pub mod Fanout
pub mod Slurm
pub mod Hostkeys
pub mod NodeExpr
pub mod Groups
pub mod Transport
pub mod Plans
pub mod Dhcp
pub mod Tests
