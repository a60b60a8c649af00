-- ===== src/Slurm/Nodes.antt =====
-- Nodes, NodeSet, CheckNodes and refuseAll. `token` is the random text that `newFramed` draws.
use clusterctl.Prelude.{
  ℕ, zero, suc, Bool, true, false, not, ◌&&◌, ◌||◌, Option, none, some, List, [], ◌∷◌, ◌++◌, Bytes,
  Result, ok, err, codes, eqb, all, any, equal_fold, join_with, leb, ◌==◌, trim_space, is_one_of,
  if◌then◌else◌,
}
use clusterctl.Prelude
use clusterctl.ExitCode.{Error, usage, target_failed, coded}
use clusterctl.NodeSet.{NodeSets}
use clusterctl.Slurm.Act.{Act, ◌>>=◌, ◌>>◌, lift, refusal, require}
use clusterctl.Slurm.Output.{new_framed, format, records}
use clusterctl.Slurm.Client.{Client, read, read_lines}
use clusterctl.Slurm.State.{Node, no_reason, state_filter}

abbrev pub is_alnum : ℕ → Bool
is_alnum c = leb b'a' c && leb c b'z' || (leb b'A' c && leb c b'Z' || leb b'0' c && leb c b'9')

-- hostName
unfoldable pub is_host_name : Bytes → Bool
is_host_name [] = false
is_host_name (c ∷ s) =
    is_alnum c && all (λ b. is_alnum b || (b == b'.' || (b == b'_' || b == b'-'))) s

-- f[i] of a record, which has the fields asked for
abbrev pub item : ℕ → List Bytes → Bytes
item i [] = []
item zero (f ∷ fs) = f
item (suc i) (f ∷ fs) = item i fs

-- a record of sinfo
unfoldable pub node_of : List Bytes → Node
unfolding no_reason
node_of f =
    let none_given = no_reason (item 9 f) in
    record {
      name = item 0 f;
      state = item 1 f;
      partition = item 2 f;
      cpus = item 3 f;
      memory = item 4 f;
      features = item 5 f;
      gres = item 6 f;
      reason_user = if none_given then [] else item 7 f;
      reason_time = if none_given then [] else item 8 f;
      reason = if none_given then [] else item 9 f;
    }

-- the loop of `Nodes` over the records; `seen` are the names so far
unfoldable pub node_loop : (Node → Bool) → List Bytes → List (List Bytes) → Result Error (List Node)
unfolding is_host_name node_of
node_loop keep seen [] = ok []
node_loop keep seen (f ∷ fs) =
    let name = item 0 f in
    let again = node_loop keep seen fs in
    let rest = node_loop keep (name ∷ seen) fs in
    if not (is_host_name name)
    then err (refusal target_failed "sinfo printed something else where a node name belongs")
    else if is_one_of seen name
    then again
    else if keep (node_of f)
    then Prelude.◌>>=◌ rest (λ ns. ok (node_of f ∷ ns))
    else rest

abbrev pub node_format : List Bytes
node_format =
    codes "%N"
    ∷ codes "%T"
    ∷ codes "%R"
    ∷ codes "%c"
    ∷ codes "%m"
    ∷ codes "%f"
    ∷ codes "%G"
    ∷ codes "%u"
    ∷ codes "%H"
    ∷ codes "%E"
    ∷ []

-- the error of a name that is not added
abbrev pub as_target_failed : {A : Type 0} → Result Error A → Result Error A
as_target_failed (ok a) = ok a
as_target_failed (err e) = err (coded target_failed e)

module _ (n : NodeSets) where
  open n use {NodeSet, empty, add, difference, is_empty, expand, hostlist}

  -- the argument that limits a query to nodes
  abbrev pub limited_to : Bytes → Option NodeSet → List Bytes
  limited_to flag none = []
  limited_to flag (some ns) = if is_empty ns then [] else flag ∷ hostlist ns ∷ []

  abbrev pub states_argument : List Bytes → List Bytes
  states_argument [] = []
  states_argument (s ∷ ss) = codes "--states" ∷ join_with b',' (s ∷ ss) ∷ []

  -- the loop of `NodeSet`
  unfoldable pub add_nodes : NodeSet → List Node → Result Error NodeSet
  add_nodes ns [] = ok ns
  add_nodes ns (node ∷ rest) = Prelude.◌>>=◌ (add ns node.name) (λ next. add_nodes next rest)

  -- refuseAll
  unfoldable pub refuse_all : NodeSet → Option Error
  refuse_all ns =
      if any (λ name. equal_fold name (codes "all")) (expand ns)
      then some (refusal usage "means every node to Slurm, not a host")
      else none

  -- the loop of `CheckNodes` over the lines
  unfoldable pub add_lines : NodeSet → List Bytes → Result Error NodeSet
  add_lines got [] = ok got
  add_lines got (l ∷ ls) =
      let next =
        Prelude.◌>>=◌ (as_target_failed (add got (trim_space l))) (λ more. add_lines more ls) in
      if not (is_host_name (trim_space l))
      then err (refusal target_failed "sinfo printed something else where a node name belongs")
      else next

  -- the comparison at the end of `CheckNodes`
  unfoldable pub compare_nodes : NodeSet → NodeSet → Option Error
  compare_nodes ns got =
      if not (is_empty (difference got ns))
      then some (refusal usage "Slurm reads the nodes as more than were named")
      else if not (is_empty (difference ns got))
      then some (refusal usage "Slurm does not know some nodes")
      else none

  -- the query of `CheckNodes`
  abbrev pub check_query : NodeSet → List Bytes
  check_query ns =
      codes "sinfo"
      ∷ codes "--all"
      ∷ codes "--noheader"
      ∷ codes "--Node"
      ∷ codes "--format"
      ∷ codes "%N"
      ∷ codes "--nodes"
      ∷ hostlist ns
      ∷ []

  module _ {W : Type 0} (c : Client W) where
    -- Nodes
    unfoldable pub nodes : Bytes → Option NodeSet → List Bytes → Act W (List Node)
    unfolding new_framed format records read node_loop state_filter
    nodes token ns states = do
      let f = new_framed token node_format
      r ← read c (
          codes "sinfo"
          ∷ codes "--all"
          ∷ codes "--noheader"
          ∷ codes "--Node"
          ∷ codes "--format"
          ∷ format f
          ∷ (limited_to (codes "--nodes") ns ++ states_argument states))
      rows ← lift (records f r.stdout)
      lift (node_loop (state_filter states) [] rows)

    -- NodeSet
    unfoldable pub node_set : Bytes → List Bytes → Act W NodeSet
    unfolding nodes add_nodes
    node_set token states = do found ← nodes token none states; lift (add_nodes empty found)

    -- CheckNodes
    unfoldable pub check_nodes : NodeSet → Act W (Unit {0})
    check_nodes ns = do
      require (refuse_all ns)
      ls ← read_lines c (check_query ns)
      got ← lift (add_lines empty ls)
      require (compare_nodes ns got)
