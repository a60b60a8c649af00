-- ===== src/Slurm/Users.antt =====
-- The accounting database: the name of the cluster, and what adds accounts and users.
use clusterctl.Prelude.{
  Bool, true, false, not, ◌&&◌, ◌||◌, Option, none, some, List, [], ◌∷◌, ◌++◌, Bytes, Result, ok,
  err, codes, eqb, ◌==◌, before, after, equal_fold, join_with, trim_space, or_text, is_one_of, ℤ,
  pos, negsuc, if◌then◌else◌,
}
use clusterctl.ExitCode.{Error, target_failed}
use clusterctl.Fanout.{RemoteResult}
use clusterctl.Slurm.Act.{Act, ◌>>=◌, ◌>>◌, pure, lift, refusal}
use clusterctl.Slurm.Client.{Client, change, exec_both, read_lines, read_records}
use clusterctl.Slurm.Nodes.{item}
use clusterctl.Slurm.Names.{validate_name}

-- the value of a line `key=value`, where the key is ClusterName
unfoldable pub cluster_line : Bytes → Option Bytes
unfolding before after trim_space
cluster_line line = elim (after b'=' line) [
  | none ↦ none
  | some value ↦
      if equal_fold (trim_space (before b'=' line)) (codes "ClusterName")
      then some (trim_space value)
      else none
]

-- the loop of `Cluster`
unfoldable pub find_cluster : List Bytes → Result Error Bytes
unfolding cluster_line validate_name
find_cluster [] = err (refusal target_failed "scontrol names no ClusterName")
find_cluster (l ∷ ls) =
    let rest = find_cluster ls in
    elim (cluster_line l) as (λ _. Result Error Bytes) [
      | none ↦ rest
      | some value ↦ elim (validate_name value) as (λ _. Result Error Bytes) [
        | some e ↦ err (refusal target_failed "scontrol reports another cluster name")
        | none ↦ ok value
      ]
    ]

-- UserAddition
pub record UserAddition : Type 0 where
  pub user : Bytes
  pub cluster_of : Bytes
  pub account : Bytes
  pub default_account : Bytes
  pub exists : Bool
  pub current : Bytes
  pub associate : List Bytes

-- what the loop of `PlanUserAdd` gathers: whether the user exists, its accounts and its default
pub record Known : Type 0 where
  pub exists : Bool
  pub associated : List Bytes
  pub current : Bytes

unfoldable pub known_from : Bytes → List (List Bytes) → Known → Known
known_from user [] k = k
known_from user (f ∷ fs) k = known_from user fs (
    if eqb (item 0 f) user
    then record {
      exists = true;
      associated = item 1 f ∷ k.associated;
      current = if eqb (item 2 f) [] then k.current else item 2 f;
    }
    else k)

-- the account of one more association, unless it is there
abbrev pub unless_in : List Bytes → Bytes → List Bytes
unless_in associated account = if is_one_of associated account then [] else account ∷ []

-- the end of `PlanUserAdd` for a user who is new; `given` is the default account that was asked for
unfoldable pub plan_new : Bytes → Bytes → Bytes → Bytes → Known → UserAddition
plan_new user cluster account given k = record {
  user = user;
  cluster_of = cluster;
  account = account;
  default_account = or_text given account;
  exists = false;
  current = k.current;
  associate =
      account ∷ (if eqb (or_text given account) account then [] else or_text given account ∷ []);
}

-- whether the default account of a user who exists changes
abbrev pub moves : Bytes → Known → Bool
moves given k = not (eqb given []) && not (eqb given k.current)

-- the end of `PlanUserAdd` for a user who exists
unfoldable pub plan_known : Bytes → Bytes → Bytes → Bytes → Known → UserAddition
plan_known user cluster account given k = record {
  user = user;
  cluster_of = cluster;
  account = account;
  default_account = if moves given k then given else [];
  exists = true;
  current = k.current;
  associate =
      unless_in k.associated account
      ++ (if moves given k && not (eqb given account) then unless_in k.associated given else []);
}

unfoldable pub plan : Bytes → Bytes → Bytes → Bytes → Known → UserAddition
plan user cluster account given k =
    if k.exists
    then plan_known user cluster account given k
    else plan_new user cluster account given k

-- Changes
unfoldable pub changes : UserAddition → Bool
changes u = not (eqb u.default_account []) || elim u.associate [ [] ↦ false | a ∷ more ↦ true ]

abbrev pub no_one_known : Known
no_one_known = record { exists = false; associated = []; current = [] }

abbrev pub immediate : Bytes → Bytes → List Bytes → List Bytes
immediate verb what rest = codes "sacctmgr" ∷ codes "--immediate" ∷ verb ∷ what ∷ rest

module _ {W : Type 0} (c : Client W) where
  -- the name of the cluster, remembered
  unfoldable pub remember : Bytes → Act W Bytes
  remember name s = (ok name, record s { cluster = name })

  -- Cluster
  unfoldable pub cluster_name : Act W Bytes
  unfolding read_lines find_cluster remember
  cluster_name s =
      let asked : Act W Bytes = (do
        ls ← read_lines c (codes "scontrol" ∷ codes "show" ∷ codes "config" ∷ [])
        name ← lift (find_cluster ls)
        remember name) in
      if not (eqb s.cluster []) then (ok s.cluster, s) else asked s

  -- Organization
  unfoldable pub organization : Bytes → Bytes
  organization given = or_text given (or_text c.spec.default_organization (codes "default"))

  -- AddAccount
  unfoldable pub add_account : Bytes → Bytes → Bytes → Act W (Unit {0})
  unfolding cluster_name organization change
  add_account name given description = do
    cluster ← cluster_name
    change c (
        immediate (codes "add") (codes "account") (
          name
          ∷ (codes "cluster=" ++ cluster)
          ∷ (codes "description=" ++ or_text description name)
          ∷ (codes "organization=" ++ organization given)
          ∷ []))

  -- AddCoordinators
  unfoldable pub add_coordinators : Bytes → List Bytes → Act W (Unit {0})
  unfolding change
  add_coordinators account users = change c (
      immediate (codes "add") (codes "coordinator")
        ((codes "account=" ++ account) ∷ (codes "names=" ++ join_with b',' users) ∷ []))

  -- SetFairShare
  unfoldable pub set_fair_share : Bytes → Bytes → Act W (Unit {0})
  unfolding cluster_name change
  set_fair_share account value = do
    cluster ← cluster_name
    change c (
        immediate (codes "modify") (codes "account") (
          codes "where"
          ∷ (codes "name=" ++ account)
          ∷ (codes "cluster=" ++ cluster)
          ∷ codes "set"
          ∷ (codes "fairshare=" ++ value)
          ∷ []))

  abbrev pub is_two : ℤ → Bool
  is_two (pos n) = n == 2
  is_two (negsuc n) = false

  -- what `HasPosixUser` makes of a result and an error
  unfoldable pub posix_answer : Bytes → Option RemoteResult × Option Error → Result Error Bool
  unfolding before trim_space
  posix_answer user (some r, e) =
      if is_two r.exit_code then ok false else elim e as (λ _. Result Error Bool) [
        | some failed ↦ err failed
        | none ↦ ok (eqb (before b':' (trim_space r.stdout)) user)
      ]
  posix_answer user (none, some e) = err e
  posix_answer user (none, none) = err (refusal target_failed "no result")

  -- HasPosixUser
  unfoldable pub has_posix_user : Bytes → Act W Bool
  unfolding exec_both posix_answer
  has_posix_user user s =
      let (both, next) = exec_both c.reader (codes "getent" ∷ codes "passwd" ∷ user ∷ []) s in
      (posix_answer user both, next)

  -- PlanUserAdd
  unfoldable pub plan_user_add : Bytes → Bytes → Bytes → Act W UserAddition
  unfolding cluster_name read_records known_from plan
  plan_user_add user account given = do
    cluster ← cluster_name
    rows ←
        read_records c
          (codes "sacctmgr"
            ∷ codes "--noheader"
            ∷ codes "--parsable2"
            ∷ codes "show"
            ∷ codes "user"
            ∷ codes "withassoc"
            ∷ codes "format=User,Account,DefaultAccount"
            ∷ codes "where"
            ∷ (codes "name=" ++ user)
            ∷ (codes "cluster=" ++ cluster)
            ∷ [])
          3
    pure (
        plan user cluster (or_text account (or_text c.spec.default_account (codes "default"))) given
          (known_from user rows no_one_known))

  -- setDefaultAccount
  unfoldable pub set_default_in : Bytes → Bytes → Bytes → Act W (Unit {0})
  unfolding change
  set_default_in user account cluster = change c (
      immediate (codes "modify") (codes "user") (
        codes "where"
        ∷ (codes "name=" ++ user)
        ∷ (codes "cluster=" ++ cluster)
        ∷ codes "set"
        ∷ (codes "defaultaccount=" ++ account)
        ∷ []))

  -- SetDefaultAccount
  unfoldable pub set_default_account : Bytes → Bytes → Act W (Unit {0})
  unfolding cluster_name set_default_in
  set_default_account user account = do cluster ← cluster_name; set_default_in user account cluster

  abbrev pub new_user : UserAddition → List Bytes
  new_user u = immediate (codes "add") (codes "user") (
      (codes "names=" ++ u.user)
      ∷ (codes "account=" ++ join_with b',' u.associate)
      ∷ (codes "defaultaccount=" ++ u.default_account)
      ∷ (codes "cluster=" ++ u.cluster_of)
      ∷ [])

  -- the part of `AddUser` that adds associations of a user who exists
  unfoldable pub add_associations : UserAddition → Act W (Unit {0})
  unfolding change
  add_associations u = elim u.associate [
    | [] ↦ pure tt
    | a ∷ more ↦ change c (
        immediate (codes "add") (codes "user") (
          (codes "names=" ++ u.user)
          ∷ (codes "account=" ++ join_with b',' (a ∷ more))
          ∷ (codes "cluster=" ++ u.cluster_of)
          ∷ []))
  ]

  -- the part of `AddUser` that sets the default account
  unfoldable pub move_default : UserAddition → Act W (Unit {0})
  unfolding set_default_in
  move_default u =
      if eqb u.default_account []
      then pure tt
      else set_default_in u.user u.default_account u.cluster_of

  -- AddUser
  unfoldable pub add_user : UserAddition → Act W (Unit {0})
  unfolding change add_associations move_default
  add_user u =
      if not u.exists then change c (new_user u) else (do add_associations u; move_default u)
