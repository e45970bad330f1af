-- ===== src/Authorizer.antt =====
-- `Authorizer` of internal/authorizer/authorizer.go: which client may do what. The files below
-- /proc, the accounts of the users and the reply of polkit are parameters.
pub mod StartTime
pub mod Laws
mod Tests
use zsys.Prelude.{
  ℕ, Bool, true, false, Option, none, some, List, [], ◌∷◌, if◌then◌else◌, ◌==◌, ◌⊎◌, inl, inr,
}
use zsys.Prelude.Int.{ℤ}
use zsys.Text.{Bytes, codes}
use zsys.Text.Numbers.{atoi, to_uint32}
use zsys.Authorizer.StartTime.{StartTimeError, get_start_time_from_reader}

pub data Action : Type 0 where
  always_allowed : Action
  manage_service : Action
  system_list : Action
  system_write : Action
  user_write : Action
  user_write_self : Action
  user_write_others : Action

-- `string(action)`: the name of an action.
unfoldable pub action_name : Action → Bytes
action_name always_allowed = codes "always-allowed"
action_name manage_service = codes "com.ubuntu.zsys.manage-service"
action_name system_list = codes "com.ubuntu.zsys.system-list"
action_name system_write = codes "com.ubuntu.zsys.system-write"
action_name user_write =
    codes "internal-for-actionUserWriteSelf-or-actionUserWriteOthers-based-on-uid"
action_name user_write_self = codes "com.ubuntu.zsys.user-write-self"
action_name user_write_others = codes "com.ubuntu.zsys.user-write-others"

-- `authSubject`, with its details by name.
pub record Subject : Type 0 where
  pub kind : Bytes
  pub pid : ℕ
  pub start_time : ℕ
  pub uid : ℕ

abbrev pub check_allow_interaction : ℕ
check_allow_interaction = 1

-- `authResult`, less the details.
pub record AuthResult : Type 0 where
  pub is_authorized : Bool
  pub is_challenge : Bool

-- What the authorizer asks of the system.
pub record Authority : Type 0 where
  -- The file proc/<pid>/stat: missing where it cannot be opened, and empty where it is not read.
  pub stat : ℤ → Option (Option Bytes)
  -- `CheckAuthorization` of polkit on a subject and the name of an action, with its flags.
  pub check_authorization : Subject → Bytes → ℕ → Option AuthResult
  -- The field `Uid` of the account of a user.
  pub user_lookup : Bytes → Option Bytes

pub data PermissionDenied : Type 0 where
  no_peer_creds : PermissionDenied
  no_peer_creds_info : PermissionDenied
  no_user_name : PermissionDenied
  unknown_user : PermissionDenied
  invalid_uid : PermissionDenied
  no_stat_file : PermissionDenied
  no_start_time : StartTimeError → PermissionDenied
  polkit_failed : PermissionDenied
  polkit_denied : PermissionDenied

-- The answer of polkit; `none` stands for no error.
unfoldable pub read_reply : Option AuthResult → Option PermissionDenied
read_reply none = some polkit_failed
read_reply (some result) = if result.is_authorized then none else some polkit_denied

-- The action that polkit is asked about.
unfoldable pub asked_action : Action → ℕ → ℕ → Action
asked_action user_write uid action_uid =
    if action_uid == uid then user_write_self else user_write_others
asked_action action uid action_uid = action

unfoldable pub is_always_allowed : Action → Bool
is_always_allowed always_allowed = true
is_always_allowed action = false

module _ (a : Authority) where
  unfoldable pub ask : Action → ℤ → ℕ → StartTimeError ⊎ ℕ → Option PermissionDenied
  unfolding read_reply action_name to_uint32
  ask action pid uid (inl e) = some (no_start_time e)
  ask action pid uid (inr start_time) = read_reply (
      a.check_authorization
        (record {
          kind = codes "unix-process";
          pid = to_uint32 pid;
          start_time = start_time;
          uid = uid;
        })
        (action_name action) check_allow_interaction)

  unfoldable pub check_process : Action → ℤ → ℕ → Option (Option Bytes) → Option PermissionDenied
  unfolding ask get_start_time_from_reader
  check_process action pid uid none = some no_stat_file
  check_process action pid uid (some content) =
      ask action pid uid (get_start_time_from_reader content)

  unfoldable pub is_allowed : Action → ℤ → ℕ → ℕ → Option PermissionDenied
  unfolding is_always_allowed asked_action check_process
  is_allowed action pid uid action_uid =
      if uid == 0
      then none
      else if is_always_allowed action
      then none
      else check_process (asked_action action uid action_uid) pid uid (a.stat pid)

-- `p.AuthInfo` of the peer of a request.
pub data AuthInfo : Type 0 where
  peer_creds_info : ℤ → ℕ → AuthInfo
  other_info : AuthInfo

pub record Context : Type 0 where
  pub peer : Option AuthInfo
  -- The value of `OnUserKey`.
  pub on_user : Option Bytes

unfoldable pub uid_of_account : Option Bytes → PermissionDenied ⊎ ℕ
unfolding atoi to_uint32
uid_of_account none = inl unknown_user
uid_of_account (some uid) = elim (atoi uid) [ none ↦ inl invalid_uid | some i ↦ inr (to_uint32 i) ]

module _ (a : Authority) where
  -- The number of the user that is acted on.
  unfoldable pub action_uid_of : Action → Option Bytes → PermissionDenied ⊎ ℕ
  unfolding uid_of_account
  action_uid_of user_write none = inl no_user_name
  action_uid_of user_write (some name) = uid_of_account (a.user_lookup name)
  action_uid_of action on_user = inr 0

  unfoldable pub with_action_uid : Action → ℤ → ℕ → PermissionDenied ⊎ ℕ → Option PermissionDenied
  unfolding is_allowed
  with_action_uid action pid uid (inl e) = some e
  with_action_uid action pid uid (inr action_uid) = is_allowed a action pid uid action_uid

  unfoldable pub is_allowed_from_context : Context → Action → Option PermissionDenied
  unfolding action_uid_of with_action_uid
  is_allowed_from_context ctx action = elim (ctx.peer) [
    | none ↦ some no_peer_creds
    | some other_info ↦ some no_peer_creds_info
    | some (peer_creds_info pid uid) ↦
        with_action_uid action pid uid (action_uid_of action ctx.on_user)
  ]
