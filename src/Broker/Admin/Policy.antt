-- ===== src/Broker/Admin/Policy.antt =====
-- cmd/broker/admin.go: the commands that change groups, grants, sessions and break-glass admins.
use ssh_access.Prelude.{
  ℕ, String, Bool, true, not, ◌||◌, ◌==◌, Option, none, some, [], ◌∷◌, is_empty, if◌then◌else◌,
}
use ssh_access.Prelude.Int.{ℤ}
use ssh_access.Prelude.Bytes.{Bytes, ◌>>=◌}
use ssh_access.Prelude.Base64.{url, encode}
use ssh_access.Auth.Rbac.{role_exists}
use ssh_access.Auth.Password.{IdKey, hash_password}
use ssh_access.Store.Grants.{CreateGrantInput, create_grant, update_grant}
use ssh_access.Store.Servers.{add_member}
use ssh_access.Store.Sessions.{request_session_termination}
use ssh_access.Store.Admins.{Admins, upsert_local_admin}
use ssh_access.Store.Audit.{AuditEvent}
use ssh_access.Api.Db.{Db, ApiCalls}
use ssh_access.Api.GrantHandlers.{casts, review_only}
use ssh_access.Api.ServerHandlers.{flagged, user_group, server_group}
use ssh_access.Broker.Admin.{
  succeeded, must, user_id_by_username, group_id_by_name, server_id_by_hostname, csv,
  resolve_subject, resolve_target, review_date,
}

-- cmdCreateGroup
unfoldable pub cmd_create_group : ApiCalls → String → String → Db → Option Db
cmd_create_group calls kind name db =
    if name == ""
    then none
    else if kind == "user"
    then succeeded (user_group calls name db)
    else succeeded (server_group calls name db)

-- cmdAddUserToGroup; user and group have been found when the member is added.
unfoldable pub cmd_add_user_to_group : String → String → Db → Option Db
unfolding user_id_by_username group_id_by_name
cmd_add_user_to_group user group db = do
  _ ← must (not (user == "" || group == ""))
  uid ← user_id_by_username user db.accounts.users
  gid ← group_id_by_name group db.user_groups
  members ← succeeded (add_member gid uid true true db.user_group_members)
  some (record db { user_group_members = members })

-- cmdAddServerToGroup
unfoldable pub cmd_add_server_to_group : String → String → Db → Option Db
unfolding server_id_by_hostname group_id_by_name
cmd_add_server_to_group server group db = do
  _ ← must (not (server == "" || group == ""))
  sid ← server_id_by_hostname server db.servers
  gid ← group_id_by_name group db.server_groups
  members ← succeeded (add_member gid sid true true db.server_group_members)
  some (record db { server_group_members = members })

-- The flags of cmdAddGrant; the duration is in nanoseconds.
pub record GrantFlags : Type 0 where
  pub subject_user : String
  pub subject_group : String
  pub server : String
  pub server_group : String
  pub principals : String
  pub ttl : ℤ
  pub shell : Bool
  pub exec : Bool
  pub sftp : Bool
  pub recording : String
  pub review_by : String

abbrev pub flags_input : GrantFlags → String × String → String × String → ℕ → CreateGrantInput
flags_input f subject target review = record {
  subject_type = subject.0;
  subject_id = subject.1;
  target_type = target.0;
  target_id = target.1;
  principals = csv f.principals;
  max_ttl = f.ttl;
  allow_shell = f.shell;
  allow_exec = f.exec;
  allow_sftp = f.sftp;
  recording = f.recording;
  review_by = some review;
}

-- cmdAddGrant
unfoldable pub cmd_add_grant : ApiCalls → GrantFlags → Db → Option Db
unfolding resolve_subject resolve_target review_date
cmd_add_grant calls f db = do
  subject ← resolve_subject f.subject_user f.subject_group db
  target ← resolve_target f.server f.server_group db
  _ ← must (not (is_empty (csv f.principals)))
  review ← review_date calls f.review_by
  _ ← must (casts (flags_input f subject target review))
  some (record db {
    grants = create_grant calls.new_id (flags_input f subject target review) db.grants;
  })

-- cmdRecertifyGrant, with the event that it records
unfoldable pub cmd_recertify_grant : ApiCalls → String → Db → Option (Db × AuditEvent)
cmd_recertify_grant calls id db = do
  _ ← must (not (id == ""))
  let review = calls.add_days calls.review_interval_days calls.now
  grants ← update_grant id (review_only review) db.grants
  some (
    record db { grants = grants },
    record {
      actor = "admin-cli";
      event_type = "grant.recertified";
      target = id;
      detail = ("grant_id", id) ∷ ("review_by", calls.format_date review) ∷ [];
    },
  )

-- cmdTerminateSession
unfoldable pub cmd_terminate_session : ApiCalls → String → Db → Option Db
cmd_terminate_session calls id db =
    if id == ""
    then none
    else succeeded (
        flagged
          (request_session_termination id calls.now
            (record { sessions = db.sessions; users = []; service_accounts = [] }))
          db)

-- The password of cmdSetLocalAdmin: the flag, or what rand.Read gives
abbrev chosen_password : Bytes → Bool → Option Bytes → Option Bytes
chosen_password password generate random =
    if generate then (do raw ← random; some (encode url raw)) else some password

-- cmdSetLocalAdmin; the text of a hash is what `text` makes of its bytes.
unfoldable pub cmd_set_local_admin :
    IdKey
    → (Bytes → String)
    → String
    → String
    → Bytes
    → Bool
    → Option Bytes
    → Option Bytes
    → String
    → Admins
    → Option Admins
cmd_set_local_admin id_key text id username password generate random salt role db = do
  _ ← must (not (username == ""))
  _ ← must (role_exists role)
  pw ← chosen_password password generate random
  _ ← must (not (is_empty pw))
  hash ← hash_password id_key pw salt
  some (upsert_local_admin id username (text hash) role db)
