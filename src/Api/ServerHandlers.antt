-- ===== src/Api/ServerHandlers.antt =====
-- internal/api/handlers.go: the handlers that change servers, groups and their members, and the one that
-- flags a session for termination. A body that does not decode is `none`.
use ssh_access.Prelude.{
  String, Bool, not, ◌||◌, ◌==◌, Option, none, some, List, [], ◌∷◌, map, filter, any, if◌then◌else◌,
}
use ssh_access.Prelude.Int.{ℤ}
use ssh_access.Store.Keys.{has_user_id}
use ssh_access.Store.Grants
use ssh_access.Store.Sessions.{Session, Tables, request_session_termination}
use ssh_access.Store.Servers.{
  StoreResult, ok, err, not_found, ServerRow, GroupRow, CreateServerInput, UpdateServerInput,
  has_server_id, create_server, update_server, create_group, add_member,
}
use ssh_access.Api.Db.{Db, ApiCalls, Handled, refuse, answer, within}
use ssh_access.Api.UserHandlers.{without_member}

pub record CreateServerBody : Type 0 where
  pub hostname : String
  pub address : String
  pub port : ℤ
  pub host_key_fingerprint : String
  pub access_mode : String
  pub allowed_principals : List String

abbrev server_input : CreateServerBody → CreateServerInput
server_input b = record {
  hostname = b.hostname;
  address = b.address;
  port = b.port;
  host_key_fingerprint = b.host_key_fingerprint;
  access_mode = b.access_mode;
  allowed_principals = b.allowed_principals;
  secret_ref = none;
}

-- createServer
unfoldable pub create_server_handler : ApiCalls → Option CreateServerBody → Db → Handled
unfolding refuse answer
create_server_handler calls none db = refuse 400 "invalid JSON body" db
create_server_handler calls (some b) db =
    if b.hostname == "" || b.address == ""
    then refuse 400 "hostname and address are required" db
    else answer
        (within (create_server calls.new_id (server_input b) db.servers)
          (λ rows. record db { servers = rows }))
        201 (("id", calls.new_id) ∷ []) [] db

-- patchServer
unfoldable pub patch_server : String → Option UpdateServerInput → Db → Handled
unfolding refuse answer
patch_server id none db = refuse 400 "invalid JSON body" db
patch_server id (some b) db =
    answer (within (update_server id b db.servers) (λ rows. record db { servers = rows })) 200
      (("status", "updated") ∷ []) [] db

abbrev unlinked : String → Option String → Option String
unlinked id none = none
unlinked id (some s) = if s == id then none else some s

abbrev unlink : String → Session → Session
unlink id s = record s { start = record s.start { server_id = unlinked id s.start.server_id } }

-- DeleteServer on all tables: the cascade takes memberships along, and sessions keep their label.
unfoldable pub remove_server : String → Db → StoreResult Db
remove_server id db =
    elim (Grants.delete_server id (map (λ (s : ServerRow). s.id) db.servers, db.grants)) [
      | none ↦ err not_found
      | some (ids, grants) ↦ ok (record db {
        servers = filter (λ s. not (has_server_id id s)) db.servers;
        server_group_members = without_member id db.server_group_members;
        grants = grants;
        sessions = map (unlink id) db.sessions;
      })
    ]

-- deleteServer
unfoldable pub delete_server_handler : String → Db → Handled
unfolding answer
delete_server_handler id db = answer (remove_server id db) 200 (("status", "deleted") ∷ []) [] db

-- createGroup, which createUserGroup and createServerGroup call with the statement of theirs
unfoldable pub create_group_handler :
    ApiCalls → (String → Db → StoreResult Db) → Option String → Db → Handled
unfolding refuse answer
create_group_handler calls create none db = refuse 400 "invalid JSON body" db
create_group_handler calls create (some name) db =
    if name == ""
    then refuse 400 "name is required" db
    else answer (create name db) 201 (("id", calls.new_id) ∷ []) [] db

abbrev pub user_group : ApiCalls → String → Db → StoreResult Db
user_group calls name db =
    within (create_group calls.new_id name db.user_groups)
      (λ groups. record db { user_groups = groups })

abbrev pub server_group : ApiCalls → String → Db → StoreResult Db
server_group calls name db =
    within (create_group calls.new_id name db.server_groups)
      (λ groups. record db { server_groups = groups })

abbrev has_group : String → List GroupRow → Bool
has_group id groups = any (λ (g : GroupRow). g.id == id) groups

-- addUserGroupMember
unfoldable pub add_user_group_member : String → Option String → Db → Handled
unfolding refuse answer
add_user_group_member group none db = refuse 400 "user_id is required" db
add_user_group_member group (some user) db =
    if user == ""
    then refuse 400 "user_id is required" db
    else answer
        (within
          (add_member group user (has_group group db.user_groups)
            (any (has_user_id user) db.accounts.users) db.user_group_members)
          (λ members. record db { user_group_members = members }))
        200 (("status", "added") ∷ []) [] db

-- addServerGroupMember
unfoldable pub add_server_group_member : String → Option String → Db → Handled
unfolding refuse answer
add_server_group_member group none db = refuse 400 "server_id is required" db
add_server_group_member group (some server) db =
    if server == ""
    then refuse 400 "server_id is required" db
    else answer
        (within
          (add_member group server (has_group group db.server_groups)
            (any (has_server_id server) db.servers) db.server_group_members)
          (λ members. record db { server_group_members = members }))
        200 (("status", "added") ∷ []) [] db

abbrev pub flagged : Option Tables → Db → StoreResult Db
flagged none db = err not_found
flagged (some t) db = ok (record db { sessions = t.sessions })

-- terminateSession
unfoldable pub terminate_session : ApiCalls → String → Db → Handled
unfolding answer
terminate_session calls id db =
    answer
      (flagged
        (request_session_termination id calls.now
          (record { sessions = db.sessions; users = []; service_accounts = [] }))
        db)
      200 (("status", "termination_requested") ∷ []) [] db
