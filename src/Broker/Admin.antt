-- ===== src/Broker/Admin.antt =====
-- cmd/broker/admin.go: the commands of the administrator's tool from their parsed flags on; `none` is an
-- error. The names that they print are left out. What they need of other software is the record
-- ApiCalls of the API, which runs on the same store.
pub mod Policy
pub mod Named
use ssh_access.Prelude.{
  ℕ, String, Bool, true, false, not, ◌&&◌, ◌||◌, ◌==◌, Option, none, some, List, [], ◌∷◌, find,
  contains, is_empty, split, trim_space, if◌then◌else◌,
}
use ssh_access.Prelude.Int.{ℤ}
use ssh_access.Prelude.Bytes.{Bytes, ◌>>=◌}
use ssh_access.Prelude.Base64.{url, encode}
use ssh_access.Auth.Rbac.{role_exists}
use ssh_access.Auth.Password.{IdKey, bytes_of, hash_password}
use ssh_access.Proxy.Authn.{authorized_key_line}
use ssh_access.Store.Users.{UserRow}
use ssh_access.Store.Keys.{
  Accounts, has_user_id, add_user_key, create_service_account, set_user_status,
}
use ssh_access.Store.Profiles.{insert_user, statuses}
use ssh_access.Store.Grants.{CreateGrantInput, create_grant, update_grant}
use ssh_access.Store.Servers.{
  StoreResult, ok, err, ServerRow, GroupRow, CreateServerInput, create_server, create_group,
  add_member,
}
use ssh_access.Store.Audit.{AuditEvent}
use ssh_access.Broker.Authz.{get_server_by_hostname}
use ssh_access.Api.Db.{Db, ApiCalls}
use ssh_access.Api.GrantHandlers.{casts, review_only}

abbrev pub succeeded : {A : Type 0} → StoreResult A → Option A
succeeded (ok a) = some a
succeeded (err e) = none

abbrev pub must : Bool → Option (Unit {0})
must b = if b then some tt else none

abbrev user_id : Option UserRow → Option String
user_id none = none
user_id (some u) = some u.id

abbrev group_id : Option GroupRow → Option String
group_id none = none
group_id (some g) = some g.id

abbrev server_id : Option ServerRow → Option String
server_id none = none
server_id (some s) = some s.id

-- UserIDByUsername, of which resolveUser adds the name to the error
unfoldable pub user_id_by_username : String → List UserRow → Option String
user_id_by_username username users = user_id (find (λ (u : UserRow). u.username == username) users)

-- UserGroupIDByName and ServerGroupIDByName
unfoldable pub group_id_by_name : String → List GroupRow → Option String
group_id_by_name name groups = group_id (find (λ (g : GroupRow). g.name == name) groups)

unfoldable pub server_id_by_hostname : String → List ServerRow → Option String
unfolding get_server_by_hostname
server_id_by_hostname hostname servers = server_id (get_server_by_hostname hostname servers)

abbrev non_empty_parts : List String → List String
non_empty_parts [] = []
non_empty_parts (p ∷ ps) =
    let rest = non_empty_parts ps in if trim_space p == "" then rest else trim_space p ∷ rest

-- csv
unfoldable pub csv : String → List String
csv s = non_empty_parts (split b',' s)

abbrev typed : String → Option String → Option (String × String)
typed kind none = none
typed kind (some id) = some (kind, id)

-- resolveSubject: type and id
unfoldable pub resolve_subject : String → String → Db → Option (String × String)
unfolding user_id_by_username group_id_by_name
resolve_subject user group db =
    if not (user == "") && not (group == "")
    then none
    else if not (user == "")
    then typed "user" (user_id_by_username user db.accounts.users)
    else if not (group == "")
    then typed "user_group" (group_id_by_name group db.user_groups)
    else none

-- resolveTarget: type and id
unfoldable pub resolve_target : String → String → Db → Option (String × String)
unfolding server_id_by_hostname group_id_by_name
resolve_target server group db =
    if not (server == "") && not (group == "")
    then none
    else if not (server == "")
    then typed "server" (server_id_by_hostname server db.servers)
    else if not (group == "")
    then typed "server_group" (group_id_by_name group db.server_groups)
    else none

-- pubKeyLine, with what os.ReadFile gives for the file
unfoldable pub pub_key_line : ApiCalls → String → String → Option String → Option String
pub_key_line calls inline file content = do
  raw ← if not (file == "") then content else if not (inline == "") then some inline else none
  marshaled ← calls.parse_authorized_key raw
  some (authorized_key_line (λ (k : String). k) marshaled)

-- resolveReviewBy
unfoldable pub review_date : ApiCalls → String → Option ℕ
review_date calls raw =
    if raw == ""
    then some (calls.add_days calls.review_interval_days calls.now)
    else calls.parse_date raw

abbrev with_accounts : Db → Accounts → Db
with_accounts db accounts = record db { accounts = accounts }

-- cmdAddUser
unfoldable pub cmd_add_user : ApiCalls → String → String → String → String → Db → Option Db
cmd_add_user calls username email source status db = do
  _ ← must (not (username == ""))
  users ← succeeded (
      insert_user calls.new_id username (if email == "" then none else some email) source status
        db.accounts.users)
  some (with_accounts db (record db.accounts { users = users }))

-- cmdAddKey
unfoldable pub cmd_add_key :
    ApiCalls → String → String → String → Option String → String → Db → Option Db
unfolding pub_key_line user_id_by_username
cmd_add_key calls user inline file content comment db = do
  _ ← must (not (user == ""))
  line ← pub_key_line calls inline file content
  uid ← user_id_by_username user db.accounts.users
  accounts ← add_user_key calls.new_id uid line comment db.accounts
  some (with_accounts db accounts)

-- cmdAddServiceAccount
unfoldable pub cmd_add_service_account :
    ApiCalls → String → String → String → Option String → String → Db → Option Db
unfolding pub_key_line
cmd_add_service_account calls name inline file content status db = do
  _ ← must (not (name == ""))
  line ← pub_key_line calls inline file content
  _ ← must (status == "" || contains statuses status)
  accounts ← create_service_account calls.new_id name line status db.accounts
  some (with_accounts db accounts)

-- cmdSetUserStatus
unfoldable pub cmd_set_user_status : String → String → Db → Option Db
unfolding user_id_by_username
cmd_set_user_status username status db = do
  _ ← must (not (username == "" || status == ""))
  uid ← user_id_by_username username db.accounts.users
  _ ← must (contains statuses status)
  accounts ← set_user_status uid status db.accounts
  some (with_accounts db accounts)

-- cmdAddServer
unfoldable pub cmd_add_server :
    ApiCalls → String → String → ℤ → String → String → String → Db → Option Db
unfolding csv
cmd_add_server calls hostname address port fp principals access_mode db = do
  _ ← must (not (hostname == "" || address == ""))
  servers ← succeeded (
      create_server calls.new_id
        (record {
          hostname = hostname;
          address = address;
          port = port;
          host_key_fingerprint = fp;
          access_mode = access_mode;
          allowed_principals = csv principals;
          secret_ref = none;
        })
        db.servers)
  some (record db { servers = servers })
