-- ===== src/Api/UserHandlers.antt =====
-- internal/api/handlers.go: the handlers that change users and their keys. A body that does not decode
-- is `none`.
use ssh_access.Prelude.{
  String, Bool, false, not, ◌&&◌, ◌==◌, Option, none, some, List, [], ◌∷◌, map, filter, any,
  if◌then◌else◌,
}
use ssh_access.Store.Users.{UserRow}
use ssh_access.Store.Keys.{UserKey, add_user_key, delete_user}
use ssh_access.Store.Grants
use ssh_access.Store.Profiles.{UpdateUserInput, insert_user, update_user}
use ssh_access.Store.Servers.{StoreResult, ok, err, not_found, conflict, failed, Members}
use ssh_access.Proxy.Authn.{authorized_key_line}
use ssh_access.Api.Db.{Db, ApiCalls, Handled, refuse, answer, within}

pub record CreateUserBody : Type 0 where
  pub username : String
  pub email : String
  pub source : String
  pub status : String

pub record AddKeyBody : Type 0 where
  pub public_key : String
  pub comment : String

abbrev non_empty : String → Option String
non_empty s = if s == "" then none else some s

abbrev pub with_users : Db → List UserRow → Db
with_users db rows = record db { accounts = record db.accounts { users = rows } }

-- createUser
unfoldable pub create_user_handler : ApiCalls → Option CreateUserBody → Db → Handled
unfolding refuse answer
create_user_handler calls none db = refuse 400 "invalid JSON body" db
create_user_handler calls (some b) db =
    if b.username == ""
    then refuse 400 "username is required" db
    else answer
        (within
          (insert_user calls.new_id b.username (non_empty b.email) b.source b.status
            db.accounts.users)
          (with_users db))
        201 (("id", calls.new_id) ∷ []) [] db

abbrev pub bad_status : Option String → Bool
bad_status none = false
bad_status (some s) = not (s == "active") && not (s == "disabled")

-- patchUser
unfoldable pub patch_user : String → Option UpdateUserInput → Db → Handled
unfolding refuse answer
patch_user id none db = refuse 400 "invalid JSON body" db
patch_user id (some b) db =
    if bad_status b.status
    then refuse 400 "status must be active or disabled" db
    else answer (within (update_user id b db.accounts.users) (with_users db)) 200
        (("status", "updated") ∷ []) [] db

-- AddUserKey with its errors told apart: a key that is taken is a conflict, and a missing user breaks the
-- foreign key.
abbrev insert_key : String → String → String → String → Db → StoreResult Db
insert_key id user_id line comment db = elim (add_user_key id user_id line comment db.accounts) [
  | none ↦
      if any (λ (k : UserKey). k.public_key == line) db.accounts.user_public_keys
      then err conflict
      else err failed
  | some accounts ↦ ok (record db { accounts = accounts })
]

-- addUserKey
unfoldable pub add_user_key_handler : ApiCalls → String → Option AddKeyBody → Db → Handled
unfolding refuse answer
add_user_key_handler calls id none db = refuse 400 "invalid JSON body" db
add_user_key_handler calls id (some b) db = elim (calls.parse_authorized_key b.public_key) [
  | none ↦ refuse 400 "invalid public key" db
  | some marshaled ↦
      answer
        (insert_key calls.new_id id (authorized_key_line (λ (k : String). k) marshaled) b.comment
          db)
        201 (("id", calls.new_id) ∷ []) [] db
]

abbrev pub ids_of : List UserRow → List String
ids_of = map (λ (u : UserRow). u.id)

abbrev pub without_member : String → Members → Members
without_member id members = filter (λ (m : String × String). not (m.1 == id)) members

-- DeleteUser on all tables: the cascade takes keys and memberships along.
unfoldable pub remove_user : String → Db → StoreResult Db
remove_user id db = elim (Grants.delete_user id (ids_of db.accounts.users, db.grants)) [
  | none ↦ err not_found
  | some (ids, grants) ↦ elim (delete_user id db.accounts) [
    | none ↦ err not_found
    | some accounts ↦ ok (record db {
      accounts = accounts;
      user_group_members = without_member id db.user_group_members;
      grants = grants;
    })
  ]
]

-- deleteUser
unfoldable pub delete_user_handler : String → Db → Handled
unfolding answer
delete_user_handler id db = answer (remove_user id db) 200 (("status", "deleted") ∷ []) [] db
