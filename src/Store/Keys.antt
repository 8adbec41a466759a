-- ===== src/Store/Keys.antt =====
-- internal/store/repositories.go: the public keys of users, service accounts, and the account behind an
-- offered key. A statement is one step on the tables; `none` is an error or ErrNotFound.
use ssh_access.Prelude.{
  String, Bool, ◌||◌, not, ◌==◌, Option, none, some, List, [], ◌∷◌, map, any, filter, find,
  if◌then◌else◌,
}
use ssh_access.Store.Users.{UserRow, or_default}

-- A row of user_public_keys.
pub record UserKey : Type 0 where
  pub id : String
  pub user_id : String
  pub public_key : String
  pub comment : String

-- A row of service_accounts.
pub record ServiceAccount : Type 0 where
  pub id : String
  pub name : String
  pub public_key : String
  pub status : String

pub record Accounts : Type 0 where
  pub users : List UserRow
  pub user_public_keys : List UserKey
  pub service_accounts : List ServiceAccount

pub record AuthnIdentity : Type 0 where
  pub subject_type : String
  pub id : String
  pub label : String
  pub active : Bool

abbrev pub has_user_id : String → UserRow → Bool
has_user_id id u = u.id == id

-- The first row of the join of user_public_keys with users for a key.
unfoldable pub user_of_key : String → List UserKey → List UserRow → Option UserRow
user_of_key line [] users = none
user_of_key line (k ∷ ks) users =
    let rest = user_of_key line ks users in
    if k.public_key == line
    then (elim (find (has_user_id k.user_id) users) [ none ↦ rest | some u ↦ some u ])
    else rest

abbrev pub user_authn : UserRow → AuthnIdentity
user_authn u = record {
  subject_type = "user";
  id = u.id;
  label = u.username;
  active = u.status == "active";
}

abbrev pub service_authn : ServiceAccount → AuthnIdentity
service_authn a = record {
  subject_type = "service_account";
  id = a.id;
  label = a.name;
  active = a.status == "active";
}

abbrev service_or_none : Option ServiceAccount → Option AuthnIdentity
service_or_none none = none
service_or_none (some a) = some (service_authn a)

abbrev user_or_service : Option UserRow → Option ServiceAccount → Option AuthnIdentity
user_or_service none o = service_or_none o
user_or_service (some u) o = some (user_authn u)

abbrev pub has_key : String → ServiceAccount → Bool
has_key line a = a.public_key == line

-- AuthnByKey: UNION ALL gives the users' rows first, and LIMIT 1 keeps one.
unfoldable pub authn_by_key : String → Accounts → Option AuthnIdentity
authn_by_key line db =
    user_or_service (user_of_key line db.user_public_keys db.users)
      (find (has_key line) db.service_accounts)

-- AddUserKey, with the id given to the new row; `none` where the key is taken or the user is missing
unfoldable pub add_user_key : String → String → String → String → Accounts → Option Accounts
add_user_key id user_id line comment db =
    if any (λ (k : UserKey). k.public_key == line) db.user_public_keys
      || not (any (has_user_id user_id) db.users)
    then none
    else some (record db {
      user_public_keys =
          record { id = id; user_id = user_id; public_key = line; comment = comment }
          ∷ db.user_public_keys;
    })

-- CreateServiceAccount, with the id given to the new row; `none` where the name is taken
unfoldable pub create_service_account :
    String → String → String → String → Accounts → Option Accounts
create_service_account id name line status db =
    if any (λ (a : ServiceAccount). a.name == name) db.service_accounts
    then none
    else some (record db {
      service_accounts =
          record { id = id; name = name; public_key = line; status = or_default "active" status }
          ∷ db.service_accounts;
    })

abbrev pub with_status : String → String → UserRow → UserRow
with_status id status u = if has_user_id id u then (record u { status = status }) else u

-- SetUserStatus
unfoldable pub set_user_status : String → String → Accounts → Option Accounts
set_user_status id status db =
    if any (has_user_id id) db.users
    then some (record db { users = map (with_status id status) db.users })
    else none

-- DELETE FROM users, which takes the keys of the user along
unfoldable pub delete_user : String → Accounts → Option Accounts
delete_user id db =
    if any (has_user_id id) db.users
    then some (record db {
      users = filter (λ u. not (has_user_id id u)) db.users;
      user_public_keys = filter (λ (k : UserKey). not (k.user_id == id)) db.user_public_keys;
    })
    else none
