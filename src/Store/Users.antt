-- ===== src/Store/Users.antt =====
-- internal/store/repositories.go: users, their keys and service accounts, and the identity behind a key or
-- a subject. A statement is one step on the tables; `none` is an error or ErrNotFound.
use ssh_access.Prelude.{
  String, Bool, false, ◌||◌, ◌==◌, Option, none, some, List, ◌∷◌, any, find, if◌then◌else◌,
}

-- A row of users.
pub record UserRow : Type 0 where
  pub id : String
  pub username : String
  pub email : Option String
  pub source : String
  pub entra_oid : Option String
  pub status : String

-- A NULL equals nothing.
abbrev pub equals : Option String → String → Bool
equals none s = false
equals (some t) s = t == s

abbrev same_text : Option String → Option String → Bool
same_text o none = false
same_text o (some s) = equals o s

abbrev pub or_default : String → String → String
or_default d s = if s == "" then d else s

-- CreateUser, with the id given to the new row; `none` where the name or the email is taken.
unfoldable pub create_user :
    String
    → String
    → Option String
    → String
    → String
    → List UserRow
    → Option (String × List UserRow)
create_user id username email source status rows =
    if any (λ (u : UserRow). u.username == username || same_text u.email email) rows
    then none
    else some (
      id,
      record {
        id = id;
        username = username;
        email = email;
        source = or_default "local" source;
        entra_oid = none;
        status = or_default "active" status;
      }
          ∷ rows,
    )

pub record SsoUser : Type 0 where
  pub id : String
  pub username : String
  pub status : String

abbrev pub is_subject : String → UserRow → Bool
is_subject subject u = equals u.email subject || equals u.entra_oid subject

abbrev pub sso_user : UserRow → SsoUser
sso_user u = record { id = u.id; username = u.username; status = u.status }

abbrev pub sso_option : Option UserRow → Option SsoUser
sso_option none = none
sso_option (some u) = some (sso_user u)

-- GetUserBySubject
unfoldable pub get_user_by_subject : String → List UserRow → Option SsoUser
get_user_by_subject subject rows = sso_option (find (is_subject subject) rows)

abbrev created_or_same : Option (String × List UserRow) → List UserRow → List UserRow
created_or_same none rows = rows
created_or_same (some (id, rows')) rows = rows'

-- JITCreateUser, where the only error of the creation is a conflict
unfoldable pub jit_create_user : String → String → List UserRow → Option SsoUser × List UserRow
unfolding create_user get_user_by_subject
jit_create_user id subject rows =
    let rows' =
      created_or_same (create_user id subject (some subject) "entra" "active" rows) rows in
    (get_user_by_subject subject rows', rows')
