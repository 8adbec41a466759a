-- ===== src/Store/Profiles.antt =====
-- internal/store/updates.go and repositories.go: what the API changes about users, with the errors told
-- apart.
use ssh_access.Prelude.{
  String, Bool, false, not, ◌&&◌, ◌||◌, ◌==◌, Option, none, some, List, [], ◌∷◌, map, any, contains,
  is_some, if◌then◌else◌,
}
use ssh_access.Store.Users.{UserRow, or_default, equals, create_user}
use ssh_access.Store.Keys.{has_user_id}
use ssh_access.Store.Grants.{or_else}
use ssh_access.Store.Servers.{StoreResult, ok, err, not_found, conflict, failed}

abbrev sources : List String
sources = "local" ∷ "entra" ∷ []

abbrev pub statuses : List String
statuses = "active" ∷ "disabled" ∷ []

-- CreateUser: values that the enumerations of the schema do not have are refused.
unfoldable pub insert_user :
    String → String → Option String → String → String → List UserRow → StoreResult (List UserRow)
unfolding contains
insert_user id username email source status rows =
    if not (
      contains sources (or_default "local" source)
      && contains statuses (or_default "active" status))
    then err failed
    else (elim (create_user id username email source status rows) [
      | none ↦ err conflict
      | some (i, rows') ↦ ok rows'
    ])

pub record UpdateUserInput : Type 0 where
  pub username : Option String
  pub email : Option String
  pub source : Option String
  pub status : Option String

-- nullIfEmpty of a new email
abbrev email_or : Option String → Option String → Option String
email_or none old = old
email_or (some e) old = if e == "" then none else some e

abbrev pub updated_user : UpdateUserInput → UserRow → UserRow
updated_user input u = record u {
  username = or_else input.username u.username;
  email = email_or input.email u.email;
  source = or_else input.source u.source;
  status = or_else input.status u.status;
}

abbrev pub sets_nothing : UpdateUserInput → Bool
sets_nothing input =
    not (
      is_some input.username || is_some input.email || is_some input.source || is_some input.status)

abbrev shared_email : Option String → Option String → Bool
shared_email none e = false
shared_email (some a) e = equals e a

abbrev clashes : String → UpdateUserInput → List UserRow → UserRow → Bool
clashes id input rows u =
    has_user_id id u
    && any
        (λ (v : UserRow).
          not (has_user_id id v)
          && (v.username == (updated_user input u).username
              || shared_email (updated_user input u).email v.email))
        rows

abbrev pub edited_user : String → UpdateUserInput → UserRow → UserRow
edited_user id input u = if has_user_id id u then updated_user input u else u

-- UpdateUser
unfoldable pub update_user : String → UpdateUserInput → List UserRow → StoreResult (List UserRow)
unfolding contains
update_user id input rows =
    if sets_nothing input
    then ok rows
    else if not (
        contains sources (or_else input.source "local")
        && contains statuses (or_else input.status "active"))
    then err failed
    else if not (any (has_user_id id) rows)
    then err not_found
    else if any (clashes id input rows) rows
    then err conflict
    else ok (map (edited_user id input) rows)
