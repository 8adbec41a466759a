-- ===== src/Broker/BrowserLogin.antt =====
-- cmd/broker/browserlogin.go: browserLoginAdapter, which gives the approved subject its user.
pub mod Provision
use ssh_access.Prelude.{
  ℕ, ◌+◌, String, Bool, true, false, ◌==◌, Option, none, some, List, if◌then◌else◌, ◌+++◌,
  trim_right_byte,
}
use ssh_access.Proxy.Types.{Identity, subject_user}
use ssh_access.Store.SshLogin.{Table, create_ssh_login_request}
use ssh_access.Store.Users.{UserRow, SsoUser, get_user_by_subject, jit_create_user}

abbrev begun : String → String → Option (String × Table) → Option (String × String × Table)
begun base_url code none = none
begun base_url code (some (id, table)) =
    some (id, trim_right_byte b'/' base_url +++ "/ssh-login?code=" +++ code, table)

-- Begin, with the code and the hash that NewLoginCode gives and the id of the new row: the id and the URL
unfoldable pub begin :
    String
    → ℕ
    → Option (String × String)
    → String
    → String
    → String
    → ℕ
    → Table
    → Option (String × String × Table)
begin base_url login_ttl none id ip target now table = none
begin base_url login_ttl (some (code, hash)) id ip target now table =
    begun base_url code (create_ssh_login_request id hash ip target (now + login_ttl) now table)

abbrev pub identity_of : Option SsoUser → Option Identity
identity_of none = none
identity_of (some u) =
    if u.status == "active"
    then some (record { subject = subject_user; id = u.id; label = u.username })
    else none

abbrev provisioned : Option SsoUser × List UserRow → Option Identity × List UserRow
provisioned (u, rows) = (identity_of u, rows)

abbrev resolve_found :
    Bool → String → String → List UserRow → Option SsoUser → Option Identity × List UserRow
resolve_found jit id subject rows (some u) = (identity_of (some u), rows)
resolve_found jit id subject rows none =
    if jit then provisioned (jit_create_user id subject rows) else (none, rows)

-- Resolve, with the id that a new user gets; `none` is a refusal.
unfoldable pub resolve : Bool → String → String → List UserRow → Option Identity × List UserRow
resolve jit id subject rows = resolve_found jit id subject rows (get_user_by_subject subject rows)
