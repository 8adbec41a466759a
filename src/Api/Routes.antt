-- ===== src/Api/Routes.antt =====
-- internal/api/server.go: the routes of Handler with the guards around their handlers.
pub mod Access
use ssh_access.Prelude.{String, Option, none, some, List, [], ◌∷◌, Bool, true, false, is_some}
use ssh_access.Auth.Rbac.{Principal, can}
use ssh_access.Api.Principal.{Guarded, require, require_auth, runs_handler}

pub data Guard : Type 0 where
  unguarded any_principal : Guard
  permission : String → Guard

-- Whether the handler behind a guard runs for the caller of a request.
unfoldable pub admits : Guard → Option Principal → Bool
unfolding require require_auth
admits unguarded p = true
admits any_principal p = runs_handler (require_auth p)
admits (permission perm) p = runs_handler (require perm p)

-- Method, path and guard of each route.
unfoldable pub routes : List (String × String × Guard)
routes =
    ("GET", "/healthz", unguarded)
    ∷ ("POST", "/api/v1/auth/local/login", unguarded)
    ∷ ("POST", "/api/v1/auth/local/logout", unguarded)
    ∷ ("GET", "/api/v1/auth/whoami", any_principal)
    ∷ ("GET", "/api/v1/users", permission "users:read")
    ∷ ("POST", "/api/v1/users", permission "users:write")
    ∷ ("PATCH", "/api/v1/users/{id}", permission "users:write")
    ∷ ("DELETE", "/api/v1/users/{id}", permission "users:write")
    ∷ ("POST", "/api/v1/users/{id}/keys", permission "users:write")
    ∷ ("GET", "/api/v1/servers", permission "servers:read")
    ∷ ("POST", "/api/v1/servers", permission "servers:write")
    ∷ ("PATCH", "/api/v1/servers/{id}", permission "servers:write")
    ∷ ("DELETE", "/api/v1/servers/{id}", permission "servers:write")
    ∷ ("GET", "/api/v1/grants", permission "grants:read")
    ∷ ("POST", "/api/v1/grants", permission "grants:write")
    ∷ ("PATCH", "/api/v1/grants/{id}", permission "grants:write")
    ∷ ("DELETE", "/api/v1/grants/{id}", permission "grants:write")
    ∷ ("POST", "/api/v1/grants/{id}/recertify", permission "grants:recertify")
    ∷ ("POST", "/api/v1/user-groups", permission "groups:write")
    ∷ ("GET", "/api/v1/user-groups", permission "groups:read")
    ∷ ("POST", "/api/v1/user-groups/{id}/members", permission "groups:write")
    ∷ ("POST", "/api/v1/server-groups", permission "groups:write")
    ∷ ("GET", "/api/v1/server-groups", permission "groups:read")
    ∷ ("POST", "/api/v1/server-groups/{id}/members", permission "groups:write")
    ∷ ("GET", "/api/v1/sessions", permission "sessions:read")
    ∷ ("POST", "/api/v1/sessions/{id}/terminate", permission "sessions:terminate")
    ∷ ("GET", "/api/v1/sessions/{id}/recording", permission "recordings:read")
    ∷ ("GET", "/api/v1/audit", permission "audit:read")
    ∷ ("GET", "/api/v1/audit/export", permission "audit:read")
    ∷ ("GET", "/api/v1/audit/verify", permission "audit:read")
    ∷ ("GET", "/api/v1/ssh-login", any_principal)
    ∷ ("POST", "/api/v1/ssh-login/approve", any_principal)
    ∷ ("POST", "/api/v1/ssh-login/deny", any_principal)
    ∷ []
