-- ===== src/Samples/Management.antt =====
-- Runs of the management API: internal/auth, internal/api and internal/store/admins.go.
use ssh_access.Prelude.{
  true, ◌==◌, ◌≡◌, ◌⊎◌, refl, some, none, [], ◌∷◌, All, filter, length, ltb, arith, if◌then◌else◌,
  sort, trim_space,
}
use ssh_access.Auth.Rbac.{
  Principal, source_oidc, GroupRoleMapping, new_principal, roles_for_groups, permissions_for_roles,
}
use ssh_access.Api.Limiter.{allow, after_cutoff}
use ssh_access.Api.Limiter.Window.{Attempts, limiter_after, passed, allow_iff}
use ssh_access.Api.Routes.{routes}
use ssh_access.Api.Routes.Access.{IsByRole, routes-IsByRole}
use ssh_access.Api.Principal.{
  AuthConfig, Request, Library, resolve_principal, split_and_trim, proxy_trusted, bearer_ok,
}
use ssh_access.Api.Principal.Resolution.{BySession, ByProxy, ByToken, resolve_principal-From}
use ssh_access.Store.Admins.{
  Admins, LocalAdmin, AdminSession, create_admin_session, lookup_admin_session,
  set_local_admin_status,
}
use ssh_access.Store.Admins.Sessions.{Backed, lookup-Backed}

abbrev groups : GroupRoleMapping
groups = ("sec", "auditor") ∷ ("ops", "admin") ∷ []

routes-IsByRole_example :
    All
      (IsByRole ("auditor" ∷ []) (new_principal "a@example.com" source_oidc ("auditor" ∷ [])))
      routes
routes-IsByRole_example = routes-IsByRole "a@example.com" source_oidc ("auditor" ∷ [])

-- The last attempt comes first.
abbrev attempts : Attempts
attempts = ("root|10.0.0.9", 40) ∷ ("bob|10.0.0.7", 30) ∷ ("root|10.0.0.9", 20) ∷ []

allow_iff_example :
    (allow "root|10.0.0.9" 50 (limiter_after 2 60 attempts)).0
    ≡ ltb (length (filter (after_cutoff 60 50) (passed 2 60 "root|10.0.0.9" attempts))) 2
allow_iff_example =
    allow_iff 2 60 "root|10.0.0.9" 50 attempts (omega arith, (omega arith, (omega arith, tt)))

abbrev root : LocalAdmin
root = record {
  id = "a1";
  username = "root";
  password_hash = "$argon2id$";
  role = "admin";
  status = "active";
  last_login_at = none;
}

abbrev signed_in : Admins
signed_in =
    create_admin_session "s1" "a1" "hash of t1" 1000 100
      (record { local_admins = root ∷ []; admin_sessions = [] })

abbrev root_session : AdminSession
root_session = record {
  id = "s1";
  admin_id = "a1";
  username = "root";
  role = "admin";
  expires_at = 1000;
}

finds : (lookup_admin_session "hash of t1" 60 130 signed_in).0 ≡ some root_session
unfolding create_admin_session lookup_admin_session
finds = refl

lookup-Backed_example : Backed "hash of t1" 60 130 signed_in root_session
lookup-Backed_example = lookup-Backed "hash of t1" 60 130 signed_in root_session finds

abbrev bob : LocalAdmin
bob = record root { id = "a2"; username = "bob" }

abbrev two_admins : Admins
two_admins = record signed_in { local_admins = root ∷ bob ∷ [] }

abbrev bob_off : Admins
bob_off = record signed_in { local_admins = root ∷ (record bob { status = "disabled" }) ∷ [] }

turns_off : set_local_admin_status "bob" "disabled" two_admins ≡ some bob_off
unfolding create_admin_session set_local_admin_status
turns_off = refl

finds_root : (lookup_admin_session "hash of t1" 60 130 bob_off).0 ≡ some root_session
unfolding create_admin_session lookup_admin_session
finds_root = refl

abbrev library : Library
library = record {
  hash_session_token = λ t. "hash of t1";
  split_at = λ s d. s ∷ [];
  drop_prefix = λ p s. s;
}

abbrev config : AuthConfig
config = record {
  oidc_email_header = "X-Auth-Request-Email";
  oidc_groups_header = "X-Auth-Request-Groups";
  oidc_groups_delim = ",";
  proxy_secret_header = "X-Proxy-Auth";
  proxy_secret = "s3cret";
  group_roles = groups;
  session_absolute = 900;
  session_idle = 60;
  cookie_secure = true;
  allow_bearer_token = true;
}

abbrev proxied : Request
proxied = record {
  method = "GET";
  path = "/api/v1/users";
  header = λ h.
      if h == "X-Proxy-Auth"
      then "s3cret"
      else if h == "X-Auth-Request-Email"
      then "a@example.com"
      else "";
  cookie = λ c. none;
  remote_addr = "127.0.0.1:4000";
}

abbrev guest : Principal
guest = record { subject = "a@example.com"; source = source_oidc; roles = []; perms = [] }

resolves : (resolve_principal library config "token" 130 proxied signed_in).0 ≡ some guest
unfolding resolve_principal split_and_trim proxy_trusted bearer_ok new_principal
    permissions_for_roles roles_for_groups sort trim_space
resolves = refl

resolve_principal-From_example :
    BySession library config "token" 130 proxied signed_in guest
    ⊎ ByProxy library config "token" 130 proxied signed_in guest
    ⊎ ByToken library config "token" 130 proxied signed_in guest
resolve_principal-From_example =
    resolve_principal-From library config "token" 130 proxied signed_in guest resolves
