-- ===== src/Api/Management.antt =====
-- internal/api: a request that changes what is managed, from the middleware of Handler
-- (internal/api/server.go, auth_middleware.go) through the guard of its route to its handler. The
-- body has been decoded or is `none`; a panic and the limit of the body's size are left out.
pub mod Settled
pub mod Accountable
pub mod Effects
pub mod Granted
use ssh_access.Prelude.{
  ℕ, ◌<◌, String, Bool, true, false, not, ◌&&◌, ◌==◌, ◌+++◌, Option, none, some, List, [], ◌∷◌,
  ◌++◌, ltb, leb, cut, trim_space, if◌then◌else◌,
}
use ssh_access.Auth.Rbac.{Principal, can}
use ssh_access.Store.Audit.{AuditEvent}
use ssh_access.Store.Profiles.{UpdateUserInput}
use ssh_access.Store.Servers.{UpdateServerInput}
use ssh_access.Api.Principal.{Guarded, unauthorized, forbidden, runs, require}
use ssh_access.Api.Db.{Db, ApiCalls, Response, Handled, refuse, write_json, write_error}
use ssh_access.Api.UserHandlers.{
  CreateUserBody, AddKeyBody, create_user_handler, patch_user, add_user_key_handler,
  delete_user_handler,
}
use ssh_access.Api.ServerHandlers.{
  CreateServerBody, create_server_handler, patch_server, delete_server_handler,
  create_group_handler, user_group, server_group, add_user_group_member, add_server_group_member,
  terminate_session,
}
use ssh_access.Api.GrantHandlers.{
  CreateGrantBody, PatchGrantBody, create_grant_handler, patch_grant, recertify_grant,
  delete_grant_handler, actor_or,
}

pub data Request : Type 0 where
  post_users : Option CreateUserBody → Request
  patch_users : String → Option UpdateUserInput → Request
  delete_users : String → Request
  post_user_keys : String → Option AddKeyBody → Request
  post_servers : Option CreateServerBody → Request
  patch_servers : String → Option UpdateServerInput → Request
  delete_servers : String → Request
  post_grants : Option CreateGrantBody → Request
  patch_grants : String → Option PatchGrantBody → Request
  delete_grants : String → Request
  post_recertify : String → Request
  post_user_groups : Option String → Request
  post_user_group_members : String → Option String → Request
  post_server_groups : Option String → Request
  post_server_group_members : String → Option String → Request
  post_terminate : String → Request

-- Method, path and permission of the route of a request.
unfoldable pub route : Request → String × String × String
route (post_users b) = ("POST", "/api/v1/users", "users:write")
route (patch_users id b) = ("PATCH", "/api/v1/users/" +++ id, "users:write")
route (delete_users id) = ("DELETE", "/api/v1/users/" +++ id, "users:write")
route (post_user_keys id b) = ("POST", "/api/v1/users/" +++ id +++ "/keys", "users:write")
route (post_servers b) = ("POST", "/api/v1/servers", "servers:write")
route (patch_servers id b) = ("PATCH", "/api/v1/servers/" +++ id, "servers:write")
route (delete_servers id) = ("DELETE", "/api/v1/servers/" +++ id, "servers:write")
route (post_grants b) = ("POST", "/api/v1/grants", "grants:write")
route (patch_grants id b) = ("PATCH", "/api/v1/grants/" +++ id, "grants:write")
route (delete_grants id) = ("DELETE", "/api/v1/grants/" +++ id, "grants:write")
route (post_recertify id) = ("POST", "/api/v1/grants/" +++ id +++ "/recertify", "grants:recertify")
route (post_user_groups b) = ("POST", "/api/v1/user-groups", "groups:write")
route (post_user_group_members id b) =
    ("POST", "/api/v1/user-groups/" +++ id +++ "/members", "groups:write")
route (post_server_groups b) = ("POST", "/api/v1/server-groups", "groups:write")
route (post_server_group_members id b) =
    ("POST", "/api/v1/server-groups/" +++ id +++ "/members", "groups:write")
route (post_terminate id) =
    ("POST", "/api/v1/sessions/" +++ id +++ "/terminate", "sessions:terminate")

abbrev pub permission_of : Request → String
permission_of r = (route r).2

-- The handler of the route.
unfoldable pub handle : ApiCalls → Principal → Request → Db → Handled
handle calls p (post_users b) db = create_user_handler calls b db
handle calls p (patch_users id b) db = patch_user id b db
handle calls p (delete_users id) db = delete_user_handler id db
handle calls p (post_user_keys id b) db = add_user_key_handler calls id b db
handle calls p (post_servers b) db = create_server_handler calls b db
handle calls p (patch_servers id b) db = patch_server id b db
handle calls p (delete_servers id) db = delete_server_handler id db
handle calls p (post_grants b) db = create_grant_handler calls b db
handle calls p (patch_grants id b) db = patch_grant calls id b db
handle calls p (delete_grants id) db = delete_grant_handler id db
handle calls p (post_recertify id) db = recertify_grant calls (some p) id db
handle calls p (post_user_groups b) db = create_group_handler calls (user_group calls) b db
handle calls p (post_user_group_members id b) db = add_user_group_member id b db
handle calls p (post_server_groups b) db = create_group_handler calls (server_group calls) b db
handle calls p (post_server_group_members id b) db = add_server_group_member id b db
handle calls p (post_terminate id) db = terminate_session calls id db

-- auditDenied
abbrev pub denied_event : String → Request → String → String → AuditEvent
denied_event ip r subject perm = record {
  actor = subject;
  event_type = "access.denied";
  target = (route r).1;
  detail =
      ("reason", "forbidden")
      ∷ ("permission", perm)
      ∷ ("method", (route r).0)
      ∷ ("path", (route r).1)
      ∷ ("source_ip", ip)
      ∷ [];
}

-- The handler behind the guard of its route; the answer to a caller without a principal names the URL of
-- the sign-in.
unfoldable pub guarded : ApiCalls → String → String → Option Principal → Request → Db → Handled
unfolding write_json write_error require
guarded calls auth_url ip p r db = elim (require (permission_of r) p) [
  | unauthorized ↦ record {
    response = write_json 401 (("error", "unauthorized") ∷ ("auth_url", auth_url) ∷ []);
    db = db;
    events = [];
  }
  | forbidden subject perm ↦ record {
    response = write_error 403 ("forbidden: requires " +++ perm);
    db = db;
    events = denied_event ip r subject perm ∷ [];
  }
  | runs q ↦ handle calls q r db
]

-- strings.ToLower of the methods
abbrev lower_method : String → String
lower_method m = if m == "POST" then "post" else if m == "PATCH" then "patch" else "delete"

-- strconv.Itoa of the two statuses that are audited
abbrev status_text : ℕ → String
status_text n = if ltb n 201 then "200" else "201"

abbrev pub mutation_event : Option Principal → Request → ℕ → AuditEvent
mutation_event p r status = record {
  actor = actor_or "unknown" p;
  event_type = "api." +++ lower_method (route r).0;
  target = (route r).1;
  detail = ("method", (route r).0) ∷ ("path", (route r).1) ∷ ("status", status_text status) ∷ [];
}

abbrev pub succeeded : ℕ → Bool
succeeded status = leb 200 status && ltb status 300

-- auditMW
unfoldable pub audited : Option Principal → Request → Handled → Handled
audited p r h =
    if succeeded h.response.status
    then record h { events = h.events ++ mutation_event p r h.response.status ∷ [] }
    else h

-- The media type of a Content-Type header.
abbrev pub media_type : String → String
media_type header = trim_space (elim (cut b';' header) [ none ↦ header | some (t, rest) ↦ t ])

-- requireJSONMW and what it wraps, for a caller whom resolvePrincipal has found or not
unfoldable pub serve :
    ApiCalls → String → String → String → Option Principal → Request → Db → Handled
unfolding audited guarded refuse
serve calls auth_url ip content_type p r db =
    if media_type content_type == "application/json"
    then audited p r (guarded calls auth_url ip p r db)
    else refuse 415 "Content-Type must be application/json" db
