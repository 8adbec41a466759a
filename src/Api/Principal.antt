-- ===== src/Api/Principal.antt =====
-- internal/api/auth_middleware.go: who the caller of a request is, and the guards of the routes. Headers
-- and cookies are functions from their names; a missing header is the empty string.
pub mod Resolution
use ssh_access.Prelude.{
  ℕ, String, Bool, true, false, ◌&&◌, not, ◌==◌, Option, none, some, List, [], ◌∷◌, map, filter,
  if◌then◌else◌, ◌+++◌, cut, trim_space, starts_with, is_empty,
}
use ssh_access.Auth.Rbac.{
  Principal, new_principal, source_oidc, source_break_glass, GroupRoleMapping, roles_for_groups,
  can, role_admin,
}
use ssh_access.Store.Admins.{Admins, AdminSession, lookup_admin_session}

pub record AuthConfig : Type 0 where
  pub oidc_email_header : String
  pub oidc_groups_header : String
  pub oidc_groups_delim : String
  pub proxy_secret_header : String
  pub proxy_secret : String
  pub group_roles : GroupRoleMapping
  pub session_absolute : ℕ
  pub session_idle : ℕ
  pub cookie_secure : Bool
  pub allow_bearer_token : Bool

pub record Request : Type 0 where
  pub method : String
  pub path : String
  pub header : String → String
  pub cookie : String → Option String
  pub remote_addr : String

-- What the middleware calls: sha256 of a token, strings.Split at a text, and the text after a prefix.
pub record Library : Type 0 where
  pub hash_session_token : String → String
  pub split_at : String → String → List String
  pub drop_prefix : String → String → String

abbrev session_cookie_name : String
session_cookie_name = "sshbroker_admin_session"

-- proxyTrusted; the comparison in constant time is equality.
unfoldable pub proxy_trusted : AuthConfig → Request → Bool
proxy_trusted cfg r =
    not (cfg.proxy_secret == "") && r.header cfg.proxy_secret_header == cfg.proxy_secret

abbrev session_or : Option AdminSession → Option Principal → Option Principal
session_or none p = p
session_or (some s) p =
    some (new_principal ("break-glass:" +++ s.username) source_break_glass (s.role ∷ []))

abbrev cookie_value : Option String → String
cookie_value none = ""
cookie_value (some v) = v

module _ (lib : Library) where
  -- splitAndTrim
  unfoldable pub split_and_trim : String → String → List String
  split_and_trim s delim =
      if s == ""
      then []
      else filter (λ p. not (p == ""))
          (map trim_space (lib.split_at s (if delim == "" then "," else delim)))

  -- bearerOK
  unfoldable pub bearer_ok : String → Request → Bool
  bearer_ok token r =
      starts_with "Bearer " (r.header "Authorization")
      && trim_space (lib.drop_prefix "Bearer " (r.header "Authorization")) == token

  abbrev bearer_principal : AuthConfig → String → Request → Option Principal
  bearer_principal cfg token r =
      if cfg.allow_bearer_token && bearer_ok token r
      then some (new_principal "bearer-token" source_break_glass (role_admin ∷ []))
      else none

  abbrev oidc_groups : AuthConfig → Request → List String
  oidc_groups cfg r = split_and_trim (r.header cfg.oidc_groups_header) cfg.oidc_groups_delim

  -- The second and the third source.
  abbrev without_session : AuthConfig → String → Request → Option Principal
  without_session cfg token r =
      let email = trim_space (r.header cfg.oidc_email_header) in
      if proxy_trusted cfg r && not (email == "")
      then some
          (new_principal email source_oidc (roles_for_groups cfg.group_roles (oidc_groups cfg r)))
      else bearer_principal cfg token r

  -- resolvePrincipal at the time `now`, with the admin tables as the look-up leaves them
  unfoldable pub resolve_principal :
      AuthConfig → String → ℕ → Request → Admins → Option Principal × Admins
  unfolding split_and_trim proxy_trusted bearer_ok
  resolve_principal cfg token now r db =
      let value = cookie_value (r.cookie session_cookie_name) in
      if value == ""
      then (without_session cfg token r, db)
      else (let found =
            lookup_admin_session (lib.hash_session_token value) cfg.session_idle now db in
          (session_or found.0 (without_session cfg token r), found.1))

pub data Guarded : Type 0 where
  -- 401, with WWW-Authenticate and the sign-in URL
  unauthorized : Guarded
  -- 403, after an access.denied audit event for the subject and the permission
  forbidden : String → String → Guarded
  -- the handler runs for the principal
  runs : Principal → Guarded

-- require
unfoldable pub require : String → Option Principal → Guarded
require perm none = unauthorized
require perm (some p) = if can p perm then runs p else forbidden p.subject perm

-- requireAuth
unfoldable pub require_auth : Option Principal → Guarded
require_auth none = unauthorized
require_auth (some p) = runs p

abbrev pub runs_handler : Guarded → Bool
runs_handler (runs p) = true
runs_handler _ = false
