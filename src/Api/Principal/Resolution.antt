-- ===== src/Api/Principal/Resolution.antt =====
-- internal/api/auth_middleware.go: where a principal comes from.
use ssh_access.Prelude.{
  ℕ, String, true, false, ◌&&◌, not, ◌==◌, eq_iff, ◌≡◌, ◌≢◌, ◌⊎◌, inl, inr, some, [], ◌∷◌, ◌+++◌,
  trim_space, arith, Option-cases, Bool-cases,
}
use ssh_access.Auth.Rbac.{
  Principal, new_principal, source_oidc, source_break_glass, roles_for_groups, role_admin,
}
use ssh_access.Store.Admins.{Admins, AdminSession, lookup_admin_session}
use ssh_access.Store.Admins.Sessions.{Backed, lookup-Backed}
use ssh_access.Api.Principal.{
  AuthConfig, Request, Library, session_cookie_name, proxy_trusted, bearer_ok, oidc_groups,
  cookie_value, resolve_principal, without_session,
}

module _ (lib : Library) (cfg : AuthConfig) (token : String) (now : ℕ) (r : Request)
    (db : Admins) where
  abbrev pub cookie_hash : String
  cookie_hash = lib.hash_session_token (cookie_value (r.cookie session_cookie_name))

  -- A session cookie that is backed by the tables.
  abbrev pub BySession : Principal → Type 0
  BySession p =
      (s : AdminSession) × Backed cookie_hash cfg.session_idle now db s
      × (p ≡ new_principal ("break-glass:" +++ s.username) source_break_glass (s.role ∷ []))

  -- The headers of the proxy, which showed a secret that is set.
  abbrev pub ByProxy : Principal → Type 0
  ByProxy p =
      (cfg.proxy_secret ≢ "")
      × (r.header cfg.proxy_secret_header ≡ cfg.proxy_secret)
      × (trim_space (r.header cfg.oidc_email_header) ≢ "")
      × (p
          ≡ new_principal (trim_space (r.header cfg.oidc_email_header)) source_oidc
              (roles_for_groups cfg.group_roles (oidc_groups lib cfg r)))

  abbrev pub ByToken : Principal → Type 0
  ByToken p =
      (cfg.allow_bearer_token ≡ true)
      × (bearer_ok lib token r ≡ true)
      × (p ≡ new_principal "bearer-token" source_break_glass (role_admin ∷ []))

  ne_of : (a b : String) → (a == b) ≡ false → a ≢ b
  ne_of a b h e = ground (arith, eq_iff a b)

  without_session-From :
      (p : Principal) → without_session lib cfg token r ≡ some p → ByProxy p ⊎ ByToken p
  unfolding proxy_trusted
  without_session-From p h =
      elim (Bool-cases
        (proxy_trusted cfg r && not (trim_space (r.header cfg.oidc_email_header) == ""))) [
          | inl e ↦ inl (
            ne_of cfg.proxy_secret "" (ground arith),
            (eq_iff (r.header cfg.proxy_secret_header) cfg.proxy_secret).0 (ground arith),
            ne_of (trim_space (r.header cfg.oidc_email_header)) "" (ground arith),
            ground arith,
          )
          | inr e ↦ elim (Bool-cases (cfg.allow_bearer_token && bearer_ok lib token r)) [
            | inl k ↦ inr (ground arith, ground arith, ground arith)
            | inr k ↦ absurd (ground arith)
          ]
        ]

  -- A request has a principal only if its cookie is backed by a live session of an active admin, if its
  -- email header came with the proxy's secret and the secret is set, or if it bears the static token and
  -- this is allowed; the principal is the one of that source.
  pub resolve_principal-From :
      (p : Principal)
      → (resolve_principal lib cfg token now r db).0 ≡ some p
      → BySession p ⊎ ByProxy p ⊎ ByToken p
  unfolding resolve_principal
  resolve_principal-From p h =
      let value = cookie_value (r.cookie session_cookie_name) in
      elim (Bool-cases (value == "")) [
        | inl e ↦ inr (without_session-From p (ground arith))
        | inr e ↦ elim (Option-cases (lookup_admin_session cookie_hash cfg.session_idle now db).0) [
          | inl n ↦ inr (without_session-From p (ground arith))
          | inr (s, n) ↦
              inl (s, lookup-Backed cookie_hash cfg.session_idle now db s n, ground arith)
        ]
      ]
