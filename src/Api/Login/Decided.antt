-- ===== src/Api/Login/Decided.antt =====
-- internal/api/auth_handlers.go and ssh_login_handlers.go: when a login succeeds and who may approve one.
use ssh_access.Prelude.{
  ℕ, ◌+◌, String, Bool, true, false, not, ◌==◌, ◌+++◌, ◌≡◌, refl, ◌⊎◌, inl, inr, Option, none, some,
  [], ◌∷◌, if◌then◌else◌, arith, if_elim,
}
use ssh_access.Auth.Rbac.{Principal, Source, source_oidc, source_break_glass}
use ssh_access.Api.Limiter.{LoginLimiter, allow}
use ssh_access.Store.Audit.{AuditEvent}
use ssh_access.Store.Admins.{Admins, LocalAdmin, get_local_admin_by_username, create_admin_session}
use ssh_access.Store.SshLogin.{Table, approve_ssh_login, deny_ssh_login, lookup_ssh_login_by_code}
use ssh_access.Api.Login.{
  Login, Credentials, LoginCalls, login_event, ssh_login_decision, is_oidc, decided, target_of,
  Decided,
}

module _ (calls : LoginCalls) (ip : String) (now : ℕ) (l : LoginLimiter) (db : Admins) where
  -- What a successful login went through, and what it leaves.
  pub record IsOpened (cred : Credentials) (r : Login) : Type 0 where
    pub admin : LocalAdmin
    pub token : String
    pub hash : String
    pub sid : String
    pub within_limit : (allow (cred.username +++ "|" +++ ip) now l).0 ≡ true
    pub known : get_local_admin_by_username cred.username db ≡ some admin
    pub active : admin.status ≡ "active"
    pub verified : calls.verify_password admin.password_hash cred.password ≡ true
    pub fresh : calls.new_session_token ≡ some (token, hash)
    pub set : r.cookie ≡ some token
    pub session :
        r.admins ≡ create_admin_session sid admin.id hash (now + calls.session_absolute) now db
    pub event : r.events ≡ login_event admin.username "auth.login" ip ∷ []

  -- A login that does not succeed leaves the admins and sessions alone and sets no cookie; it is audited
  -- as failed exactly when it is refused for its credentials.
  abbrev pub IsRefused : Credentials → Login → Type 0
  IsRefused cred r =
      (r.admins ≡ db)
      × (r.cookie ≡ none)
      × (((r.status ≡ 401) × (r.events ≡ login_event cred.username "auth.login.failed" ip ∷ []))
          ⊎ (((r.status ≡ 400) ⊎ (r.status ≡ 429) ⊎ (r.status ≡ 500)) × (r.events ≡ [])))

  abbrev pub IsHandled : Credentials → Login → Type 0
  IsHandled cred r = ((r.status ≡ 200) × IsOpened cred r) ⊎ IsRefused cred r

oidc_of : (s : Source) → is_oidc s ≡ true → s ≡ source_oidc
oidc_of source_oidc h = refl
oidc_of source_break_glass h = absurd (ground arith)

-- The approval or the denial of the login of a code as the principal.
abbrev pub decision : (String → String) → Bool → Principal → String → ℕ → Table → Option Table
decision hash_login_code deny p code now table =
    if deny
    then deny_ssh_login (hash_login_code code) p.subject now table
    else approve_ssh_login (hash_login_code code) p.subject now table

-- Nothing happens; or the principal signed in through SSO, and the table and the one event are those of
-- its decision.
abbrev pub IsOwn : Principal → Table → Option Table → Decided → Type 0
IsOwn p table made r =
    ((r.1 ≡ table) × (r.2 ≡ []))
    ⊎ ((p.source ≡ source_oidc)
        × (made ≡ some r.1)
        × ((ev : AuditEvent) × (r.2 ≡ ev ∷ []) × (ev.actor ≡ p.subject)))

decided-IsOwn :
    (p : Principal) (event_type target : String) (table : Table) (made : Option Table)
    → p.source ≡ source_oidc
    → IsOwn p table made (decided p event_type target table made)
decided-IsOwn p event_type target table none h = inl (refl, refl)
decided-IsOwn p event_type target table (some t) h = inr (
  h,
  refl,
  (
    record {
      actor = p.subject;
      event_type = event_type;
      target = target;
      detail = ("target", target) ∷ [];
    },
    refl,
    refl,
  ),
)

by_kind :
    (hash_login_code : String → String) (deny : Bool) (p : Principal) (code : String) (now : ℕ)
    (table : Table)
    → p.source ≡ source_oidc
    → IsOwn p table (decision hash_login_code deny p code now table) (
        if deny
        then decided p "ssh.login.denied"
            (target_of (lookup_ssh_login_by_code (hash_login_code code) now table))
            table
            (deny_ssh_login (hash_login_code code) p.subject now table)
        else decided p "ssh.login.approved"
            (target_of (lookup_ssh_login_by_code (hash_login_code code) now table))
            table
            (approve_ssh_login (hash_login_code code) p.subject now table))
by_kind hash_login_code true p code now table h =
    decided-IsOwn p "ssh.login.denied"
      (target_of (lookup_ssh_login_by_code (hash_login_code code) now table)) table
      (deny_ssh_login (hash_login_code code) p.subject now table) h
by_kind hash_login_code false p code now table h =
    decided-IsOwn p "ssh.login.approved"
      (target_of (lookup_ssh_login_by_code (hash_login_code code) now table)) table
      (approve_ssh_login (hash_login_code code) p.subject now table) h

-- A decision on an SSH login changes the table or writes an event only where the principal signed in through
-- SSO, and then the login of the code is approved or denied as this principal, and the one
-- event has it as its actor.
pub ssh_login_decision-IsOwn :
    (hash_login_code : String → String) (deny : Bool) (p : Principal) (code : String) (now : ℕ)
    (table : Table)
    → IsOwn p table
        (decision hash_login_code deny p code now table)
        (ssh_login_decision hash_login_code deny p (some code) now table)
unfolding ssh_login_decision
ssh_login_decision-IsOwn hash_login_code deny p code now table =
    let made = decision hash_login_code deny p code now table in
    if_elim (IsOwn p table made) (not (is_oidc p.source)) (λ e. inl (refl, refl))
      (λ e.
        if_elim (IsOwn p table made) (code == "") (λ k. inl (refl, refl))
          (λ k. by_kind hash_login_code deny p code now table (oidc_of p.source (ground arith))))
