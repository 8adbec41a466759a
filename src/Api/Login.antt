-- ===== src/Api/Login.antt =====
-- internal/api/auth_handlers.go and ssh_login_handlers.go: the break-glass login and the decision on an SSH
-- login. A response is its status; the events are those that the handler appends to the audit log, where
-- an error of the append is ignored. A body that does not decode is `none`.
pub mod Decided
use ssh_access.Prelude.{
  ℕ, ◌+◌, String, Bool, true, false, ◌&&◌, ◌||◌, not, ◌==◌, ◌+++◌, Option, none, some, List, [],
  ◌∷◌, if◌then◌else◌, cut, trim_space,
}
use ssh_access.Auth.Rbac.{Principal, Source, source_oidc, source_break_glass}
use ssh_access.Api.Limiter.{LoginLimiter, allow}
use ssh_access.Store.Audit.{AuditEvent}
use ssh_access.Store.Admins.{Admins, LocalAdmin, get_local_admin_by_username, create_admin_session}
use ssh_access.Store.SshLogin.{
  Table, SshLoginRequest, lookup_ssh_login_by_code, approve_ssh_login, deny_ssh_login,
}

pub record Login : Type 0 where
  pub status : ℕ
  pub limiter : LoginLimiter
  pub admins : Admins
  pub events : List AuditEvent
  -- the token in the cookie that is set
  pub cookie : Option String

pub record Credentials : Type 0 where
  pub username : String
  pub password : String

-- What localLogin calls: VerifyPassword (an error is a mismatch), NewSessionToken with its hash, the id of a new
-- session, or `none` where the row cannot be inserted.
pub record LoginCalls : Type 0 where
  pub verify_password : String → String → Bool
  pub new_session_token : Option (String × String)
  pub session_id : Option String
  pub session_absolute : ℕ

abbrev pub login_event : String → String → String → AuditEvent
login_event username event_type ip = record {
  actor = "break-glass:" +++ username;
  event_type = event_type;
  target = "local";
  detail = ("source_ip", ip) ∷ [];
}

module _ (calls : LoginCalls) (ip : String) (now : ℕ) where
  abbrev pub opened_login :
      LocalAdmin → LoginLimiter → Admins → Option (String × String) → Option String → Login
  opened_login admin l db none sid = record {
    status = 500;
    limiter = l;
    admins = db;
    events = [];
    cookie = none;
  }
  opened_login admin l db (some token) none = record {
    status = 500;
    limiter = l;
    admins = db;
    events = [];
    cookie = none;
  }
  opened_login admin l db (some (token, hash)) (some sid) = record {
    status = 200;
    limiter = l;
    admins = create_admin_session sid admin.id hash (now + calls.session_absolute) now db;
    events = login_event admin.username "auth.login" ip ∷ [];
    cookie = some token;
  }

  abbrev pub failed : String → LoginLimiter → Admins → Login
  failed username l db = record {
    status = 401;
    limiter = l;
    admins = db;
    events = login_event username "auth.login.failed" ip ∷ [];
    cookie = none;
  }

  abbrev pub checked : Credentials → LoginLimiter → Admins → Option LocalAdmin → Login
  checked cred l db none = failed cred.username l db
  checked cred l db (some admin) =
      if calls.verify_password admin.password_hash cred.password && admin.status == "active"
      then opened_login admin l db calls.new_session_token calls.session_id
      else failed cred.username l db

  abbrev pub limited : Credentials → Admins → Bool × LoginLimiter → Login
  limited cred db (true, l) = checked cred l db (get_local_admin_by_username cred.username db)
  limited cred db (false, l) = record {
    status = 429;
    limiter = l;
    admins = db;
    events = [];
    cookie = none;
  }

  -- localLogin from the client address `ip` at the time `now`
  unfoldable pub local_login : Option Credentials → LoginLimiter → Admins → Login
  local_login none l db = record {
    status = 400;
    limiter = l;
    admins = db;
    events = [];
    cookie = none;
  }
  local_login (some cred) l db =
      if cred.username == "" || cred.password == ""
      then record { status = 400; limiter = l; admins = db; events = []; cookie = none }
      else limited cred db (allow (cred.username +++ "|" +++ ip) now l)

-- The status, the table of logins and the events.
abbrev pub Decided : Type 0
Decided = ℕ × Table × List AuditEvent

abbrev target_of : Option SshLoginRequest → String
target_of none = ""
target_of (some r) = r.requested_target

abbrev pub decided : Principal → String → String → Table → Option Table → Decided
decided p event_type target table none = (404, table, [])
decided p event_type target table (some table') = (
  200,
  table',
  record {
    actor = p.subject;
    event_type = event_type;
    target = target;
    detail = ("target", target) ∷ [];
  }
      ∷ [],
)

abbrev is_oidc : Source → Bool
is_oidc source_oidc = true
is_oidc source_break_glass = false

-- sshLoginDecision, with HashLoginCode as `hash_login_code`; the code of a body that does not decode is `none`
unfoldable pub ssh_login_decision :
    (String → String) → Bool → Principal → Option String → ℕ → Table → Decided
ssh_login_decision hash_login_code deny p none now table =
    if is_oidc p.source then (400, table, []) else (403, table, [])
ssh_login_decision hash_login_code deny p (some code) now table =
    let hash = hash_login_code code in
    let target = target_of (lookup_ssh_login_by_code hash now table) in
    if not (is_oidc p.source)
    then (403, table, [])
    else if code == ""
    then (400, table, [])
    else if deny
    then decided p "ssh.login.denied" target table (deny_ssh_login hash p.subject now table)
    else decided p "ssh.login.approved" target table (approve_ssh_login hash p.subject now table)
