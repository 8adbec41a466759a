-- ===== src/Store/Admins.antt =====
-- internal/store/admins.go: break-glass admins and their sessions. A statement is one step on the two
-- tables; times are in nanoseconds. The broker's clock and the database's are one `now`.
pub mod Sessions
use ssh_access.Prelude.{
  ℕ, ◌+◌, String, Bool, true, false, ◌&&◌, not, ◌==◌, Option, none, some, List, [], ◌∷◌, map, any,
  find, if◌then◌else◌, ltb, is_some,
}

pub record LocalAdmin : Type 0 where
  pub id : String
  pub username : String
  pub password_hash : String
  pub role : String
  pub status : String
  pub last_login_at : Option ℕ

-- A row of admin_sessions.
pub record SessionRow : Type 0 where
  pub id : String
  pub token_hash : String
  pub local_admin_id : String
  pub expires_at : ℕ
  pub last_seen_at : ℕ
  pub revoked_at : Option ℕ

pub record Admins : Type 0 where
  pub local_admins : List LocalAdmin
  pub admin_sessions : List SessionRow

abbrev pub named : String → LocalAdmin → Bool
named username a = a.username == username

-- ON CONFLICT (username) DO UPDATE; the id is the one given to a new row.
unfoldable pub upsert_local_admin : String → String → String → String → Admins → Admins
upsert_local_admin id username password_hash role db =
    let role' = if role == "" then "admin" else role in
    if any (named username) db.local_admins
    then (record db {
      local_admins =
          map
            (λ a.
              if named username a
              then (record a { password_hash = password_hash; role = role' })
              else a)
            db.local_admins;
    })
    else (record db {
      local_admins =
          record {
            id = id;
            username = username;
            password_hash = password_hash;
            role = role';
            status = "active";
            last_login_at = none;
          }
          ∷ db.local_admins;
    })

-- GetLocalAdminByUsername; `none` is ErrNotFound.
unfoldable pub get_local_admin_by_username : String → Admins → Option LocalAdmin
get_local_admin_by_username username db = find (named username) db.local_admins

-- SetLocalAdminStatus
unfoldable pub set_local_admin_status : String → String → Admins → Option Admins
set_local_admin_status username status db =
    if any (named username) db.local_admins
    then some (record db {
      local_admins =
          map (λ a. if named username a then (record a { status = status }) else a) db.local_admins;
    })
    else none

-- CreateAdminSession, with the id given to the new row.
unfoldable pub create_admin_session : String → String → String → ℕ → ℕ → Admins → Admins
create_admin_session id admin_id token_hash expires_at now db = record {
  local_admins =
      map (λ a. if a.id == admin_id then (record a { last_login_at = some now }) else a)
        db.local_admins;
  admin_sessions =
      record {
        id = id;
        token_hash = token_hash;
        local_admin_id = admin_id;
        expires_at = expires_at;
        last_seen_at = now;
        revoked_at = none;
      }
      ∷ db.admin_sessions;
}

pub record AdminSession : Type 0 where
  pub id : String
  pub admin_id : String
  pub username : String
  pub role : String
  pub expires_at : ℕ

-- a.id = s.local_admin_id AND a.status = 'active'
abbrev pub active_owner : SessionRow → LocalAdmin → Bool
active_owner s a = a.id == s.local_admin_id && a.status == "active"

-- The WHERE clause of LookupAdminSession, joined with the admins.
abbrev pub is_live : String → ℕ → List LocalAdmin → SessionRow → Bool
is_live token_hash now admins s =
    s.token_hash == token_hash
    && not (is_some s.revoked_at)
    && ltb now s.expires_at
    && any (active_owner s) admins

abbrev pub set_revoked : String → ℕ → SessionRow → SessionRow
set_revoked id now s = if s.id == id then (record s { revoked_at = some now }) else s

abbrev pub set_seen : String → ℕ → SessionRow → SessionRow
set_seen id now s = if s.id == id then (record s { last_seen_at = now }) else s

-- idleTimeout > 0 && time.Since(lastSeen) > idleTimeout
abbrev pub is_idle : ℕ → ℕ → SessionRow → Bool
is_idle idle_timeout now s = ltb 0 idle_timeout && ltb (s.last_seen_at + idle_timeout) now

abbrev found_session :
    ℕ → ℕ → SessionRow → Option LocalAdmin → Admins → Option AdminSession × Admins
found_session idle now s none db = (none, db)
found_session idle now s (some a) db =
    if is_idle idle now s
    then (none, record db { admin_sessions = map (set_revoked s.id now) db.admin_sessions })
    else (
      some (record {
        id = s.id;
        admin_id = s.local_admin_id;
        username = a.username;
        role = a.role;
        expires_at = s.expires_at;
      }),
      record db { admin_sessions = map (set_seen s.id now) db.admin_sessions },
    )

abbrev found_row : ℕ → ℕ → Option SessionRow → Admins → Option AdminSession × Admins
found_row idle now none db = (none, db)
found_row idle now (some s) db = found_session idle now s (find (active_owner s) db.local_admins) db

-- LookupAdminSession
unfoldable pub lookup_admin_session : String → ℕ → ℕ → Admins → Option AdminSession × Admins
lookup_admin_session token_hash idle_timeout now db =
    found_row idle_timeout now (find (is_live token_hash now db.local_admins) db.admin_sessions) db

-- RevokeAdminSession
unfoldable pub revoke_admin_session : String → ℕ → Admins → Admins
revoke_admin_session token_hash now db = record db {
  admin_sessions =
      map
        (λ s.
          if s.token_hash == token_hash && not (is_some s.revoked_at)
          then (record s { revoked_at = some now })
          else s)
        db.admin_sessions;
}
