-- ===== src/Store/SshLogin.antt =====
-- internal/store/ssh_login.go: the table of browser logins for waiting SSH connections, which the broker
-- and the API share. Each statement is one step on the table; `now` is the database's clock, in
-- microseconds. A hash is the string of its bytes.
pub mod History
pub mod Consume
pub mod Once
pub mod Flow
use ssh_access.Prelude.{
  ℕ, suc, String, Bool, true, false, not, ◌&&◌, ◌||◌, ◌==◌, Option, none, some, List, [], ◌∷◌, map,
  length, filter, any, find, if◌then◌else◌, ltb,
}

pub data Status : Type 0 where
  pending approved denied consumed : Status

-- A row of ssh_login_requests.
pub record SshLoginRequest : Type 0 where
  pub id : String
  pub code_hash : String
  pub source_ip : String
  pub requested_target : String
  pub status : Status
  pub entra_subject : Option String
  pub created_at : ℕ
  pub expires_at : ℕ
  pub approved_at : Option ℕ
  pub consumed_at : Option ℕ

abbrev pub Table : Type 0
Table = List SshLoginRequest

abbrev pub is_pending : Status → Bool
is_pending pending = true
is_pending _ = false

abbrev pub is_approved : Status → Bool
is_approved approved = true
is_approved _ = false

abbrev pub is_finished : Status → Bool
is_finished consumed = true
is_finished denied = true
is_finished _ = false

abbrev pub has_id : String → SshLoginRequest → Bool
has_id id r = r.id == id

abbrev pub has_code : String → SshLoginRequest → Bool
has_code hash r = r.code_hash == hash

-- WHERE code_hash = $1 AND status = 'pending' AND expires_at > now()
abbrev pub awaits : String → ℕ → SshLoginRequest → Bool
awaits hash now r = r.code_hash == hash && is_pending r.status && ltb now r.expires_at

-- WHERE id = $1 AND status = 'approved' AND expires_at > now()
abbrev pub consumable : String → ℕ → SshLoginRequest → Bool
consumable id now r = r.id == id && is_approved r.status && ltb now r.expires_at

-- CreateSSHLoginRequest, with the id that gen_random_uuid() gives; `none` where the insertion breaks
-- the primary key or the uniqueness of the hash.
unfoldable pub create_ssh_login_request :
    String → String → String → String → ℕ → ℕ → Table → Option (String × Table)
create_ssh_login_request id hash ip target expires now table =
    if any (has_id id) table || any (has_code hash) table
    then none
    else some (
      id,
      record {
        id = id;
        code_hash = hash;
        source_ip = ip;
        requested_target = target;
        status = pending;
        entra_subject = none;
        created_at = now;
        expires_at = expires;
        approved_at = none;
        consumed_at = none;
      }
          ∷ table,
    )

-- LookupSSHLoginByCode
unfoldable pub lookup_ssh_login_by_code : String → ℕ → Table → Option SshLoginRequest
lookup_ssh_login_by_code hash now table = find (awaits hash now) table

abbrev pub decide_row : String → String → Status → ℕ → SshLoginRequest → SshLoginRequest
decide_row hash subject status now r =
    if awaits hash now r
    then (record r { status = status; entra_subject = some subject; approved_at = some now })
    else r

-- decideSSHLogin; `none` is ErrNotFound.
unfoldable pub decide_ssh_login : String → String → Status → ℕ → Table → Option Table
decide_ssh_login hash subject status now table =
    if any (awaits hash now) table
    then some (map (decide_row hash subject status now) table)
    else none

unfoldable pub approve_ssh_login : String → String → ℕ → Table → Option Table
unfolding decide_ssh_login
approve_ssh_login hash subject now table = decide_ssh_login hash subject approved now table

unfoldable pub deny_ssh_login : String → String → ℕ → Table → Option Table
unfolding decide_ssh_login
deny_ssh_login hash subject now table = decide_ssh_login hash subject denied now table

abbrev pub status_text : Status → String
status_text pending = "pending"
status_text approved = "approved"
status_text denied = "denied"
status_text consumed = "consumed"

-- A NULL is read as the empty string.
abbrev pub text_of : Option String → String
text_of none = ""
text_of (some s) = s

-- PollSSHLogin, at the time `now` of the broker's clock.
unfoldable pub poll_ssh_login : String → ℕ → Table → Option (String × String)
poll_ssh_login id now table = elim (find (has_id id) table) [
  | none ↦ none
  | some r ↦ some (
    (if is_pending r.status && ltb r.expires_at now then "expired" else status_text r.status),
    text_of r.entra_subject,
  )
]

abbrev pub consume_row : String → ℕ → SshLoginRequest → SshLoginRequest
consume_row id now r =
    if consumable id now r then (record r { status = consumed; consumed_at = some now }) else r

-- The scan of the first returned row; no row is ErrNotFound.
abbrev pub returning : Table → Option SshLoginRequest → Option (String × Table)
returning updated none = none
returning updated (some r) = some (text_of r.entra_subject, updated)

-- ConsumeSSHLogin
unfoldable pub consume_ssh_login : String → ℕ → Table → Option (String × Table)
consume_ssh_login id now table =
    returning (map (consume_row id now) table) (find (consumable id now) table)

-- WHERE expires_at < $1 OR status IN ('consumed', 'denied')
abbrev pub disposable : ℕ → SshLoginRequest → Bool
disposable older_than r = ltb r.expires_at older_than || is_finished r.status

-- DeleteExpiredSSHLogins
unfoldable pub delete_expired_ssh_logins : ℕ → Table → ℕ × Table
delete_expired_ssh_logins older_than table = (
  length (filter (disposable older_than) table),
  filter (λ r. not (disposable older_than r)) table,
)
