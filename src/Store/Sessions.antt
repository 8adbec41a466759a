-- ===== src/Store/Sessions.antt =====
-- internal/store/sessions.go and sessions_terminate.go: the rows of brokered sessions. Each statement is
-- one step on the tables; `now` is the database's clock.
pub mod Doomed
use ssh_access.Prelude.{
  ℕ, String, Bool, true, false, ◌&&◌, ◌||◌, not, ◌==◌, Option, none, some, List, [], ◌∷◌, map, any,
  filter, find, contains, if◌then◌else◌, is_some, is_empty,
}
use ssh_access.Prelude.Int.{ℤ}

pub record SessionStart : Type 0 where
  pub subject_type : String
  pub subject_id : Option String
  pub subject_label : String
  pub server_id : Option String
  pub server_label : String
  pub login_principal : String
  pub access_mode : String
  pub grant_id : Option String
  pub source_ip : String
  pub cert_serial : Option ℤ
  pub recording : String

-- A row of sessions.
pub record Session : Type 0 where
  pub id : String
  pub start : SessionStart
  pub ended_at : Option ℕ
  pub bytes_in : ℕ
  pub bytes_out : ℕ
  pub exit_status : Option ℤ
  pub recording_ref : String
  pub recording_url : String
  pub terminate_requested : Option ℕ

-- A row of users or of service_accounts, as far as it is read here.
pub record Account : Type 0 where
  pub id : String
  pub status : String

pub record Tables : Type 0 where
  pub sessions : List Session
  pub users : List Account
  pub service_accounts : List Account

-- CreateSession, with the id given to the new row
unfoldable pub create_session : String → SessionStart → Tables → Tables
create_session id input db =
    let input' =
      if input.recording == "" then (record input { recording = "metadata" }) else input in
    record db {
      sessions =
          record {
            id = id;
            start = input';
            ended_at = none;
            bytes_in = 0;
            bytes_out = 0;
            exit_status = none;
            recording_ref = "";
            recording_url = "";
            terminate_requested = none;
          }
          ∷ db.sessions;
    }

abbrev pub update_session : String → (Session → Session) → Tables → Tables
update_session id f db = record db {
  sessions = map (λ (s : Session). if s.id == id then f s else s) db.sessions;
}

abbrev pub has_session : String → Tables → Bool
has_session id db = any (λ (s : Session). s.id == id) db.sessions

-- EndSession, which does not ask whether a row was updated
unfoldable pub end_session : String → ℕ → ℕ → Option ℤ → ℕ → Tables → Tables
end_session id bytes_in bytes_out exit now db =
    update_session id
      (λ s. record s {
        ended_at = some now;
        bytes_in = bytes_in;
        bytes_out = bytes_out;
        exit_status = exit;
      })
      db

abbrev pub is_active : String → Session → Bool
is_active id s = s.id == id && not (is_some s.ended_at)

-- RequestSessionTermination; `none` is ErrNotFound.
unfoldable pub request_session_termination : String → ℕ → Tables → Option Tables
request_session_termination id now db =
    if any (is_active id) db.sessions
    then some (record db {
      sessions =
          map (λ s. if is_active id s then (record s { terminate_requested = some now }) else s)
            db.sessions;
    })
    else none

-- SetSessionRecordingURL
unfoldable pub set_session_recording_url : String → String → Tables → Option Tables
set_session_recording_url id url db =
    if has_session id db
    then some (update_session id (λ s. record s { recording_url = url }) db)
    else none

-- SetSessionRecordingRef
unfoldable pub set_session_recording_ref : String → String → Tables → Option Tables
set_session_recording_ref id ref db =
    if has_session id db
    then some (update_session id (λ s. record s { recording_ref = ref }) db)
    else none

abbrev ref_of : Option Session → Option String
ref_of none = none
ref_of (some s) = some s.recording_ref

-- SessionRecordingRef
unfoldable pub session_recording_ref : String → Tables → Option String
session_recording_ref id db = ref_of (find (λ (s : Session). s.id == id) db.sessions)

-- ON s.subject_type = '…' AND s.subject_id = a.id, with the status 'disabled'
abbrev pub disabled_owner : String → List Account → Session → Bool
disabled_owner subject_type accounts s =
    s.start.subject_type == subject_type && (elim s.start.subject_id [
      | none ↦ false
      | some i ↦ any (λ (a : Account). a.id == i && a.status == "disabled") accounts
    ])

-- The WHERE clause of SessionsToTerminate.
abbrev pub is_doomed : List String → Tables → Session → Bool
is_doomed ids db s =
    contains ids s.id
    && not (is_some s.ended_at)
    && (is_some s.terminate_requested
        || disabled_owner "user" db.users s
        || disabled_owner "service_account" db.service_accounts s)

-- SessionsToTerminate
unfoldable pub sessions_to_terminate : List String → Tables → List String
sessions_to_terminate ids db =
    if is_empty ids then [] else map (λ (s : Session). s.id) (filter (is_doomed ids db) db.sessions)

-- UPDATE users SET status = $2 WHERE id = $1 (SetUserStatus)
unfoldable pub set_user_status : String → String → Tables → Option Tables
set_user_status id status db =
    if any (λ (a : Account). a.id == id) db.users
    then some (record db {
      users =
          map (λ (a : Account). if a.id == id then (record a { status = status }) else a) db.users;
    })
    else none
