-- ===== src/Broker/Adapter.antt =====
-- cmd/broker/main.go: auditAdapter, the Auditor of internal/proxy/audit.go over the database. The
-- events that it appends are kept in the order in which they were appended. What the database gives is
-- an argument: `none` and `false` are errors.
use ssh_access.Prelude.{
  ℕ, ◌^◌, String, Bool, true, false, ◌==◌, Option, none, some, List, [], ◌∷◌, ◌++◌, if◌then◌else◌,
  eqb, ltb,
}
use ssh_access.Prelude.Int.{ℤ, pos, sub_ℕ}
use ssh_access.Proxy.Effects.{SessionRecord, SessionOutcome, Event}
use ssh_access.Store.Audit.{AuditEvent}
use ssh_access.Store.Sessions.{
  SessionStart, Tables, create_session, end_session, set_session_recording_ref,
}

pub record Database : Type 0 where
  pub tables : Tables
  pub audit : List AuditEvent

-- AppendAudit, which fails or adds the event
abbrev pub append : Bool → AuditEvent → Database → Database
append ok ev db = if ok then (record db { audit = db.audit ++ ev ∷ [] }) else db

-- int64(v) of a uint64
abbrev pub int64 : ℕ → ℤ
int64 v = if ltb v (2 ^ 63) then pos v else sub_ℕ v (2 ^ 64)

-- What StartSession asks the store to record.
unfoldable pub session_start : SessionRecord → SessionStart
session_start r = record {
  subject_type = r.subject_type;
  subject_id = none;
  subject_label = r.subject_label;
  server_id = none;
  server_label = r.host;
  login_principal = r.login;
  access_mode = r.access_mode;
  grant_id = none;
  source_ip = r.source_ip;
  cert_serial = (if eqb r.cert_serial 0 then none else some (int64 r.cert_serial));
  recording = "metadata";
}

abbrev pub started_event : String → SessionRecord → AuditEvent
started_event id r = record {
  actor = r.subject_label;
  event_type = "session.start";
  target = r.host;
  detail =
      ("login", r.login)
      ∷ ("address", r.address)
      ∷ ("source_ip", r.source_ip)
      ∷ ("session_id", id)
      ∷ [];
}

-- StartSession, with the id of the new row and whether the event could be appended
unfoldable pub start_session :
    Option String → Bool → SessionRecord → Database → Option String × Database
unfolding session_start
start_session none ok r db = (none, db)
start_session (some id) ok r db = (
  some id,
  append ok (started_event id r)
      (record db { tables = create_session id (session_start r) db.tables }),
)

abbrev pub or_kept : Option Tables → Tables → Tables
or_kept none t = t
or_kept (some t') t = t'

module _ (format_int : ℕ → String) (itoa : ℤ → String) where
  abbrev pub exit_detail : Option ℤ → List (String × String)
  exit_detail none = []
  exit_detail (some c) = ("exit_status", itoa c) ∷ []

  abbrev pub ended_event : String → SessionOutcome → AuditEvent
  ended_event id o = record {
    actor = "system";
    event_type = "session.end";
    target = id;
    detail =
        ("session_id", id)
        ∷ ("bytes_in", format_int o.bytes_in)
        ∷ ("bytes_out", format_int o.bytes_out)
        ∷ exit_detail o.exit_status;
  }

  -- EndSession, where `updated` is whether the row could be written; the result is whether it succeeds. The
  -- upload of a recording runs by itself and is left out.
  unfoldable pub end_session_record :
      Bool → Bool → String → SessionOutcome → ℕ → Database → Bool × Database
  end_session_record updated ok id o now db =
      let ended = end_session id o.bytes_in o.bytes_out o.exit_status now db.tables in
      let stored =
        if o.recording_ref == ""
        then ended
        else or_kept (set_session_recording_ref id o.recording_ref ended) ended in
      if id == ""
      then (true, db)
      else if updated
      then (ok, append ok (ended_event id o) (record db { tables = stored }))
      else (false, db)

-- RecordEvent
unfoldable pub record_event : Bool → Event → Database → Database
record_event ok e db =
    append ok
      (record { actor = e.actor; event_type = e.event_type; target = e.target; detail = e.detail })
      db
