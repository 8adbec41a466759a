-- ===== src/Broker/Reaper.antt =====
-- cmd/broker/main.go: runReaper, which ends the sessions that the store names.
pub mod Unowned
pub mod Round
use ssh_access.Prelude.{
  ℕ, String, Bool, true, false, ◌&&◌, not, ◌==◌, Option, none, some, List, [], ◌∷◌, ◌++◌, map,
  lookup, filter, if◌then◌else◌, is_empty,
}
use ssh_access.Store.Audit.{AuditEvent}
use ssh_access.Store.Sessions.{sessions_to_terminate}
use ssh_access.Proxy.Registry.{SessionInfo, SessionRegistry, list, kill}
use ssh_access.Broker.Adapter.{Database, append}

abbrev info_event : String → Option SessionInfo → List AuditEvent
info_event id none = []
info_event id (some info) =
    record {
      actor = info.subject_label;
      event_type = "session.killed";
      target = info.host;
      detail = ("session_id", id) ∷ ("login", info.login) ∷ [];
    }
    ∷ []

-- The event of a session that was killed, described as it was when the round began.
abbrev pub killed_events : SessionRegistry → List String → List AuditEvent
killed_events r [] = []
killed_events r (id ∷ ids) = info_event id (lookup id r) ++ killed_events r ids

-- One round on the live sessions, where the query succeeds: the sessions whose connections are closed,
-- and the database with their events.
unfoldable pub reap : SessionRegistry → Database → List String × Database
reap r db =
    let ids = map (λ (s : SessionInfo). s.id) (list r) in
    let killed = filter (λ id. kill id r) (sessions_to_terminate ids db.tables) in
    if is_empty ids
    then ([], db)
    else (killed, record db { audit = db.audit ++ killed_events r killed })
