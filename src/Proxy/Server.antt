-- ===== src/Proxy/Server.antt =====
-- internal/proxy/server.go: handleConn, one connection from the handshake to the end, as the list of what
-- it does to the world around it in order. Log lines are left out, and so are the bytes of the channels.
pub mod Proxied
pub mod Tally
pub mod Recorded
use ssh_access.Prelude.{
  ℕ, ◌+◌, String, Bool, true, false, ◌&&◌, not, ◌==◌, Option, none, some, List, [], ◌∷◌, ◌++◌,
  lookup, if◌then◌else◌, ◌+++◌,
}
use ssh_access.Prelude.Int.{ℤ}
use ssh_access.Proxy.Types.{Identity, TargetSpec, Decision, Authorization, allow, deny, Denial}
use ssh_access.Proxy.Target.{parse_target, Parsed, ok, err, TargetError}
use ssh_access.Proxy.Registry.{SessionInfo}
use ssh_access.Proxy.Effects.{
  SessionRecord, SessionOutcome, NewChannel, Effect, World, record_event, start_session,
  add_session, remove_session, open_recording, close_recording, reject_channel, notice,
  proxy_channel, end_session, close_target, close_user,
}

abbrev pub text_or : Option String → String → String
text_or none s = s
text_or (some t) s = t

-- identityFrom
unfoldable pub identity_from : Option (List (String × String)) → Identity
identity_from none = record { subject = ""; id = ""; label = "unknown" }
identity_from (some ext) = record {
  subject = text_or (lookup "subject_type" ext) "";
  id = text_or (lookup "subject_id" ext) "";
  label = (let l = text_or (lookup "subject_label" ext) "" in if l == "" then "unknown" else l);
}

-- The totals of the loop over the channels: bytes in, bytes out, and the last exit status.
pub record Totals : Type 0 where
  pub bytes_in : ℕ
  pub bytes_out : ℕ
  pub exit_status : Option ℤ

abbrev pub last_exit : Option ℤ → Option ℤ → Option ℤ
last_exit none old = old
last_exit (some c) old = some c

abbrev pub counted : Totals → NewChannel → Totals
counted t c = record {
  bytes_in = t.bytes_in + c.bytes_in;
  bytes_out = t.bytes_out + c.bytes_out;
  exit_status = last_exit c.exit_status t.exit_status;
}

-- The loop over the channels where the setup failed.
unfoldable pub refuse_channels : String → List NewChannel → List Effect
refuse_channels setup_err [] = []
refuse_channels setup_err (c ∷ cs) =
    let rest = refuse_channels setup_err cs in
    if c.channel_type == "session" then notice setup_err ∷ rest else reject_channel ∷ rest

-- The loop over the channels of a session.
unfoldable pub proxy_channels : Decision → List NewChannel → Totals → List Effect × Totals
proxy_channels d [] t = ([], t)
proxy_channels d (c ∷ cs) t =
    let more = proxy_channels d cs (counted t c) in
    let skipped = proxy_channels d cs t in
    if c.channel_type == "session"
    then (proxy_channel d c ∷ more.0, more.1)
    else (reject_channel ∷ skipped.0, skipped.1)

module _ (w : World) where
  abbrev pub event : Identity → String → String → List (String × String) → Effect
  event id event_type target detail =
      record_event
        (record { actor = id.label; event_type = event_type; target = target; detail = detail })

  -- A failed setup is noticed on each session channel, and the connection is closed.
  abbrev pub refused : String → List Effect
  refused setup_err = refuse_channels setup_err w.channels ++ close_user ∷ []

  abbrev pub session_record : Identity → TargetSpec → Decision → ℕ → SessionRecord
  session_record id spec d serial = record {
    subject_type = id.subject;
    subject_label = id.label;
    host = spec.host;
    address = d.address;
    login = d.login;
    access_mode = "cert";
    source_ip = w.source_ip;
    cert_serial = serial;
  }

  abbrev pub session_info : Identity → TargetSpec → Decision → String → SessionInfo
  session_info id spec d sid = record {
    id = sid;
    subject_type = id.subject;
    subject_id = id.id;
    subject_label = id.label;
    host = spec.host;
    login = d.login;
    started = w.now;
  }

  abbrev no_totals : Totals
  no_totals = record { bytes_in = 0; bytes_out = 0; exit_status = none }

  abbrev pub outcome : Totals → String → SessionOutcome
  outcome t ref = record {
    bytes_in = t.bytes_in;
    bytes_out = t.bytes_out;
    exit_status = t.exit_status;
    recording_ref = ref;
  }

  -- The recording that is opened for a session, if any.
  abbrev pub opened : Decision → String → Option String
  opened d sid = if d.recording == "full" then w.recording sid else none

  abbrev pub opening : Decision → String → List Effect
  opening d sid = if d.recording == "full" then open_recording sid ∷ [] else []

  abbrev closing : Option String → List Effect
  closing none = []
  closing (some ref) = close_recording ∷ []

  -- The end of the connection of a session: what follows the loop, and then what was deferred.
  abbrev pub ending : String → Totals → Option String → List Effect
  ending sid t ref =
      end_session sid (outcome t (text_or ref ""))
      ∷ (closing ref ++ (close_target ∷ remove_session sid ∷ close_user ∷ []))

  -- A connection with a session that the auditor recorded.
  with_session : Identity → TargetSpec → Decision → String → List Effect
  with_session id spec d sid =
      let run = proxy_channels d w.channels no_totals in
      add_session (session_info id spec d sid)
      ∷ (opening d sid ++ (run.0 ++ ending sid run.1 (opened d sid)))

  -- A connection whose session has no id, because the auditor failed or keeps no sessions.
  without_session : Decision → List Effect
  without_session d = (proxy_channels d w.channels no_totals).0 ++ close_target ∷ close_user ∷ []

  abbrev pub unreachable : Identity → TargetSpec → Decision → Effect
  unreachable id spec d =
      event id "target.unreachable" spec.host
        (("login", d.login) ∷ ("address", d.address) ∷ ("source_ip", w.source_ip) ∷ [])

  abbrev pub denied : Identity → TargetSpec → Denial → Effect
  denied id spec why = event id "authz.denied" spec.host (
      ("requested", spec.requested_login)
      ∷ ("reason", w.denial_text why)
      ∷ ("source_ip", w.source_ip)
      ∷ [])

  abbrev pub rejected : Identity → TargetError → Effect
  rejected id e =
      event id "session.rejected" w.user
        (("reason", w.target_error_text e) ∷ ("source_ip", w.source_ip) ∷ [])

  brokered : Identity → TargetSpec → Decision → Option String → List Effect
  unfolding with_session without_session
  brokered id spec d none = without_session d
  brokered id spec d (some sid) =
      if sid == "" then without_session d else with_session id spec d sid

  on_connect : Identity → TargetSpec → Decision → Option ℕ → List Effect
  unfolding brokered
  on_connect id spec d none =
      unreachable id spec d ∷ refused ("sshbroker: could not connect to " +++ w.quote spec.host)
  on_connect id spec d (some serial) =
      start_session (session_record id spec d serial) ∷ brokered id spec d w.session_id

  on_authorize : Identity → TargetSpec → Authorization → List Effect
  unfolding on_connect
  on_authorize id spec (deny why) =
      denied id spec why ∷ refused ("sshbroker: not authorized to reach " +++ w.quote spec.host)
  on_authorize id spec (allow d) = on_connect id spec d (w.connect_target id spec d)

  on_parse : Identity → Parsed → List Effect
  unfolding on_authorize
  on_parse id (err e) = rejected id e ∷ refused ("sshbroker: " +++ w.target_error_text e)
  on_parse id (ok spec) = on_authorize id spec (w.authorize id spec)

  on_handshake : Option (Option (List (String × String))) → List Effect
  unfolding on_parse
  on_handshake none = close_user ∷ []
  on_handshake (some ext) = on_parse (identity_from ext) (parse_target w.user)

  -- handleConn
  unfoldable pub handle_conn : List Effect
  unfolding on_handshake
  handle_conn = on_handshake w.handshake
