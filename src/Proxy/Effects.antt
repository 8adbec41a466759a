-- ===== src/Proxy/Effects.antt =====
-- internal/proxy/audit.go and server.go: what a connection does to the world around it, and what the world
-- answers it. A `none` or a `false` of the world is an error.
use ssh_access.Prelude.{ℕ, String, Option, List}
use ssh_access.Prelude.Int.{ℤ}
use ssh_access.Proxy.Types.{Identity, TargetSpec, Decision, Authorization, Denial}
use ssh_access.Proxy.Target.{TargetError}
use ssh_access.Proxy.Registry.{SessionInfo}

pub record SessionRecord : Type 0 where
  pub subject_type : String
  pub subject_label : String
  pub host : String
  pub address : String
  pub login : String
  pub access_mode : String
  pub source_ip : String
  pub cert_serial : ℕ

pub record SessionOutcome : Type 0 where
  pub bytes_in : ℕ
  pub bytes_out : ℕ
  pub exit_status : Option ℤ
  pub recording_ref : String

pub record Event : Type 0 where
  pub actor : String
  pub event_type : String
  pub target : String
  pub detail : List (String × String)

-- A channel that the user opens, and what handleSession returns for it.
pub record NewChannel : Type 0 where
  pub channel_type : String
  pub bytes_in : ℕ
  pub bytes_out : ℕ
  pub exit_status : Option ℤ

pub data Effect : Type 0 where
  record_event : Event → Effect
  start_session : SessionRecord → Effect
  add_session : SessionInfo → Effect
  remove_session : String → Effect
  open_recording : String → Effect
  close_recording : Effect
  reject_channel : Effect
  notice : String → Effect
  -- the channel is connected with the target under the decision
  proxy_channel : Decision → NewChannel → Effect
  end_session : String → SessionOutcome → Effect
  close_target : Effect
  close_user : Effect

pub record World : Type 0 where
  -- the extensions of sConn.Permissions; a failed handshake is `none` at the outside
  pub handshake : Option (Option (List (String × String)))
  pub user : String
  pub source_ip : String
  pub quote : String → String
  pub target_error_text : TargetError → String
  pub denial_text : Denial → String
  pub authorize : Identity → TargetSpec → Authorization
  -- the serial number of the certificate with which connectTarget succeeded
  pub connect_target : Identity → TargetSpec → Decision → Option ℕ
  -- the id that the auditor gives; it is empty without a database
  pub session_id : Option String
  -- the reference that the recorder gives
  pub recording : String → Option String
  pub now : ℕ
  pub channels : List NewChannel
