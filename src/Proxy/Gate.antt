-- ===== src/Proxy/Gate.antt =====
-- internal/proxy/session.go: the requests of the user's channel that reach the target.
pub mod Grants
use ssh_access.Prelude.{
  ℕ, String, Bool, true, false, ◌==◌, ◌&&◌, not, Option, none, some, if◌then◌else◌,
}
use ssh_access.Proxy.Types.{Decision}

pub record ChannelRequest : Type 0 where
  pub type_name : String
  pub want_reply : Bool
  -- the name in the payload of a subsystem request; `none` where it does not parse
  pub subsystem : Option String

-- isSFTPSubsystem
abbrev pub is_sftp_subsystem : Option String → Bool
is_sftp_subsystem none = false
is_sftp_subsystem (some name) = name == "sftp"

unfoldable pub is_allowed : ChannelRequest → Decision → Bool
is_allowed r d =
    if r.type_name == "shell"
    then d.allow_shell
    else if r.type_name == "exec"
    then d.allow_exec
    else if r.type_name == "subsystem"
    then d.allow_sftp && is_sftp_subsystem r.subsystem
    else true

abbrev reply : Bool → Bool → Option Bool
reply want_reply ok = if want_reply then some ok else none

abbrev answered : Option Bool → Bool
answered none = false
answered (some ok) = ok

-- forwardUserRequest: whether the request is sent to the target, and the reply to the user; the target's
-- answer is `none` where sending fails.
unfoldable pub forward_user_request : ChannelRequest → Option Bool → Decision → Bool × Option Bool
unfolding is_allowed
forward_user_request r answer d =
    if is_allowed r d
    then (true, reply r.want_reply (answered answer))
    else (false, reply r.want_reply false)
