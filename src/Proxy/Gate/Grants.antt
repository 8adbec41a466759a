-- ===== src/Proxy/Gate/Grants.antt =====
-- internal/proxy/session.go with dbauthz.go: the grants decide what reaches the target.
use mathlib.Core.Path.{subst}
use ssh_access.Prelude.{
  String, Bool, true, false, ◌==◌, ◌&&◌, ◌≡◌, ap, sym, ◌∙◌, Option, none, some, List, if◌then◌else◌,
  arith,
}
use ssh_access.Proxy.Types.{Identity, TargetSpec, Decision, allow}
use ssh_access.Proxy.DbAuthz.{ResolvedServer, ResolvedGrant, AuthzBackend, authorize, compose}
use ssh_access.Proxy.DbAuthz.Compose.{compose-IsUnion, allows}
use ssh_access.Proxy.DbAuthz.Soundness.{Answers, IsEntitled, authorize_iff}
use ssh_access.Proxy.Gate.{ChannelRequest, is_sftp_subsystem, is_allowed, forward_user_request}

-- What the grants that permit the account say of a request.
abbrev pub granted_request : List ResolvedGrant → String → ChannelRequest → Bool
granted_request grants c r =
    if r.type_name == "shell"
    then allows (λ g. g.allow_shell) grants c
    else if r.type_name == "exec"
    then allows (λ g. g.allow_exec) grants c
    else if r.type_name == "subsystem"
    then allows (λ g. g.allow_sftp) grants c && is_sftp_subsystem r.subsystem
    else true

is_allowed-compose :
    (server : ResolvedServer) (grants : List ResolvedGrant) (c : String) (r : ChannelRequest)
    → is_allowed r (compose server grants c) ≡ granted_request grants c r
unfolding is_allowed
is_allowed-compose server grants c r =
    let u = compose-IsUnion server grants c in ground (arith, u.shell, u.exec, u.sftp)

-- In a session that was authorized, a request of the user reaches the target exactly when it is a shell,
-- a command or the sftp subsystem that some matching grant for the account allows, or of
-- another type; a request that does not reach the target and wants a reply is refused.
pub forward_user_request_iff :
    (b : AuthzBackend) (id : Identity) (target : TargetSpec) (d : Decision)
    → authorize b id target ≡ allow d
    → (server : ResolvedServer) × (grants : List ResolvedGrant) × Answers b id target server grants
      × IsEntitled id target server grants d.login
      × ((r : ChannelRequest) (answer : Option Bool)
          → ((forward_user_request r answer d).0 ≡ granted_request grants d.login r)
            × (granted_request grants d.login r ≡ false
                → (forward_user_request r answer d).1
                  ≡ (if r.want_reply then some false else none)))
unfolding forward_user_request
forward_user_request_iff b id target d h =
    let (server, grants, c, answers, entitled, same) = (authorize_iff b id target d).0 h in
    let login : c ≡ d.login =
      sym (ap (λ (e : Decision). e.login) same ∙ (compose-IsUnion server grants c).login) in
    let allowed : (r : ChannelRequest) → is_allowed r d ≡ granted_request grants d.login r = λ r.
      ap (is_allowed r) same
      ∙ is_allowed-compose server grants c r
      ∙ ap (λ a. granted_request grants a r) login in
    (
      server,
      grants,
      answers,
      subst (IsEntitled id target server grants) login entitled,
      λ r answer. (ground (arith, allowed r), λ k. ground (arith, allowed r)),
    )
