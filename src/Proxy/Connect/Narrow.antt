-- ===== src/Proxy/Connect/Narrow.antt =====
-- internal/proxy/dial.go with internal/ca/issuer.go: what the broker shows to a target.
use ssh_access.Prelude.{◌≡◌, none, some, [], ◌∷◌, lookup, if◌then◌else◌}
use ssh_access.Ca.Issuer.{Issuer, Certificate}
use ssh_access.Proxy.Types.{Decision}

-- What a session shows to its target: the login as its only principal, and of the flags only the PTY.
pub record IsNarrow {Key : Type 0} (d : Decision) (cert : Certificate Key) : Type 0 where
  pub principals : cert.valid_principals ≡ d.login ∷ []
  pub no_port_forwarding : lookup "permit-port-forwarding" cert.extensions ≡ none
  pub no_agent_forwarding : lookup "permit-agent-forwarding" cert.extensions ≡ none
  pub no_x11_forwarding : lookup "permit-X11-forwarding" cert.extensions ≡ none
  pub pty : lookup "permit-pty" cert.extensions ≡ (if d.allow_shell then some "" else none)
