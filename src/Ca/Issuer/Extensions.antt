-- ===== src/Ca/Issuer/Extensions.antt =====
-- internal/ca/issuer.go: the extensions and critical options of a certificate.
use ssh_access.Prelude.{
  String, ◌≡◌, ap, ◌∙◌, Bool, not, ◌&&◌, ◌||◌, none, some, arith, ◌==◌, lookup, if◌then◌else◌,
}
use ssh_access.Prelude.Int.{ℤ}
use ssh_access.Ca.Issuer.{
  Issuer, IssueParams, Certificate, Permissions, ok, issue, build, extensions_of,
  critical_options_of, ext_pty, ext_port_forwarding, ext_agent_forwarding, ext_x11_forwarding,
  opt_source_address,
}
use ssh_access.Ca.Issuer.Principals.{issue-Issued}

-- The flag that an extension name stands for; any other name stands for none.
abbrev pub flag_of : Permissions → String → Bool
flag_of p name =
    (p.pty && ext_pty == name)
    || (p.port_forwarding && ext_port_forwarding == name)
    || (p.agent_forwarding && ext_agent_forwarding == name)
    || (p.x11_forwarding && ext_x11_forwarding == name)

lookup-extensions_of :
    (p : Permissions) (name : String)
    → lookup name (extensions_of p) ≡ (if flag_of p name then some "" else none)
unfolding lookup extensions_of
lookup-extensions_of p name = ground arith

lookup-critical_options_of :
    (addr name : String)
    → lookup name (critical_options_of addr)
      ≡ (if not (addr == "") && opt_source_address == name then some addr else none)
unfolding lookup critical_options_of
lookup-critical_options_of addr name = ground arith

module _ {Key S : Type 0} where
  -- A certificate has exactly the extensions whose flags the grant sets, each with an empty value,
  -- and no other; its only critical option is the source address, present with its value exactly
  -- when one is configured.
  pub issue_extensions :
      (i : Issuer Key S) (p : IssueParams Key) (time : ℤ) (s : S) (c : Certificate Key)
      → (issue i p time s).0 ≡ ok c
      → ((name : String)
          → lookup name c.extensions ≡ (if flag_of p.permissions name then some "" else none))
        × ((name : String)
            → lookup name c.critical_options ≡ (
                if not (p.source_address == "") && opt_source_address == name
                then some p.source_address
                else none))
  unfolding build
  issue_extensions i p time s c h =
      let r = issue-Issued i p time s c h in
      (
        λ name.
            ap (λ (x : Certificate Key). lookup name x.extensions) r.built
            ∙ lookup-extensions_of p.permissions name,
        λ name.
            ap (λ (x : Certificate Key). lookup name x.critical_options) r.built
            ∙ lookup-critical_options_of p.source_address name,
      )
