-- ===== src/Proxy/MemAuthz/Within.antt =====
-- internal/proxy/memauthz.go and dbauthz.go: the two authorizers on one policy.
use ssh_access.Prelude.{
  String, true, not, ◌||◌, ◌==◌, ◌≡◌, Option, none, some, List, [], lookup, map, filter,
}
use ssh_access.Prelude.Int.{ℤ, pos, ◌≤ℤ◌}
use ssh_access.Proxy.Types.{Identity, TargetSpec, Decision}
use ssh_access.Proxy.DbAuthz.{ResolvedServer, ResolvedGrant, AuthzBackend}
use ssh_access.Proxy.DbAuthz
use ssh_access.Proxy.MemAuthz.{
  GrantPolicy, TargetPolicy, MemoryAuthorizer, ParseDuration, parse_ttl,
}
use ssh_access.Proxy.MemAuthz.FirstGrant.{IsPermitted}

-- A policy as the rows of a database: no groups, no allowlist, the host name as the id of the server, and
-- the label of a subject as its id.
abbrev pub server_of : String → TargetPolicy → ResolvedServer
server_of host tp = record {
  id = host;
  address = tp.address;
  port = pos 22;
  host_key_fingerprint = tp.host_key;
  allowed_principals = [];
}

abbrev or_zero : Option ℤ → ℤ
or_zero none = pos 0
or_zero (some t) = t

abbrev pub grant_row : ParseDuration → GrantPolicy → ResolvedGrant
grant_row parse_duration g = record {
  principals = g.principals;
  max_ttl = or_zero (parse_ttl parse_duration g.max_ttl);
  allow_shell = g.shell;
  allow_exec = g.exec;
  allow_sftp = g.sftp;
  recording = "metadata";
}

abbrev rows_of : ParseDuration → String → Option TargetPolicy → List ResolvedGrant
rows_of parse_duration subject none = []
rows_of parse_duration subject (some tp) =
    map (grant_row parse_duration) (filter (λ (g : GrantPolicy). g.subject == subject) tp.grants)

abbrev server_option : String → Option TargetPolicy → Option ResolvedServer
server_option host none = none
server_option host (some tp) = some (server_of host tp)

abbrev pub policy_backend : ParseDuration → MemoryAuthorizer → AuthzBackend
policy_backend parse_duration a = record {
  server_by_hostname = λ host. some (server_option host (lookup host a));
  groups_for_user = λ user. some [];
  groups_for_server = λ server. some [];
  matching_grants = λ subject_type subject user_groups server server_groups.
      some (rows_of parse_duration subject (lookup server a));
}

-- The second decision allows at least what the first does on the host that is the same by its key.
pub record IsWithin (d e : Decision) : Type 0 where
  pub login : d.login ≡ e.login
  pub principals : d.principals ≡ e.principals
  pub host_key : d.host_key_fingerprint ≡ e.host_key_fingerprint
  pub shell : (not d.allow_shell || e.allow_shell) ≡ true
  pub exec : (not d.allow_exec || e.allow_exec) ≡ true
  pub sftp : (not d.allow_sftp || e.allow_sftp) ≡ true
  pub pty : (not d.cert_permissions.pty || e.cert_permissions.pty) ≡ true
  pub ttl : d.ttl ≤ℤ e.ttl

module _ (parse_duration : ParseDuration) (a : MemoryAuthorizer) (id : Identity)
    (target : TargetSpec) (d : Decision) (p : IsPermitted parse_duration a id target d)
    (by_label : id.id ≡ id.label) where
  abbrev login : String
  login = target.requested_login

  abbrev server : ResolvedServer
  server = server_of target.host p.policy

  abbrev rows : List ResolvedGrant
  rows =
      map (grant_row parse_duration)
        (filter (λ (g : GrantPolicy). g.subject == id.label) p.policy.grants)
