-- ===== src/Broker/Authz.antt =====
-- cmd/broker/main.go: storeAuthzBackend, the tables of the database as the AuthzBackend of the front door,
-- and the queries of internal/store/repositories.go that it calls.
pub mod Granted
pub mod Complete
pub mod Created
use ssh_access.Prelude.{
  ℕ, String, Bool, true, false, ◌==◌, Option, none, some, List, [], ◌∷◌, map, filter, find,
  contains,
}
use ssh_access.Prelude.Int.{ℤ}
use ssh_access.Proxy.DbAuthz.{ResolvedServer, ResolvedGrant, AuthzBackend}
use ssh_access.Store.Servers.{ServerRow, Members}
use ssh_access.Store.Grants.{GrantRow, Grant, matching_grants}

pub record Directory : Type 0 where
  pub servers : List ServerRow
  pub user_group_members : Members
  pub server_group_members : Members
  pub grants : List GrantRow

-- ListGroupsForUser and ListGroupsForServer
unfoldable pub groups_of : String → Members → List String
groups_of member ms =
    map (λ (m : String × String). m.0) (filter (λ (m : String × String). m.1 == member) ms)

-- GetServerByHostname
unfoldable pub get_server_by_hostname : String → List ServerRow → Option ServerRow
get_server_by_hostname hostname servers = find (λ (s : ServerRow). s.hostname == hostname) servers

abbrev pub resolved_server : ServerRow → ResolvedServer
resolved_server s = record {
  id = s.id;
  address = s.address;
  port = s.port;
  host_key_fingerprint = s.host_key_fingerprint;
  allowed_principals = s.allowed_principals;
}

abbrev pub resolved_option : Option ServerRow → Option ResolvedServer
resolved_option none = none
resolved_option (some s) = some (resolved_server s)

abbrev pub resolved_grant : Grant → ResolvedGrant
resolved_grant g = record {
  principals = g.principals;
  max_ttl = g.max_ttl;
  allow_shell = g.allow_shell;
  allow_exec = g.allow_exec;
  allow_sftp = g.allow_sftp;
  recording = g.recording;
}

-- storeAuthzBackend, whose queries succeed; a missing server is no error.
unfoldable pub store_authz_backend : Directory → AuthzBackend
unfolding groups_of get_server_by_hostname
store_authz_backend db = record {
  server_by_hostname =
      λ hostname. some (resolved_option (get_server_by_hostname hostname db.servers));
  groups_for_user = λ user. some (groups_of user db.user_group_members);
  groups_for_server = λ server. some (groups_of server db.server_group_members);
  matching_grants = λ subject_type subject_id user_groups server server_groups. some (
      map resolved_grant
        (matching_grants subject_type subject_id user_groups server server_groups db.grants));
}
