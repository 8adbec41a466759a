-- ===== src/Samples/Authorization.antt =====
-- Runs of the target parser and of the authorizers of internal/proxy.
use ssh_access.Prelude.{
  String, ◌≡◌, ◌≢◌, ◌↔◌, refl, true, false, none, some, List, [], ◌∷◌, if◌then◌else◌, ◌==◌,
}
use ssh_access.Prelude.Int.{pos}
use ssh_access.Proxy.Types.{Identity, TargetSpec, allow}
use ssh_access.Proxy.Target.{parse_target, ok, parse_target_iff, Names}
use ssh_access.Proxy.DbAuthz.{ResolvedServer, ResolvedGrant, AuthzBackend, authorize, compose}
use ssh_access.Proxy.DbAuthz.Compose.{IsUnion, compose-IsUnion}
use ssh_access.Proxy.DbAuthz.Soundness.{Answers, IsEntitled, authorize_iff}

abbrev spec : TargetSpec
spec = record { requested_login = "ec2-user"; host = "web01" }

parse_run : parse_target "ec2-user+web01" ≡ ok spec
unfolding parse_target
parse_run = refl

parse_target_iff_example :
    (parse_target "ec2-user+web01" ≡ ok spec) ↔ ((spec.host ≢ "") × Names "ec2-user+web01" spec)
parse_target_iff_example = parse_target_iff "ec2-user+web01" spec

abbrev alice : Identity
alice = record { subject = "user"; id = "u1"; label = "alice" }

abbrev web01 : ResolvedServer
web01 = record {
  id = "s1";
  address = "10.0.0.5";
  port = pos 0;
  host_key_fingerprint = "SHA256:abc";
  allowed_principals = "ec2-user" ∷ [];
}

abbrev grant_exec : ResolvedGrant
grant_exec = record {
  principals = "ec2-user" ∷ "root" ∷ [];
  max_ttl = pos 60;
  allow_shell = false;
  allow_exec = true;
  allow_sftp = false;
  recording = "metadata";
}

abbrev grant_shell : ResolvedGrant
grant_shell = record {
  principals = "ec2-user" ∷ [];
  max_ttl = pos 300;
  allow_shell = true;
  allow_exec = false;
  allow_sftp = false;
  recording = "full";
}

abbrev both_grants : List ResolvedGrant
both_grants = grant_exec ∷ grant_shell ∷ []

abbrev one_server : AuthzBackend
one_server = record {
  server_by_hostname = λ h. some (if h == "web01" then some web01 else none);
  groups_for_user = λ u. some ("g1" ∷ []);
  groups_for_server = λ s. some [];
  matching_grants = λ st si ug s sg. some both_grants;
}

compose-IsUnion_example :
    IsUnion web01 both_grants "ec2-user" (compose web01 both_grants "ec2-user")
compose-IsUnion_example = compose-IsUnion web01 both_grants "ec2-user"

authorize_iff_example :
    (authorize one_server alice spec ≡ allow (compose web01 both_grants "ec2-user")) ↔ (
      (server : ResolvedServer) × (grants : List ResolvedGrant) × (c : String) × Answers one_server
        alice spec server grants
      × IsEntitled alice spec server grants c
      × (compose web01 both_grants "ec2-user" ≡ compose server grants c))
authorize_iff_example = authorize_iff one_server alice spec (compose web01 both_grants "ec2-user")
