-- ===== src/Samples/Targets.antt =====
-- A run of the connection to a target: internal/proxy/dial.go.
use ssh_access.Prelude.{
  ℕ, String, true, false, ◌==◌, some, none, Option, [], ◌∷◌, if◌then◌else◌, ◌*◌,
}
use ssh_access.Prelude.Int.{ℤ, pos}
use ssh_access.Ca.Issuer.{Issuer, second, minute, default_issuer}
use ssh_access.Ca.Serial.{counter_allocator}
use ssh_access.Proxy.Types.{Identity, TargetSpec, Decision}
use ssh_access.Proxy.DbAuthz.{ResolvedServer, ResolvedGrant, AuthzBackend, compose}
use ssh_access.Proxy.Connect.{DialRequest}

abbrev alice : Identity
alice = record { subject = "user"; id = "u1"; label = "alice" }

abbrev spec : TargetSpec
spec = record { requested_login = "ec2-user"; host = "web01" }

abbrev web01 : ResolvedServer
web01 = record {
  id = "s1";
  address = "10.0.0.5";
  port = pos 22;
  host_key_fingerprint = "SHA256:abc";
  allowed_principals = [];
}

abbrev shell_grant : ResolvedGrant
shell_grant = record {
  principals = "ec2-user" ∷ [];
  max_ttl = pos (60 * second);
  allow_shell = true;
  allow_exec = false;
  allow_sftp = false;
  recording = "metadata";
}

abbrev backend : AuthzBackend
backend = record {
  server_by_hostname = λ h. some (if h == "web01" then some web01 else none);
  groups_for_user = λ u. some [];
  groups_for_server = λ s. some [];
  matching_grants = λ st si ug s sg. some (shell_grant ∷ []);
}

abbrev decision : Decision
decision = compose web01 (shell_grant ∷ []) "ec2-user"

abbrev issuer : Issuer String ℕ
issuer =
    default_issuer
      (record {
        public_key = "ca";
        sign_certificate =
            λ c. some (record { nonce = "n"; signature_key = "ca"; signature = c.key_id });
      })
      counter_allocator (pos (5 * minute))

abbrev noon : ℤ
noon = pos (1000000 * second)

abbrev client : DialRequest String → Option String
client q = some q.user
