-- ===== src/Samples/Connections.antt =====
-- Runs of the front door and of the broker's process: internal/proxy and cmd/broker.
use ssh_access.Prelude.{
  String, Bool, true, false, ◌&&◌, ◌||◌, ◌≡◌, ◌≢◌, refl, some, none, Option, List, [], ◌∷◌, any,
  All, contains, is_empty, if◌then◌else◌,
}
use ssh_access.Prelude.Int.{pos}
use ssh_access.Proxy.Types.{Identity, TargetSpec, Decision, allow}
use ssh_access.Proxy.DbAuthz.{ResolvedServer, ResolvedGrant, authorize, compose}
use ssh_access.Proxy.DbAuthz.Soundness.{Answers, IsEntitled}
use ssh_access.Proxy.Gate.{ChannelRequest, forward_user_request}
use ssh_access.Proxy.Gate.Grants.{granted_request, forward_user_request_iff}
use ssh_access.Proxy.Registry.{SessionInfo}
use ssh_access.Proxy.Effects.{World}
use ssh_access.Proxy.Server.{handle_conn}
use ssh_access.Proxy.Server.Proxied.{IsCleared, handle_conn-IsCleared}
use ssh_access.Proxy.Server.Tally.{IsBalanced, IsAccounted}
use ssh_access.Proxy.Server.Recorded.{handle_conn-IsBalanced}
use ssh_access.Store.Grants.{GrantRow, delete_user, matching_grants}
use ssh_access.Store.Sessions.{Account, sessions_to_terminate}
use ssh_access.Broker.Adapter.{Database}
use ssh_access.Store.Servers.{ServerRow}
use ssh_access.Broker.Authz.{Directory, store_authz_backend, get_server_by_hostname, groups_of}
use ssh_access.Broker.Authz.Granted.{
  names_subject, names_server, authorize-granted, delete_user-authorize, without_user,
}
use ssh_access.Broker.Reaper.Unowned.{
  Change, started, flagged, user_status, tables_after, is_flagged, reaped_iff_flagged,
}

abbrev alice : Identity
alice = record { subject = "user"; id = "u1"; label = "alice" }

abbrev spec : TargetSpec
spec = record { requested_login = "ec2-user"; host = "web01" }

abbrev web01 : ServerRow
web01 = record {
  id = "s1";
  hostname = "web01";
  address = "10.0.0.5";
  port = pos 22;
  host_key_fingerprint = "SHA256:abc";
  access_mode = "cert";
  allowed_principals = "ec2-user" ∷ [];
  secret_ref = none;
}

abbrev ops_grant : GrantRow
ops_grant = record {
  id = "g1";
  subject_type = "user_group";
  subject_id = "ops";
  target_type = "server";
  target_id = "s1";
  principals = "ec2-user" ∷ [];
  max_ttl = 60;
  allow_shell = false;
  allow_exec = true;
  allow_sftp = false;
  recording = "full";
  review_by = none;
}

abbrev directory : Directory
directory = record {
  servers = web01 ∷ [];
  user_group_members = ("ops", "u1") ∷ [];
  server_group_members = [];
  grants = ops_grant ∷ [];
}

abbrev resolved : ResolvedGrant
resolved = record {
  principals = "ec2-user" ∷ [];
  max_ttl = pos 60000000000;
  allow_shell = false;
  allow_exec = true;
  allow_sftp = false;
  recording = "full";
}

abbrev target : ResolvedServer
target = record {
  id = "s1";
  address = "10.0.0.5";
  port = pos 22;
  host_key_fingerprint = "SHA256:abc";
  allowed_principals = "ec2-user" ∷ [];
}

abbrev decision : Decision
decision = compose target (resolved ∷ []) "ec2-user"

authorizes : authorize (store_authz_backend directory) alice spec ≡ allow decision
unfolding authorize store_authz_backend get_server_by_hostname groups_of matching_grants contains
authorizes = refl

authorize-granted_example :
    (server : ServerRow) × (get_server_by_hostname "web01" (web01 ∷ []) ≡ some server)
    × (any
          (λ g.
            names_subject alice directory g
            && names_server server directory g
            && contains g.principals decision.login)
          (ops_grant ∷ [])
        ≡ true)
    × ((is_empty server.allowed_principals || contains server.allowed_principals decision.login)
        ≡ true)
authorize-granted_example = authorize-granted directory alice spec decision authorizes

deletes : delete_user "u1" ("u1" ∷ "u2" ∷ [], ops_grant ∷ []) ≡ some ("u2" ∷ [], ops_grant ∷ [])
unfolding delete_user contains
deletes = refl

delete_user-authorize_example :
    authorize
      (store_authz_backend (without_user "u1" "alice" directory (ops_grant ∷ [])))
      alice
      spec
    ≢ allow decision
delete_user-authorize_example =
    delete_user-authorize "u1" "alice" directory ("u1" ∷ "u2" ∷ []) ("u2" ∷ []) (ops_grant ∷ [])
      spec decision deletes

forward_user_request_iff_example :
    (server : ResolvedServer) × (grants : List ResolvedGrant) × Answers
      (store_authz_backend directory)
      alice
      spec
      server
      grants
    × IsEntitled alice spec server grants decision.login
    × ((r : ChannelRequest) (answer : Option Bool)
        → ((forward_user_request r answer decision).0 ≡ granted_request grants decision.login r)
          × (granted_request grants decision.login r ≡ false
              → (forward_user_request r answer decision).1
                ≡ (if r.want_reply then some false else none)))
forward_user_request_iff_example =
    forward_user_request_iff (store_authz_backend directory) alice spec decision authorizes

abbrev info : SessionInfo
info = record {
  id = "c1";
  subject_type = "user";
  subject_id = "u1";
  subject_label = "alice";
  host = "web01";
  login = "ec2-user";
  started = 100;
}

abbrev world : World
world = record {
  handshake =
      some
        (some (("subject_type", "user") ∷ ("subject_id", "u1") ∷ ("subject_label", "alice") ∷ []));
  user = "ec2-user+web01";
  source_ip = "10.0.0.9";
  quote = λ s. s;
  target_error_text = λ e. "";
  denial_text = λ e. "";
  authorize = authorize (store_authz_backend directory);
  connect_target = λ id spec d. some 7;
  session_id = some "c1";
  recording = λ sid. some "c1.cast";
  now = 100;
  channels =
      record { channel_type = "session"; bytes_in = 3; bytes_out = 5; exit_status = some (pos 0) }
      ∷ record { channel_type = "direct-tcpip"; bytes_in = 0; bytes_out = 0; exit_status = none }
      ∷ [];
}

handle_conn-IsCleared_example : All (IsCleared world) (handle_conn world)
handle_conn-IsCleared_example = handle_conn-IsCleared world

handle_conn-IsBalanced_example :
    ((sid : String) → IsBalanced sid (handle_conn world))
    × All (IsAccounted world) (handle_conn world)
handle_conn-IsBalanced_example = handle_conn-IsBalanced world

-- The last change comes first.
abbrev changes : List Change
changes =
    user_status "u1" "disabled"
    ∷ flagged "c1" 150
    ∷ started "c1" (record {
      subject_type = "user";
      subject_label = "alice";
      host = "web01";
      address = "10.0.0.5";
      login = "ec2-user";
      access_mode = "cert";
      source_ip = "10.0.0.9";
      cert_serial = 7;
    })
    ∷ []

abbrev accounts : List Account
accounts = record { id = "u1"; status = "active" } ∷ []

reaped_iff_flagged_example :
    contains (sessions_to_terminate ("c1" ∷ []) (tables_after accounts [] changes)) "c1" ≡ (
      contains ("c1" ∷ []) "c1"
      && any (is_flagged "c1") (tables_after accounts [] changes).sessions)
reaped_iff_flagged_example = reaped_iff_flagged accounts [] changes ("c1" ∷ []) "c1"

abbrev database : Database
database = record { tables = tables_after accounts [] changes; audit = [] }
