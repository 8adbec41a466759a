-- ===== src/Samples/Logins.antt =====
-- Runs of the handlers of logins and of the provisioning of users: internal/api and cmd/broker.
use ssh_access.Prelude.{true, false, ◌==◌, ◌≡◌, ◌≢◌, ◌&&◌, refl, some, none, [], ◌∷◌, find}
use ssh_access.Prelude.Int.{pos}
use ssh_access.Proxy.Types.{Identity, TargetSpec}
use ssh_access.Proxy.DbAuthz.{ResolvedServer}
use ssh_access.Auth.Rbac.{Principal, source_break_glass}
use ssh_access.Api.Limiter.{LoginLimiter, new_login_limiter}
use ssh_access.Api.Login.{Credentials, LoginCalls, ssh_login_decision}
use ssh_access.Api.Login.Decided.{IsOwn, decision, ssh_login_decision-IsOwn}
use ssh_access.Store.Admins.{Admins}
use ssh_access.Store.SshLogin.{Table}
use ssh_access.Store.SshLogin.History.{create, table_after}
use ssh_access.Store.Users.{UserRow, is_subject, get_user_by_subject, jit_create_user, create_user}
use ssh_access.Broker.Authz.{Directory}
use ssh_access.Broker.BrowserLogin.{resolve}
use ssh_access.Broker.BrowserLogin.Provision.{IsUserOf, IsNew, resolve-IsUserOf}

abbrev admins : Admins
admins = record {
  local_admins =
      record {
        id = "a1";
        username = "root";
        password_hash = "hash of pw";
        role = "admin";
        status = "active";
        last_login_at = none;
      }
      ∷ [];
  admin_sessions = [];
}

abbrev calls : LoginCalls
calls = record {
  verify_password = λ h p. h == "hash of pw" && p == "pw";
  new_session_token = some ("t1", "hash of t1");
  session_id = some "s1";
  session_absolute = 900;
}

abbrev fresh_limiter : LoginLimiter
fresh_limiter = new_login_limiter 5 60

abbrev right : Credentials
right = record { username = "root"; password = "pw" }

abbrev operator : Principal
operator = record {
  subject = "break-glass:root";
  source = source_break_glass;
  roles = [];
  perms = [];
}

abbrev pending_login : Table
pending_login = table_after (create "r1" "c1" "10.0.0.9" "alice+web01" 200 100 ∷ [])

ssh_login_decision-IsOwn_example :
    IsOwn operator pending_login
      (decision (λ c. c) false operator "c1" 120 pending_login)
      (ssh_login_decision (λ c. c) false operator (some "c1") 120 pending_login)
ssh_login_decision-IsOwn_example =
    ssh_login_decision-IsOwn (λ c. c) false operator "c1" 120 pending_login

abbrev bob_row : UserRow
bob_row = record {
  id = "u9";
  username = "bob";
  email = some "bob@example.com";
  source = "entra";
  entra_oid = none;
  status = "active";
}

abbrev eve : Identity
eve = record { subject = "user"; id = "u10"; label = "eve@example.com" }

provisions : (resolve true "u10" "eve@example.com" (bob_row ∷ [])).0 ≡ some eve
unfolding resolve get_user_by_subject jit_create_user create_user
provisions = refl

resolve-IsUserOf_example :
    IsUserOf (resolve true "u10" "eve@example.com" (bob_row ∷ [])).1 "eve@example.com" eve
    × ((find (is_subject "eve@example.com") (bob_row ∷ []) ≢ none)
        → (resolve true "u10" "eve@example.com" (bob_row ∷ [])).1 ≡ bob_row ∷ [])
    × (true ≡ false → (resolve true "u10" "eve@example.com" (bob_row ∷ [])).1 ≡ bob_row ∷ [])
resolve-IsUserOf_example =
    resolve-IsUserOf true "u10" "eve@example.com" (bob_row ∷ []) eve provisions

abbrev directory : Directory
directory = record {
  servers = [];
  user_group_members = ("ops", "u9") ∷ [];
  server_group_members = [];
  grants =
      record {
        id = "g1";
        subject_type = "user";
        subject_id = "u9";
        target_type = "server";
        target_id = "s1";
        principals = "ec2-user" ∷ [];
        max_ttl = 60;
        allow_shell = true;
        allow_exec = true;
        allow_sftp = false;
        recording = "metadata";
        review_by = none;
      }
      ∷ [];
}

eve-IsNew : IsNew "u10" directory
eve-IsNew = record { no_grant = refl; no_membership = refl }

abbrev web01 : ResolvedServer
web01 = record {
  id = "s1";
  address = "10.0.0.5";
  port = pos 22;
  host_key_fingerprint = "";
  allowed_principals = [];
}

abbrev spec : TargetSpec
spec = record { requested_login = "ec2-user"; host = "web01" }
