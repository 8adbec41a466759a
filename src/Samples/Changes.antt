-- ===== src/Samples/Changes.antt =====
-- Runs of the handlers of internal/api that change what is managed.
use ssh_access.Prelude.{
  arith, true, false, eq_iff, is_empty, ◌||◌, String, ◌≡◌, ◌≢◌, refl, none, some, [], ◌∷◌, contains,
}
use ssh_access.Prelude.Int.{pos}
use ssh_access.Auth.Rbac.{Principal, source_oidc, new_principal}
use ssh_access.Store.Profiles.{UpdateUserInput, update_user}
use ssh_access.Proxy.Authn.{authenticate_public_key, store_key_lookup}
use ssh_access.Proxy.Authn.Owner.{user_identity}
use ssh_access.Api.Db.{Db, ApiCalls, answer, write_json, write_error, write_store_error}
use ssh_access.Api.UserHandlers.{patch_user}
use ssh_access.Api.Management.Effects.{authenticate-patch_user}
use ssh_access.Samples.Keys.{alice, bob, accounts}
use ssh_access.Store.Servers.{ServerRow, create_server}
use ssh_access.Api.ServerHandlers.{CreateServerBody, create_server_handler}
use ssh_access.Store.Grants.{ttl_seconds}
use ssh_access.Proxy.Types.{Decision, allow}
use ssh_access.Proxy.DbAuthz.{authorize}
use ssh_access.Broker.Authz.{get_server_by_hostname, store_authz_backend}
use ssh_access.Api.GrantHandlers.{
  CreateGrantBody, create_grant_handler, resolve_review_by, seconds_duration, wrap_int64,
}
use ssh_access.Api.Management.Granted.{directory_of, authorize-create_grant}
use ssh_access.Broker.Authz.Created.{Honours}
use ssh_access.Store.Keys.{authn_by_key, user_of_key}

abbrev db : Db
db = record {
  accounts = accounts;
  servers = [];
  user_groups = [];
  server_groups = [];
  user_group_members = [];
  server_group_members = [];
  grants = [];
  sessions = [];
}

abbrev pub calls : ApiCalls
calls = record {
  now = 1000;
  new_id = "n1";
  parse_authorized_key = λ k. none;
  parse_date = λ d. none;
  parse_rfc3339 = λ d. none;
  add_days = λ days t. t;
  format_date = λ t. "2026-01-01";
  review_interval_days = pos 90;
}

abbrev disabling : UpdateUserInput
disabling = record { username = none; email = none; source = none; status = some "disabled" }

abbrev admin : Principal
admin = new_principal "ada@example.com" source_oidc ("admin" ∷ [])

patched : (patch_user "u1" (some disabling) db).response.status ≡ 200
unfolding patch_user update_user answer write_json contains
patched = refl

lets_in_bob :
    authenticate_public_key
      (store_key_lookup (patch_user "u1" (some disabling) db).db.accounts)
      "ssh-rsa CCCC"
    ≡ some (user_identity bob)
unfolding patch_user update_user answer write_json contains authenticate_public_key store_key_lookup
    authn_by_key user_of_key
lets_in_bob = refl

authenticate-patch_user_example : ◌≢◌ {A = String} "u2" "u1"
authenticate-patch_user_example =
    authenticate-patch_user "u1" "ssh-rsa CCCC" disabling db (user_identity bob) refl patched
      lets_in_bob refl

missing : (patch_user "u7" (some disabling) db).response ≡ write_error 404 "not found"
unfolding patch_user update_user answer write_store_error write_json contains
missing = refl

abbrev pub web : ServerRow
web = record {
  id = "s1";
  hostname = "web";
  address = "10.0.0.5";
  port = pos 22;
  host_key_fingerprint = "SHA256:x";
  access_mode = "cert";
  allowed_principals = "deploy" ∷ [];
  secret_ref = none;
}

-- alice is a member of the group of operators.
abbrev pub with_web : Db
with_web = record db { servers = web ∷ []; user_group_members = ("g1", "u1") ∷ [] }

abbrev wanted : CreateGrantBody
wanted = record {
  subject_type = "user_group";
  subject_id = "g1";
  target_type = "server";
  target_id = "s1";
  principals = "deploy" ∷ "root" ∷ [];
  max_ttl_seconds = pos 600;
  shell = true;
  exec = false;
  sftp = false;
  recording = "full";
  review_by = none;
}

grant_created : (create_grant_handler calls (some wanted) with_web).response.status ≡ 201
unfolding create_grant_handler resolve_review_by answer write_json seconds_duration wrap_int64
    ttl_seconds
grant_created = refl

pub finds_web : get_server_by_hostname "web" (web ∷ []) ≡ some web
unfolding get_server_by_hostname
finds_web = refl

has_deploy : contains wanted.principals "deploy" ≡ true
unfolding contains
has_deploy = refl

pub lists_deploy :
    (is_empty web.allowed_principals || contains web.allowed_principals "deploy") ≡ true
unfolding contains
lists_deploy = refl

pub deploy_ne_empty : ◌≢◌ {A = String} "deploy" ""
deploy_ne_empty h = cc ((eq_iff "deploy" "").1 h)

authorize-create_grant_example :
    (d : Decision) × (authorize
        (store_authz_backend (directory_of (create_grant_handler calls (some wanted) with_web).db))
        (user_identity alice)
        (record { requested_login = "deploy"; host = "web" })
      ≡ allow d)
    × Honours wanted.shell wanted.exec wanted.sftp wanted.recording 600 web "deploy" d
authorize-create_grant_example =
    authorize-create_grant calls wanted with_web (user_identity alice) web "web" "deploy" 600
      grant_created refl refl has_deploy refl (omega arith) (omega arith) finds_web deploy_ne_empty
      lists_deploy

-- 18446744374 seconds wrap around in nanoseconds to 300 seconds and some.
seconds_wrap : ttl_seconds (seconds_duration (pos 18446744374)) ≡ 300
unfolding ttl_seconds seconds_duration wrap_int64
seconds_wrap = refl

-- An access mode that needs a secret is refused by the schema.
abbrev legacy : CreateServerBody
legacy = record {
  hostname = "old";
  address = "10.0.0.6";
  port = pos 22;
  host_key_fingerprint = "";
  access_mode = "jit_key";
  allowed_principals = [];
}

legacy_refused :
    (create_server_handler calls (some legacy) db).response ≡ write_error 500 "internal error"
unfolding create_server_handler create_server answer write_store_error contains
legacy_refused = refl
