-- ===== src/Samples/AdminTool.antt =====
-- Runs of the administrator's tool of cmd/broker.
use ssh_access.Prelude.{
  split, trim_space, true, false, eq_iff, String, ◌≡◌, ◌≢◌, refl, some, [], ◌∷◌, contains,
}
use ssh_access.Prelude.Int.{pos}
use ssh_access.Proxy.Authn.Owner.{user_identity}
use ssh_access.Api.Db.{Db}
use ssh_access.Broker.Admin.{
  csv, resolve_subject, resolve_target, user_id_by_username, server_id_by_hostname, review_date,
}
use ssh_access.Broker.Admin.Policy.{GrantFlags, cmd_add_grant}
use ssh_access.Broker.Admin.Named.{with_grant, authorize-cmd_add_grant}
use ssh_access.Samples.Keys.{alice}
use ssh_access.Store.Grants.{ttl_seconds}
use ssh_access.Proxy.Types.{Decision, allow}
use ssh_access.Proxy.DbAuthz.{authorize}
use ssh_access.Broker.Authz.{get_server_by_hostname, store_authz_backend}
use ssh_access.Api.Management.Granted.{directory_of}
use ssh_access.Broker.Authz.Created.{Honours}
use ssh_access.Samples.Changes.{calls, with_web, web, finds_web, deploy_ne_empty, lists_deploy}

abbrev grant_flags : GrantFlags
grant_flags = record {
  subject_user = "alice";
  subject_group = "";
  server = "web";
  server_group = "";
  principals = " deploy, ,root";
  ttl = pos 300000000000;
  shell = true;
  exec = false;
  sftp = false;
  recording = "metadata";
  review_by = "";
}

abbrev granted : Db
granted = with_grant calls grant_flags with_web ("user", "u1") ("server", "s1") 1000

adds : cmd_add_grant calls grant_flags with_web ≡ some granted
unfolding cmd_add_grant resolve_subject resolve_target user_id_by_username server_id_by_hostname
    get_server_by_hostname review_date csv split trim_space ttl_seconds
adds = refl

parts : csv " deploy, ,root" ≡ "deploy" ∷ "root" ∷ []
unfolding csv split trim_space
parts = refl

flags_deploy : contains (csv grant_flags.principals) "deploy" ≡ true
unfolding csv split trim_space contains
flags_deploy = refl

alice_ne_empty : ◌≢◌ {A = String} "alice" ""
alice_ne_empty h = cc ((eq_iff "alice" "").1 h)

web_ne_empty : ◌≢◌ {A = String} "web" ""
web_ne_empty h = cc ((eq_iff "web" "").1 h)

authorize-cmd_add_grant_example :
    (d : Decision) × (authorize
        (store_authz_backend (directory_of granted))
        (user_identity alice)
        (record { requested_login = "deploy"; host = "web" })
      ≡ allow d)
    × Honours true false false "metadata" (ttl_seconds (pos 300000000000)) web "deploy" d
authorize-cmd_add_grant_example =
    authorize-cmd_add_grant calls grant_flags with_web granted alice web "deploy" adds
      alice_ne_empty web_ne_empty refl finds_web flags_deploy deploy_ne_empty lists_deploy
