-- ===== src/Samples/Keys.antt =====
-- Runs of the authentication by keys and of the file backends: internal/proxy.
use ssh_access.Prelude.{
  arith, eqb, String, true, false, ◌≡◌, ◌≢◌, ◌⊎◌, ◌↔◌, inl, refl, none, some, List, [], ◌∷◌,
  if◌then◌else◌, eq_iff, lookup, contains,
}
use ssh_access.Prelude.Int.{pos}
use ssh_access.Proxy.Types.{Identity, TargetSpec, Decision, deny, allow, account_not_usable}
use ssh_access.Proxy.Authn.{store_key_lookup, authenticate_public_key, public_key_callback}
use ssh_access.Proxy.Authn.Owner.{
  IsConsistent, UserOwns, ServiceFirst, user_identity, authenticate_iff,
}
use ssh_access.Proxy.Authn.Barred.{authenticate-barred}
use ssh_access.Proxy.Authn.Enrolled.{add_user_key-identity}
use ssh_access.Proxy.MemAuth
use ssh_access.Proxy.MemAuth.{
  KeyParser, Shrinks, Text, loaded, load_authorized_users, missing_comment,
}
use ssh_access.Proxy.MemAuth.Loaded.{
  Entries, known, some_unnamed, last_comment, load_authorized_users-total,
}
use ssh_access.Proxy.MemAuthz.{
  GrantPolicy, MemoryAuthorizer, ParseDuration, authorize, authorize_loop, parse_ttl,
}
use ssh_access.Proxy.MemAuthz.FirstGrant.{IsPermitted, authorize_mem_iff}
use ssh_access.Proxy.DbAuthz
use ssh_access.Proxy.Server.{identity_from}
use ssh_access.Store.Users.{UserRow}
use ssh_access.Store.Keys.{
  authn_by_key, user_of_key, UserKey, Accounts, add_user_key, set_user_status, delete_user,
}

abbrev pub alice : UserRow
alice = record {
  id = "u1";
  username = "alice";
  email = none;
  source = "local";
  entra_oid = none;
  status = "active";
}

abbrev pub bob : UserRow
bob = record alice { id = "u2"; username = "bob" }

abbrev pub accounts : Accounts
accounts = record {
  users = alice ∷ bob ∷ [];
  user_public_keys =
      record { id = "k1"; user_id = "u1"; public_key = "ssh-ed25519 AAAA"; comment = "laptop" }
      ∷ record { id = "k9"; user_id = "u2"; public_key = "ssh-rsa CCCC"; comment = "" }
      ∷ [];
  service_accounts = [];
}

accounts-IsConsistent : IsConsistent accounts
accounts-IsConsistent = record {
  owned = (refl, (refl, tt));
  keys = (refl, (refl, tt));
  ids = (refl, (refl, tt));
}

authenticate_iff_example :
    (authenticate_public_key (store_key_lookup accounts) "ssh-ed25519 AAAA"
      ≡ some (user_identity alice))
    ↔ (UserOwns "ssh-ed25519 AAAA" accounts (user_identity alice)
        ⊎ ServiceFirst "ssh-ed25519 AAAA" accounts (user_identity alice))
authenticate_iff_example =
    authenticate_iff accounts "ssh-ed25519 AAAA" (user_identity alice) accounts-IsConsistent

abbrev disabled : Accounts
disabled = record accounts { users = record alice { status = "disabled" } ∷ bob ∷ [] }

disables : set_user_status "u1" "disabled" accounts ≡ some disabled
unfolding set_user_status
disables = refl

disabled_ne_active : ◌≢◌ {A = String} "disabled" "active"
disabled_ne_active h = cc ((eq_iff "disabled" "active").1 h)

lets_in_bob :
    authenticate_public_key (store_key_lookup disabled) "ssh-rsa CCCC" ≡ some (user_identity bob)
unfolding authenticate_public_key store_key_lookup authn_by_key user_of_key
lets_in_bob = refl

authenticate-barred_example : ◌≢◌ {A = String} "u2" "u1"
authenticate-barred_example =
    authenticate-barred "u1" "disabled" "ssh-rsa CCCC" accounts disabled (user_identity bob)
      (inl (disabled_ne_active, disables)) lets_in_bob refl

abbrev new_key : UserKey
new_key = record { id = "k2"; user_id = "u1"; public_key = "ssh-rsa BBBB"; comment = "" }

abbrev enrolled : Accounts
enrolled = record accounts { user_public_keys = new_key ∷ accounts.user_public_keys }

enrols : add_user_key "k2" "u1" "ssh-rsa BBBB" "" accounts ≡ some enrolled
unfolding add_user_key
enrols = refl

alice_ne_empty : ◌≢◌ {A = String} "alice" ""
alice_ne_empty h = cc ((eq_iff "alice" "").1 h)

add_user_key-identity_example :
    (ext : List (String × String)) × (public_key_callback
        (authenticate_public_key (store_key_lookup enrolled))
        "ssh-rsa BBBB"
      ≡ some ext)
    × (identity_from (some ext) ≡ user_identity alice)
add_user_key-identity_example =
    add_user_key-identity "k2" "u1" "ssh-rsa BBBB" "" accounts enrolled alice enrols refl refl
      alice_ne_empty

key_taken : add_user_key "k3" "u1" "ssh-ed25519 AAAA" "" accounts ≡ none
unfolding add_user_key
key_taken = refl

user_deleted :
    delete_user "u1" accounts
    ≡ some (record {
      users = bob ∷ [];
      user_public_keys =
          record { id = "k9"; user_id = "u2"; public_key = "ssh-rsa CCCC"; comment = "" } ∷ [];
      service_accounts = [];
    })
unfolding delete_user
user_deleted = refl

-- Each code point is an entry: its key is "a" or "b", and zero is a key without a comment.
abbrev one_each : KeyParser
one_each [] = none
one_each (c ∷ rest) =
    if eqb c 0
    then some ("a", "", rest)
    else if eqb c 1
    then some ("a", "alice", rest)
    else some ("b", "bob", rest)

one_each-Shrinks : Shrinks one_each
one_each-Shrinks [] rest key comment h = absurd (ground arith)
one_each-Shrinks (c ∷ text) rest key comment h = ground arith

load_authorized_users-total_example :
    (es : List (String × String)) × Entries one_each (1 ∷ 2 ∷ []) es
    × (((some_unnamed es ≡ true)
          × (load_authorized_users one_each (some (1 ∷ 2 ∷ [])) ≡ missing_comment))
        ⊎ ((some_unnamed es ≡ false)
            × (m : MemAuth.MemoryAuthenticator) × (load_authorized_users one_each
                  (some (1 ∷ 2 ∷ []))
                ≡ loaded m)
            × ((key : String)
                → MemAuth.authenticate_public_key m key ≡ known (last_comment key es) none)))
load_authorized_users-total_example =
    load_authorized_users-total one_each (1 ∷ 2 ∷ []) one_each-Shrinks

unnamed_key : load_authorized_users one_each (some (1 ∷ 0 ∷ [])) ≡ missing_comment
unfolding load_authorized_users
unnamed_key = refl

abbrev grant : GrantPolicy
grant = record {
  subject = "alice";
  principals = "deploy" ∷ [];
  max_ttl = "";
  shell = true;
  exec = false;
  sftp = false;
  port_forward = true;
}

abbrev policy : MemoryAuthorizer
policy =
    ("web01", record { address = "10.0.0.1:22"; host_key = "SHA256:x"; grants = grant ∷ [] }) ∷ []

abbrev no_durations : ParseDuration
no_durations s = none

abbrev id : Identity
id = record { subject = "user"; id = "alice"; label = "alice" }

abbrev target : TargetSpec
target = record { requested_login = "deploy"; host = "web01" }

abbrev decided : Decision
decided = record {
  address = "10.0.0.1:22";
  host_key_fingerprint = "SHA256:x";
  login = "deploy";
  principals = "deploy" ∷ [];
  ttl = pos 0;
  cert_permissions = record {
    pty = true;
    port_forwarding = true;
    agent_forwarding = false;
    x11_forwarding = false;
  };
  recording = "metadata";
  allow_shell = true;
  allow_exec = false;
  allow_sftp = false;
}

authorize_mem_iff_example :
    (authorize no_durations policy id target ≡ allow decided)
    ↔ IsPermitted no_durations policy id target decided
authorize_mem_iff_example = authorize_mem_iff no_durations policy id target decided

other_login :
    authorize no_durations policy id (record { requested_login = "root"; host = "web01" })
    ≡ deny account_not_usable
unfolding authorize authorize_loop parse_ttl lookup contains
other_login = refl
