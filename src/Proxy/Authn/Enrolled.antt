-- ===== src/Proxy/Authn/Enrolled.antt =====
-- internal/proxy/dbauth.go over AddUserKey: a key that is added lets its user in.
use ssh_access.Prelude.{
  arith, String, ◌==◌, ◌≡◌, ◌≢◌, some, List, find, eq_iff, eq_refl, refl, ◌∙◌, lookup,
  if◌then◌else◌,
}
use ssh_access.Proxy.Types.{Identity}
use ssh_access.Proxy.Authn.{
  store_key_lookup, authenticate_public_key, public_key_callback, identity_extensions,
}
use ssh_access.Proxy.Authn.Owner.{user_identity, user_value}
use ssh_access.Proxy.Server.{identity_from}
use ssh_access.Store.Users.{UserRow}
use ssh_access.Store.Keys.{Accounts, user_of_key, has_user_id, add_user_key}

-- The identity that the connection gets from the permissions of the callback is the one that the callback
-- was given, with "unknown" for an empty label.
identity_from-identity_extensions :
    (i : Identity)
    → identity_from (some (identity_extensions i))
      ≡ record i { label = (if i.label == "" then "unknown" else i.label) }
unfolding identity_from lookup
identity_from-identity_extensions i = refl

add_user_key-user_of_key :
    (id user_id line comment : String) (db db' : Accounts) (u : UserRow)
    → add_user_key id user_id line comment db ≡ some db'
    → find (has_user_id user_id) db.users ≡ some u
    → user_of_key line db'.user_public_keys db'.users ≡ some u
unfolding add_user_key user_of_key
add_user_key-user_of_key id user_id line comment db db' u added found = ground (arith, eq_refl line)

-- A key that is added for an active user lets in that user, and the connection gets the identity of the
-- user, whose name is not empty.
pub add_user_key-identity :
    (id user_id line comment : String) (db db' : Accounts) (u : UserRow)
    → add_user_key id user_id line comment db ≡ some db'
    → find (has_user_id user_id) db.users ≡ some u
    → u.status ≡ "active"
    → u.username ≢ ""
    → (ext : List (String × String)) × (public_key_callback
          (authenticate_public_key (store_key_lookup db'))
          line
        ≡ some ext)
      × (identity_from (some ext) ≡ user_identity u)
unfolding public_key_callback
add_user_key-identity id user_id line comment db db' u added found active named =
    let at = add_user_key-user_of_key id user_id line comment db db' u added found in
    let known = (user_value db' line (user_identity u) u at).1 (active, refl) in
    (
      identity_extensions (user_identity u),
      rw (known, public_key_callback) refl,
      identity_from-identity_extensions (user_identity u) ∙ ground (arith, eq_iff u.username ""),
    )
